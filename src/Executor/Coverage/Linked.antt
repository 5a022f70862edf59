-- ===== src/Executor/Coverage/Linked.antt =====
-- The retrieved evidence that a coverage entry keeps: known keys of the previous entry, stripped.
use vertical_ai_research_act.Prelude.{
  ◌≡◌, refl, String, Bool, true, ◌||◌, List, [], ◌∷◌, ◌++◌, map, filter, arith, contains, string_eq,
  ◌==◌, Bool-cases, inl, inr, eq_of_==, ==-refl,
}
use vertical_ai_research_act.Text.{is_blank, strip, unique_onto, unique_non_empty_strings}
use vertical_ai_research_act.Executor.Coverage.{all_in}

contains-map-strip :
    (xs : List String) (x : String)
    → contains xs x ≡ true
    → contains (map strip xs) (strip x) ≡ true
contains-map-strip [] x h = cc
contains-map-strip (y ∷ xs) x h = elim (Bool-cases (x == y)) [
  | inl same ↦ let e : x ≡ y = eq_of_== same in rw e (rw (==-refl (strip y)) refl)
  | inr other ↦
      let rest : contains xs x ≡ true = ground arith in ground (arith, contains-map-strip xs x rest)
]

all_in-filter :
    (p : String → Bool) (xs ys : List String)
    → ((x : String) → contains xs x ≡ true → p x ≡ true → contains ys x ≡ true)
    → all_in (map strip (filter p xs)) (map strip ys) ≡ true
unfolding filter
all_in-filter p [] ys h = refl
all_in-filter p (x ∷ xs) ys h =
    let rest = all_in-filter p xs ys (λ y there. h y (ground arith)) in
    elim (Bool-cases (p x)) [
      | inl kept ↦
          let there : contains (x ∷ xs) x ≡ true = rw (==-refl x) refl in
          rw kept (rw (contains-map-strip ys x (h x there kept)) rest)
      | inr dropped ↦ rw dropped rest
    ]

all_in-append :
    (xs ys zs : List String)
    → all_in xs zs ≡ true
    → all_in ys zs ≡ true
    → all_in (xs ++ ys) zs ≡ true
all_in-append [] ys zs h k = k
all_in-append (x ∷ xs) ys zs h k = ground (arith, all_in-append xs ys zs (ground arith) k)

all_in-unique_onto :
    (out values ys : List String)
    → all_in out ys ≡ true
    → all_in (map strip values) ys ≡ true
    → all_in (unique_onto out values) ys ≡ true
unfolding unique_onto
all_in-unique_onto out [] ys h k = h
all_in-unique_onto out (v ∷ values) ys h k =
    elim (Bool-cases (is_blank (strip v) || contains out (strip v))) [
      | inl skip ↦ rw skip (all_in-unique_onto out values ys h (ground arith))
      | inr keep ↦ rw keep (
          all_in-unique_onto (out ++ strip v ∷ []) values ys
            (all_in-append out (strip v ∷ []) ys h (ground arith)) (ground arith))
    ]

-- What is kept of a list of keys is in every list that has what passes the test.
pub all_in-kept :
    (p : String → Bool) (xs ys : List String)
    → ((x : String) → contains xs x ≡ true → p x ≡ true → contains ys x ≡ true)
    → all_in (unique_non_empty_strings (filter p xs)) (map strip ys) ≡ true
unfolding unique_non_empty_strings
all_in-kept p xs ys h =
    all_in-unique_onto [] (filter p xs) (map strip ys) refl (all_in-filter p xs ys h)
