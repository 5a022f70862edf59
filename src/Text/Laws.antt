-- ===== src/Text/Laws.antt =====
-- Laws of the text helpers: what a normalised text and a normalised list of texts look like.
use Prim.Native.Char.{code}
use vertical_ai_research_act.Prelude.{
  ◌≡◌, refl, ap, ◌∙◌, String, Bool, true, false, ◌&&◌, not, ◌||◌, Option, List, [], ◌∷◌, ◌++◌, map,
  arith, filter, dedupe_onto, dedupe, string_eq, contains, Distinct, All, All-append, Bool-cases,
  inl, inr, if◌then◌else◌,
}
use vertical_ai_research_act.Prelude.Dedupe.{Distinct-dedupe, dedupe-of-Distinct}
use vertical_ai_research_act.Text.{
  is_blank, or_blank, is_space, lstrip, rstrip, strip, strip_or_none, unique_onto,
  unique_non_empty_strings,
}

-- A text that does not begin with white space.
abbrev begins_solid : String → Bool
begins_solid String.[] = true
begins_solid (String.◌∷◌ c s) = not (is_space (code c))

begins_solid-lstrip : (s : String) → begins_solid (lstrip s) ≡ true
unfolding lstrip
begins_solid-lstrip String.[] = refl
begins_solid-lstrip (String.◌∷◌ c s) = ground (arith, begins_solid-lstrip s)

begins_solid-rstrip : (s : String) → begins_solid s ≡ true → begins_solid (rstrip s) ≡ true
unfolding rstrip
begins_solid-rstrip String.[] h = refl
begins_solid-rstrip (String.◌∷◌ c s) h = ground arith

lstrip-of-solid : (s : String) → begins_solid s ≡ true → lstrip s ≡ s
unfolding lstrip
lstrip-of-solid String.[] h = refl
lstrip-of-solid (String.◌∷◌ c s) h = ground arith

rstrip-rstrip : (s : String) → rstrip (rstrip s) ≡ rstrip s
unfolding rstrip
rstrip-rstrip String.[] = refl
rstrip-rstrip (String.◌∷◌ c s) = elim (Bool-cases (is_space (code c) && is_blank (rstrip s))) [
  | inl gone ↦ rw gone
  | inr kept ↦ rw kept (rw (rstrip-rstrip s) (rw kept))
]

pub strip-strip : (s : String) → strip (strip s) ≡ strip s
unfolding strip
strip-strip s =
    rw
      (lstrip-of-solid (rstrip (lstrip s)) (begins_solid-rstrip (lstrip s) (begins_solid-lstrip s)))
      (rstrip-rstrip (lstrip s))

-- Normalising an optional text a second time changes nothing.
pub strip_or_none_idem : (o : Option String) → strip_or_none (strip_or_none o) ≡ strip_or_none o
unfolding strip_or_none
strip_or_none_idem o = elim (Bool-cases (is_blank (strip (or_blank o)))) [
  | inl b ↦ rw b refl
  | inr b ↦ rw b (rw (strip-strip (or_blank o)) (rw b))
]

-- The reference: strip every text, drop the blank ones, keep the first of equal ones.
abbrev stripped_non_blank : List String → List String
stripped_non_blank values = filter (λ s. not (is_blank s)) (map strip values)

unique_onto-eq-dedupe_onto :
    (out values : List String)
    → unique_onto out values ≡ dedupe_onto out (stripped_non_blank values)
unfolding unique_onto dedupe_onto filter
unique_onto-eq-dedupe_onto out [] = refl
unique_onto-eq-dedupe_onto out (v ∷ values) = elim (Bool-cases (is_blank (strip v))) [
  | inl b ↦ rw b (unique_onto-eq-dedupe_onto out values)
  | inr b ↦ rw b (
      unique_onto-eq-dedupe_onto (if contains out (strip v) then out else out ++ strip v ∷ [])
        values)
]

pub unique_non_empty_strings-eq-dedupe :
    (values : List String) → unique_non_empty_strings values ≡ dedupe (stripped_non_blank values)
unfolding unique_non_empty_strings dedupe
unique_non_empty_strings-eq-dedupe values = unique_onto-eq-dedupe_onto [] values

abbrev pub IsNormal : String → Type 0
IsNormal s = (strip s ≡ s) × (is_blank s ≡ false)

unique_onto-IsNormal :
    (out values : List String) → All IsNormal out → All IsNormal (unique_onto out values)
unfolding unique_onto
unique_onto-IsNormal out [] h = h
unique_onto-IsNormal out (v ∷ values) h =
    elim (Bool-cases (is_blank (strip v) || contains out (strip v))) [
      | inl skip ↦ rw skip (unique_onto-IsNormal out values h)
      | inr keep ↦ rw keep (
          unique_onto-IsNormal (out ++ strip v ∷ []) values
            (All-append IsNormal out (strip v ∷ []) h ((strip-strip v, ground arith), tt)))
    ]

pub unique_non_empty_strings-IsNormal :
    (values : List String) → All IsNormal (unique_non_empty_strings values)
unfolding unique_non_empty_strings
unique_non_empty_strings-IsNormal values = unique_onto-IsNormal [] values tt

stripped_non_blank-of-IsNormal :
    (values : List String) → All IsNormal values → stripped_non_blank values ≡ values
unfolding filter
stripped_non_blank-of-IsNormal [] h = refl
stripped_non_blank-of-IsNormal (v ∷ values) h =
    rw (h.0.0, h.0.1) (ap (λ rest. v ∷ rest) (stripped_non_blank-of-IsNormal values h.1))

pub Distinct-unique_non_empty_strings :
    (values : List String) → Distinct (unique_non_empty_strings values)
Distinct-unique_non_empty_strings values =
    rw (unique_non_empty_strings-eq-dedupe values) (Distinct-dedupe (stripped_non_blank values))

-- The normalised list holds no text twice, every text in it is stripped and not blank, and
-- normalising it again changes nothing.
pub unique_non_empty_strings_lem :
    (values : List String)
    → Distinct (unique_non_empty_strings values)
      × All IsNormal (unique_non_empty_strings values)
      × (unique_non_empty_strings (unique_non_empty_strings values)
          ≡ unique_non_empty_strings values)
unique_non_empty_strings_lem values =
    let u = unique_non_empty_strings values in
    (
      Distinct-unique_non_empty_strings values,
      unique_non_empty_strings-IsNormal values,
      unique_non_empty_strings-eq-dedupe u
          ∙ ap (λ (l : List String). dedupe l)
              (stripped_non_blank-of-IsNormal u (unique_non_empty_strings-IsNormal values))
          ∙ dedupe-of-Distinct u (Distinct-unique_non_empty_strings values),
    )
