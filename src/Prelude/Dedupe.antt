-- ===== src/Prelude/Dedupe.antt =====
-- Laws of the order-keeping removal of duplicates.
use package.vertical_ai_research_act.Prelude.{
  ◌≡◌, refl, sym, ◌∙◌, false, List, [], ◌∷◌, ◌++◌, arith, Eq, contains, Distinct, dedupe_onto,
  dedupe, Bool-cases, inl, inr, contains-append,
}
use mathlib.Core.List.{append-nil, append_assoc}

module _ {ℓ} {A : Type ℓ} ⦃e : Eq A⦄ where
  Distinct-snoc :
      (xs : List A) (x : A) → Distinct xs → contains xs x ≡ false → Distinct (xs ++ x ∷ [])
  Distinct-snoc [] x d h = (refl, tt)
  Distinct-snoc (y ∷ xs) x d h = (
    ground (arith, contains-append xs (x ∷ []) y, e.beq_iff x y, e.beq_iff y x),
    Distinct-snoc xs x d.1 (ground arith),
  )

  Distinct-dedupe_onto : (out xs : List A) → Distinct out → Distinct (dedupe_onto out xs)
  unfolding dedupe_onto
  Distinct-dedupe_onto out [] d = d
  Distinct-dedupe_onto out (x ∷ xs) d = elim (Bool-cases (contains out x)) [
    | inl old ↦ rw old (Distinct-dedupe_onto out xs d)
    | inr new ↦ rw new (Distinct-dedupe_onto (out ++ x ∷ []) xs (Distinct-snoc out x d new))
  ]

  -- The result holds no element twice.
  pub Distinct-dedupe : (xs : List A) → Distinct (dedupe xs)
  unfolding dedupe
  Distinct-dedupe xs = Distinct-dedupe_onto [] xs tt

  pub Distinct-middle :
      (out : List A) (x : A) (xs : List A) → Distinct (out ++ (x ∷ xs)) → contains out x ≡ false
  Distinct-middle [] x xs d = refl
  Distinct-middle (y ∷ out) x xs d = ground (
    arith,
    Distinct-middle out x xs d.1,
    contains-append out (x ∷ xs) y,
    e.beq_iff x y,
    e.beq_iff y x,
  )

  dedupe_onto-Distinct : (out xs : List A) → Distinct (out ++ xs) → dedupe_onto out xs ≡ out ++ xs
  unfolding dedupe_onto
  dedupe_onto-Distinct out [] d = sym (append-nil out)
  dedupe_onto-Distinct out (x ∷ xs) d = rw (Distinct-middle out x xs d) (
      dedupe_onto-Distinct (out ++ x ∷ []) xs (rw (append_assoc out (x ∷ []) xs) d)
      ∙ append_assoc out (x ∷ []) xs)

  -- A list without duplicates is left as it is.
  pub dedupe-of-Distinct : (xs : List A) → Distinct xs → dedupe xs ≡ xs
  unfolding dedupe
  dedupe-of-Distinct xs d = dedupe_onto-Distinct [] xs d

  -- A second pass changes nothing.
  pub dedupe-dedupe : (xs : List A) → dedupe (dedupe xs) ≡ dedupe xs
  dedupe-dedupe xs = dedupe-of-Distinct (dedupe xs) (Distinct-dedupe xs)
