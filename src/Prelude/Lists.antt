-- ===== src/Prelude/Lists.antt =====
-- Lists measured by native numbers, the comprehensions of the program, and order-keeping removal
-- of duplicates.
use Prim.Native.Nat.{ℕ, zero, suc, ◌+◌, ◌-◌, ◌≤◌}
use mathlib.Core.Path.{◌≡◌, refl}
use mathlib.Core.Logic.{inl, inr}
use mathlib.Core.Bool.{Bool, true, false, ◌&&◌, ◌||◌}
use mathlib.Core.List.{List, [], ◌∷◌, ◌++◌}
use native.Mathlib.Omega.{arith}
use package.vertical_ai_research_act.Prelude.Tests.{if◌then◌else◌, Bool-cases}
use package.vertical_ai_research_act.Prelude.Equality.{Eq, contains}

module _ {ℓ} {A : Type ℓ} where
  abbrev pub length : List A → ℕ
  length [] = 0
  length (x ∷ xs) = suc (length xs)

  -- `not xs`
  abbrev pub is_empty : List A → Bool
  is_empty [] = true
  is_empty (x ∷ xs) = false

  abbrev pub drop : ℕ → List A → List A
  drop zero xs = xs
  drop (suc n) [] = []
  drop (suc n) (x ∷ xs) = drop n xs

  abbrev pub take : ℕ → List A → List A
  take zero xs = []
  take (suc n) [] = []
  take (suc n) (x ∷ xs) = x ∷ take n xs

  -- `[x for x in xs if p(x)]`
  unfoldable pub filter : (A → Bool) → List A → List A
  filter p [] = []
  filter p (x ∷ xs) = let rest = filter p xs in if p x then x ∷ rest else rest

  -- `any(p(x) for x in xs)`
  abbrev pub any : (A → Bool) → List A → Bool
  any p [] = false
  any p (x ∷ xs) = p x || any p xs

  abbrev pub All {κ} : (A → Type κ) → List A → Type κ
  All P [] = Unit
  All P (x ∷ xs) = P x × All P xs

  pub length-append : (xs ys : List A) → length (xs ++ ys) ≡ length xs + length ys
  length-append [] ys = omega arith
  length-append (x ∷ xs) ys = omega (arith, length-append xs ys)

  pub length-drop : (n : ℕ) (xs : List A) → length (drop n xs) ≡ length xs - n
  length-drop zero xs = omega arith
  length-drop (suc n) [] = omega arith
  length-drop (suc n) (x ∷ xs) = omega (arith, length-drop n xs)

  pub length-filter : (p : A → Bool) (xs : List A) → length (filter p xs) ≤ length xs
  unfolding filter
  length-filter p [] = omega arith
  length-filter p (x ∷ xs) = ground (arith, length-filter p xs)

  pub All-append {κ} : (P : A → Type κ) (xs ys : List A) → All P xs → All P ys → All P (xs ++ ys)
  All-append P [] ys hx hy = hy
  All-append P (x ∷ xs) ys hx hy = (hx.0, All-append P xs ys hx.1 hy)

module _ {ℓ} {A : Type ℓ} ⦃e : Eq A⦄ where
  -- No element stands twice.
  abbrev pub Distinct : List A → Type 0
  Distinct [] = Unit
  Distinct (x ∷ xs) = (contains xs x ≡ false) × Distinct xs

  -- The loop `for x in xs: if x in seen: continue; out.append(x)`, `seen` holding what `out` holds.
  unfoldable pub dedupe_onto : List A → List A → List A
  dedupe_onto out [] = out
  dedupe_onto out (x ∷ xs) = dedupe_onto (if contains out x then out else out ++ x ∷ []) xs

  unfoldable pub dedupe : List A → List A
  unfolding dedupe_onto
  dedupe xs = dedupe_onto [] xs

  pub contains-append :
      (xs ys : List A) (a : A) → contains (xs ++ ys) a ≡ (contains xs a || contains ys a)
  contains-append [] ys a = refl
  contains-append (x ∷ xs) ys a = ground (arith, contains-append xs ys a)

  pub contains-filter :
      (p : A → Bool) (xs : List A) (a : A) → contains (filter p xs) a ≡ (contains xs a && p a)
  unfolding filter
  contains-filter p [] a = refl
  contains-filter p (x ∷ xs) a = ground (arith, contains-filter p xs a, e.beq_iff a x)

  contains-dedupe_onto :
      (out xs : List A) (a : A)
      → contains (dedupe_onto out xs) a ≡ (contains out a || contains xs a)
  unfolding dedupe_onto
  contains-dedupe_onto out [] a = ground arith
  contains-dedupe_onto out (x ∷ xs) a = elim (Bool-cases (contains out x)) [
    | inl old ↦ rw old (ground (arith, contains-dedupe_onto out xs a, e.beq_iff a x))
    | inr new ↦
        rw new (
          ground (arith, contains-dedupe_onto (out ++ x ∷ []) xs a, contains-append out (x ∷ []) a))
  ]

  -- Removal of duplicates keeps the members.
  pub contains-dedupe : (xs : List A) (a : A) → contains (dedupe xs) a ≡ contains xs a
  unfolding dedupe
  contains-dedupe xs a = contains-dedupe_onto [] xs a
