-- ===== src/Prelude/Act.antt =====
-- Actions over a world: what a service outside the code may change from one call to the next.
use vertical_ai_research_act.Prelude.{◌≡◌, refl}
use vertical_ai_research_act.Prelude.Result.{Result, ok, raised}

abbrev pub Act {ℓ} : Type ℓ → Type ℓ → Type ℓ
Act W A = W → Result A × W

module _ {ℓ} {W A B : Type ℓ} where
  -- What follows an action: an exception skips it.
  abbrev pub proceed : Result A → (A → Act W B) → Act W B
  proceed (ok a) f w = f a w
  proceed (raised e) f w = (raised e, w)

  infixl 5 ◌>>=◌
  abbrev pub ◌>>=◌ : Act W A → (A → Act W B) → Act W B
  ◌>>=◌ m f w = let (r, w') = m w in proceed r f w'

module _ {ℓ} {W A : Type ℓ} where
  abbrev pub pure : A → Act W A
  pure a w = (ok a, w)

  abbrev pub lift : Result A → Act W A
  lift r w = (r, w)

-- What holds of a value that is returned; an exception promises nothing.
abbrev pub Returned {ℓ κ} : {A : Type ℓ} → (A → Type κ) → Result A → Type κ
Returned P (ok a) = P a
Returned P (raised e) = Unit

-- Whatever the world, a value that the action returns satisfies `P`.
pub record Ensures {ℓ κ} {W A : Type ℓ} (P : A → Type κ) (m : Act W A) : Type (ℓ ⊔ κ) where
  pub at : (w : W) → Returned P (m w).0

module _ {ℓ κ} {W A B : Type ℓ} (P : A → Type κ) (Q : B → Type κ) where
  proceed-Ensures :
      (r : Result A) (f : A → Act W B) (w : W)
      → Returned P r
      → ((a : A) → P a → Ensures Q (f a))
      → Returned Q (proceed r f w).0
  proceed-Ensures (ok a) f w h k = (k a h).at w
  proceed-Ensures (raised e) f w h k = tt

  -- The rule for a step that is followed by others.
  pub Ensures-bind :
      (m : Act W A) (f : A → Act W B)
      → Ensures P m
      → ((a : A) → P a → Ensures Q (f a))
      → Ensures Q (m >>= f)
  Ensures-bind m f h k = record { at = λ w. let (r, w') = m w in proceed-Ensures r f w' (h.at w) k }

module _ {ℓ κ} {A : Type ℓ} where
  Returned-any : (r : Result A) → Returned (λ a. Unit {κ}) r
  Returned-any (ok a) = tt
  Returned-any (raised e) = tt

module _ {ℓ κ} {W A : Type ℓ} where
  pub Ensures-pure : (P : A → Type κ) (a : A) → P a → Ensures {W = W} P (pure a)
  Ensures-pure P a h = record { at = λ w. h }

  pub Ensures-lift : (P : A → Type κ) (r : Result A) → Returned P r → Ensures {W = W} P (lift r)
  Ensures-lift P r h = record { at = λ w. h }

  -- An action about which nothing is known.
  pub Ensures-any : (m : Act W A) → Ensures (λ a. Unit {κ}) m
  Ensures-any m = record { at = λ w. Returned-any (m w).0 }

module _ {ℓ κ} {W A B : Type ℓ} (Q : B → Type κ) where
  -- A step about which nothing is known.
  pub Ensures-then :
      (m : Act W A) (f : A → Act W B) → ((a : A) → Ensures Q (f a)) → Ensures Q (m >>= f)
  Ensures-then m f k = Ensures-bind (λ a. Unit {κ}) Q m f (Ensures-any m) (λ a h. k a)

-- A property of every value that a result can return.
pub Returned-of {ℓ κ} :
    {A : Type ℓ} (P : A → Type κ) (r : Result A) → ((a : A) → r ≡ ok a → P a) → Returned P r
Returned-of P (ok a) h = h a refl
Returned-of P (raised e) h = tt

Returned-both {ℓ κ} :
    {A : Type ℓ} (P Q : A → Type κ) (r : Result A)
    → Returned P r
    → Returned Q r
    → Returned (λ a. P a × Q a) r
Returned-both P Q (ok a) p q = (p, q)
Returned-both P Q (raised e) p q = tt

-- Two things that an action ensures.
pub Ensures-both {ℓ κ} :
    {W A : Type ℓ} (P Q : A → Type κ) (m : Act W A)
    → Ensures P m
    → Ensures Q m
    → Ensures (λ a. P a × Q a) m
Ensures-both P Q m p q = record { at = λ w. Returned-both P Q (m w).0 (p.at w) (q.at w) }

-- What is ensured may be weakened.
pub Ensures-weaken {ℓ κ} :
    {W A : Type ℓ} (P Q : A → Type κ) (m : Act W A)
    → ((a : A) → P a → Q a)
    → Ensures P m
    → Ensures Q m
Ensures-weaken {A = A} P Q m f p = record { at = λ w. Returned-weaken (m w).0 (p.at w) }
  where
    Returned-weaken : (r : Result A) → Returned P r → Returned Q r
    Returned-weaken (ok a) h = f a h
    Returned-weaken (raised e) h = tt
