-- ===== src/Prelude/Result.antt =====
-- Python exceptions as values, and actions over a world that services outside the code change.
use mathlib.Core.Path.{subst}
use package.vertical_ai_research_act.Prelude.{◌≡◌, refl, sym, ap, String, Option, none, some}

pub data Exception : Type 0 where
  -- pydantic's ValidationError, with the model that refused its input
  validation_error : String → Exception
  value_error : String → Exception
  -- what a service outside the code raises, by its message
  external : String → Exception

pub data Result {ℓ} (A : Type ℓ) : Type ℓ where
  ok : A → Result A
  raised : Exception → Result A

infixl 5 ◌>>=◌ ◌>>◌
abbrev pub ◌>>=◌ {ℓ κ} : {A : Type ℓ} {B : Type κ} → Result A → (A → Result B) → Result B
ok a >>= f = f a
raised e >>= f = raised e

abbrev pub ◌>>◌ {ℓ} : {B : Type ℓ} → Result (Unit {0}) → Result B → Result B
m >> k = m >>= λ _. k

-- A value that pydantic could not read is a refusal of the model.
abbrev pub require {ℓ} : {A : Type ℓ} → String → Option A → Result A
require model none = raised (validation_error model)
require model (some a) = ok a

-- What three reads of one model returned, when all did.
pub read_parts {ℓ} :
    {A B C D : Type ℓ} (model : String) (a : Option A) (b : Option B) (c : Option C)
    (k : A → B → C → D) (d : D)
    → (require model a >>= λ x. require model b >>= λ y. require model c >>= λ z. ok (k x y z))
      ≡ ok d
    → (x : A) × (y : B) × (z : C) × (ok d ≡ ok (k x y z))
read_parts model (some x) (some y) (some z) k d h = (x, y, z, sym h)
read_parts model none b c k d h = cc
read_parts model (some x) none c k d h = cc
read_parts model (some x) (some y) none k d h = cc

-- A result that is returned comes from a step that was returned.
pub returned_parts {ℓ κ} :
    {A : Type ℓ} {B : Type κ} (m : Result A) (f : A → Result B) (b : B)
    → (m >>= f) ≡ ok b
    → (a : A) × (m ≡ ok a) × (f a ≡ ok b)
returned_parts (ok a) f b h = (a, refl, h)
returned_parts (raised e) f b h = cc

-- What holds of a value holds of the value that the same result returns.
pub ok_inj {ℓ κ} : {A : Type ℓ} {a b : A} → ok a ≡ ok b → (P : A → Type κ) → P a → P b
ok_inj {A = A} {a = a} h P p = subst P (ap (from_ok a) h) p
  where
    from_ok : A → Result A → A
    from_ok d (ok x) = x
    from_ok d (raised e) = d
