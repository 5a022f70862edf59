-- ===== src/Text/Decimal.antt =====
-- `str(n)` for a natural number, as the program's f-strings write it.
use Prim.Native.Char.{Char, code, char}
use package.vertical_ai_research_act.Prelude.{
  ℕ, zero, suc, ◌+◌, ◌*◌, ◌-◌, ◌<◌, ◌≡◌, refl, ap, sym, ◌∙◌, String, arith, ltb, if◌then◌else◌,
  Bool-cases, inl, inr,
}
use Prim.Native.Nat.{◌/◌, ◌%◌}

abbrev digit : ℕ → Char
digit zero = char 48 tt
digit (suc zero) = char 49 tt
digit (suc (suc zero)) = char 50 tt
digit (suc (suc (suc zero))) = char 51 tt
digit (suc (suc (suc (suc zero)))) = char 52 tt
digit (suc (suc (suc (suc (suc zero))))) = char 53 tt
digit (suc (suc (suc (suc (suc (suc zero)))))) = char 54 tt
digit (suc (suc (suc (suc (suc (suc (suc zero))))))) = char 55 tt
digit (suc (suc (suc (suc (suc (suc (suc (suc zero)))))))) = char 56 tt
digit _ = char 57 tt

-- The digits of `n` in front of a text; the fuel `n` is enough.
unfoldable digits_onto : ℕ → ℕ → String → String
digits_onto zero n text = String.◌∷◌ (digit (n % 10)) text
digits_onto (suc fuel) n text =
    let longer = digits_onto fuel (n / 10) (String.◌∷◌ (digit (n % 10)) text) in
    if ltb n 10 then String.◌∷◌ (digit (n % 10)) text else longer

unfoldable pub decimal : ℕ → String
unfolding digits_onto
decimal n = digits_onto n n ""

-- Reading digits, to the number `acc` that stands before them.
unfoldable read_onto : ℕ → String → ℕ
read_onto acc String.[] = acc
read_onto acc (String.◌∷◌ c text) = read_onto (acc * 10 + (code c - 48)) text

code-digit : (d : ℕ) → d < 10 → code (digit d) - 48 ≡ d
code-digit zero h = refl
code-digit (suc zero) h = refl
code-digit (suc (suc zero)) h = refl
code-digit (suc (suc (suc zero))) h = refl
code-digit (suc (suc (suc (suc zero)))) h = refl
code-digit (suc (suc (suc (suc (suc zero))))) h = refl
code-digit (suc (suc (suc (suc (suc (suc zero)))))) h = refl
code-digit (suc (suc (suc (suc (suc (suc (suc zero))))))) h = refl
code-digit (suc (suc (suc (suc (suc (suc (suc (suc zero)))))))) h = refl
code-digit (suc (suc (suc (suc (suc (suc (suc (suc (suc zero))))))))) h = refl
code-digit (suc (suc (suc (suc (suc (suc (suc (suc (suc (suc d)))))))))) h = omega arith

read-digits_onto :
    (fuel n : ℕ) (text : String)
    → n < fuel + 10
    → read_onto 0 (digits_onto fuel n text) ≡ read_onto n text
unfolding read_onto digits_onto
read-digits_onto zero n text h =
    ap (λ m. read_onto m text) (rw (code-digit (n % 10) (omega arith)) (omega arith))
read-digits_onto (suc fuel) n text h = elim (Bool-cases (ltb n 10)) [
  | inl small ↦
      rw small (ap (λ m. read_onto m text) (rw (code-digit (n % 10) (omega arith)) (ground arith)))
  | inr big ↦ rw big (
      read-digits_onto fuel (n / 10) (String.◌∷◌ (digit (n % 10)) text) (ground arith)
      ∙ ap (λ m. read_onto m text) (rw (code-digit (n % 10) (omega arith)) (omega arith)))
]

-- Different numbers have different digits.
pub decimal_inj : (m n : ℕ) → decimal m ≡ decimal n → m ≡ n
unfolding decimal read_onto
decimal_inj m n h =
    sym (read-digits_onto m m "" (omega arith))
    ∙ ap (λ s. read_onto 0 s) h
    ∙ read-digits_onto n n "" (omega arith)

decimal_runs : decimal 305 ≡ "305"
unfolding decimal
decimal_runs = refl
