-- ===== src/Prelude/Decimal.antt =====
-- Decimal numerals as Python formats them: `str(n)` and `f"{n:04d}"`.
use Prim.Native.Char.{Char, code}
use Prim.Native.String.{String}
use Prim.Native.Nat.{ℕ, zero, suc, ◌+◌, ◌*◌, ◌/◌, ◌%◌, ◌-◌, ◌<◌}
use mathlib.Core.Path.{◌≡◌, refl, ap, sym, ◌∙◌}
use mathlib.Core.Logic.{inl, inr}
use mathlib.Core.List.{List, [], ◌∷◌}
use native.Mathlib.Omega.{arith}
use risi.Prelude.Tests.{ltb, if◌then◌else◌, Bool-cases}
use risi.Prelude.Text.{codes}

digit_char : ℕ → Char
digit_char zero = "0"
digit_char (suc zero) = "1"
digit_char (suc (suc zero)) = "2"
digit_char (suc (suc (suc zero))) = "3"
digit_char (suc (suc (suc (suc zero)))) = "4"
digit_char (suc (suc (suc (suc (suc zero))))) = "5"
digit_char (suc (suc (suc (suc (suc (suc zero)))))) = "6"
digit_char (suc (suc (suc (suc (suc (suc (suc zero))))))) = "7"
digit_char (suc (suc (suc (suc (suc (suc (suc (suc zero)))))))) = "8"
digit_char _ = "9"

-- The digits in front of `rest`; as much fuel as the number is enough.
digits_onto : ℕ → ℕ → String → String
unfolding digit_char
digits_onto zero n rest = String.◌∷◌ (digit_char n) rest
digits_onto (suc f) n rest =
    let shorter = digits_onto f (n / 10) (String.◌∷◌ (digit_char (n % 10)) rest) in
    if ltb n 10 then String.◌∷◌ (digit_char n) rest else shorter

unfoldable pub decimal : ℕ → String
unfolding digits_onto
decimal n = digits_onto n n String.[]

abbrev zero_then : String → String
zero_then s = String.◌∷◌ "0" s

-- `f"{n:04d}"`
unfoldable pub decimal4 : ℕ → String
unfolding decimal
decimal4 n =
    if ltb n 10
    then zero_then (zero_then (zero_then (decimal n)))
    else if ltb n 100
    then zero_then (zero_then (decimal n))
    else if ltb n 1000
    then zero_then (decimal n)
    else decimal n

-- The number that a row of digit codes stands for, after `acc`.
abbrev read : ℕ → List ℕ → ℕ
read acc [] = acc
read acc (c ∷ cs) = read (acc * 10 + (c - 48)) cs

code-digit_char : (d : ℕ) → d < 10 → code (digit_char d) - 48 ≡ d
unfolding digit_char
code-digit_char zero h = refl
code-digit_char (suc zero) h = refl
code-digit_char (suc (suc zero)) h = refl
code-digit_char (suc (suc (suc zero))) h = refl
code-digit_char (suc (suc (suc (suc zero)))) h = refl
code-digit_char (suc (suc (suc (suc (suc zero))))) h = refl
code-digit_char (suc (suc (suc (suc (suc (suc zero)))))) h = refl
code-digit_char (suc (suc (suc (suc (suc (suc (suc zero))))))) h = refl
code-digit_char (suc (suc (suc (suc (suc (suc (suc (suc zero)))))))) h = refl
code-digit_char (suc (suc (suc (suc (suc (suc (suc (suc (suc zero))))))))) h = refl
code-digit_char (suc (suc (suc (suc (suc (suc (suc (suc (suc (suc d)))))))))) h =
    absurd (omega arith)

read-digits_onto :
    (f n : ℕ) (rest : String)
    → n < 10 + f
    → read 0 (codes (digits_onto f n rest)) ≡ read n (codes rest)
unfolding digits_onto
read-digits_onto zero n rest h =
    ap (λ k. read k (codes rest)) (omega (arith, code-digit_char n (omega arith)))
read-digits_onto (suc f) n rest h = elim (Bool-cases (ltb n 10)) [
  | inl small ↦
      rw small (ap (λ k. read k (codes rest)) (omega (arith, code-digit_char n (ground arith))))
  | inr large ↦ rw large (
      read-digits_onto f (n / 10) (String.◌∷◌ (digit_char (n % 10)) rest) (ground arith)
      ∙ ap (λ k. read k (codes rest)) (omega (arith, code-digit_char (n % 10) (omega arith))))
]

read-decimal4 : (n : ℕ) → read 0 (codes (decimal4 n)) ≡ n
unfolding decimal4
read-decimal4 n = ground (arith, read-digits_onto n n String.[] (omega arith))

-- Different numbers have different numerals.
pub decimal4-injective : (n m : ℕ) → decimal4 n ≡ decimal4 m → n ≡ m
decimal4-injective n m e = sym (read-decimal4 n) ∙ ap (λ s. read 0 (codes s)) e ∙ read-decimal4 m

ten : decimal4 1204 ≡ "1204"
unfolding decimal4
ten = refl

seven : decimal4 7 ≡ "0007"
unfolding decimal4
seven = refl
