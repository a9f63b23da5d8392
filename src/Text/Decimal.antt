-- ===== src/Text/Decimal.antt =====
-- Decimal digits of a number, as `str(n)` and an f-string write them.
use Prim.Native.Char.{code}
use ansuman_gpu_inference_se.Prelude.{
  ℕ, zero, suc, ◌+◌, ◌-◌, ◌*◌, ◌/◌, ◌%◌, ◌<◌, String, ◌≡◌, sym, ap, ◌∙◌, arith, ltb, ◌==◌,
  Bool-cases, inl, inr, if◌then◌else◌,
}

-- The digit of a number below ten.
unfoldable digit : ℕ → String → String
digit n s =
    if n == 0
    then String.◌∷◌ "0" s
    else if n == 1
    then String.◌∷◌ "1" s
    else if n == 2
    then String.◌∷◌ "2" s
    else if n == 3
    then String.◌∷◌ "3" s
    else if n == 4
    then String.◌∷◌ "4" s
    else if n == 5
    then String.◌∷◌ "5" s
    else if n == 6
    then String.◌∷◌ "6" s
    else if n == 7
    then String.◌∷◌ "7" s
    else if n == 8
    then String.◌∷◌ "8" s
    else String.◌∷◌ "9" s

-- The digits of `n` in front of `s`, on fuel: `suc n` is enough.
unfoldable decimal : ℕ → ℕ → String → String
unfolding digit
decimal zero n s = s
decimal (suc fuel) n s =
    let rest = decimal fuel (n / 10) (digit (n % 10) s) in if ltb n 10 then digit n s else rest

unfoldable pub str_of_ℕ : ℕ → String
unfolding decimal
str_of_ℕ n = decimal (suc n) n ""

-- The number that digits stand for, behind a number already read.
unfoldable value : ℕ → String → ℕ
value n String.[] = n
value n (String.◌∷◌ c s) = value (n * 10 + (code c - 48)) s

value-digit : (m n : ℕ) (s : String) → n < 10 → value m (digit n s) ≡ value (m * 10 + n) s
unfolding digit value
value-digit m n s h = ground (arith, h)

value-decimal : (fuel n : ℕ) (s : String) → n < fuel → value 0 (decimal fuel n s) ≡ value n s
unfolding decimal
value-decimal zero n s h = ground (arith, h)
value-decimal (suc fuel) n s h = elim (Bool-cases (ltb n 10)) [
  | inl small ↦
      rw small (value-digit 0 n s (ground (arith, small)) ∙ ap (λ k. value k s) (omega arith))
  | inr large ↦
      let back : n / 10 * 10 + n % 10 ≡ n = omega arith in
      rw large (
        value-decimal fuel (n / 10) (digit (n % 10) s) (ground (arith, h, large))
        ∙ value-digit (n / 10) (n % 10) s (omega arith)
        ∙ ap (λ k. value k s) back)
]

pub str_of_ℕ-inj : (m n : ℕ) → str_of_ℕ m ≡ str_of_ℕ n → m ≡ n
unfolding str_of_ℕ value
str_of_ℕ-inj m n e =
    sym (value-decimal (suc m) m "" (omega arith))
    ∙ ap (value 0) e
    ∙ value-decimal (suc n) n "" (omega arith)
