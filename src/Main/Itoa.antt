-- ===== src/Main/Itoa.antt =====
-- `af_itoa` of appf_main.c.
use libappf.Base.{
  ℕ, List, ◌+◌, ◌==◌, ◌-◌, ◌++◌, refl, ◌∷◌, if◌then◌else◌, ltb, ◌≡◌, [], ◌/◌, ◌%◌, zero, suc,
}
use libappf.Base.Int.{ℤ, negsuc, pos}

-- `(rem > 9)? (rem-10) + 'a' : rem + '0'`
unfoldable pub digit : ℕ → ℕ
digit rem = if ltb 9 rem then rem - 10 + b'a' else rem + b'0'

-- The loop over the digits of a number that is not negative, the last digit first, on fuel. Each
-- round divides by the base, so where that is 2 or more the number itself is enough.
unfoldable pub digits : (fuel num base : ℕ) → List ℕ
unfolding digit
digits zero num base = []
digits (suc fuel) num base =
    let rest = digits fuel (num / base) base in if num == 0 then [] else digit (num % base) ∷ rest

-- The same loop from `-num`: quotient and remainder are cut towards 0, so the remainder is negative
-- and is taken from '0'.
unfoldable pub negative_digits : (fuel num base : ℕ) → List ℕ
negative_digits zero num base = []
negative_digits (suc fuel) num base =
    let rest = negative_digits fuel (num / base) base in
    if num == 0 then [] else (b'0' - num % base) ∷ rest

-- The swaps from both ends.
unfoldable pub reversed : List ℕ → List ℕ
reversed [] = []
reversed (c ∷ cs) = reversed cs ++ c ∷ []

-- `af_itoa` for a `num` that can be negated in an `int` and a base from 2 to 36.
unfoldable pub itoa : ℤ → (base : ℕ) → List ℕ
unfolding digits negative_digits reversed
itoa (pos n) base = if n == 0 then b'0' ∷ [] else reversed (digits n n base)
itoa (negsuc n) base =
    if base == 10
    then b'-' ∷ reversed (digits (suc n) (suc n) base)
    else reversed (negative_digits (suc n) (suc n) base)

itoa_decimal : itoa (negsuc 41) 10 ≡ b'-' ∷ b'4' ∷ b'2' ∷ []
unfolding itoa
itoa_decimal = refl

itoa_hex : itoa (pos 255) 16 ≡ b'f' ∷ b'f' ∷ []
unfolding itoa
itoa_hex = refl
