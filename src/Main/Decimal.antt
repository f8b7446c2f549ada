-- ===== src/Main/Decimal.antt =====
-- `af_itoa` in base 10, against the value of a decimal numeral.
use libappf.Base.{
  ℕ, ◌+◌, suc, ◌==◌, ◌∙◌, ◌∷◌, List, ◌≡◌, ◌-◌, arith, zero, ◌/◌, inr, ◌%◌, Bool-cases, ◌++◌, inl,
  [], ◌≤◌, refl, ◌*◌, false, ◌^◌, ◌⊎◌, subst, true, ◌<◌, ◌&&◌, sym, leb, not, Bool, ◌≢◌,
}
use libappf.Base.Int.{pos, negsuc, ℤ}
use mathlib.Core.Bool.{false≢true}
use libappf.Main.Itoa.{digit, digits, reversed, itoa}

-- The value of the digits behind `acc`.
unfoldable pub value : (acc : ℕ) → List ℕ → ℕ
value acc [] = acc
value acc (c ∷ cs) = value (acc * 10 + (c - b'0')) cs

value-append :
    (acc : ℕ) (cs : List ℕ) (c : ℕ) → value acc (cs ++ c ∷ []) ≡ value acc cs * 10 + (c - b'0')
unfolding value
value-append acc [] c = refl
value-append acc (d ∷ cs) c = value-append (acc * 10 + (d - b'0')) cs c

digit_decimal : (n : ℕ) → digit (n % 10) - b'0' ≡ n % 10
unfolding digit
digit_decimal n = ground arith

-- The characters '0' to '9'.
pub is_digit : ℕ → Bool
is_digit c = leb b'0' c && leb c b'9'

unfoldable pub all_digits : List ℕ → Bool
all_digits [] = true
all_digits (c ∷ cs) = is_digit c && all_digits cs

-- There is a first character, and it is not '0'.
unfoldable pub leads : List ℕ → Bool
leads [] = false
leads (c ∷ cs) = not (c == b'0')

-- `cs` is the decimal numeral of `n`: digits only, with the value `n`, at least one of them and no 0
-- in front, but for the number 0 itself.
pub record IsNumeral (n : ℕ) (cs : List ℕ) : Type 0 where
  pub decimal : all_digits cs ≡ true
  pub leading : (cs ≡ b'0' ∷ []) ⊎ (leads cs ≡ true)
  pub exact : value 0 cs ≡ n

all_digits-append :
    (cs : List ℕ) (c : ℕ)
    → all_digits cs ≡ true
    → is_digit c ≡ true
    → all_digits (cs ++ c ∷ []) ≡ true
unfolding all_digits
all_digits-append [] c h k = ground (arith, k)
all_digits-append (d ∷ cs) c h k = ground (arith, h, all_digits-append cs c (ground (arith, h)) k)

leads-append : (cs ds : List ℕ) → leads cs ≡ true → leads (cs ++ ds) ≡ true
unfolding leads
leads-append [] ds h = absurd (false≢true h)
leads-append (c ∷ cs) ds h = h

digit-is_digit : (n : ℕ) → is_digit (digit (n % 10)) ≡ true
unfolding digit is_digit
digit-is_digit n = ground arith

digit-leads : (n : ℕ) → n / 10 ≡ 0 → n ≢ 0 → leads (digit (n % 10) ∷ []) ≡ true
unfolding digit leads
digit-leads n h k = ground arith

all_digits-digits : (fuel n : ℕ) → all_digits (reversed (digits fuel n 10)) ≡ true
unfolding digits reversed all_digits
all_digits-digits zero n = refl
all_digits-digits (suc fuel) n = elim (Bool-cases (n == 0)) [
  | inl e ↦ rw e refl
  | inr e ↦ rw e (all_digits-append _ _ (all_digits-digits fuel (n / 10)) (digit-is_digit n))
]

digits-zero : (fuel : ℕ) → reversed (digits fuel 0 10) ≡ []
unfolding digits reversed
digits-zero zero = refl
digits-zero (suc fuel) = refl

leads-digits : (fuel n : ℕ) → n ≤ fuel → n ≢ 0 → leads (reversed (digits fuel n 10)) ≡ true
unfolding digits reversed
leads-digits zero n h k = absurd (k (omega (arith, h)))
leads-digits (suc fuel) n h k =
    let e : (n == 0) ≡ false = ground arith in
    rw e (elim (Bool-cases ((n / 10) == 0)) [
      | inl z ↦ let q : n / 10 ≡ 0 = ground arith in rw (q, digits-zero fuel) (digit-leads n q k)
      | inr z ↦ leads-append _ _ (leads-digits fuel (n / 10) (ground (arith, e, h)) (ground arith))
    ])

value-digits : (fuel n : ℕ) → n ≤ fuel → value 0 (reversed (digits fuel n 10)) ≡ n
unfolding digits reversed value
value-digits zero n h = omega (arith, h)
value-digits (suc fuel) n h = elim (Bool-cases (n == 0)) [
  | inl e ↦ rw e (ground (arith, e))
  | inr e ↦ rw e (
      value-append 0 (reversed (digits fuel (n / 10) 10)) (digit (n % 10))
      ∙ ground (arith, value-digits fuel (n / 10), digit_decimal n, e, h))
]

itoa-IsNumeral : (n : ℕ) → IsNumeral n (itoa (pos n) 10)
unfolding itoa value all_digits is_digit
itoa-IsNumeral n = elim (Bool-cases (n == 0)) [
  | inl e ↦
      let z : 0 ≡ n = ground arith in
      rw e (record { decimal = refl; leading = inl refl; exact = z })
  | inr e ↦ rw e (record {
    decimal = all_digits-digits n n;
    leading = inr (leads-digits n n (omega arith) (ground arith));
    exact = value-digits n n (omega arith);
  })
]

-- What stands for a number: its numeral, or a minus sign and the numeral of what it is below 0.
pub data IsPrinted : ℤ → List ℕ → Type 0 where
  natural : {n : ℕ} {cs : List ℕ} → IsNumeral n cs → IsPrinted (pos n) cs
  negative : {n : ℕ} {cs : List ℕ} → IsNumeral (suc n) cs → IsPrinted (negsuc n) (b'-' ∷ cs)

-- The range of an `int`, without INT_MIN, whose negation overflows.
unfoldable pub InRange : ℤ → Type 0
InRange (pos n) = n < 2 ^ 31
InRange (negsuc n) = suc n < 2 ^ 31

itoa-negsuc : (n : ℕ) → itoa (negsuc n) 10 ≡ b'-' ∷ itoa (pos (suc n)) 10
unfolding itoa
itoa-negsuc n = let e : (suc n == 0) ≡ false = ground arith in rw e refl

-- In base 10 every `int` but INT_MIN is written as its decimal numeral: '0' to '9' only, at least one
-- of them, no 0 in front of another digit, with the number as its value; and a minus sign in front
-- where the number is negative.
pub itoa-IsPrinted : (x : ℤ) → InRange x → IsPrinted x (itoa x 10)
itoa-IsPrinted (pos n) h = natural (itoa-IsNumeral n)
itoa-IsPrinted (negsuc n) h =
    subst (IsPrinted (negsuc n)) (sym (itoa-negsuc n)) (negative (itoa-IsNumeral (suc n)))
