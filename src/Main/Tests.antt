-- ===== src/Main/Tests.antt =====
-- Runs of the argument parser, and its theorems at concrete inputs.
use libappf.Base.{ℕ, All, ◌∷◌, some, ◌≡◌, List, [], arith, refl, ◌≤◌}
use libappf.Main.{
  parse_argv, parse_loop, get_next_arg, skip_space, isspace, scan, isquote, next_iquote,
}
use libappf.Base.Int.{negsuc}
use libappf.Main.Itoa.{itoa}
use libappf.Main.Decimal.{IsPrinted, InRange, itoa-IsPrinted}
use libappf.Main.Words.{IsPlain, IsWord, spaced, parse_argv-spaced}

abbrev words : List (List ℕ)
words = (b'o' ∷ b'n' ∷ []) ∷ (b'3' ∷ []) ∷ []

-- The line `"a 'b" c'd e' f`.
abbrev line : List ℕ
line =
    b'"' ∷ b'a' ∷ 0x20 ∷ 0x27 ∷ b'b' ∷ b'"' ∷ 0x20 ∷ b'c' ∷ 0x27 ∷ b'd' ∷ 0x20 ∷ b'e' ∷ 0x27 ∷ 0x20
    ∷ b'f' ∷ []

parse_quotes :
    parse_argv line 10
    ≡ (b'a' ∷ 0x20 ∷ 0x27 ∷ b'b' ∷ [])
      ∷ (b'c' ∷ 0x27 ∷ b'd' ∷ 0x20 ∷ b'e' ∷ 0x27 ∷ [])
      ∷ (b'f' ∷ [])
      ∷ []
unfolding parse_argv parse_loop get_next_arg skip_space scan next_iquote isspace isquote
parse_quotes = refl

plain : (c : ℕ) → b'3' ≤ c → IsPlain c
unfolding isspace isquote
plain c h = record { no_space = ground arith; no_quote = ground arith; not_nul = ground arith }

words-IsWord : All IsWord words
words-IsWord = (
  record {
    not_empty = omega arith;
    plain = (plain b'o' (omega arith), (plain b'n' (omega arith), tt));
  },
  (record { not_empty = omega arith; plain = (plain b'3' (omega arith), tt) }, tt),
)

parse_argv-spaced_example : parse_argv (spaced words) 3 ≡ words
parse_argv-spaced_example = parse_argv-spaced words 3 words-IsWord (omega arith)

word-arg : get_next_arg (b'f' ∷ []) ≡ some (b'f' ∷ [], [])
unfolding get_next_arg skip_space scan next_iquote isspace isquote
word-arg = refl

itoa_decimal-InRange : InRange (negsuc 41)
unfolding InRange
itoa_decimal-InRange = omega arith

itoa-IsPrinted_example : IsPrinted (negsuc 41) (itoa (negsuc 41) 10)
itoa-IsPrinted_example = itoa-IsPrinted (negsuc 41) itoa_decimal-InRange
