-- ===== src/Main.antt =====
-- appf_main.c: how a line is taken apart into arguments.
pub mod Words
pub mod Itoa
pub mod Decimal
mod Tests
use libappf.Base.{
  ℕ, ◌+◌, length, if◌then◌else◌, ◌&&◌, none, ◌∷◌, [], ltb, ◌==◌, List, zero, suc, Bool, ◌||◌, leb,
  not, some, Option,
}

-- `isspace` in the C locale.
unfoldable pub isspace : ℕ → Bool
isspace c = (c == 0x20) || (leb 0x09 c && leb c 0x0d)

unfoldable pub isquote : ℕ → Bool
isquote c = (c == b'"') || (c == 0x27)

-- `while ( *string && isspace(*string) )`
unfoldable pub skip_space : List ℕ → List ℕ
skip_space [] = []
skip_space (c ∷ cs) = if isspace c then skip_space cs else c ∷ cs

-- `iquote` behind a character: a quote begins or ends a section, or stands inside another.
unfoldable pub next_iquote : (iquote c : ℕ) → ℕ
next_iquote iquote c =
    if isquote c then (if iquote == 0 then c else if iquote == c then 0 else iquote) else iquote

-- The loop to the end of the word: the word, and what is behind the byte that becomes its NUL.
unfoldable pub scan : (quote iquote : ℕ) → List ℕ → List ℕ × List ℕ
unfolding isspace next_iquote
scan quote iquote [] = ([], [])
scan quote iquote (c ∷ cs) =
    let rest = scan quote (next_iquote iquote c) cs in
    if ((quote == 0) && (iquote == 0) && isspace c) || (c == quote)
    then ([], cs)
    else (c ∷ rest.0, rest.1)

-- `_af_get_next_arg` on the bytes up to the NUL of the string, none of which is 0. `none` is NULL.
unfoldable pub get_next_arg : List ℕ → Option (List ℕ × List ℕ)
unfolding skip_space scan isquote
get_next_arg s = elim (skip_space s) [
  | [] ↦ none
  | c ∷ cs ↦
      if isquote c
      then elim cs [ [] ↦ none | d ∷ ds ↦ some (scan c 0 (d ∷ ds)) ]
      else some (scan 0 0 (c ∷ cs))
]

-- The loop of `af_parse_argv` with `cnt` arguments stored, on fuel. `ptr < end` where something is
-- behind the last argument.
unfoldable pub parse_loop : (fuel : ℕ) (max cnt : ℕ) → List ℕ → List (List ℕ)
parse_loop zero max cnt s = []
parse_loop (suc fuel) max cnt s = elim (get_next_arg s) [
  | none ↦ []
  | some (arg, rest) ↦
      arg
      ∷ (let more = parse_loop fuel max (suc cnt) rest in
          if not (length rest == 0) && ltb (suc cnt + 1) max then more else [])
]

-- `af_parse_argv`: the arguments stored in `argv`, before the NULL. Each takes a byte at least, so
-- the length is enough fuel.
unfoldable pub parse_argv : List ℕ → (max : ℕ) → List (List ℕ)
parse_argv buffer max = parse_loop (suc (length buffer)) max 0 buffer
