-- ===== src/Main/Words.antt =====
-- `af_parse_argv` on plain words, and how many arguments it stores.
use libappf.Main.{
  isspace, isquote, skip_space, next_iquote, scan, get_next_arg, parse_loop, parse_argv,
}
use libappf.Base.{
  ℕ, ◌≡◌, [], ◌∷◌, ◌+◌, ◌<◌, All, List, some, suc, arith, false, ◌++◌, refl, ap, zero, ◌≤◌, length,
  ◌==◌, ◌∙◌, none, ◌&&◌, inr, length-append, ltb, Option-cases, if◌then◌else◌, inl, not,
}

-- A character that is no blank, no quote and not NUL.
pub record IsPlain (c : ℕ) : Type 0 where
  pub no_space : isspace c ≡ false
  pub no_quote : isquote c ≡ false
  pub not_nul : (c == 0) ≡ false

pub record IsWord (w : List ℕ) : Type 0 where
  pub not_empty : 1 ≤ length w
  pub plain : All IsPlain w

-- The words, with a blank behind each.
unfoldable pub spaced : List (List ℕ) → List ℕ
spaced [] = []
spaced (w ∷ ws) = w ++ 0x20 ∷ spaced ws

next_iquote-plain : (c : ℕ) → isquote c ≡ false → next_iquote 0 c ≡ 0
unfolding next_iquote
next_iquote-plain c h = rw h refl

scan-plain :
    (c : ℕ) (cs : List ℕ) → IsPlain c → scan 0 0 (c ∷ cs) ≡ (c ∷ (scan 0 0 cs).0, (scan 0 0 cs).1)
unfolding scan
scan-plain c cs p = rw p.no_space (rw p.not_nul (rw (next_iquote-plain c p.no_quote) refl))

skip_space-plain : (c : ℕ) (cs : List ℕ) → IsPlain c → skip_space (c ∷ cs) ≡ c ∷ cs
unfolding skip_space
skip_space-plain c cs p = rw p.no_space refl

get_next_arg-plain :
    (c : ℕ) (cs : List ℕ) → IsPlain c → get_next_arg (c ∷ cs) ≡ some (scan 0 0 (c ∷ cs))
unfolding get_next_arg
get_next_arg-plain c cs p = simp (get_next_arg, skip_space-plain c cs p, p.no_quote)

scan-word : (w : List ℕ) (rest : List ℕ) → All IsPlain w → scan 0 0 (w ++ 0x20 ∷ rest) ≡ (w, rest)
unfolding scan isspace
scan-word [] rest h = refl
scan-word (c ∷ cs) rest h =
    scan-plain c (cs ++ 0x20 ∷ rest) h.0 ∙ ap (λ r. (c ∷ r.0, r.1)) (scan-word cs rest h.1)

get_next_arg-word : (w rest : List ℕ) → IsWord w → get_next_arg (w ++ 0x20 ∷ rest) ≡ some (w, rest)
get_next_arg-word [] rest v = absurd (omega (arith, v.not_empty))
get_next_arg-word (c ∷ cs) rest v =
    get_next_arg-plain c (cs ++ 0x20 ∷ rest) v.plain.0 ∙ ap some (scan-word (c ∷ cs) rest v.plain)

get_next_arg-nil : get_next_arg [] ≡ none
unfolding get_next_arg skip_space
get_next_arg-nil = refl

pub parse_loop-none :
    (fuel max cnt : ℕ) (s : List ℕ) → get_next_arg s ≡ none → parse_loop (suc fuel) max cnt s ≡ []
unfolding parse_loop
parse_loop-none fuel max cnt s e = simp (parse_loop, e)

pub parse_loop-some :
    (fuel max cnt : ℕ) (s arg rest : List ℕ)
    → get_next_arg s ≡ some (arg, rest)
    → parse_loop (suc fuel) max cnt s
      ≡ arg
        ∷ (if not (length rest == 0) && ltb (suc cnt + 1) max
            then parse_loop fuel max (suc cnt) rest
            else [])
unfolding parse_loop
parse_loop-some fuel max cnt s arg rest e = simp (parse_loop, e)

length-spaced :
    (w : List ℕ) (ws : List (List ℕ)) → length (spaced (w ∷ ws)) ≡ length w + 1 + length (spaced ws)
unfolding spaced
length-spaced w ws = omega (arith, length-append w (0x20 ∷ spaced ws))

more :
    (max cnt : ℕ) {n : ℕ} {w : List ℕ} {rest ws : List (List ℕ)}
    → 1 ≤ n
    → suc cnt + 1 < max
    → rest ≡ ws
    → w ∷ (if not (n == 0) && ltb (suc cnt + 1) max then rest else []) ≡ w ∷ ws
more max cnt e m h = ground (arith, h)

parse_loop-spaced :
    (ws : List (List ℕ)) (fuel max cnt : ℕ)
    → All IsWord ws
    → length (spaced ws) < fuel
    → cnt + length ws < max
    → parse_loop fuel max cnt (spaced ws) ≡ ws
unfolding spaced
parse_loop-spaced ws zero max cnt h f m = absurd (omega (arith, f))
parse_loop-spaced [] (suc fuel) max cnt h f m = parse_loop-none fuel max cnt [] get_next_arg-nil
parse_loop-spaced (w ∷ []) (suc fuel) max cnt h f m =
    parse_loop-some fuel max cnt (spaced (w ∷ [])) w [] (get_next_arg-word w [] h.0)
parse_loop-spaced (w ∷ v ∷ ws) (suc fuel) max cnt h f m =
    parse_loop-some fuel max cnt (spaced (w ∷ v ∷ ws)) w (spaced (v ∷ ws))
      (get_next_arg-word w (spaced (v ∷ ws)) h.0)
    ∙ more max cnt (omega (arith, length-spaced v ws)) (omega (arith, m)) (
        parse_loop-spaced (v ∷ ws) fuel max (suc cnt) h.1
          (omega (arith, f, length-spaced w (v ∷ ws))) (omega (arith, m)))

-- Plain words with a blank behind each are taken apart into the same words, in order, where there is
-- room for them and the NULL behind them.
pub parse_argv-spaced :
    (ws : List (List ℕ)) (max : ℕ)
    → All IsWord ws
    → length ws < max
    → parse_argv (spaced ws) max ≡ ws
unfolding parse_argv
parse_argv-spaced ws max h m =
    parse_loop-spaced ws (suc (length (spaced ws))) max 0 h (omega arith) (omega (arith, m))

parse_loop-length :
    (fuel max cnt : ℕ) (s : List ℕ)
    → cnt + 2 ≤ max
    → cnt + length (parse_loop fuel max cnt s) + 1 ≤ max
unfolding parse_loop
parse_loop-length zero max cnt s m = omega (arith, m)
parse_loop-length (suc fuel) max cnt s m = elim (Option-cases (get_next_arg s)) [
  | inl e ↦ rw (parse_loop-none fuel max cnt s e) (omega (arith, m))
  | inr ((arg, rest), e) ↦
      rw (parse_loop-some fuel max cnt s arg rest e)
        (ground (arith, m, parse_loop-length fuel max (suc cnt) rest))
]

-- With room for two pointers at least, the arguments and the NULL behind them fit into `argv`,
-- whatever the line.
pub parse_argv-length :
    (buffer : List ℕ) (max : ℕ) → 2 ≤ max → length (parse_argv buffer max) + 1 ≤ max
unfolding parse_argv
parse_argv-length buffer max m =
    omega (arith, parse_loop-length (suc (length buffer)) max 0 buffer, m)

-- With room for one pointer or none, the first argument is stored all the same: the arguments and the NULL
-- behind them do not fit into `argv`.
pub parse_argv_overflow :
    (buffer : List ℕ) (max : ℕ) {arg rest : List ℕ}
    → max ≤ 1
    → get_next_arg buffer ≡ some (arg, rest)
    → max < length (parse_argv buffer max) + 1
unfolding parse_argv
parse_argv_overflow buffer max {arg} {rest} m e =
    rw (parse_loop-some (length buffer) max 0 buffer arg rest e) (ground (arith, m))
