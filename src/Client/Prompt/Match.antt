-- ===== src/Client/Prompt/Match.antt =====
-- The two loops of `_af_client_prompt_detect` against suffixes and prefixes.
use libappf.Base.{
  ℕ, ◌-◌, ◌≤◌, ◌≡◌, refl, sym, ap, ap₂, ◌∙◌, inl, inr, true, List, [], ◌∷◌, ◌++◌, arith, ◌==◌,
  Bool-cases, length, take, drop, length-append, take-append-drop, append_assoc, append-nil,
  take-length_append, drop-append, drop-length_append, subst,
}
use libappf.Client.Prompt.{matches, first_match}

-- `s` is the beginning of `t`.
abbrev pub Begins : List ℕ → List ℕ → Type 0
Begins s t = (rest : List ℕ) × (s ++ rest ≡ t)

-- `s` is the end of `t`.
abbrev pub Ends : List ℕ → List ℕ → Type 0
Ends s t = (front : List ℕ) × (front ++ s ≡ t)

pub Begins-of-matches : (s prompt : List ℕ) → matches s prompt ≡ true → Begins s prompt
unfolding matches
Begins-of-matches [] prompt h = (prompt, refl)
Begins-of-matches (x ∷ xs) [] h = absurd (cc)
Begins-of-matches (x ∷ xs) (p ∷ ps) h = elim (Bool-cases (x == p)) [
  | inl e ↦
      let (rest, q) = Begins-of-matches xs ps (ground arith) in
      let same : x ≡ p = ground arith in (rest, ap₂ (λ a l. a ∷ l) same q)
  | inr e ↦ absurd (ground arith)
]

pub matches-append : (s rest : List ℕ) → matches s (s ++ rest) ≡ true
unfolding matches
matches-append [] rest = refl
matches-append (x ∷ xs) rest = ground (arith, matches-append xs rest)

pub matches-of-Begins : (s prompt : List ℕ) → Begins s prompt → matches s prompt ≡ true
matches-of-Begins s prompt (rest, e) = subst (λ p. matches s p ≡ true) e (matches-append s rest)

-- The part of `saved` from `prompt_idx` on is a beginning of the prompt.
pub first_match-Begins :
    (prompt saved : List ℕ) → Begins (drop (first_match prompt saved) saved) prompt
unfolding first_match
first_match-Begins prompt [] = (prompt, refl)
first_match-Begins prompt (x ∷ xs) = elim (Bool-cases (matches (x ∷ xs) prompt)) [
  | inl e ↦ rw e (Begins-of-matches (x ∷ xs) prompt e)
  | inr e ↦ rw e (first_match-Begins prompt xs)
]

-- No longer end of `saved` is one.
pub first_match_longest :
    (prompt saved front s : List ℕ)
    → front ++ s ≡ saved
    → Begins s prompt
    → length s ≤ length (drop (first_match prompt saved) saved)
unfolding first_match
first_match_longest prompt [] front s e b = omega (arith, length-append front s, ap length e)
first_match_longest prompt (x ∷ xs) [] s e b = elim (Bool-cases (matches (x ∷ xs) prompt)) [
  | inl m ↦ rw m (omega (arith, ap length e))
  | inr m ↦
      let whole = matches-of-Begins (x ∷ xs) prompt (subst (λ t. Begins t prompt) e b) in
      absurd (cc)
]
first_match_longest prompt (x ∷ xs) (y ∷ front) s e b =
    let e' : front ++ s ≡ xs = ap (drop 1) e in
    elim (Bool-cases (matches (x ∷ xs) prompt)) [
      | inl m ↦ rw m (omega (arith, length-append front s, ap length e'))
      | inr m ↦ rw m (first_match_longest prompt xs front s e' b)
    ]

pub first_match_self : (prompt : List ℕ) → first_match prompt prompt ≡ 0
unfolding first_match
first_match_self [] = refl
first_match_self (x ∷ xs) = rw (matches-of-Begins (x ∷ xs) (x ∷ xs) ([], append-nil _))

pub eq_of_Begins : (s t : List ℕ) → Begins s t → length s ≡ length t → s ≡ t
eq_of_Begins s t ([], e) h = sym (append-nil s) ∙ e
eq_of_Begins s t (x ∷ xs, e) h = absurd (omega (arith, length-append s (x ∷ xs), ap length e))

pub length-le_of_Begins : (s t : List ℕ) → Begins s t → length s ≤ length t
length-le_of_Begins s t (rest, e) = omega (arith, length-append s rest, ap length e)

pub length-le_of_Ends : (s t : List ℕ) → Ends s t → length s ≤ length t
length-le_of_Ends s t (front, e) = omega (arith, length-append front s, ap length e)

pub eq_of_Ends : (s t : List ℕ) → Ends s t → length s ≡ length t → s ≡ t
eq_of_Ends s t ([], e) h = e
eq_of_Ends s t (x ∷ xs, e) h = absurd (omega (arith, length-append (x ∷ xs) s, ap length e))

-- What stands in front of an end is what `take` leaves.
pub take-Ends : (s t : List ℕ) → Ends s t → take (length t - length s) t ++ s ≡ t
take-Ends s t (front, e) =
    subst (λ u. take (length u - length s) u ++ s ≡ u) e
      (let n : length (front ++ s) - length s ≡ length front =
          omega (arith, length-append front s) in
        rw (n, take-length_append front s))

pub Ends-drop : (n : ℕ) (t : List ℕ) → Ends (drop n t) t
Ends-drop n t = (take n t, take-append-drop n t)

pub Ends-trans : (r s t : List ℕ) → Ends r s → Ends s t → Ends r t
Ends-trans r s t (f, e) (g, k) = (g ++ f, append_assoc g f r ∙ ap (λ u. g ++ u) e ∙ k)

-- Of two ends of a list the shorter is an end of the longer.
pub Ends-nested : (r s t : List ℕ) → Ends r t → Ends s t → length r ≤ length s → Ends r s
Ends-nested r s t (f, e) (g, k) h =
    let fits : length g ≤ length f =
      omega (arith, length-append f r, length-append g s, ap length e, ap length k) in
    (
      drop (length g) f,
      sym (drop-append (length g) f r fits)
          ∙ ap (drop (length g)) (e ∙ sym k)
          ∙ drop-length_append g s,
    )

pub first_match-le : (prompt saved : List ℕ) → first_match prompt saved ≤ length saved
unfolding first_match
first_match-le prompt [] = omega arith
first_match-le prompt (x ∷ xs) = ground (arith, first_match-le prompt xs)

pub append_cancel_right : (xs ys zs : List ℕ) → xs ++ zs ≡ ys ++ zs → xs ≡ ys
append_cancel_right xs ys zs e =
    let size : length xs ≡ length ys =
      omega (arith, length-append xs zs, length-append ys zs, ap length e) in
    sym (take-length_append xs zs) ∙ ap₂ take size e ∙ take-length_append ys zs
