-- ===== src/Client/Prompt/Detect.antt =====
-- What one call of `_af_client_prompt_detect` does.
use libappf.Base.{
  ℕ, ◌-◌, ◌≤◌, inl, inr, List, arith, leb, Bool-cases, length, drop, length-drop, Bool, ◌≡◌, true,
  [], subst, append-nil, ◌↔◌, false, ◌++◌, ◌==◌, ◌&&◌, if◌then◌else◌, refl,
}
use libappf.Client.Prompt.{window, first_match, prompt_detect, conclude, Detector}
use libappf.Client.Prompt.Match.{
  Begins, Ends, first_match_longest, length-le_of_Begins, length-le_of_Ends, Ends-drop, Ends-trans,
  Ends-nested, first_match-Begins, first_match-le, eq_of_Begins, take-Ends,
}

window-Ends : (prompt buf : List ℕ) → Ends (window prompt buf) buf
unfolding window
window-Ends prompt buf = elim (Bool-cases (leb (length prompt) (length buf))) [
  | inl e ↦ rw e (Ends-drop (length buf - length prompt) buf)
  | inr e ↦ rw e (Ends-drop 0 buf)
]

-- Every end of the buffer that is no longer than the prompt lies in the window.
length-window :
    (prompt buf : List ℕ) (n : ℕ)
    → n ≤ length prompt
    → n ≤ length buf
    → n ≤ length (window prompt buf)
unfolding window
length-window prompt buf n h k = elim (Bool-cases (leb (length prompt) (length buf))) [
  | inl e ↦ rw e (ground (arith, length-drop (length buf - length prompt) buf))
  | inr e ↦ rw e k
]

length-window-le : (prompt buf : List ℕ) → length (window prompt buf) ≤ length prompt
unfolding window
length-window-le prompt buf = ground (arith, length-drop (length buf - length prompt) buf)

-- The part of the window that the search keeps.
abbrev kept : List ℕ → List ℕ → List ℕ
kept prompt buf = drop (first_match prompt (window prompt buf)) (window prompt buf)

kept-Ends : (prompt buf : List ℕ) → Ends (kept prompt buf) buf
kept-Ends prompt buf = Ends-trans _ _ buf (Ends-drop _ _) (window-Ends prompt buf)

kept_longest :
    (prompt buf s : List ℕ) → Ends s buf → Begins s prompt → length s ≤ length (kept prompt buf)
kept_longest prompt buf s e b =
    let inside =
      length-window prompt buf (length s) (length-le_of_Begins s prompt b)
        (length-le_of_Ends s buf e) in
    let nested = Ends-nested s (window prompt buf) buf e (window-Ends prompt buf) inside in
    first_match_longest prompt (window prompt buf) nested.0 s nested.1 b

-- The test by which the function reports the prompt.
abbrev whole : List ℕ → List ℕ → Bool
whole prompt buf =
    (first_match prompt (window prompt buf) == 0) && (length (window prompt buf) == length prompt)

whole-of-Ends : (prompt buf : List ℕ) → Ends prompt buf → whole prompt buf ≡ true
whole-of-Ends prompt buf e =
    let long = kept_longest prompt buf prompt e ([], append-nil prompt) in
    ground (
      arith,
      long,
      length-window-le prompt buf,
      first_match-le prompt (window prompt buf),
      length-drop (first_match prompt (window prompt buf)) (window prompt buf),
    )

Ends-of-whole : (prompt buf : List ℕ) → whole prompt buf ≡ true → Ends prompt buf
Ends-of-whole prompt buf h =
    let start : first_match prompt (window prompt buf) ≡ 0 = ground arith in
    let same : length (window prompt buf) ≡ length prompt = ground arith in
    let b : Begins (window prompt buf) prompt =
      subst (λ n. Begins (drop n (window prompt buf)) prompt) start
        (first_match-Begins prompt (window prompt buf)) in
    subst (λ s. Ends s buf) (eq_of_Begins _ prompt b same) (window-Ends prompt buf)

-- The prompt is reported exactly when the buffer ends with it.
pub prompt_detect-found_iff :
    (det : Detector) (buf : List ℕ) → ((prompt_detect det buf).found ≡ true) ↔ Ends det.prompt buf
unfolding prompt_detect conclude
prompt_detect-found_iff det buf =
    ((λ h. Ends-of-whole det.prompt buf (ground arith)), λ e. rw (whole-of-Ends det.prompt buf e))

-- No byte is lost: what stays in the buffer, followed by the prompt if it was found and by the bytes
-- kept back if not, is what was in the buffer.
pub prompt_detect_lossless :
    (det : Detector) (buf : List ℕ)
    → let r = prompt_detect det buf in r.out ++ (if r.found then det.prompt else r.det.saved) ≡ buf
unfolding prompt_detect conclude
prompt_detect_lossless det buf = elim (Bool-cases (whole det.prompt buf)) [
  | inl h ↦ rw h (take-Ends det.prompt buf (Ends-of-whole det.prompt buf h))
  | inr h ↦ rw h (take-Ends _ buf (kept-Ends det.prompt buf))
]

-- `saved` is the longest end of `text` that is a beginning of `prompt`.
pub record IsPending (prompt text saved : List ℕ) : Type 0 where
  pub begins : Begins saved prompt
  pub ends : Ends saved text
  pub longest : (s : List ℕ) → Ends s text → Begins s prompt → length s ≤ length saved

-- Where the prompt is not found, what is kept back is the longest end of the buffer with which the
-- prompt may begin, and the prompt to look for stays the same.
pub prompt_detect-IsPending :
    (det : Detector) (buf : List ℕ)
    → (prompt_detect det buf).found ≡ false
    → IsPending det.prompt buf (prompt_detect det buf).det.saved
      × ((prompt_detect det buf).det.prompt ≡ det.prompt)
unfolding prompt_detect conclude
prompt_detect-IsPending det buf miss =
    let h : whole det.prompt buf ≡ false = ground arith in
    rw h (
      record {
        begins = first_match-Begins det.prompt (window det.prompt buf);
        ends = kept-Ends det.prompt buf;
        longest = kept_longest det.prompt buf;
      },
      refl,
    )
