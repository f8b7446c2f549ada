-- ===== src/Client/Prompt/Stream.antt =====
-- A stream that arrives in pieces: the detector against everything that was received.
use libappf.Client.Prompt.{Detector, feed}
use libappf.Client.Prompt.Match.{
  Begins, Ends, Ends-trans, Ends-nested, length-le_of_Ends, append_cancel_right,
}
use libappf.Client.Prompt.Detect.{
  IsPending, prompt_detect-found_iff, prompt_detect_lossless, prompt_detect-IsPending,
}
use libappf.Base.{
  ◌++◌, List, append_assoc, length, ◌∙◌, [], ap, if◌then◌else◌, ℕ, sym, ◌+◌, ◌≡◌, true, inr,
  Bool-cases, leb, ◌↔◌, arith, false, append-nil, refl, inl, length-append, ◌<◌, subst,
}

-- What a program has after some reads, at none of which the prompt was reported: `seen` is all that was
-- received, `out` is all that the calls of the detector let through, and the detector is as they left
-- it.
pub data Reads (prompt : List ℕ) : (seen out : List ℕ) → Detector → Type 0 where
  start : Reads prompt [] [] (record { prompt = prompt; saved = [] })
  missed :
      {seen out : List ℕ} {det : Detector} (c : List ℕ)
      → Reads prompt seen out det
      → (feed det c).found ≡ false
      → Reads prompt (seen ++ c) (out ++ (feed det c).out) (feed det c).det

module _ {prompt seen saved : List ℕ} (w : IsPending prompt seen saved) (c : List ℕ) where
  Ends-seen : (s : List ℕ) → Ends s (saved ++ c) → Ends s (seen ++ c)
  Ends-seen s e =
      Ends-trans s (saved ++ c) (seen ++ c) e
        (w.ends.0, sym (append_assoc w.ends.0 saved c) ∙ ap (λ t. t ++ c) w.ends.1)

  -- An end of the whole stream with which the prompt may begin lies in what is kept and received.
  Ends-received : (s : List ℕ) → Begins s prompt → Ends s (seen ++ c) → Ends s (saved ++ c)
  Ends-received s b e = elim (Bool-cases (leb (length s) (length (saved ++ c)))) [
    | inl short ↦
        Ends-nested s (saved ++ c) (seen ++ c) e (Ends-seen (saved ++ c) ([], refl)) (ground arith)
    | inr long ↦ absurd (too_long (ground (arith, length-append saved c)))
  ]
    where
      too_long : ¬ (length saved + length c < length s)
      too_long h =
          let (f, k) : Ends c s = Ends-nested c s (seen ++ c) (seen, refl) e (omega arith) in
          let front : Ends f seen = (
            e.0,
            append_cancel_right (e.0 ++ f) seen c
                (append_assoc e.0 f c ∙ ap (λ t. e.0 ++ t) k ∙ e.1),
          ) in
          let start : Begins f prompt =
            (c ++ b.0, sym (append_assoc f c b.0) ∙ ap (λ t. t ++ b.0) k ∙ b.1) in
          omega (arith, w.longest f front start, length-append f c, ap length k)

-- What one piece does to a detector that holds the longest pending end of the stream.
module _ (det : Detector) (seen c : List ℕ) (w : IsPending det.prompt seen det.saved) where
  -- The prompt is found exactly when the whole stream ends with it.
  feed-found_iff : ((feed det c).found ≡ true) ↔ Ends det.prompt (seen ++ c)
  unfolding feed
  feed-found_iff =
      let here = prompt_detect-found_iff det (det.saved ++ c) in
      (
        (λ h. Ends-seen w c det.prompt (here.0 h)),
        λ h. here.1 (Ends-received w c det.prompt ([], append-nil _) h),
      )

  -- While there is no prompt, the detector goes on holding the longest pending end of the stream.
  feed-IsPending :
      (feed det c).found ≡ false
      → IsPending det.prompt (seen ++ c) (feed det c).det.saved
        × ((feed det c).det.prompt ≡ det.prompt)
  unfolding feed
  feed-IsPending miss =
      let (p, same) = prompt_detect-IsPending det (det.saved ++ c) miss in
      (
        record {
          begins = p.begins;
          ends = Ends-seen w c _ p.ends;
          longest = λ s e b. p.longest s (Ends-received w c s b e) b;
        },
        same,
      )

-- What was let through, with what is held back or with the prompt, is all that was received.
feed_all :
    (det : Detector) (out seen c : List ℕ)
    → out ++ det.saved ≡ seen
    → (out ++ (feed det c).out)
        ++ (if (feed det c).found then det.prompt else (feed det c).det.saved)
      ≡ seen ++ c
unfolding feed
feed_all det out seen c kept =
    append_assoc out _ _
    ∙ ap (λ t. out ++ t) (prompt_detect_lossless det (det.saved ++ c))
    ∙ sym (append_assoc out det.saved c)
    ∙ ap (λ t. t ++ c) kept

-- What holds of the detector between two reads.
record Holds (prompt seen out : List ℕ) (det : Detector) : Type 0 where
  same : det.prompt ≡ prompt
  pending : IsPending det.prompt seen det.saved
  kept : out ++ det.saved ≡ seen

Reads-Holds :
    {prompt seen out : List ℕ} {det : Detector}
    → Reads prompt seen out det
    → Holds prompt seen out det
Reads-Holds {prompt} start = record {
  same = refl;
  pending = record {
    begins = (prompt, refl);
    ends = ([], refl);
    longest = λ s e b. length-le_of_Ends s [] e;
  };
  kept = refl;
}
Reads-Holds (missed {seen} {out} {det} c r h) =
    let v = Reads-Holds r in
    let (p, same) = feed-IsPending det seen c v.pending h in
    let whole = feed_all det out seen c v.kept in
    record {
      same = same ∙ v.same;
      pending = subst (λ q. IsPending q (seen ++ c) (feed det c).det.saved) (sym same) p;
      kept = rw h at whole;
    }

-- A prompt that is cut across any number of reads: after any reads at which it was not reported, the
-- call of the detector for the next read reports it exactly when everything received so far ends with
-- it. What these calls have let through, put together, is then everything in front of the prompt, and
-- else everything but the bytes held back, which are the longest end of it with which the prompt may
-- begin.
pub feed-Reads :
    {prompt seen out : List ℕ} {det : Detector} (c : List ℕ)
    → Reads prompt seen out det
    → (((feed det c).found ≡ true) ↔ Ends prompt (seen ++ c))
      × ((out ++ (feed det c).out)
            ++ (if (feed det c).found then prompt else (feed det c).det.saved)
          ≡ seen ++ c)
      × ((feed det c).found ≡ false → IsPending prompt (seen ++ c) (feed det c).det.saved)
feed-Reads {prompt} {seen} {out} {det} c r =
    let v = Reads-Holds r in
    subst
      (λ p.
        (((feed det c).found ≡ true) ↔ Ends p (seen ++ c))
        × ((out ++ (feed det c).out) ++ (if (feed det c).found then p else (feed det c).det.saved)
            ≡ seen ++ c)
        × ((feed det c).found ≡ false → IsPending p (seen ++ c) (feed det c).det.saved))
      v.same
      (
        feed-found_iff det seen c v.pending,
        feed_all det out seen c v.kept,
        λ h. (feed-IsPending det seen c v.pending h).0,
      )
