-- ===== src/Client/Prompt/Tests.antt =====
-- Runs of the prompt detector, and its theorems at concrete inputs.
use libappf.Client.Prompt.{Detector, window, matches, first_match, conclude, prompt_detect, feed}
use libappf.Client.Prompt.Match.{Ends}
use libappf.Client.Prompt.Detect.{
  IsPending, prompt_detect-found_iff, prompt_detect_lossless, prompt_detect-IsPending,
}
use libappf.Client.Prompt.Stream.{Reads, start, missed, feed-Reads}
use libappf.Base.{refl, [], ◌≡◌, ℕ, true, ◌∷◌, ◌↔◌, if◌then◌else◌, ◌++◌, List, false}

-- The prompt `dc>`.
abbrev prompt : List ℕ
prompt = b'd' ∷ b'c' ∷ b'>' ∷ []

abbrev fresh : Detector
fresh = record { prompt = prompt; saved = [] }

abbrev line : List ℕ
line = b'o' ∷ b'k' ∷ prompt

abbrev cut : List ℕ
cut = b'o' ∷ b'k' ∷ b'd' ∷ b'd' ∷ b'c' ∷ []

detect_cut : (prompt_detect fresh cut).det.saved ≡ b'd' ∷ b'c' ∷ []
unfolding prompt_detect conclude first_match matches window
detect_cut = refl

prompt_detect-found_iff_example : ((prompt_detect fresh line).found ≡ true) ↔ Ends prompt line
prompt_detect-found_iff_example = prompt_detect-found_iff fresh line

prompt_detect_lossless_example :
    let r = prompt_detect fresh cut in r.out ++ (if r.found then prompt else r.det.saved) ≡ cut
prompt_detect_lossless_example = prompt_detect_lossless fresh cut

prompt_detect-IsPending_example :
    IsPending prompt cut (prompt_detect fresh cut).det.saved
    × ((prompt_detect fresh cut).det.prompt ≡ prompt)
unfolding prompt_detect conclude first_match matches window
prompt_detect-IsPending_example = prompt_detect-IsPending fresh cut refl

-- The prompt cut over three reads, behind a false start: `okddc`, `d` and `c>`.
abbrev second : Detector
second = record { prompt = prompt; saved = b'd' ∷ [] }

second-Reads : Reads prompt (cut ++ b'd' ∷ []) cut second
unfolding feed prompt_detect conclude first_match matches window
second-Reads = missed (b'd' ∷ []) (missed cut start refl) refl

feed-Reads_example :
    (((feed second (b'c' ∷ b'>' ∷ [])).found ≡ true)
      ↔ Ends prompt ((cut ++ b'd' ∷ []) ++ b'c' ∷ b'>' ∷ []))
    × ((cut ++ (feed second (b'c' ∷ b'>' ∷ [])).out)
          ++ (if (feed second (b'c' ∷ b'>' ∷ [])).found
              then prompt
              else (feed second (b'c' ∷ b'>' ∷ [])).det.saved)
        ≡ (cut ++ b'd' ∷ []) ++ b'c' ∷ b'>' ∷ [])
    × ((feed second (b'c' ∷ b'>' ∷ [])).found ≡ false
        → IsPending prompt
            ((cut ++ b'd' ∷ []) ++ b'c' ∷ b'>' ∷ [])
            (feed second (b'c' ∷ b'>' ∷ [])).det.saved)
feed-Reads_example = feed-Reads (b'c' ∷ b'>' ∷ []) second-Reads

third_found : (feed second (b'c' ∷ b'>' ∷ [])).found ≡ true
unfolding feed prompt_detect conclude first_match matches window
third_found = refl
