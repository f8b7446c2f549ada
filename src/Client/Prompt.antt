-- ===== src/Client/Prompt.antt =====
-- `_af_client_prompt_detect` of appf_client.c: it looks for the prompt at the end of the bytes that
-- were read, and keeps back what may be the beginning of a prompt.
pub mod Match
pub mod Detect
pub mod Stream
mod Tests
use libappf.Base.{
  ℕ, zero, suc, ◌+◌, ◌-◌, Bool, true, false, ◌&&◌, List, [], ◌∷◌, ◌++◌, ◌==◌, leb, if◌then◌else◌,
  length, take, drop,
}

-- The fields of the client that the function uses.
pub record Detector : Type 0 where
  pub prompt : List ℕ
  pub saved : List ℕ

-- What the function leaves: its result, the bytes that stay in the buffer, and the client.
pub record Detected : Type 0 where
  pub found : Bool
  pub out : List ℕ
  pub det : Detector

-- The bytes copied to `saved`: the last `prompt_len` of the buffer, or all of a shorter one.
unfoldable pub window : List ℕ → List ℕ → List ℕ
window prompt buf =
    if leb (length prompt) (length buf) then drop (length buf - length prompt) buf else buf

-- The inner loop: `saved[i + prompt_idx] == prompt[i]` up to the end of `saved`.
pub matches : List ℕ → List ℕ → Bool
matches [] prompt = true
matches (x ∷ xs) [] = false
matches (x ∷ xs) (p ∷ ps) = if x == p then matches xs ps else false

-- The outer loop: the first `prompt_idx` at which the inner loop comes to the end, or `saved_len`.
pub first_match : List ℕ → List ℕ → ℕ
first_match prompt [] = 0
first_match prompt (x ∷ xs) =
    let rest = first_match prompt xs in if matches (x ∷ xs) prompt then 0 else suc rest

-- What is done once `prompt_idx` is known.
unfoldable pub conclude : List ℕ → List ℕ → List ℕ → ℕ → Detected
conclude prompt buf saved idx =
    if (idx == 0) && (length saved == length prompt)
    then record {
      found = true;
      out = take (length buf - length prompt) buf;
      det = record { prompt = prompt; saved = [] };
    }
    else record {
      found = false;
      out = take (length buf - length (drop idx saved)) buf;
      det = record { prompt = prompt; saved = drop idx saved };
    }

-- `_af_client_prompt_detect( det, buf, len )`; the list is `buf[0 .. *len)`.
unfoldable pub prompt_detect : Detector → List ℕ → Detected
prompt_detect det buf =
    let saved = window det.prompt buf in
    conclude det.prompt buf saved (first_match det.prompt saved)

-- One round of `af_client_read_socket`: the bytes kept back are put in front of those received.
pub feed : Detector → List ℕ → Detected
feed det received = prompt_detect det (det.saved ++ received)
