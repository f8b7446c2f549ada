-- ===== src/Client.antt =====
-- appf_client.c and `struct _af_client_s` of appf.h: the telnet client.
pub mod Prompt
pub mod New
pub mod Send
pub mod Connect
mod Tests
use libappf.Base.{ℕ, List, Option}
use libappf.Base.Int.{ℤ}

-- `struct _af_client_s`. `prompt` holds the first `prompt_len` bytes of the C array and `saved` the
-- first `saved_len`; `service` is `none` and `extra_data` is `none` where the pointer is NULL.
pub record Client : Type 0 where
  pub service : Option (List ℕ)
  pub port : ℤ
  pub ip : ℕ
  pub sock : ℤ
  pub prompt : List ℕ
  pub saved : List ℕ
  pub extra_data : Option ℕ

-- `MAX_PROMPT`
abbrev pub max_prompt : ℕ
max_prompt = 32
