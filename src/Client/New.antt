-- ===== src/Client/New.antt =====
-- `af_client_new` of appf_client.c, and the bounds of the client's two arrays.
use libappf.Base.{
  ℕ, List, Option, [], none, some, if◌then◌else◌, take, ◌≤◌, ◌≡◌, length, arith, ◌-◌, length-take,
  refl, length-drop,
}
use libappf.Base.Int.{ℤ, negsuc}
use libappf.Client.{Client, max_prompt}
use libappf.Client.Prompt.{window, conclude, prompt_detect, first_match, Detector}
use libappf.Server.Start.{Servent, get_prompt, get_port, is_zero}

-- `strncpy( client->prompt, prompt, MAX_PROMPT )` and `strlen`. With 32 bytes or more the array has
-- no NUL, and `strlen` stops at the bytes of `prompt_len`, which are still 0.
unfoldable pub copy_prompt : List ℕ → List ℕ
copy_prompt p = take max_prompt p

abbrev pub made : Option (List ℕ) → ℕ → ℤ → List ℕ → Client
made service ip port prompt = record {
  service = service;
  port = port;
  ip = ip;
  sock = negsuc 0;
  prompt = prompt;
  saved = [];
  extra_data = none;
}

-- The prompt: the one given, or that of the service; `none` where neither is there.
unfoldable pub choose_prompt :
    Option Servent → List ℕ → Option (List ℕ) → Option (List ℕ) → Option (List ℕ)
unfolding copy_prompt
choose_prompt servent buffer service (some p) = some (copy_prompt p)
choose_prompt servent buffer none none = some []
choose_prompt servent buffer (some name) none = elim ((get_prompt servent buffer).0) [
  | none ↦ none
  | some p ↦ some (copy_prompt p)
]

-- The port: the one given, or that of the service.
unfoldable pub choose_port : Option Servent → Option (List ℕ) → ℤ → ℤ
choose_port servent none port = port
choose_port servent (some name) port = if is_zero port then get_port servent else port

-- `af_client_new` with what `getservbyname` reports and the static buffer of `af_server_get_prompt`;
-- `calloc` succeeds.
unfoldable pub client_new :
    Option Servent → List ℕ → Option (List ℕ) → ℕ → ℤ → Option (List ℕ) → Option Client
unfolding choose_prompt choose_port
client_new servent buffer service ip port prompt =
    elim (choose_prompt servent buffer service prompt) [
      | none ↦ none
      | some p ↦ some (made service ip (choose_port servent service port) p)
    ]

-- The client has no socket, its prompt fits into the array, and nothing is kept back.
pub record IsNew (c : Client) : Type 0 where
  pub fits : length c.prompt ≤ max_prompt
  pub nothing_saved : c.saved ≡ []
  pub no_socket : c.sock ≡ negsuc 0

length-copy_prompt : (p : List ℕ) → length (copy_prompt p) ≤ max_prompt
unfolding copy_prompt
length-copy_prompt p = omega (arith, length-take max_prompt p)

choose_prompt-length :
    (servent : Option Servent) (buffer : List ℕ) (service prompt : Option (List ℕ)) {p : List ℕ}
    → choose_prompt servent buffer service prompt ≡ some p
    → length p ≤ max_prompt
unfolding choose_prompt
choose_prompt-length servent buffer service (some q) {p} h = ground (arith, h, length-copy_prompt q)
choose_prompt-length servent buffer none none {p} h = ground (arith, h)
choose_prompt-length servent buffer (some name) none {p} h =
    (elim ((get_prompt servent buffer).0)
        as (λ o.
          (elim o as (λ q. Option (List ℕ)) [ none ↦ none | some q ↦ some (copy_prompt q) ])
            ≡ some p
          → length p ≤ max_prompt) [
            | none ↦ λ e. ground (arith, e)
            | some q ↦ λ e. ground (arith, e, length-copy_prompt q)
          ])
      h

-- A client that `af_client_new` makes has no socket and keeps nothing back, and its prompt has at
-- most 32 bytes, whether it was given or found for the service.
pub client_new-IsNew :
    (servent : Option Servent) (buffer : List ℕ) (service : Option (List ℕ)) (ip : ℕ) (port : ℤ)
    (prompt : Option (List ℕ)) {c : Client}
    → client_new servent buffer service ip port prompt ≡ some c
    → IsNew c
unfolding client_new
client_new-IsNew servent buffer service ip port prompt {c} h =
    (elim (choose_prompt servent buffer service prompt)
        as (λ o.
          (choose_prompt servent buffer service prompt ≡ o)
          → (elim o as (λ q. Option Client) [
            | none ↦ none
            | some p ↦ some (made service ip (choose_port servent service port) p)
          ])
            ≡ some c
          → IsNew c) [
            | none ↦ λ e k. absurd (ground (arith, k))
            | some p ↦ λ e k. record {
              fits = ground (arith, k, choose_prompt-length servent buffer service prompt e);
              nothing_saved = ground (arith, k);
              no_socket = ground (arith, k);
            }
          ])
      refl h

length-window : (prompt buf : List ℕ) → length (window prompt buf) ≤ length prompt
unfolding window
length-window prompt buf = ground (arith, length-drop (length buf - length prompt) buf)

-- The bytes that the detector keeps back fit into the array `saved`, for any prompt that fits into
-- the array `prompt` and whatever is read.
pub length-saved :
    (det : Detector) (buf : List ℕ)
    → length det.prompt ≤ max_prompt
    → length (prompt_detect det buf).det.saved ≤ max_prompt
unfolding prompt_detect conclude
length-saved det buf h =
    let saved = window det.prompt buf in
    ground
      (arith, h, length-window det.prompt buf, length-drop (first_match det.prompt saved) saved)
