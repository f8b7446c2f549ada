-- ===== src/Poll.antt =====
-- appf_poll.c: the list of descriptors to poll, and the dispatch of their callbacks.
pub mod Registry
pub mod Dispatch
mod Tests
use libappf.Base.Int.{ℤ, ltb_ℤ, pos, negsuc}
use libappf.Base.{◌||◌, if◌then◌else◌, leb, length, ◌==◌, List, Bool, ◌&&◌, take, ◌∷◌, ℕ, [], false}

-- `struct _af_poll_s`. A descriptor, a context and a callback are only compared and passed on, so
-- any number stands for one; the `next` pointers are the order of the list.
pub record Poll : Type 0 where
  pub fd : ℕ
  pub events : ℕ
  pub revents : ℕ
  pub context : ℕ
  pub callback : ℕ

-- `MAX_FDS`
abbrev pub max_fds : ℕ
max_fds = 256

-- The search of `af_poll_add`: is the descriptor on the list?
unfoldable pub registered : ℕ → List Poll → Bool
registered fd [] = false
registered fd (p ∷ ps) = (p.fd == fd) || registered fd ps

-- `af_poll_add`; `calloc` and `malloc` succeed. `revents` is not set, and not read before it is.
pub poll_add : (fd events callback ctx : ℕ) → List Poll → ℤ × List Poll
poll_add fd events callback ctx ps =
    if registered fd ps
    then (negsuc 1, ps)
    else if leb max_fds (length ps)
    then (negsuc 0, ps)
    else (
      pos 0,
      record { fd = fd; events = events; revents = 0; context = ctx; callback = callback } ∷ ps,
    )

-- `af_poll_rem`: the first entry with the descriptor is unlinked and freed.
pub poll_rem : ℕ → List Poll → List Poll
poll_rem fd [] = []
poll_rem fd (p ∷ ps) = if p.fd == fd then ps else p ∷ poll_rem fd ps

-- What a callback does to the list.
pub data Op : Type 0 where
  add : (fd events callback ctx : ℕ) → Op
  rem : (fd : ℕ) → Op

pub apply : Op → List Poll → List Poll
apply (add fd events callback ctx) ps = (poll_add fd events callback ctx ps).1
apply (rem fd) ps = poll_rem fd ps

pub apply_all : List Op → List Poll → List Poll
apply_all [] ps = ps
apply_all (o ∷ os) ps = apply_all os (apply o ps)

-- What `poll` reports: its result, whether `errno` is EINTR, and the `revents` of each index.
pub record Answer : Type 0 where
  pub ret : ℤ
  pub interrupted : Bool
  pub revents : List ℕ

-- The callbacks made so far, and the list as they left it.
pub record Round : Type 0 where
  pub calls : List Poll
  pub polls : List Poll

-- The loop over `idx`: it runs over the copies `apfds`, whatever the callbacks do to the list.
pub dispatch : (Poll → List Op) → List Poll → List ℕ → List Poll → Round
dispatch handler [] revents ps = record { calls = []; polls = ps }
dispatch handler (p ∷ copies) [] ps = record { calls = []; polls = ps }
dispatch handler (p ∷ copies) (r ∷ revents) ps =
    let called = record p { revents = r } in
    let ps' = if r == 0 then ps else apply_all (handler called) ps in
    let rest = dispatch handler copies revents ps' in
    record { calls = if r == 0 then rest.calls else called ∷ rest.calls; polls = rest.polls }

-- `af_poll_run`, with what `poll` answers for the copied descriptors.
pub poll_run : (Poll → List Op) → (List Poll → Answer) → List Poll → ℤ × Round
poll_run handler poll [] = (pos 0, record { calls = []; polls = [] })
poll_run handler poll (p ∷ ps) =
    let copies = take max_fds (p ∷ ps) in
    let answer = poll copies in
    if ltb_ℤ (pos 0) answer.ret
    then (answer.ret, dispatch handler copies answer.revents (p ∷ ps))
    else (
      if ltb_ℤ answer.ret (pos 0) && answer.interrupted then pos 0 else answer.ret,
      record { calls = []; polls = p ∷ ps },
    )
