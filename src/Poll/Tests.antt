-- ===== src/Poll/Tests.antt =====
-- Runs of the poll list, and its theorems at concrete inputs.
use libappf.Poll.{
  Poll, registered, poll_add, poll_rem, Op, rem, apply, apply_all, Answer, dispatch, poll_run,
}
use libappf.Poll.Registry.{IsRegistry, Added, entry, poll_add-Added, entry-poll_rem}
use libappf.Poll.Dispatch.{ready, poll_run-ready, poll_run_stale}
use libappf.Base.{◌≡◌, arith, ◌∷◌, false, refl, ◌==◌, none, [], true, if◌then◌else◌, List}
use libappf.Base.Int.{negsuc, pos}

abbrev listener : Poll
listener = record { fd = 3; events = 1; revents = 0; context = 10; callback = 1 }

abbrev client : Poll
client = record { fd = 4; events = 1; revents = 0; context = 20; callback = 2 }

abbrev polls : List Poll
polls = listener ∷ client ∷ []

-- The listener's callback closes the client; the client's callback does nothing.
abbrev handler : Poll → List Op
handler p = if p.fd == 3 then rem 4 ∷ [] else []

abbrev both_ready : List Poll → Answer
both_ready ps = record { ret = pos 2; interrupted = false; revents = 1 ∷ 1 ∷ [] }

abbrev by_signal : List Poll → Answer
by_signal ps = record { ret = negsuc 0; interrupted = true; revents = [] }

polls-IsRegistry : IsRegistry polls
unfolding registered
polls-IsRegistry = record { distinct = (refl, (refl, tt)); bounded = omega arith }

run-polls : (poll_run handler both_ready polls).1 ≡ record {
  calls = record listener { revents = 1 } ∷ record client { revents = 1 } ∷ [];
  polls = listener ∷ [];
}
unfolding poll_run dispatch apply_all apply poll_rem
run-polls = refl

poll_add-Added_example : Added 5 1 2 30 polls (poll_add 5 1 2 30 polls)
poll_add-Added_example = poll_add-Added 5 1 2 30 polls polls-IsRegistry

entry-poll_rem_example : entry 4 (poll_rem 3 polls) ≡ entry 4 polls
entry-poll_rem_example = entry-poll_rem 3 4 polls polls-IsRegistry.distinct

poll_run-ready_example :
    ((poll_run handler both_ready polls).0 ≡ pos 2)
    × ((poll_run handler both_ready polls).1.calls ≡ ready polls (1 ∷ 1 ∷ []))
poll_run-ready_example =
    poll_run-ready handler both_ready polls polls-IsRegistry (λ e. cc) (omega arith)

poll_run_stale_example :
    (entry 4 (apply_all (handler (record listener { revents = 1 })) polls) ≡ none)
    × ((poll_run handler both_ready polls).1.calls
        ≡ record listener { revents = 1 } ∷ record client { revents = 1 } ∷ ready [] [])
poll_run_stale_example =
    poll_run_stale handler both_ready listener client [] 1 1 [] polls-IsRegistry (omega arith) refl
      (omega arith) (omega arith) refl
