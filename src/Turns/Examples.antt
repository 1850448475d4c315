-- ===== src/Turns/Examples.antt =====
-- Small runs of the supervisor, and the theorems about it at those.
use uv_agent.Common.{ℕ, ◌<◌, ◌≡◌, refl, true, none, some, [], ◌∷◌, ◌++◌, arith}
use uv_agent.Common.Text.{Text, lit, text_eq}
use uv_agent.Turns.Handle.{
  Conflict, queue, interrupt, UserInput, Outcome, returned, Handle, new_handle, mark_merged, begin,
  read_conflict,
}
use uv_agent.Turns.Thread.{
  Thread, by_interrupt, Submitted, accepted, submit, submit_locked, submit_busy, allocate,
  ensure_worker, absorb_queue, start_takeover, merge_pending, signal, choose, new_thread,
  pending_inputs, inputs_of, busy,
}
use uv_agent.Turns.Invariant.{IsSound, new_thread-IsSound}
use uv_agent.Turns.Steps.{submits, Reach, here, next, Reach-IsSound, new_handle-IsFresh}
use uv_agent.Turns.Pending.{submit-pending_inputs}
use uv_agent.Turns.Accounted.Cover.{unfinished}
use uv_agent.Turns.Drain.{drain, drain-finishes}
use uv_agent.Turns.Signals.{raised, submit-raised}
use uv_agent.Turns.Streams.{IsStream, Reach-Streams}
use uv_agent.Turns.Manager.Replies.{AllSound, Accepts, submit_turn-Accepts}
use uv_agent.Turns.Manager.{Manager, Reply, submit_turn, new_manager}

abbrev message : Text → UserInput
message text = record { text = text; image_paths = []; attachments = [] }

abbrev request : Text → Conflict → Handle
request text conflict = new_handle text (message text) (some (lit "t")) none conflict

-- A submission that is accepted.
abbrev grant : Submitted → Thread
grant (accepted t) = t
grant _ = new_thread

-- A first message, which becomes active; a second one, which is queued; and an interrupt.
abbrev first : Thread
first = grant (submit (request (lit "one") queue) new_thread)

abbrev second : Thread
second = grant (submit (request (lit "two") queue) first)

abbrev third : Thread
third = grant (submit (request (lit "stop") interrupt) second)

supervisor : Unit {0}
unfolding submit submit_locked submit_busy allocate ensure_worker new_thread absorb_queue
    start_takeover merge_pending signal mark_merged new_handle pending_inputs inputs_of
    read_conflict text_eq submit_turn new_manager begin choose
supervisor = tt

first-submit : submit (request (lit "one") queue) new_thread ≡ accepted first
unfolding supervisor
first-submit = refl

second-submit : submit (request (lit "two") queue) first ≡ accepted second
unfolding supervisor
second-submit = refl

third-submit : submit (request (lit "stop") interrupt) second ≡ accepted third
unfolding supervisor
third-submit = refl

Reach-second : Reach new_thread second
Reach-second =
    next
      (next here
        (submits (lit "one") (message (lit "one")) (some (lit "t")) none queue first-submit))
      (submits (lit "two") (message (lit "two")) (some (lit "t")) none queue second-submit)

Reach-IsSound_example : IsSound second
Reach-IsSound_example = Reach-IsSound Reach-second

second-active : (second.active ≡ some 0) × (busy second ≡ true)
unfolding supervisor
second-active = (refl, refl)

submit-pending_inputs_example :
    pending_inputs third ≡ pending_inputs second ++ message (lit "stop") ∷ []
unfolding new_handle
submit-pending_inputs_example =
    submit-pending_inputs (request (lit "stop") interrupt) second third
      (new_handle-IsFresh (lit "stop") (message (lit "stop")) (some (lit "t")) none interrupt)
      (Reach-IsSound Reach-second) second-active.1 third-submit

-- The interrupt reads both texts, oldest first.
third-texts : pending_inputs third ≡ message (lit "two") ∷ message (lit "stop") ∷ []
unfolding supervisor
third-texts = refl

outcomes : ℕ → Outcome
outcomes i = returned

drain-finishes_example :
    ((drain 3 outcomes second).worker ≡ none)
    × (unfinished (drain 3 outcomes second) ≡ [])
    × ((j : ℕ) → j < second.next → ((drain 3 outcomes second).store j).done ≡ true)
unfolding supervisor outcomes
drain-finishes_example =
    drain-finishes second outcomes 3 Reach-second refl (λ i. λ e. cc) (omega arith)

submit-raised_example :
    (third.active ≡ some 0)
    × (third.takeover_mode ≡ some by_interrupt)
    × (raised by_interrupt (third.store 0) ≡ true)
unfolding supervisor
submit-raised_example =
    submit-raised (request (lit "stop") interrupt) second third 0 by_interrupt
      (Reach-IsSound Reach-second) second-active.0 refl third-submit

Reach-Streams_example : IsStream (second.store 0)
Reach-Streams_example = Reach-Streams Reach-second 0

new_manager-AllSound : AllSound new_manager
unfolding new_manager
new_manager-AllSound name = new_thread-IsSound

submit_turn-Accepts_example :
    Accepts (some (lit "t")) new_manager (
      submit_turn (lit "one") (message (lit "one")) (some (lit "t")) none (lit "guide") new_manager)
submit_turn-Accepts_example =
    submit_turn-Accepts (lit "one") (message (lit "one")) (some (lit "t")) none (lit "guide")
      new_manager new_manager-AllSound

abbrev busy_manager : Manager
busy_manager = record { threads = λ name. second; detached = [] }

submit_turn-rejects :
    submit_turn (lit "x") (message (lit "x")) (some (lit "t")) none (lit "reject") busy_manager
    ≡ Reply.conflicting
unfolding supervisor
submit_turn-rejects = refl
