-- ===== src/Turns/Steps.antt =====
-- The runs of one thread of src/uv_agent/turn_manager.py: submissions, which may come at any time,
-- interleaved with the sections of the worker task and with the events of the engine. Tasks that
-- `aclose` cancels are not in these runs.
use uv_agent.Common.{ℕ, ◌≡◌, ◌≢◌, refl, Option, some}
use uv_agent.Common.Text.{Text}
use uv_agent.Turns.Handle.{Conflict, UserInput, Event, Outcome, new_handle}
use uv_agent.Turns.Thread.{
  Thread, choosing, running, settling, accepted, submit, choose, engine_event, engine_end, settle,
  new_thread,
}
use uv_agent.Turns.Line.{IsFresh}
use uv_agent.Turns.Invariant.{
  IsSound, new_thread-IsSound, choose-IsSound, engine_event-IsSound, engine_end-IsSound,
  settle-IsSound,
}
use uv_agent.Turns.Invariant.Submit.{submit-Good}

pub data Step : Thread → Thread → Type 0 where
  submits :
      {t t' : Thread} (request_id : Text) (input : UserInput) (thread_id level : Option Text)
      (conflict : Conflict)
      → submit (new_handle request_id input thread_id level conflict) t ≡ accepted t'
      → Step t t'
  chooses : {t : Thread} → t.worker ≡ some choosing → Step t (choose t)
  receives :
      {t : Thread} (h : ℕ) (e : Event) → t.worker ≡ some (running h) → Step t (engine_event h e t)
  ends :
      {t : Thread} (h : ℕ) (outcome : Outcome)
      → outcome ≢ Outcome.was_cancelled
      → t.worker ≡ some (running h)
      → Step t (engine_end h outcome t)
  settles :
      {t : Thread} (h : ℕ) (outcome : Outcome)
      → outcome ≢ Outcome.was_cancelled
      → t.worker ≡ some (settling h outcome)
      → Step t (settle h outcome t)

pub data Reach (s : Thread) : Thread → Type 0 where
  here : Reach s s
  next : {t u : Thread} → Reach s t → Step t u → Reach s u

pub new_handle-IsFresh :
    (request_id : Text) (input : UserInput) (thread_id level : Option Text) (conflict : Conflict)
    → IsFresh (new_handle request_id input thread_id level conflict)
unfolding new_handle
new_handle-IsFresh request_id input thread_id level conflict = (refl, refl, refl)

pub Step-IsSound : {t u : Thread} → Step t u → IsSound t → IsSound u
Step-IsSound (submits {t = t} request_id input thread_id level conflict e) s = rw e at (
    submit-Good (new_handle request_id input thread_id level conflict) t
      (new_handle-IsFresh request_id input thread_id level conflict) s)
Step-IsSound (chooses {t = t} w) s = choose-IsSound t w s
Step-IsSound (receives {t = t} h e w) s = engine_event-IsSound t h e w s
Step-IsSound (ends {t = t} h outcome alive w) s = engine_end-IsSound t h outcome w s
Step-IsSound (settles {t = t} h outcome alive w) s = settle-IsSound t h outcome alive w s

-- In every thread that steps reach from a new one: the active handle and those that wait, from the
-- queue or as the takeover, are different objects in the order of their submission, and those that
-- wait are queued, not done, and have no event yet; none waits in the queue beside a takeover,
-- which has a mode exactly while it is there; and the worker serves: it runs or settles the active
-- handle, it is about to choose one, or there is no worker and nothing to do.
pub Reach-IsSound : {t : Thread} → Reach new_thread t → IsSound t
Reach-IsSound here = new_thread-IsSound
Reach-IsSound (next r st) = Step-IsSound st (Reach-IsSound r)
