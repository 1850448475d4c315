-- ===== src/Turns/Manager.antt =====
-- `TurnManager` of src/uv_agent/turn_manager.py: the threads, the handles that run without one, and
-- the two methods that the host calls.
pub mod Replies
pub mod Closing
use uv_agent.Common.{true, Option, none, some, List, [], ◌∷◌, ◌++◌, if◌then◌else◌}
use uv_agent.Common.Text.{Text, text_eq}
use uv_agent.Turns.Handle.{Conflict, UserInput, Outcome, Handle, new_handle, read_conflict}
use uv_agent.Turns.Thread.{
  Thread, Worker, running, ended, change, Submitted, submit, engine_end, settle, new_thread,
}

-- A name that is not in the source's dictionary stands for a new `_ThreadState` (`setdefault`).
pub record Manager : Type 0 where
  pub threads : Text → Thread
  pub detached : List Handle

abbrev pub set_thread : Text → Thread → (Text → Thread) → (Text → Thread)
set_thread name t threads other = if text_eq name other then t else threads other

-- How `submit_turn` ends: with the handle, or with ValueError, TurnConflictError or RuntimeError.
pub data Reply : Type 0 where
  taken : Manager → Reply
  unsupported conflicting broken : Reply

abbrev pub reply : Manager → Text → Submitted → Reply
reply m name (Submitted.accepted t) = taken (record m { threads = set_thread name t m.threads })
reply m name Submitted.conflicting = conflicting
reply m name Submitted.broken = broken

-- A request without a thread runs in a task of its own.
abbrev pub submit_to : Text → UserInput → Option Text → Option Text → Conflict → Manager → Reply
submit_to request_id input none level conflict m =
    taken
      (record m { detached = m.detached ++ new_handle request_id input none level conflict ∷ [] })
submit_to request_id input (some name) level conflict m =
    reply m name (submit (new_handle request_id input (some name) level conflict) (m.threads name))

unfoldable pub submit_turn : Text → UserInput → Option Text → Option Text → Text → Manager → Reply
submit_turn request_id input thread_id level conflict m = elim (read_conflict conflict) [
  | none ↦ unsupported
  | some c ↦ submit_to request_id input thread_id level c m
]

-- `aclose` sets the cancel event of each active handle.
abbrev cancel : Handle → Handle
cancel h = record h { cancel_event = true }

unfoldable pub cancel_active : Thread → Thread
cancel_active t = elim t.active [ none ↦ t | some i ↦ record t { store = change cancel i t.store } ]

-- It cancels each worker task and waits for it: the task ends where it stands, and inside
-- `_run_handle` by its `except` and `finally` clauses and those of the worker.
abbrev pub stop : Option Worker → Thread → Thread
stop none t = t
stop (some (running h)) t = settle h Outcome.was_cancelled (engine_end h Outcome.was_cancelled t)
stop (some w) t = record t { worker = some ended }

unfoldable pub stop_worker : Thread → Thread
stop_worker t = stop t.worker t

unfoldable pub close_thread : Thread → Thread
close_thread t = stop_worker (cancel_active t)

unfoldable pub aclose : Manager → Manager
aclose m = record m { threads = λ name. close_thread (m.threads name) }

unfoldable pub new_manager : Manager
new_manager = record { threads = λ name. new_thread; detached = [] }
