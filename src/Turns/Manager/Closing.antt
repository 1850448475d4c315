-- ===== src/Turns/Manager/Closing.antt =====
-- What `aclose` of src/uv_agent/turn_manager.py leaves behind in a thread.
use uv_agent.Common.Text.{Text}
use uv_agent.Common.{◌≡◌, Option, none, some, ◌⊎◌}
use uv_agent.Turns.Thread.{Thread, Worker, ended}
use uv_agent.Turns.Line.{IsLine}
use uv_agent.Turns.Invariant.{pending, floor}
use uv_agent.Turns.Manager.{Manager}

-- No task serves the thread any more.
abbrev pub IsStopped : Option Worker → Type 0
IsStopped worker = (worker ≡ none) ⊎ (worker ≡ some ended)

record Closed (t u : Thread) : Type 0 where
  line : IsLine u.store (floor t.active) (pending t) t.next
  waits : pending u ≡ pending t
  stopped : IsStopped u.worker
