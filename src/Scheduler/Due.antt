-- ===== src/Scheduler/Due.antt =====
-- The schedules that are due: `run_due_once`, `_handle_overlap`, `_advance_schedule` and `prune_history`
-- of src/uv_agent/builtin/scheduler/service.py.
pub mod Blocked
pub mod Advanced
pub mod Overlap
use uv_agent.Common.{
  ℕ, ◌+◌, ◌-◌, ◌*◌, Bool, true, false, not, ◌&&◌, ◌||◌, Option, none, some, List, [], ◌∷◌, ◌++◌,
  map, length, take, leb, ltb, ◌==◌, if◌then◌else◌,
}
use uv_agent.Common.Text.{Text, lit, text_eq}
use uv_agent.Common.Outcome.{Outcome, raised, returned, ◌>>=◌}
use uv_agent.Scheduler.Error.{Error}
use uv_agent.Common.Queries.{filter, update_where, order_by}
use uv_agent.Scheduler.Tables.{
  Timing, at, every_seconds, cron, Schedule, PublicRow, public_row, Run, RunStatus, cancelled,
  is_running, Db, refers_to,
}
use uv_agent.Scheduler.Cron.{Calendar, next_cron}
use uv_agent.Scheduler.Params.{microseconds, text_or}
use uv_agent.Scheduler.Service.{Config, at_least_one, has_id}

-- A task that `run_due_once` has created and that has not begun.
pub record Task : Type 0 where
  pub schedule : Schedule
  pub due_at : Option ℕ

pub record State : Type 0 where
  pub db : Db
  pub tasks : List Task

abbrev pub seconds_of : Timing → ℕ
seconds_of (every_seconds n) = n
seconds_of _ = 0

abbrev pub expr_of : Timing → Text
expr_of (cron expr) = expr
expr_of _ = []

-- `_advance_schedule`, the values that it computes: the next time, and whether the schedule stays
-- enabled.
unfoldable pub next_of : Calendar → Schedule → ℕ → Outcome Error (Option ℕ × Bool)
next_of calendar row base =
    if text_eq row.kind (lit "once")
    then returned (none, false)
    else if text_eq row.kind (lit "interval")
    then returned (some (base + microseconds (at_least_one (seconds_of row.timing))), row.enabled)
    else if text_eq row.kind (lit "cron")
    then (do
      next ← next_cron calendar (expr_of row.timing) base row.timezone
      returned (some next, row.enabled))
    else returned (none, row.enabled)

abbrev pub write_next : Option ℕ → Bool → ℕ → Schedule → Schedule
write_next next enabled now row = record row {
  next_run_at = next;
  enabled = enabled;
  updated_at = now;
}

-- `_advance_schedule`
unfoldable pub advance_schedule : Calendar → Schedule → (now base : ℕ) → Db → Outcome Error Db
advance_schedule calendar row now base db = do
  next ← next_of calendar row base
  returned (record db {
    schedules = update_where (has_id row.schedule_id) (write_next next.0 next.1 now) db.schedules;
  })

-- The rows that `_handle_overlap` selects.
abbrev pub runs_now : ℕ → Run → Bool
runs_now id run = refers_to id run.schedule_id && is_running run.status

-- What `_handle_overlap` writes to a run that is replaced.
abbrev pub cancel : ℕ → Run → Run
cancel now run = record run {
  status = cancelled;
  completed_at = some now;
  error = some (lit "Replaced by a newer schedule run.");
}

-- The loop of `executemany`
unfoldable pub cancel_all : ℕ → List Run → List Run → List Run
cancel_all now [] runs = runs
cancel_all now (old ∷ olds) runs =
    cancel_all now olds (update_where (λ run. run.run_id == old.run_id) (cancel now) runs)

abbrev pub is_empty : List Run → Bool
is_empty [] = true
is_empty (run ∷ runs) = false

-- `_handle_overlap`
unfoldable pub handle_overlap : Schedule → ℕ → Db → Db × Bool
unfolding cancel_all
handle_overlap row now db =
    let policy = text_or (some row.overlap_policy) (lit "skip") in
    let running = filter (runs_now row.schedule_id) db.schedule_runs in
    if is_empty running
    then (db, true)
    else if text_eq policy (lit "allow")
    then (db, true)
    else if text_eq policy (lit "replace")
    then (record db { schedule_runs = cancel_all now running db.schedule_runs }, true)
    else (db, false)

abbrev pub is_due_at : ℕ → Option ℕ → Bool
is_due_at now none = false
is_due_at now (some next) = leb next now

-- The condition of the query of `run_due_once`.
abbrev pub is_due : ℕ → Schedule → Bool
is_due now row = row.enabled && is_due_at now row.next_run_at

abbrev pub key : Schedule → ℕ
key row = elim row.next_run_at [ none ↦ 0 | some next ↦ next ]

abbrev pub sooner : Schedule → Schedule → Bool
sooner x y = leb (key x) (key y)

-- The query of `run_due_once`.
unfoldable pub due_rows : Config → ℕ → Db → List Schedule
unfolding order_by filter
due_rows config now db =
    take (at_least_one config.max_concurrent_jobs)
      (order_by sooner (filter (is_due now) db.schedules))

-- What a turn of the loop of `run_due_once` does once it knows whether the row may start.
unfoldable pub start_task :
    Schedule → State → Bool → Outcome Error Db → Db → State × Outcome Error Bool
start_task row s may_start (raised error) db = (record s { db = db }, raised error)
start_task row s true (returned advanced) db = (
  record {
    db = advanced;
    tasks = s.tasks ++ (record { schedule = row; due_at = row.next_run_at }) ∷ [];
  },
  returned true,
)
start_task row s false (returned advanced) db = (record s { db = advanced }, returned false)

-- One turn of the loop of `run_due_once`; it returns whether a task is started.
unfoldable pub start_row : Calendar → (now base : ℕ) → Schedule → State → State × Outcome Error Bool
start_row calendar now base row s =
    let (db, may_start) = handle_overlap row now s.db in
    start_task row s may_start (advance_schedule calendar row now base db) db

-- `started.append` before what the other rows add
unfoldable pub with_row :
    Schedule → State × Outcome Error (List PublicRow) → State × Outcome Error (List PublicRow)
with_row row (last, raised error) = (last, raised error)
with_row row (last, returned others) = (last, returned (public_row row ∷ others))

-- How the loop of `run_due_once` goes on after a turn.
unfoldable pub go_on :
    Schedule
    → State × Outcome Error Bool
    → (State → State × Outcome Error (List PublicRow))
    → State × Outcome Error (List PublicRow)
go_on row (s, raised error) others = (s, raised error)
go_on row (s, returned false) others = others s
go_on row (s, returned true) others = with_row row (others s)

-- The loop of `run_due_once`.
unfoldable pub start_rows :
    Calendar → (now base : ℕ) → List Schedule → State → State × Outcome Error (List PublicRow)
start_rows calendar now base [] s = (s, returned [])
start_rows calendar now base (row ∷ rows) s =
    go_on row (start_row calendar now base row s) (start_rows calendar now base rows)

-- `run_due_once`
unfoldable pub run_due_once :
    Calendar → Config → (now base : ℕ) → State → State × Outcome Error (List PublicRow)
run_due_once calendar config now base s = start_rows calendar now base (due_rows config base s.db) s

-- `prune_history`
unfoldable pub prune_history : Config → ℕ → Db → Db × ℕ
prune_history config now db =
    let cutoff = now - microseconds (at_least_one config.run_history_retention_days * 86_400) in
    let kept = filter (λ run. not (ltb run.started_at cutoff)) db.schedule_runs in
    (record db { schedule_runs = kept }, length db.schedule_runs - length kept)

-- One turn of `_run_loop`: what `run_due_once` raises is logged.
unfoldable pub poll : Calendar → Config → ℕ → State → State
poll calendar config now s =
    let (s', ended) = run_due_once calendar config now now s in
    elim ended [
      | raised error ↦ s'
      | returned started ↦ record s' { db = (prune_history config now s'.db).0 }
    ]

-- `_run_loop`, polling at the given times.
unfoldable pub run_loop : Calendar → Config → List ℕ → State → State
run_loop calendar config [] s = s
run_loop calendar config (now ∷ times) s =
    run_loop calendar config times (poll calendar config now s)
