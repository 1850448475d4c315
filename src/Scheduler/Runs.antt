-- ===== src/Scheduler/Runs.antt =====
-- The runs of a schedule's action: `run_now`, `_run_with_semaphore`, `_run_schedule` and `_call_action` of
-- src/uv_agent/builtin/scheduler/service.py. What happens to the tables while the action is awaited is a
-- parameter.
pub mod Ended
use uv_agent.Common.{
  ℕ, Bool, true, false, not, Option, none, some, List, [], ◌∷◌, ◌++◌, ◌==◌, if◌then◌else◌,
}
use uv_agent.Common.Text.{Text, lit, text_eq}
use uv_agent.Common.Outcome.{Outcome, raised, returned, ◌>>=◌}
use uv_agent.Scheduler.Error.{
  Error, no_such_reference, not_a_call, missing_action_id, not_json, action_failed, not_sortable,
  interrupted,
}
use uv_agent.Common.Queries.{update_where}
use uv_agent.Scheduler.Tables.{
  Action, Schedule, public_row, Run, RunStatus, running, completed, failed, Db, find_schedule,
}
use uv_agent.Scheduler.Service.{schedule_of}

-- What an action returns: a value that `json.dumps` writes, with the text that it writes when it sorts the
-- keys, or none where they cannot be compared, and with the key "workflow_id" of a dictionary; or a value
-- that it does not write at all.
pub data Value : Type 0 where
  json : (dumped : Option Text) (workflow_id : Option Text) → Value
  refused : Value

-- How the call of an action ends: with a value, with an `Exception`, or with an exception that is none,
-- such as the cancellation of its task.
pub data Called : Type 0 where
  gave : Value → Called
  threw : (message : Text) → Called
  stopped : Called

-- How `_call_action` ends.
pub data ActionEnd : Type 0 where
  value : (dumped : Option Text) (workflow_id : Option Text) → ActionEnd
  failure : Error → ActionEnd
  cancelled_task : ActionEnd

-- What `_run_schedule` returns.
pub record Response : Type 0 where
  pub run_id : ℕ
  pub schedule_id : ℕ
  pub status : RunStatus
  pub result : Option Text
  pub error : Option Error
  pub workflow_id : Option Text

-- The columns that the end of a run writes.
pub record Ending : Type 0 where
  pub status : RunStatus
  pub result : Option Text
  pub error : Option Error
  pub workflow_id : Option Text

-- What runs the action of an identifier, with its payload, and the text of an exception.
module _ (caller : Text → Text → Called) (message : Error → Text) where
  abbrev jsonable : Called → ActionEnd
  jsonable (threw text) = failure (action_failed text)
  jsonable stopped = cancelled_task
  jsonable (gave refused) = failure not_json
  jsonable (gave (json dumped workflow_id)) = value dumped workflow_id

  -- `_call_action`
  unfoldable pub call_action : Action → ActionEnd
  call_action action =
      if not (text_eq action.type (lit "action.call"))
      then failure not_a_call
      else if text_eq action.action_id []
      then failure missing_action_id
      else jsonable (caller action.action_id action.payload)

  -- A workflow's identifier that is empty counts as none.
  abbrev workflow_of : Option Text → Option Text
  workflow_of none = none
  workflow_of (some []) = none
  workflow_of (some (c ∷ s)) = some (c ∷ s)

  -- How `_run_schedule` reads the end of the action, and `_dumps(payload)`: only an `Exception` of the
  -- action is caught, and nothing that the sorting of the keys raises.
  unfoldable pub ending_of : ActionEnd → Outcome Error Ending
  ending_of (failure error) =
      returned (record { status = failed; result = none; error = some error; workflow_id = none })
  ending_of cancelled_task = raised interrupted
  ending_of (value none workflow_id) = raised not_sortable
  ending_of (value (some dumped) workflow_id) = returned (record {
    status = completed;
    result = some dumped;
    error = none;
    workflow_id = workflow_of workflow_id;
  })

  -- `_run_schedule`, its first statement: a row of a schedule that is gone is refused.
  unfoldable pub begin_run :
      (run_id : ℕ) → Schedule → Option ℕ → (started : ℕ) → Db → Outcome Error Db
  begin_run run_id schedule due_at started db =
      elim (find_schedule schedule.schedule_id db.schedules) [
        | none ↦ raised no_such_reference
        | some row ↦ returned (record db {
          schedule_runs =
              db.schedule_runs
              ++ (record {
                run_id = run_id;
                schedule_id = some schedule.schedule_id;
                status = running;
                action = schedule.action;
                snapshot = public_row schedule;
                result = none;
                error = none;
                workflow_id = none;
                due_at = due_at;
                started_at = started;
                completed_at = none;
              })
                ∷ [];
        })
      ]

  abbrev pub write_ending : Ending → ℕ → Run → Run
  write_ending ending now run = record run {
    status = ending.status;
    result = ending.result;
    error = elim ending.error [ none ↦ none | some error ↦ some (message error) ];
    workflow_id = ending.workflow_id;
    completed_at = some now;
  }

  -- `_run_schedule`, its last statement
  unfoldable pub finish_run : (run_id : ℕ) → Ending → (now : ℕ) → Db → Db
  finish_run run_id ending now db = record db {
    schedule_runs =
        update_where (λ run. run.run_id == run_id) (write_ending ending now) db.schedule_runs;
  }

  abbrev pub response_of : (run_id schedule_id : ℕ) → Ending → Response
  response_of run_id schedule_id ending = record {
    run_id = run_id;
    schedule_id = schedule_id;
    status = ending.status;
    result = ending.result;
    error = ending.error;
    workflow_id = ending.workflow_id;
  }

  -- The last statements of `_run_schedule`.
  unfoldable pub conclude :
      (run_id schedule_id now : ℕ) → Outcome Error Ending → Db → Db × Outcome Error Response
  conclude run_id schedule_id now (raised error) db = (db, raised error)
  conclude run_id schedule_id now (returned ending) db =
      (finish_run run_id ending now db, returned (response_of run_id schedule_id ending))

  -- `_run_schedule`; `meanwhile` is what others do to the tables while the action runs.
  unfoldable pub run_schedule :
      (meanwhile : Db → Db)
      → (run_id : ℕ) → Schedule
      → Option ℕ
      → (started completed_at : ℕ) → Db
      → Db × Outcome Error Response
  run_schedule meanwhile run_id schedule due_at started completed_at db =
      elim (begin_run run_id schedule due_at started db) [
        | raised error ↦ (db, raised error)
        | returned begun ↦
            conclude run_id schedule.schedule_id completed_at
              (ending_of (call_action schedule.action)) (meanwhile begun)
      ]

  -- `run_now`
  unfoldable pub run_now :
      (meanwhile : Db → Db)
      → (run_id : ℕ) → (schedule_id : ℕ) → (now completed_at : ℕ) → Db
      → Db × Outcome Error Response
  run_now meanwhile run_id schedule_id now completed_at db = elim (schedule_of schedule_id db) [
    | raised error ↦ (db, raised error)
    | returned schedule ↦ run_schedule meanwhile run_id schedule (some now) now completed_at db
  ]
