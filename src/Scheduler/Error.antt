-- ===== src/Scheduler/Error.antt =====
-- The exceptions of src/uv_agent/builtin/scheduler/service.py, one for each place that raises.
use uv_agent.Common.{ℕ}
use uv_agent.Common.Text.{Text}

pub data Error : Type 0 where
  -- _next_cron, and what `zip`, `int` and `ZoneInfo` raise below it
  cron_fields cron_never cron_zip : Error
  invalid_int unknown_zone : (text : Text) → Error
  -- create, _policy and _action
  unsupported_kind unsupported_policy unknown_action : (text : Text) → Error
  helper_or_prompt no_action_id payload_type not_json : Error
  -- _timing, _parse_datetime and _interval_seconds
  no_at at_type no_cron every_type not_positive : Error
  invalid_datetime invalid_timedelta : (text : Text) → Error
  -- update, delete and _schedule
  unknown_schedule : (schedule_id : ℕ) → Error
  -- the foreign key of schedule_runs
  no_such_reference : Error
  -- _call_action, and what an action raises
  not_a_call missing_action_id : Error
  action_failed : (message : Text) → Error
  -- _run_schedule: `json.dumps` cannot sort the keys of a result; the task of a run is cancelled
  not_sortable interrupted : Error
