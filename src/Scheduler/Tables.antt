-- ===== src/Scheduler/Tables.antt =====
-- The two tables of src/uv_agent/builtin/scheduler/service.py. An identifier is a number, and a time
-- that is stored, which the source keeps as text in UTC, is the number of its microseconds, since
-- these texts are ordered as the instants are. A column of JSON holds the value that it stands for.
use uv_agent.Common.{ℕ, Bool, true, false, Option, none, some, List, [], ◌∷◌, ◌==◌, if◌then◌else◌}
use uv_agent.Common.Text.{Text}

-- `action_json`; the payload is the text of a JSON object.
pub record Action : Type 0 where
  pub type : Text
  pub action_id : Text
  pub payload : Text

-- `timing_json`
pub data Timing : Type 0 where
  at : (instant : ℕ) → Timing
  every_seconds : (seconds : ℕ) → Timing
  cron : (expr : Text) → Timing

-- A row of `schedules`.
pub record Schedule : Type 0 where
  pub schedule_id : ℕ
  pub name : Option Text
  pub description : Option Text
  pub kind : Text
  pub enabled : Bool
  pub action : Action
  pub timing : Timing
  pub timezone : Option Text
  pub next_run_at : Option ℕ
  pub misfire_policy : Text
  pub overlap_policy : Text
  pub owner_type : Text
  pub owner_name : Option Text
  pub metadata : Text
  pub created_at : ℕ
  pub updated_at : ℕ

-- What `_public_row` shows of a row.
pub record PublicRow : Type 0 where
  pub schedule_id : ℕ
  pub name : Option Text
  pub description : Option Text
  pub kind : Text
  pub enabled : Bool
  pub action : Action
  pub timing : Timing
  pub timezone : Option Text
  pub next_run_at : Option ℕ
  pub misfire_policy : Text
  pub overlap_policy : Text
  pub metadata : Text
  pub created_at : ℕ
  pub updated_at : ℕ

-- `_public_row`
unfoldable pub public_row : Schedule → PublicRow
public_row row = record {
  schedule_id = row.schedule_id;
  name = row.name;
  description = row.description;
  kind = row.kind;
  enabled = row.enabled;
  action = row.action;
  timing = row.timing;
  timezone = row.timezone;
  next_run_at = row.next_run_at;
  misfire_policy = row.misfire_policy;
  overlap_policy = row.overlap_policy;
  metadata = row.metadata;
  created_at = row.created_at;
  updated_at = row.updated_at;
}

pub data RunStatus : Type 0 where
  running completed failed cancelled : RunStatus

-- A row of `schedule_runs`.
pub record Run : Type 0 where
  pub run_id : ℕ
  pub schedule_id : Option ℕ
  pub status : RunStatus
  pub action : Action
  pub snapshot : PublicRow
  pub result : Option Text
  pub error : Option Text
  pub workflow_id : Option Text
  pub due_at : Option ℕ
  pub started_at : ℕ
  pub completed_at : Option ℕ

pub record Db : Type 0 where
  pub schedules : List Schedule
  pub schedule_runs : List Run

-- `WHERE schedule_id = ?`
unfoldable pub find_schedule : ℕ → List Schedule → Option Schedule
find_schedule id [] = none
find_schedule id (row ∷ rows) =
    let rest = find_schedule id rows in if row.schedule_id == id then some row else rest

-- The test of `run.schedule_id` against a schedule.
abbrev pub refers_to : ℕ → Option ℕ → Bool
refers_to id none = false
refers_to id (some other) = other == id

abbrev pub is_running : RunStatus → Bool
is_running running = true
is_running _ = false
