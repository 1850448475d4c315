-- ===== src/Scheduler/Examples.antt =====
-- Two schedules and a calendar in which all months are January, and the theorems about the scheduler
-- at them.
use mathlib.Core.Path.{subst}
use uv_agent.Common.{
  sym, ◌+◌, ◌*◌, ◌/◌, ◌%◌, ◌≡◌, refl, true, false, none, some, List, [], ◌∷◌, ◌++◌, map, length,
  inl, inr, All, arith,
}
use uv_agent.Common.Text.{Text, lit, text_eq, strip, lstrip}
use uv_agent.Common.Outcome.{raised, returned}
use uv_agent.Scheduler.Error.{Error, cron_fields}
use uv_agent.Common.Queries.{update_where, filter}
use uv_agent.Scheduler.Tables.{
  Action, every_seconds, cron, Schedule, public_row, Run, RunStatus, running, Db,
}
use uv_agent.Scheduler.Cron.{
  utc, Calendar, split, split_at, zone_of, minutes_tried, next_cron, field_matches,
}
use uv_agent.Scheduler.Cron.Search.{FirstOf, next_cron-FirstOf}
use uv_agent.Scheduler.Cron.Items.{
  step, single, any_admits, render_field, field_matches-render_field,
}
use uv_agent.Scheduler.Params.{
  Given, Payload, At, Every, Params, Host, is_in, policy, action_of, timing_of, interval_seconds,
  Resolved, Delta,
}
use uv_agent.Scheduler.Due.{
  State, due_rows, run_due_once, start_rows, start_row, handle_overlap, start_task, go_on, with_row,
  advance_schedule, next_of, run_loop,
}
use uv_agent.Scheduler.Due.Advanced.{RunsSteady, AllAhead, run_due_once-ahead}
use uv_agent.Scheduler.Due.Overlap.{Chosen, task_for, run_due_once-Chosen}
use uv_agent.Scheduler.Due.Blocked.{Blocks, CannotAdvance, Same, run_loop-Same}
use uv_agent.Scheduler.Runs.{Called, threw}
use uv_agent.Scheduler.Service.Timezone.{update_raises}
use uv_agent.Scheduler.Sound.Steps.{AllRows, start, more, created, Reach-AllRows}
use uv_agent.Scheduler.Service.{Config, NewSchedule, create, Changes, update}

abbrev calendar : Calendar
calendar = record {
  zone_info = λ name. none;
  wall_minute = λ zone time. time / 60_000_000;
  instant = λ zone minute. minute * 60_000_000;
  fields = λ minute. record {
    minute = minute % 60;
    hour = minute / 60 % 24;
    day = minute / 1440 + 1;
    month = 1;
    weekday = 0;
  };
}

-- At each quarter of an hour.
abbrev quarters : Text
quarters = lit "*/15 * * * *"

quarters_five : length (split quarters) ≡ 5
unfolding split split_at
quarters_five = refl

quarters_utc : zone_of calendar none ≡ returned utc
unfolding zone_of
quarters_utc = refl

next_cron-FirstOf_example :
    FirstOf calendar utc
      (split quarters)
      minutes_tried
      (calendar.wall_minute utc 0 + 1)
      (next_cron calendar quarters 0 none)
next_cron-FirstOf_example =
    next_cron-FirstOf calendar utc quarters 0 none quarters_five quarters_utc

field_matches-render_field_example :
    field_matches (render_field (step 15 ∷ single 7 ∷ [])) 7 0 59
    ≡ returned (any_admits 7 0 59 (step 15 ∷ single 7 ∷ []))
field_matches-render_field_example =
    field_matches-render_field (step 15 ∷ single 7 ∷ []) 7 0 59 (cc) (omega arith)

abbrev action : Action
action = record { type = lit "action.call"; action_id = lit "report"; payload = lit "{}" }

-- Every hour, due at 60 seconds.
abbrev hourly : Schedule
hourly = record {
  schedule_id = 1;
  name = none;
  description = none;
  kind = lit "interval";
  enabled = true;
  action = action;
  timing = every_seconds 3600;
  timezone = none;
  next_run_at = some 60_000_000;
  misfire_policy = lit "skip";
  overlap_policy = lit "replace";
  owner_type = lit "agent";
  owner_name = none;
  metadata = lit "{}";
  created_at = 0;
  updated_at = 0;
}

-- On a day that the calendar never shows.
abbrev impossible : Schedule
impossible = record hourly {
  schedule_id = 2;
  kind = lit "cron";
  timing = cron (lit "0 0");
  next_run_at = some 30_000_000;
}

abbrev old_run : Run
old_run = record {
  run_id = 9;
  schedule_id = some 1;
  status = running;
  action = action;
  snapshot = public_row hourly;
  result = none;
  error = none;
  workflow_id = none;
  due_at = none;
  started_at = 0;
  completed_at = none;
}

abbrev db : Db
db = record { schedules = hourly ∷ []; schedule_runs = old_run ∷ [] }

abbrev state : State
state = record { db = db; tasks = [] }

abbrev config : Config
config = record {
  max_concurrent_jobs = 8;
  run_history_retention_days = 7;
  default_misfire_policy = lit "skip";
  default_overlap_policy = lit "skip";
}

hourly_due : due_rows config 70_000_000 db ≡ hourly ∷ []
unfolding due_rows
hourly_due = refl

hourly_starts :
    (run_due_once calendar config 70_000_000 70_000_000 state).1 ≡ returned (public_row hourly ∷ [])
unfolding run_due_once start_rows start_row handle_overlap start_task go_on with_row
    advance_schedule next_of due_rows filter text_eq update_where
hourly_starts = refl

hourly_steady : RunsSteady calendar hourly
hourly_steady zone known time minute later = omega (arith, later)

run_due_once-ahead_example :
    All
      (λ row.
        AllAhead 70_000_000 row.schedule_id
          (run_due_once calendar config 70_000_000 70_000_000 state).0.db)
      (due_rows config 70_000_000 db)
run_due_once-ahead_example =
    run_due_once-ahead calendar config 70_000_000 70_000_000 state
      (subst (All (RunsSteady calendar)) (sym hourly_due) (hourly_steady, tt)) hourly_starts

run_due_once-Chosen_example :
    (chosen : List Schedule) × Chosen db.schedule_runs
      (run_due_once calendar config 70_000_000 70_000_000 state).0.db.schedule_runs
      (due_rows config 70_000_000 db)
      chosen
    × ((run_due_once calendar config 70_000_000 70_000_000 state).0.tasks
        ≡ [] ++ map task_for chosen)
    × (public_row hourly ∷ [] ≡ map public_row chosen)
run_due_once-Chosen_example =
    run_due_once-Chosen calendar config 70_000_000 70_000_000 state hourly_starts

abbrev blocked : State
blocked = record {
  db = record { schedules = hourly ∷ impossible ∷ []; schedule_runs = [] };
  tasks = [];
}

impossible-Blocks : Blocks impossible 30_000_000 (hourly ∷ impossible ∷ [])
impossible-Blocks = record {
  stored = inr (inl refl);
  enabled = refl;
  waits = refl;
  first = ((λ _ t same. inr (ground (arith, same))), ((λ _ t same. inl refl), tt));
}

impossible_cannot : CannotAdvance calendar config impossible 70_000_000
unfolding next_of next_cron split split_at text_eq
impossible_cannot = (cron_fields, refl)

run_loop-Same_example :
    Same calendar config impossible blocked (run_loop calendar config (70_000_000 ∷ []) blocked)
run_loop-Same_example =
    run_loop-Same calendar config impossible 30_000_000 (70_000_000 ∷ []) blocked impossible-Blocks
      ((omega arith, impossible_cannot), tt)

abbrev caller : Text → Text → Called
caller action_id payload = threw (lit "no such report")

abbrev message : Error → Text
message error = lit "failed"

-- Others cancel the run meanwhile.
abbrev meanwhile : Db → Db
meanwhile d = record d {
  schedule_runs =
      map {A = Run} (λ run. record run { status = RunStatus.cancelled }) d.schedule_runs;
}

abbrev host : Host
host = record {
  calendar = calendar;
  action_resolver = λ id. Resolved.something;
  fromisoformat = λ s. none;
  localized = λ zone time. time;
  make_timedelta = λ s. some (Delta.seconds 60);
}

abbrev to_berlin : Changes
to_berlin = record {
  kind = none;
  name = none;
  description = none;
  enabled = none;
  misfire_policy = none;
  overlap_policy = none;
  metadata = none;
  timezone = some (some (lit "Europe/Berlin"));
  action_id = Given.missing;
  action = Given.missing;
  payload = none;
  at = none;
  every = none;
  cron = Given.missing;
  has_helper = false;
  has_prompt = false;
  allow_missing = false;
}

update_raises_example : (error : Error) × (update host 1 to_berlin 5 5 db ≡ raised error)
update_raises_example = update_raises host 1 to_berlin 5 5 db refl refl refl refl

abbrev params : Params
params = record {
  has_helper = false;
  has_prompt = false;
  action_id = Given.text (lit "report");
  action = Given.missing;
  allow_missing = false;
  payload = Payload.empty;
  at = At.missing;
  every = Every.parts (lit "minutes");
  cron = Given.missing;
  timezone = none;
}

abbrev new : NewSchedule
new = record {
  kind = some (lit "interval");
  name = none;
  description = none;
  enabled = none;
  misfire_policy = none;
  overlap_policy = none;
  metadata = none;
  params = params;
}

abbrev made : Schedule
made = record hourly {
  schedule_id = 2;
  timing = every_seconds 60;
  next_run_at = some 60_000_005;
  overlap_policy = lit "skip";
  created_at = 5;
  updated_at = 5;
}

abbrev with_made : Db
with_made = record db { schedules = hourly ∷ made ∷ [] }

new_created : create host config new 5 5 2 db ≡ returned (with_made, public_row made)
unfolding create action_of timing_of interval_seconds policy is_in strip lstrip text_eq
new_created = refl

hourly-AllRows : AllRows db
unfolding is_in text_eq
hourly-AllRows = (record { timed = (refl, omega arith); misfire = refl; overlap = refl }, tt)

Reach-AllRows_example : AllRows with_made
Reach-AllRows_example =
    Reach-AllRows host config caller message {first = state} {s = record state { db = with_made }}
      hourly-AllRows (more start (created new 5 5 2 (public_row made) new_created))
