-- ===== src/Scheduler/Service.antt =====
-- `create`, `update`, `list`, `delete` and `_schedule` of `SchedulerService` in
-- src/uv_agent/builtin/scheduler/service.py. A call takes all its time stamps at one time.
pub mod Timezone
pub mod Stored
use uv_agent.Common.{
  is_some, ℕ, Bool, true, false, not, ◌&&◌, ◌||◌, Option, none, some, List, [], ◌∷◌, ◌++◌, map,
  take, leb, ◌==◌, if◌then◌else◌,
}
use uv_agent.Common.Text.{Text, lit, text_eq, strip}
use uv_agent.Common.Outcome.{Outcome, raised, returned, ◌>>=◌}
use uv_agent.Scheduler.Error.{Error, unsupported_kind, unknown_schedule}
use uv_agent.Common.Queries.{filter, update_where, order_by}
use uv_agent.Scheduler.Tables.{
  Action, Timing, Schedule, PublicRow, public_row, Run, Db, find_schedule, refers_to,
}
use uv_agent.Scheduler.Params.{
  Given, missing, other, text, Payload, empty, At, Every, Params, Host, misfire_policies,
  overlap_policies, schedule_kinds, is_in, text_or, policy, action_of, timing_of,
}

pub record Config : Type 0 where
  pub max_concurrent_jobs : ℕ
  pub run_history_retention_days : ℕ
  pub default_misfire_policy : Text
  pub default_overlap_policy : Text

abbrev number_or : Option ℕ → ℕ → ℕ
number_or none default = default
number_or (some n) default = if n == 0 then default else n

-- `max(1, n)`
abbrev pub at_least_one : ℕ → ℕ
at_least_one n = if leb 1 n then n else 1

-- `scheduler_config_from_plugin_config`
unfoldable pub config_from : Option ℕ → Option ℕ → Option Text → Option Text → Config
config_from jobs days misfire overlap = record {
  max_concurrent_jobs = at_least_one (number_or jobs 8);
  run_history_retention_days = at_least_one (number_or days 7);
  default_misfire_policy = text_or misfire (lit "skip");
  default_overlap_policy = text_or overlap (lit "skip");
}

-- The arguments of `create`.
pub record NewSchedule : Type 0 where
  pub kind : Option Text
  pub name : Option Text
  pub description : Option Text
  pub enabled : Option Bool
  pub misfire_policy : Option Text
  pub overlap_policy : Option Text
  pub metadata : Option Text
  pub params : Params

abbrev pub flag_or : Option Bool → Bool → Bool
flag_or none default = default
flag_or (some flag) default = flag

-- The row that `create` inserts.
abbrev pub new_row :
    NewSchedule
    → Text
    → Action
    → Timing × Option ℕ
    → (misfire overlap : Text) → (now id : ℕ) → Schedule
new_row new kind action timed misfire overlap now id = record {
  schedule_id = id;
  name = new.name;
  description = new.description;
  kind = kind;
  enabled = flag_or new.enabled true;
  action = action;
  timing = timed.0;
  timezone = new.params.timezone;
  next_run_at = timed.1;
  misfire_policy = misfire;
  overlap_policy = overlap;
  owner_type = lit "agent";
  owner_name = none;
  metadata = text_or new.metadata (lit "{}");
  created_at = now;
  updated_at = now;
}

abbrev pub kind_of : NewSchedule → Text
kind_of new = strip (text_or new.kind [])

-- `create`; `id` is what `new_id` makes.
unfoldable pub create :
    Host → Config → NewSchedule → (now base id : ℕ) → Db → Outcome Error (Db × PublicRow)
create host config new now base id db =
    if not (is_in (kind_of new) schedule_kinds) then raised (unsupported_kind (kind_of new)) else do
      action ← action_of host new.params
      timed ← timing_of host (kind_of new) new.params base
      misfire ← policy new.misfire_policy config.default_misfire_policy misfire_policies
      overlap ← policy new.overlap_policy config.default_overlap_policy overlap_policies
      let row = new_row new (kind_of new) action timed misfire overlap now id
      returned (record db { schedules = db.schedules ++ row ∷ [] }, public_row row)

-- The arguments of `update`; `none` is one that is left out.
pub record Changes : Type 0 where
  pub kind : Option Text
  pub name : Option (Option Text)
  pub description : Option (Option Text)
  pub enabled : Option Bool
  pub misfire_policy : Option Text
  pub overlap_policy : Option Text
  pub metadata : Option Text
  pub timezone : Option (Option Text)
  pub action_id : Given
  pub action : Given
  pub payload : Option Payload
  pub at : Option At
  pub every : Option Every
  pub cron : Given
  pub has_helper : Bool
  pub has_prompt : Bool
  pub allow_missing : Bool

abbrev is_given : Given → Bool
is_given missing = false
is_given _ = true

abbrev value_or {ℓ} : {A : Type ℓ} → Option A → A → A
value_or none default = default
value_or (some value) default = value

-- `params["action_id"]` and `params["action"]`: the old action is a dictionary, and its identifier is
-- used again where neither is given and it is a call.
abbrev old_action_id : Action → Changes → Given
old_action_id action changes =
    if not (is_given changes.action)
      && (not (is_given changes.action_id) && text_eq action.type (lit "action.call"))
    then text action.action_id
    else changes.action_id

abbrev old_action : Given → Given
old_action missing = other
old_action given = given

-- `params` of `update`
unfoldable pub params_of : Schedule → Changes → Params
params_of row changes = record {
  has_helper = changes.has_helper;
  has_prompt = changes.has_prompt;
  action_id = old_action_id row.action changes;
  action = old_action changes.action;
  allow_missing = changes.allow_missing;
  payload = value_or changes.payload empty;
  at = value_or changes.at At.missing;
  every = value_or changes.every Every.other;
  cron = changes.cron;
  timezone = value_or changes.timezone row.timezone;
}

abbrev pub changes_action : Changes → Bool
changes_action changes =
    is_given changes.action || (is_given changes.action_id || is_some changes.payload)

abbrev pub changes_timing : Changes → Bool
changes_timing changes =
    is_some changes.kind
    || (is_some changes.at
        || (is_some changes.every || (is_given changes.cron || is_some changes.timezone)))

unfoldable pub update_action : Host → Changes → Schedule → Outcome Error Schedule
unfolding action_of params_of
update_action host changes row =
    if changes_action changes
    then (do
      action ← action_of host (params_of row changes)
      returned (record row { action = action }))
    else returned row

unfoldable pub update_timing : Host → Changes → ℕ → Schedule → Outcome Error Schedule
unfolding timing_of params_of
update_timing host changes base row =
    let kind = text_or changes.kind row.kind in
    if changes_timing changes
    then (do
      timed ← timing_of host kind (params_of row changes) base
      returned (record row {
        kind = kind;
        timing = timed.0;
        next_run_at = timed.1;
        timezone = value_or changes.timezone row.timezone;
      }))
    else returned row

unfoldable pub update_policy : Option Text → Text → List Text → Outcome Error Text
unfolding policy
update_policy none old allowed = returned old
update_policy (some value) old allowed = policy (some value) old allowed

-- The row that `update` writes.
unfoldable pub updated : Host → Changes → (now base : ℕ) → Schedule → Outcome Error Schedule
unfolding update_action update_timing update_policy
updated host changes now base row = do
  with_action ← update_action host changes row
  timed ← update_timing host changes base with_action
  misfire ← update_policy changes.misfire_policy row.misfire_policy misfire_policies
  overlap ← update_policy changes.overlap_policy row.overlap_policy overlap_policies
  returned (record timed {
    name = value_or changes.name row.name;
    description = value_or changes.description row.description;
    enabled = value_or changes.enabled row.enabled;
    misfire_policy = misfire;
    overlap_policy = overlap;
    metadata =
        (if is_some changes.metadata then text_or changes.metadata (lit "{}") else row.metadata);
    updated_at = now;
  })

abbrev pub has_id : ℕ → Schedule → Bool
has_id id row = row.schedule_id == id

-- `update`
unfoldable pub update : Host → ℕ → Changes → (now base : ℕ) → Db → Outcome Error (Db × PublicRow)
unfolding updated
update host id changes now base db = elim (find_schedule id db.schedules) [
  | none ↦ raised (unknown_schedule id)
  | some row ↦ do
    new ← updated host changes now base row
    returned (
      record db { schedules = update_where (has_id id) (λ old. new) db.schedules },
      public_row new,
    )
]

abbrev is_wanted : Option Bool → Bool → Bool
is_wanted none enabled = true
is_wanted (some flag) enabled = if flag then enabled else not enabled

-- `list`
unfoldable pub list_schedules : Option Bool → ℕ → Db → List PublicRow
list_schedules enabled limit db =
    let rows = filter (λ row. is_wanted enabled row.enabled) db.schedules in
    map public_row (take limit (order_by (λ x y. leb y.updated_at x.updated_at) rows))

-- `ON DELETE SET NULL`
abbrev pub forget : ℕ → List Run → List Run
forget id =
    update_where (λ run. refers_to id run.schedule_id) (λ run. record run { schedule_id = none })

-- `delete`
unfoldable pub delete : ℕ → Db → Outcome Error Db
delete id db = elim (find_schedule id db.schedules) [
  | none ↦ raised (unknown_schedule id)
  | some row ↦ returned (record {
    schedules = filter (λ other. not (other.schedule_id == id)) db.schedules;
    schedule_runs = forget id db.schedule_runs;
  })
]

-- `_schedule`
unfoldable pub schedule_of : ℕ → Db → Outcome Error Schedule
schedule_of id db = elim (find_schedule id db.schedules) [
  | none ↦ raised (unknown_schedule id)
  | some row ↦ returned row
]
