-- ===== src/Scheduler/Params.antt =====
-- What `create` and `update` of src/uv_agent/builtin/scheduler/service.py read of their arguments:
-- `_policy`, `_action`, `_timing`, `_parse_datetime` and `_interval_seconds`.
use uv_agent.Common.{
  ℕ, zero, suc, ◌+◌, ◌*◌, Bool, true, false, not, ◌&&◌, ◌||◌, Option, none, some, List, [], ◌∷◌,
  ◌++◌, ◌==◌, if◌then◌else◌,
}
use uv_agent.Common.Text.{Text, lit, text_eq, strip}
use uv_agent.Common.Outcome.{Outcome, raised, returned, ◌>>=◌}
use uv_agent.Scheduler.Error.{
  Error, unsupported_policy, helper_or_prompt, no_action_id, unknown_action, payload_type, not_json,
  no_at, at_type, no_cron, every_type, not_positive, invalid_datetime, invalid_timedelta,
  unknown_zone,
}
use uv_agent.Scheduler.Cron.{Calendar, next_cron}
use uv_agent.Scheduler.Tables.{Action, Timing, at, every_seconds, cron}

-- An argument that is left out, that is no text, or a text.
pub data Given : Type 0 where
  missing other : Given
  text : Text → Given

-- `payload`: left out or falsy, an object that `json.dumps` writes, one that it refuses, or no object.
pub data Payload : Type 0 where
  empty refused no_object : Payload
  object : (json : Text) → Payload

-- A `datetime`, with a zone or with none; the first is an instant, the second what clocks show.
pub data Moment : Type 0 where
  aware naive : (time : ℕ) → Moment

pub data At : Type 0 where
  missing other : At
  datetime : Moment → At
  iso : Text → At

-- The seconds of a `timedelta`, cut to a whole number.
pub data Delta : Type 0 where
  seconds : ℕ → Delta
  negative : Delta

pub data Every : Type 0 where
  other : Every
  timedelta : Delta → Every
  parts : Text → Every

-- What `action_resolver` returns: a dictionary, with its key "found", or something else.
pub data Resolved : Type 0 where
  nothing something : Resolved
  dictionary : (found : Option Bool) (is_empty : Bool) → Resolved

-- The arguments that say what a schedule does and when.
pub record Params : Type 0 where
  pub has_helper : Bool
  pub has_prompt : Bool
  pub action_id : Given
  pub action : Given
  pub allow_missing : Bool
  pub payload : Payload
  pub at : At
  pub every : Every
  pub cron : Given
  pub timezone : Option Text

-- What is asked of the host, `datetime` and `zoneinfo`.
pub record Host : Type 0 where
  pub calendar : Calendar
  pub action_resolver : Text → Resolved
  -- `datetime.fromisoformat`
  pub fromisoformat : Text → Option Moment
  -- the instant at which clocks of a zone, or of the host, show a time
  pub localized : Option ℕ → ℕ → ℕ
  -- the dictionary of `every` as arguments of `timedelta`
  pub make_timedelta : Text → Option Delta

abbrev pub misfire_policies : List Text
misfire_policies = lit "skip" ∷ lit "run_once" ∷ lit "catch_up" ∷ []

abbrev pub overlap_policies : List Text
overlap_policies = lit "skip" ∷ lit "allow" ∷ lit "queue" ∷ lit "replace" ∷ []

abbrev pub schedule_kinds : List Text
schedule_kinds = lit "once" ∷ lit "interval" ∷ lit "cron" ∷ []

unfoldable pub is_in : Text → List Text → Bool
is_in s [] = false
is_in s (t ∷ ts) = text_eq s t || is_in s ts

-- `value or default`
abbrev pub text_or : Option Text → Text → Text
text_or none default = default
text_or (some []) default = default
text_or (some (c ∷ s)) default = c ∷ s

-- `_policy`
unfoldable pub policy : Option Text → Text → List Text → Outcome Error Text
policy value default allowed =
    if is_in (text_or value default) allowed
    then returned (text_or value default)
    else raised (unsupported_policy (text_or value default))

-- `_action_exists`
abbrev pub action_exists : Resolved → Bool
action_exists nothing = false
action_exists something = true
action_exists (dictionary (some found) is_empty) = found
action_exists (dictionary none is_empty) = not is_empty

-- `params.get("action_id", params.get("action"))`, if it is a text that is not blank
abbrev pub given_text : Given → Outcome Error Text
given_text (text s) = if text_eq (strip s) [] then raised no_action_id else returned (strip s)
given_text _ = raised no_action_id

abbrev pub action_id_of : Given → Given → Given
action_id_of missing action = action
action_id_of given action = given

abbrev pub payload_of : Payload → Outcome Error Text
payload_of empty = returned (lit "{}")
payload_of refused = raised not_json
payload_of no_object = raised payload_type
payload_of (object json) = returned json

-- `_action`
unfoldable pub action_of : Host → Params → Outcome Error Action
action_of host params =
    if params.has_helper || params.has_prompt then raised helper_or_prompt else do
      id ← given_text (action_id_of params.action_id params.action)
      json ←
          (if not params.allow_missing && not (action_exists (host.action_resolver id))
            then raised (unknown_action id)
            else payload_of params.payload)
      returned (record { type = lit "action.call"; action_id = id; payload = json })

-- `value.replace("Z", "+00:00")`
unfoldable pub replace_z : Text → Text
replace_z [] = []
replace_z (c ∷ s) = if c == b'Z' then lit "+00:00" ++ replace_z s else c ∷ replace_z s

-- The zone that a naive time is taken to be in; `none` is the one of the host.
unfoldable pub local_zone : Host → Option Text → Outcome Error (Option ℕ)
local_zone host none = returned none
local_zone host (some name) =
    if text_eq name [] || text_eq name (lit "local")
    then returned none
    else elim (host.calendar.zone_info name) [
      | none ↦ raised (unknown_zone name)
      | some zone ↦ returned (some zone)
    ]

abbrev pub instant_of : Host → Option Text → Moment → Outcome Error ℕ
instant_of host timezone (aware time) = returned time
instant_of host timezone (naive time) =
    local_zone host timezone >>= λ zone. returned (host.localized zone time)

-- `_parse_datetime`, as the instant of what it returns
unfoldable pub parse_datetime : Host → At → Option Text → Outcome Error ℕ
unfolding local_zone replace_z
parse_datetime host missing timezone = raised no_at
parse_datetime host other timezone = raised at_type
parse_datetime host (datetime moment) timezone = instant_of host timezone moment
parse_datetime host (iso s) timezone = elim (host.fromisoformat (replace_z s)) [
  | none ↦ raised (invalid_datetime s)
  | some moment ↦ instant_of host timezone moment
]

abbrev pub positive : Delta → Outcome Error ℕ
positive negative = raised not_positive
positive (seconds zero) = raised not_positive
positive (seconds (suc n)) = returned (suc n)

-- `_interval_seconds`
unfoldable pub interval_seconds : Host → Every → Outcome Error ℕ
interval_seconds host other = raised every_type
interval_seconds host (timedelta delta) = positive delta
interval_seconds host (parts arguments) = elim (host.make_timedelta arguments) [
  | none ↦ raised (invalid_timedelta arguments)
  | some delta ↦ positive delta
]

abbrev pub microseconds : ℕ → ℕ
microseconds n = n * 1_000_000

abbrev pub cron_text : Given → Outcome Error Text
cron_text (text s) = if text_eq (strip s) [] then raised no_cron else returned (strip s)
cron_text _ = raised no_cron

-- `_timing`; each kind that is neither "once" nor "interval" is read as "cron".
unfoldable pub timing_of : Host → Text → Params → ℕ → Outcome Error (Timing × Option ℕ)
timing_of host kind params base =
    if text_eq kind (lit "once")
    then (do
      instant ← parse_datetime host params.at params.timezone
      returned (at instant, some instant))
    else if text_eq kind (lit "interval")
    then (do
      n ← interval_seconds host params.every
      returned (every_seconds n, some (base + microseconds n)))
    else do
      expr ← cron_text params.cron
      next ← next_cron host.calendar expr base params.timezone
      returned (cron expr, some next)
