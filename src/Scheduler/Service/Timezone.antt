-- ===== src/Scheduler/Service/Timezone.antt =====
-- A new time zone for a schedule.
use uv_agent.Common.{ℕ, ◌≡◌, refl, true, none, Bool-cases, Option-cases, is_some, inl, inr, arith}
use uv_agent.Common.Text.{Text, lit, text_eq}
use uv_agent.Common.Outcome.{Outcome, raised, returned, ◌>>=◌}
use uv_agent.Scheduler.Error.{Error, no_at, every_type, no_cron, unknown_schedule}
use uv_agent.Scheduler.Tables.{Schedule, Db, find_schedule}
use uv_agent.Scheduler.Params.{
  Given, At, Every, Params, Host, text_or, parse_datetime, interval_seconds, timing_of,
}
use uv_agent.Scheduler.Service.{
  Changes, changes_timing, params_of, update_action, update_timing, updated, update,
}

abbrev Raises {ℓ} : {A : Type ℓ} → Outcome Error A → Type ℓ
Raises {A} call = (error : Error) × (call ≡ raised error)

-- No time is given with which a schedule of any kind could be timed.
timing_of-Raises :
    (host : Host) (kind : Text) (params : Params) (base : ℕ)
    → params.at ≡ At.missing
    → params.every ≡ Every.other
    → params.cron ≡ Given.missing
    → Raises (timing_of host kind params base)
unfolding timing_of parse_datetime interval_seconds
timing_of-Raises host kind params base no_time no_interval no_expr =
    elim (Bool-cases (text_eq kind (lit "once"))) [
      | inl once ↦ (no_at, ground (arith, once, no_time))
      | inr not_once ↦ elim (Bool-cases (text_eq kind (lit "interval"))) [
        | inl interval ↦ (every_type, ground (arith, not_once, interval, no_interval))
        | inr not_interval ↦ (no_cron, ground (arith, not_once, not_interval, no_expr))
      ]
    ]

bind-Raises {ℓ κ} :
    {A : Type ℓ} {B : Type κ} (call : Outcome Error A) (rest : A → Outcome Error B)
    → ((value : A) → Raises (rest value))
    → Raises (call >>= rest)
bind-Raises (raised error) rest fails = (error, refl)
bind-Raises (returned value) rest fails = fails value

left-Raises {ℓ κ} :
    {A : Type ℓ} {B : Type κ} (call : Outcome Error A) (rest : A → Outcome Error B)
    → Raises call
    → Raises (call >>= rest)
left-Raises call rest (error, raises) = (error, rw raises)

update_timing-Raises :
    (host : Host) (changes : Changes) (base : ℕ) (row : Schedule)
    → is_some changes.timezone ≡ true
    → changes.at ≡ none
    → changes.every ≡ none
    → changes.cron ≡ Given.missing
    → Raises (update_timing host changes base row)
unfolding update_timing params_of
update_timing-Raises host changes base row zone no_time no_interval no_expr =
    let changed : changes_timing changes ≡ true =
      ground (arith, zone, no_time, no_interval, no_expr) in
    rw (changed, update_timing)
      (left-Raises (timing_of host (text_or changes.kind row.kind) (params_of row changes) base) _ (
        timing_of-Raises host (text_or changes.kind row.kind) (params_of row changes) base
          (unfold params_of in rw no_time) (unfold params_of in rw no_interval)
          (unfold params_of in no_expr)))

-- A schedule cannot be given another time zone by itself: a call of `update` with a time zone and with
-- none of "at", "every" and "cron" raises for every schedule, whatever its kind and its timing.
pub update_raises :
    (host : Host) (id : ℕ) (changes : Changes) (now base : ℕ) (db : Db)
    → is_some changes.timezone ≡ true
    → changes.at ≡ none
    → changes.every ≡ none
    → changes.cron ≡ Given.missing
    → (error : Error) × (update host id changes now base db ≡ raised error)
unfolding update updated
update_raises host id changes now base db zone no_time no_interval no_expr =
    elim (Option-cases (find_schedule id db.schedules)) [
      | inl absent ↦ (unknown_schedule id, rw (absent, update))
      | inr (row, found) ↦
          rw (found, update)
            (left-Raises (updated host changes now base row) _ (
              bind-Raises (update_action host changes row) _ λ with_action.
                left-Raises (update_timing host changes base with_action) _ (
                  update_timing-Raises host changes base with_action zone no_time no_interval
                    no_expr)))
    ]
