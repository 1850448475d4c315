-- ===== src/Scheduler/Sound.antt =====
-- What holds of every schedule that the scheduler stores.
pub mod Steps
use uv_agent.Common.{
  ℕ, zero, suc, ◌<◌, ◌≡◌, refl, ◌∙◌, Bool, true, false, Option, none, some, List, [], ◌∷◌,
  Bool-cases, Option-cases, inl, inr, arith, if◌then◌else◌,
}
use mathlib.Core.Path.{subst}
use uv_agent.Common.Text.{Text, lit, text_eq}
use uv_agent.Common.Outcome.{
  Outcome, raised, returned, ◌>>=◌, Outcome-cases, >>=-eq-returned, returned-injective,
}
use uv_agent.Scheduler.Error.{Error}
use uv_agent.Scheduler.Tables.{Timing, at, every_seconds, cron, Schedule, PublicRow, Db}
use uv_agent.Scheduler.Cron.{next_cron}
use uv_agent.Scheduler.Params.{
  Every, other, timedelta, parts, Delta, seconds, negative, Params, Host, misfire_policies,
  overlap_policies, is_in, text_or, policy, positive, parse_datetime, interval_seconds, cron_text,
  action_of, timing_of,
}
use uv_agent.Scheduler.Service.{
  Config, NewSchedule, new_row, kind_of, Changes, changes_action, changes_timing, params_of,
  update_action, update_timing, update_policy, updated,
}
use uv_agent.Scheduler.Service.Stored.{Created}

-- The timing is of the sort that the kind asks for, and an interval is not empty.
abbrev pub IsTimed : Text → Timing → Type 0
IsTimed kind (at instant) = text_eq kind (lit "once") ≡ true
IsTimed kind (every_seconds n) = (text_eq kind (lit "interval") ≡ true) × (0 < n)
IsTimed kind (cron expr) =
    (text_eq kind (lit "once") ≡ false) × (text_eq kind (lit "interval") ≡ false)

pub record IsRow (row : Schedule) : Type 0 where
  pub timed : IsTimed row.kind row.timing
  pub misfire : is_in row.misfire_policy misfire_policies ≡ true
  pub overlap : is_in row.overlap_policy overlap_policies ≡ true

policy-is_in :
    (value : Option Text) (default : Text) (allowed : List Text) {result : Text}
    → policy value default allowed ≡ returned result
    → is_in result allowed ≡ true
unfolding policy
policy-is_in value default allowed made =
    elim (Bool-cases (is_in (text_or value default) allowed)) [
      | inl known ↦
          subst (λ p. is_in p allowed ≡ true) (returned-injective (rw known at made)) known
      | inr unknown ↦ absurd (cc (rw unknown at made))
    ]

update_policy-is_in :
    (value : Option Text) (old : Text) (allowed : List Text) {result : Text}
    → is_in old allowed ≡ true
    → update_policy value old allowed ≡ returned result
    → is_in result allowed ≡ true
unfolding update_policy
update_policy-is_in none old allowed known made =
    subst (λ p. is_in p allowed ≡ true) (returned-injective made) known
update_policy-is_in (some value) old allowed known made = policy-is_in (some value) old allowed made

abbrev AtLeast1 : Outcome Error ℕ → Type 0
AtLeast1 (raised error) = Unit {0}
AtLeast1 (returned n) = 0 < n

positive-AtLeast1 : (delta : Delta) → AtLeast1 (positive delta)
positive-AtLeast1 negative = tt
positive-AtLeast1 (seconds zero) = tt
positive-AtLeast1 (seconds (suc n)) = omega arith

interval_seconds-AtLeast1 : (host : Host) (every : Every) → AtLeast1 (interval_seconds host every)
unfolding interval_seconds
interval_seconds-AtLeast1 host other = tt
interval_seconds-AtLeast1 host (timedelta delta) = positive-AtLeast1 delta
interval_seconds-AtLeast1 host (parts arguments) =
    elim (Option-cases (host.make_timedelta arguments)) [
      | inl no_delta ↦ rw (no_delta, interval_seconds) tt
      | inr (delta, made) ↦ rw (made, interval_seconds) (positive-AtLeast1 delta)
    ]

timing_of-IsTimed :
    (host : Host) (kind : Text) (params : Params) (base : ℕ) {timed : Timing × Option ℕ}
    → timing_of host kind params base ≡ returned timed
    → IsTimed kind timed.0
unfolding timing_of
timing_of-IsTimed host kind params base {timed} made =
    elim (Bool-cases (text_eq kind (lit "once"))) [
      | inl once ↦
          let (instant, _, done) =
            >>=-eq-returned (parse_datetime host params.at params.timezone) _ (rw once at made) in
          subst (λ (t : Timing × Option ℕ). IsTimed kind t.0) (returned-injective done) once
      | inr not_once ↦ elim (Bool-cases (text_eq kind (lit "interval"))) [
        | inl interval ↦
            let (n, counted, done) =
              >>=-eq-returned (interval_seconds host params.every) _
                (rw (not_once, interval) at made) in
            let long : 0 < n =
              subst AtLeast1 counted (interval_seconds-AtLeast1 host params.every) in
            subst (λ (t : Timing × Option ℕ). IsTimed kind t.0) (returned-injective done)
              (interval, long)
        | inr not_interval ↦
            let (expr, _, next_on) =
              >>=-eq-returned (cron_text params.cron) _ (rw (not_once, not_interval) at made) in
            let (next, _, done) =
              >>=-eq-returned (next_cron host.calendar expr base params.timezone) _ next_on in
            subst (λ (t : Timing × Option ℕ). IsTimed kind t.0) (returned-injective done)
              (not_once, not_interval)
      ]
    ]

pub new_row-IsRow :
    (host : Host) (config : Config) (new : NewSchedule) (now base id : ℕ) (db db' : Db)
    (shown : PublicRow) (c : Created host config new now base id db db' shown)
    → IsRow (new_row new (kind_of new) c.action c.timed c.misfire c.overlap now id)
new_row-IsRow host config new now base id db db' shown c = record {
  timed = timing_of-IsTimed host (kind_of new) new.params base c.timing_made;
  misfire =
      policy-is_in new.misfire_policy config.default_misfire_policy misfire_policies c.misfire_made;
  overlap =
      policy-is_in new.overlap_policy config.default_overlap_policy overlap_policies c.overlap_made;
}

update_action-IsTimed :
    (host : Host) (changes : Changes) (row : Schedule) {new : Schedule}
    → IsTimed row.kind row.timing
    → update_action host changes row ≡ returned new
    → IsTimed new.kind new.timing
unfolding update_action
update_action-IsTimed host changes row old made = elim (Bool-cases (changes_action changes)) [
  | inl changed ↦
      let (action, _, done) =
        >>=-eq-returned (action_of host (params_of row changes)) _ (rw changed at made) in
      subst (λ (r : Schedule). IsTimed r.kind r.timing) (returned-injective done) old
  | inr unchanged ↦
      subst (λ (r : Schedule). IsTimed r.kind r.timing) (returned-injective (rw unchanged at made))
        old
]

update_timing-IsTimed :
    (host : Host) (changes : Changes) (base : ℕ) (row : Schedule) {new : Schedule}
    → IsTimed row.kind row.timing
    → update_timing host changes base row ≡ returned new
    → IsTimed new.kind new.timing
unfolding update_timing
update_timing-IsTimed host changes base row old made = elim (Bool-cases (changes_timing changes)) [
  | inl changed ↦
      let (timed, timing_made, done) =
        >>=-eq-returned
          (timing_of host (text_or changes.kind row.kind) (params_of row changes) base) _
          (rw changed at made) in
      subst (λ (r : Schedule). IsTimed r.kind r.timing) (returned-injective done)
        (timing_of-IsTimed host (text_or changes.kind row.kind) (params_of row changes) base
          timing_made)
  | inr unchanged ↦
      subst (λ (r : Schedule). IsTimed r.kind r.timing) (returned-injective (rw unchanged at made))
        old
]

pub updated-IsRow :
    (host : Host) (changes : Changes) (now base : ℕ) (row : Schedule) {new : Schedule}
    → IsRow row
    → updated host changes now base row ≡ returned new
    → IsRow new
unfolding updated
updated-IsRow host changes now base row old made =
    let (with_action, acted, timing_on) = >>=-eq-returned (update_action host changes row) _ made in
    let (timed, timing_made, misfire_on) =
      >>=-eq-returned (update_timing host changes base with_action) _ timing_on in
    let (misfire, misfire_made, overlap_on) =
      >>=-eq-returned (update_policy changes.misfire_policy row.misfire_policy misfire_policies) _
        misfire_on in
    let (overlap, overlap_made, done) =
      >>=-eq-returned (update_policy changes.overlap_policy row.overlap_policy overlap_policies) _
        overlap_on in
    let acted_timed = update_action-IsTimed host changes row old.timed acted in
    subst IsRow (returned-injective done) (record {
      timed = update_timing-IsTimed host changes base with_action acted_timed timing_made;
      misfire =
          update_policy-is_in changes.misfire_policy row.misfire_policy misfire_policies old.misfire
            misfire_made;
      overlap =
          update_policy-is_in changes.overlap_policy row.overlap_policy overlap_policies old.overlap
            overlap_made;
    })
