-- ===== src/Scheduler/Service/Stored.antt =====
-- What `create` stores, and its removal.
use mathlib.Core.Path.{ap₂}
use uv_agent.Common.{
  sym, ℕ, ◌≡◌, refl, ap, ◌∙◌, true, false, not, Option, none, some, List, [], ◌∷◌, ◌++◌, ◌==◌,
  Bool-cases, inl, inr, All, arith,
}
use uv_agent.Common.Text.{Text}
use uv_agent.Common.Outcome.{returned, >>=-eq-returned, returned-injective}
use uv_agent.Common.Queries.{filter, update_where}
use uv_agent.Scheduler.Tables.{
  Action, Timing, Schedule, PublicRow, public_row, Run, Db, find_schedule, refers_to,
}
use uv_agent.Scheduler.Params.{
  Host, misfire_policies, overlap_policies, schedule_kinds, is_in, policy, action_of, timing_of,
}
use uv_agent.Scheduler.Service.{
  Config, NewSchedule, new_row, kind_of, create, delete, forget, schedule_of,
}

-- The values with which `create` has returned.
pub record Created (host : Host) (config : Config) (new : NewSchedule) (now base id : ℕ)
    (db db' : Db) (shown : PublicRow) : Type 0 where
  pub action : Action
  pub timed : Timing × Option ℕ
  pub misfire : Text
  pub overlap : Text
  pub timing_made : timing_of host (kind_of new) new.params base ≡ returned timed
  pub misfire_made :
      policy new.misfire_policy config.default_misfire_policy misfire_policies ≡ returned misfire
  pub overlap_made :
      policy new.overlap_policy config.default_overlap_policy overlap_policies ≡ returned overlap
  pub stored : db' ≡ record db {
    schedules = db.schedules ++ new_row new (kind_of new) action timed misfire overlap now id ∷ [];
  }
  pub same : shown ≡ public_row (new_row new (kind_of new) action timed misfire overlap now id)

pub create-Created :
    (host : Host) (config : Config) (new : NewSchedule) (now base id : ℕ) (db : Db) {db' : Db}
    {shown : PublicRow}
    → create host config new now base id db ≡ returned (db', shown)
    → Created host config new now base id db db' shown
unfolding create
create-Created host config new now base id db made =
    elim (Bool-cases (is_in (kind_of new) schedule_kinds)) [
      | inr wrong ↦ absurd (cc (rw wrong at made))
      | inl right ↦
          let (action, _, timed_on) =
            >>=-eq-returned (action_of host new.params) _ (rw right at made) in
          let (timed, timing_made, misfire_on) =
            >>=-eq-returned (timing_of host (kind_of new) new.params base) _ timed_on in
          let (misfire, misfire_made, overlap_on) =
            >>=-eq-returned
              (policy new.misfire_policy config.default_misfire_policy misfire_policies) _
              misfire_on in
          let (overlap, overlap_made, done) =
            >>=-eq-returned
              (policy new.overlap_policy config.default_overlap_policy overlap_policies) _
              overlap_on in
          record {
            action = action;
            timed = timed;
            misfire = misfire;
            overlap = overlap;
            timing_made = timing_made;
            misfire_made = misfire_made;
            overlap_made = overlap_made;
            stored = sym (ap (λ p. p.0) (returned-injective done));
            same = sym (ap (λ p. p.1) (returned-injective done));
          }
    ]

find_schedule-append :
    (id : ℕ) (rows : List Schedule) (row : Schedule)
    → find_schedule id rows ≡ none
    → row.schedule_id ≡ id
    → find_schedule id (rows ++ row ∷ []) ≡ some row
unfolding find_schedule
find_schedule-append id [] row fresh same =
    let own : (row.schedule_id == id) ≡ true = ground arith in rw own
find_schedule-append id (x ∷ rows) row fresh same = elim (Bool-cases (x.schedule_id == id)) [
  | inl own ↦ absurd (cc (rw (own, find_schedule) at fresh))
  | inr other ↦
      rw (other, find_schedule)
        (find_schedule-append id rows row (rw (other, find_schedule) at fresh) same)
]

filter-append_own :
    (id : ℕ) (rows : List Schedule) (row : Schedule)
    → find_schedule id rows ≡ none
    → row.schedule_id ≡ id
    → filter (λ other. not (other.schedule_id == id)) (rows ++ row ∷ []) ≡ rows
unfolding find_schedule filter
filter-append_own id [] row fresh same =
    let own : (row.schedule_id == id) ≡ true = ground arith in rw own
filter-append_own id (x ∷ rows) row fresh same = elim (Bool-cases (x.schedule_id == id)) [
  | inl own ↦ absurd (cc (rw (own, find_schedule) at fresh))
  | inr other ↦
      rw (other, filter)
        (ap (λ l. x ∷ l) (filter-append_own id rows row (rw (other, find_schedule) at fresh) same))
]

forget-fresh :
    (id : ℕ) (runs : List Run)
    → All (λ run. refers_to id run.schedule_id ≡ false) runs
    → forget id runs ≡ runs
unfolding update_where
forget-fresh id [] fresh = refl
forget-fresh id (run ∷ runs) fresh = rw (fresh.0) (ap (λ l. run ∷ l) (forget-fresh id runs fresh.1))

schedule_of-append :
    (id : ℕ) (row : Schedule) (db : Db)
    → find_schedule id db.schedules ≡ none
    → row.schedule_id ≡ id
    → schedule_of id (record db { schedules = db.schedules ++ row ∷ [] }) ≡ returned row
unfolding schedule_of
schedule_of-append id row db fresh same =
    let found = find_schedule-append id db.schedules row fresh same in rw (found, schedule_of)

delete-append :
    (id : ℕ) (row : Schedule) (db : Db)
    → find_schedule id db.schedules ≡ none
    → All (λ run. refers_to id run.schedule_id ≡ false) db.schedule_runs
    → row.schedule_id ≡ id
    → delete id (record db { schedules = db.schedules ++ row ∷ [] }) ≡ returned db
unfolding delete
delete-append id row db fresh unused same =
    let found = find_schedule-append id db.schedules row fresh same in
    let rows = filter-append_own id db.schedules row fresh same in
    let runs = forget-fresh id db.schedule_runs unused in
    rw (found, delete)
      (ap₂ (λ r u. returned (record { schedules = r; schedule_runs = u })) rows runs)

-- If `create` returns and its identifier is new to both tables, then that identifier finds the row
-- that was returned, and deleting it gives back the tables as they were.
delete-create :
    (host : Host) (config : Config) (new : NewSchedule) (now base id : ℕ) (db : Db) {db' : Db}
    {shown : PublicRow}
    → find_schedule id db.schedules ≡ none
    → All (λ run. refers_to id run.schedule_id ≡ false) db.schedule_runs
    → create host config new now base id db ≡ returned (db', shown)
    → ((row : Schedule) × (schedule_of id db' ≡ returned row) × (public_row row ≡ shown))
      × (delete id db' ≡ returned db)
delete-create host config new now base id db {db'} {shown} fresh unused made =
    let c = create-Created host config new now base id db made in
    let row = new_row new (kind_of new) c.action c.timed c.misfire c.overlap now id in
    (
      (row, ap (schedule_of id) c.stored ∙ schedule_of-append id row db fresh refl, sym c.same),
      ap (delete id) c.stored ∙ delete-append id row db fresh unused refl,
    )
