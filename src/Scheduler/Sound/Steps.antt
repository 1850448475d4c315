-- ===== src/Scheduler/Sound/Steps.antt =====
-- Sequences of calls of the scheduler, and what they keep of the schedules.
use mathlib.Core.Path.{subst}
use uv_agent.Common.{
  ℕ, ◌≡◌, sym, ap, Bool, true, false, not, Option, some, List, [], ◌∷◌, ◌==◌, Bool-cases,
  Option-cases, inl, inr, All, All-append,
}
use uv_agent.Common.Text.{Text}
use uv_agent.Common.Outcome.{
  Outcome, raised, returned, Outcome-cases, >>=-eq-returned, returned-injective,
}
use uv_agent.Scheduler.Error.{Error}
use uv_agent.Scheduler.Tables.{Schedule, PublicRow, Db, find_schedule}
use uv_agent.Common.Queries.Rows.{All-update_where, All-filter}
use uv_agent.Scheduler.Cron.{Calendar}
use uv_agent.Scheduler.Params.{Host}
use uv_agent.Scheduler.Service.{
  Config, NewSchedule, create, Changes, updated, update, has_id, delete, new_row, kind_of,
}
use uv_agent.Scheduler.Service.Stored.{create-Created}
use uv_agent.Scheduler.Due.{
  State, next_of, write_next, advance_schedule, handle_overlap, start_task, start_row, go_on,
  with_row, start_rows, due_rows, run_due_once, prune_history, poll,
}
use uv_agent.Scheduler.Due.Advanced.{handle_overlap-schedules}
use uv_agent.Scheduler.Runs.{Called, begin_run, Ending, finish_run}
use uv_agent.Scheduler.Sound.{IsRow, new_row-IsRow, updated-IsRow}

-- One call, or one turn of the polling loop, or the beginning or the end of a run.
pub data Step (host : Host) (config : Config) (caller : Text → Text → Called)
    (message : Error → Text) : State → State → Type 0 where
  created :
      {s s' : State} (new : NewSchedule) (now base id : ℕ) (shown : PublicRow)
      → create host config new now base id s.db ≡ returned (s'.db, shown)
      → Step host config caller message s s'
  changed :
      {s s' : State} (id : ℕ) (changes : Changes) (now base : ℕ) (shown : PublicRow)
      → update host id changes now base s.db ≡ returned (s'.db, shown)
      → Step host config caller message s s'
  deleted :
      {s s' : State} (id : ℕ)
      → delete id s.db ≡ returned s'.db
      → Step host config caller message s s'
  polled :
      {s s' : State} (now : ℕ)
      → s' ≡ poll host.calendar config now s
      → Step host config caller message s s'
  begun :
      {s s' : State} (run_id : ℕ) (schedule : Schedule) (due_at : Option ℕ) (now : ℕ)
      → begin_run caller message run_id schedule due_at now s.db ≡ returned s'.db
      → Step host config caller message s s'
  ended :
      {s s' : State} (run_id : ℕ) (ending : Ending) (now : ℕ)
      → s'.db ≡ finish_run caller message run_id ending now s.db
      → Step host config caller message s s'

pub data Reach (host : Host) (config : Config) (caller : Text → Text → Called)
    (message : Error → Text) (first : State) : State → Type 0 where
  start : Reach host config caller message first first
  more :
      {s s' : State}
      → Reach host config caller message first s
      → Step host config caller message s s'
      → Reach host config caller message first s'

abbrev pub AllRows : Db → Type 0
AllRows db = All IsRow db.schedules

some-injective : {x y : Schedule} → some x ≡ some y → x ≡ y
some-injective same = cc

find_schedule-IsRow :
    (id : ℕ) (rows : List Schedule) {row : Schedule}
    → All IsRow rows
    → find_schedule id rows ≡ some row
    → IsRow row
unfolding find_schedule
find_schedule-IsRow id [] all found = absurd (cc)
find_schedule-IsRow id (x ∷ rows) all found = elim (Bool-cases (x.schedule_id == id)) [
  | inl here ↦ subst IsRow (some-injective (rw (here, find_schedule) at found)) all.0
  | inr there ↦ find_schedule-IsRow id rows all.1 (rw (there, find_schedule) at found)
]

create-AllRows :
    (host : Host) (config : Config) (new : NewSchedule) (now base id : ℕ) (db : Db) {db' : Db}
    {shown : PublicRow}
    → AllRows db
    → create host config new now base id db ≡ returned (db', shown)
    → AllRows db'
create-AllRows host config new now base id db {db'} {shown} old made =
    let c = create-Created host config new now base id db made in
    let row = new_row new (kind_of new) c.action c.timed c.misfire c.overlap now id in
    subst AllRows (sym c.stored) (
      All-append IsRow db.schedules (row ∷ []) old
        (new_row-IsRow host config new now base id db db' shown c, tt))

update-AllRows :
    (host : Host) (id : ℕ) (changes : Changes) (now base : ℕ) (db : Db) {db' : Db}
    {shown : PublicRow}
    → AllRows db
    → update host id changes now base db ≡ returned (db', shown)
    → AllRows db'
unfolding update
update-AllRows host id changes now base db old made =
    elim (Option-cases (find_schedule id db.schedules)) [
      | inl absent ↦ absurd (cc (rw (absent, update) at made))
      | inr (row, found) ↦
          let (new, written, done) =
            >>=-eq-returned (updated host changes now base row) _ (rw (found, update) at made) in
          let new_IsRow =
            updated-IsRow host changes now base row (find_schedule-IsRow id db.schedules old found)
              written in
          subst AllRows (ap (λ p. p.0) (returned-injective done)) (
            All-update_where IsRow IsRow (has_id id) (λ other. new) db.schedules
              (λ other _ _. new_IsRow) (λ other kept _. kept) old)
    ]

delete-AllRows :
    (id : ℕ) (db : Db) {db' : Db} → AllRows db → delete id db ≡ returned db' → AllRows db'
unfolding delete
delete-AllRows id db old made = elim (Option-cases (find_schedule id db.schedules)) [
  | inl absent ↦ absurd (cc (rw (absent, delete) at made))
  | inr (row, found) ↦ subst AllRows (returned-injective (rw (found, delete) at made)) (
      All-filter IsRow IsRow (λ other. not (other.schedule_id == id)) db.schedules
        (λ other kept _. kept) old)
]

module _ (calendar : Calendar) (now base : ℕ) where
  abbrev Rows : Outcome Error Db → Type 0
  Rows (raised error) = Unit {0}
  Rows (returned db) = AllRows db

  advance-Rows :
      (row : Schedule) (db : Db) → AllRows db → Rows (advance_schedule calendar row now base db)
  unfolding advance_schedule
  advance-Rows row db old = elim (Outcome-cases (next_of calendar row base)) [
    | inl (error, raises) ↦ rw raises tt
    | inr (next, returns) ↦ rw returns (
        All-update_where IsRow IsRow (has_id row.schedule_id) (write_next next.0 next.1 now)
          db.schedules
          (λ other kept _. record {
            timed = kept.timed;
            misfire = kept.misfire;
            overlap = kept.overlap;
          })
          (λ other kept _. kept) old)
  ]

  start_task-AllRows :
      (row : Schedule) (s : State) (may_start : Bool) (advanced : Outcome Error Db) (db : Db)
      → AllRows db
      → Rows advanced
      → AllRows (start_task row s may_start advanced db).0.db
  unfolding start_task
  start_task-AllRows row s may_start (raised error) db old new = old
  start_task-AllRows row s true (returned advanced) db old new = new
  start_task-AllRows row s false (returned advanced) db old new = new

  start_row-AllRows :
      (row : Schedule) (s : State) → AllRows s.db → AllRows (start_row calendar now base row s).0.db
  unfolding start_row
  start_row-AllRows row s old =
      let db = (handle_overlap row now s.db).0 in
      let same =
        subst (All IsRow) (sym (handle_overlap-schedules calendar now base row s.db)) old in
      start_task-AllRows row s (handle_overlap row now s.db).1
        (advance_schedule calendar row now base db) db same (advance-Rows row db same)

  with_row-AllRows :
      (row : Schedule) (end : State × Outcome Error (List PublicRow))
      → AllRows end.0.db
      → AllRows (with_row row end).0.db
  unfolding with_row
  with_row-AllRows row (last, raised error) all = all
  with_row-AllRows row (last, returned others) all = all

  go_on-AllRows :
      (row : Schedule) (turn : State × Outcome Error Bool)
      (others : State → State × Outcome Error (List PublicRow))
      → AllRows turn.0.db
      → ((s : State) → AllRows s.db → AllRows (others s).0.db)
      → AllRows (go_on row turn others).0.db
  unfolding go_on
  go_on-AllRows row (s, raised error) others old rest = old
  go_on-AllRows row (s, returned false) others old rest = rest s old
  go_on-AllRows row (s, returned true) others old rest =
      with_row-AllRows row (others s) (rest s old)

  start_rows-AllRows :
      (rows : List Schedule) (s : State)
      → AllRows s.db
      → AllRows (start_rows calendar now base rows s).0.db
  unfolding start_rows
  start_rows-AllRows [] s old = old
  start_rows-AllRows (row ∷ rows) s old =
      go_on-AllRows row (start_row calendar now base row s) (start_rows calendar now base rows)
        (start_row-AllRows row s old) (λ s'. start_rows-AllRows rows s')

poll-AllRows :
    (calendar : Calendar) (config : Config) (now : ℕ) (s : State)
    → AllRows s.db
    → AllRows (poll calendar config now s).db
unfolding poll run_due_once prune_history
poll-AllRows calendar config now s old =
    let rows = due_rows config now s.db in
    let last = start_rows-AllRows calendar now now rows s old in
    elim (Outcome-cases (start_rows calendar now now rows s).1) [
      | inl (error, raises) ↦ rw (raises, poll, run_due_once) last
      | inr (started, returns) ↦ rw (returns, poll, run_due_once) last
    ]

begin_run-AllRows :
    (caller : Text → Text → Called) (message : Error → Text) (run_id : ℕ) (schedule : Schedule)
    (due_at : Option ℕ) (now : ℕ) (db : Db) {db' : Db}
    → AllRows db
    → begin_run caller message run_id schedule due_at now db ≡ returned db'
    → AllRows db'
unfolding begin_run
begin_run-AllRows caller message run_id schedule due_at now db old made =
    elim (Option-cases (find_schedule schedule.schedule_id db.schedules)) [
      | inl absent ↦ absurd (cc (rw (absent, begin_run) at made))
      | inr (row, found) ↦ subst AllRows (returned-injective (rw (found, begin_run) at made)) old
    ]

Step-AllRows :
    (host : Host) (config : Config) (caller : Text → Text → Called) (message : Error → Text)
    {s s' : State}
    → Step host config caller message s s'
    → AllRows s.db
    → AllRows s'.db
unfolding finish_run
Step-AllRows host config caller message {s} (created new now base id shown made) old =
    create-AllRows host config new now base id s.db old made
Step-AllRows host config caller message {s} (changed id changes now base shown made) old =
    update-AllRows host id changes now base s.db old made
Step-AllRows host config caller message {s} (deleted id made) old = delete-AllRows id s.db old made
Step-AllRows host config caller message {s} (polled now same) old =
    subst (λ (t : State). AllRows t.db) (sym same) (poll-AllRows host.calendar config now s old)
Step-AllRows host config caller message {s} (begun run_id schedule due_at now made) old =
    begin_run-AllRows caller message run_id schedule due_at now s.db old made
Step-AllRows host config caller message {s} (ended run_id ending now same) old =
    subst AllRows (sym same) old

-- From tables whose schedules have it, no sequence of calls, polls and runs loses this: every schedule
-- has a timing of the sort that its kind asks for, an interval of at least one second, and policies
-- that are known.
pub Reach-AllRows :
    (host : Host) (config : Config) (caller : Text → Text → Called) (message : Error → Text)
    {first s : State}
    → AllRows first.db
    → Reach host config caller message first s
    → AllRows s.db
Reach-AllRows host config caller message rows start = rows
Reach-AllRows host config caller message rows (more path step) =
    Step-AllRows host config caller message step
      (Reach-AllRows host config caller message rows path)
