-- ===== src/Scheduler/Due/Advanced.antt =====
-- After `run_due_once` no schedule that it took is still due.
use mathlib.Core.Path.{subst}
use uv_agent.Common.{
  sym, ℕ, ◌<◌, ◌≡◌, refl, Bool, true, false, ◌&&◌, Option, none, some, List, [], ◌∷◌, inl, inr,
  Bool-cases, All, arith,
}
use uv_agent.Common.Text.{lit, text_eq}
use uv_agent.Common.Outcome.{Outcome, raised, returned, ◌>>=◌, Outcome-cases}
use uv_agent.Scheduler.Error.{Error}
use uv_agent.Common.Queries.{update_where}
use uv_agent.Scheduler.Tables.{Schedule, PublicRow, Db}
use uv_agent.Common.Queries.Rows.{All-update_where}
use uv_agent.Scheduler.Cron.{Zone, Calendar, zone_of, next_cron}
use uv_agent.Scheduler.Cron.Search.{IsSteady, next_cron_later}
use uv_agent.Scheduler.Service.{Config, has_id}
use uv_agent.Scheduler.Due.{
  expr_of, State, is_due, is_due_at, write_next, next_of, advance_schedule, handle_overlap,
  with_row, go_on, start_task, start_row, start_rows, due_rows, run_due_once,
}

-- The zone of a schedule is one whose clocks are never put back.
abbrev pub RunsSteady : Calendar → Schedule → Type 0
RunsSteady calendar row =
    (zone : Zone) → zone_of calendar row.timezone ≡ returned zone → IsSteady calendar zone

-- If a row is of the schedule `id`, it is not due at `base`.
abbrev pub RowAhead : ℕ → ℕ → Schedule → Type 0
RowAhead base id row = has_id id row ≡ true → is_due base row ≡ false

abbrev pub AllAhead : ℕ → ℕ → Db → Type 0
AllAhead base id db = All (RowAhead base id) db.schedules

module _ (calendar : Calendar) (now base : ℕ) where
  -- What an advance writes is not due.
  abbrev IsAhead : Option ℕ × Bool → Type 0
  IsAhead next = (next.1 && is_due_at base next.0) ≡ false

  abbrev Ahead : Outcome Error (Option ℕ × Bool) → Type 0
  Ahead (raised error) = Unit {0}
  Ahead (returned next) = IsAhead next

  later_Ahead : (enabled : Bool) (next : ℕ) → base < next → IsAhead (some next, enabled)
  later_Ahead enabled next later = ground arith

  none_Ahead : (enabled : Bool) → IsAhead (none, enabled)
  none_Ahead true = refl
  none_Ahead false = refl

  cron_Ahead :
      (row : Schedule)
      → RunsSteady calendar row
      → Ahead (
          next_cron calendar (expr_of row.timing) base row.timezone >>= λ next.
          returned (some next, row.enabled))
  cron_Ahead row steady =
      elim (Outcome-cases (next_cron calendar (expr_of row.timing) base row.timezone)) [
        | inl (error, raises) ↦ rw raises tt
        | inr (next, returns) ↦ rw returns (
            later_Ahead row.enabled next
              (next_cron_later calendar (expr_of row.timing) base row.timezone steady returns))
      ]

  All-tt : (rows : List Schedule) → All (λ row. Unit {0}) rows
  All-tt [] = tt
  All-tt (row ∷ rows) = (tt, All-tt rows)

  next_of-Ahead : (row : Schedule) → RunsSteady calendar row → Ahead (next_of calendar row base)
  unfolding next_of
  next_of-Ahead row steady = elim (Bool-cases (text_eq row.kind (lit "once"))) [
    | inl once ↦ rw once refl
    | inr not_once ↦ elim (Bool-cases (text_eq row.kind (lit "interval"))) [
      | inl interval ↦ rw (not_once, interval) (later_Ahead _ _ (ground arith))
      | inr not_interval ↦ elim (Bool-cases (text_eq row.kind (lit "cron"))) [
        | inl cron ↦ rw (not_once, not_interval, cron) (cron_Ahead row steady)
        | inr not_cron ↦ rw (not_once, not_interval, not_cron) (none_Ahead row.enabled)
      ]
    ]
  ]

  abbrev AheadIn : ℕ → Outcome Error Db → Type 0
  AheadIn id (raised error) = Unit {0}
  AheadIn id (returned db) = AllAhead base id db

  own-Ahead :
      (id : ℕ) (next : Option ℕ × Bool) (rows : List Schedule)
      → IsAhead next
      → All (RowAhead base id) (update_where (has_id id) (write_next next.0 next.1 now) rows)
  own-Ahead id next rows ahead =
      All-update_where (λ (row : Schedule). Unit {0}) (RowAhead base id) (has_id id)
        (write_next next.0 next.1 now) rows (λ row _ _ _. ahead) (λ row _ other same. absurd (cc))
        (All-tt rows)

  advance_own-Ahead :
      (row : Schedule) (db : Db)
      → RunsSteady calendar row
      → AheadIn row.schedule_id (advance_schedule calendar row now base db)
  unfolding advance_schedule
  advance_own-Ahead row db steady =
      let ahead = next_of-Ahead row steady in
      elim (Outcome-cases (next_of calendar row base)) [
        | inl (error, raises) ↦ rw raises tt
        | inr (next, returns) ↦
            rw returns (own-Ahead row.schedule_id next db.schedules (rw returns at ahead))
      ]

  advance_other-Ahead :
      (id : ℕ) (row : Schedule) (db : Db)
      → RunsSteady calendar row
      → AllAhead base id db
      → AheadIn id (advance_schedule calendar row now base db)
  unfolding advance_schedule
  advance_other-Ahead id row db steady old =
      let ahead = next_of-Ahead row steady in
      elim (Outcome-cases (next_of calendar row base)) [
        | inl (error, raises) ↦ rw raises tt
        | inr (next, returns) ↦ rw returns (
            All-update_where (RowAhead base id) (RowAhead base id) (has_id row.schedule_id)
              (write_next next.0 next.1 now) db.schedules (λ other _ _ _. rw returns at ahead)
              (λ other kept _. kept) old)
      ]

  pub handle_overlap-schedules :
      (row : Schedule) (db : Db) → (handle_overlap row now db).0.schedules ≡ db.schedules
  unfolding handle_overlap
  handle_overlap-schedules row db = ground arith

  -- One turn of the loop: what was ahead stays so, and the schedule of the row is ahead if nothing
  -- raises.
  abbrev Turn : ℕ → Schedule → Db → State × Outcome Error Bool → Type 0
  Turn id row old (s', raised error) = AllAhead base id old → AllAhead base id s'.db
  Turn id row old (s', returned started) =
      (AllAhead base id old → AllAhead base id s'.db) × AllAhead base row.schedule_id s'.db

  start_task-Turn :
      (id : ℕ) (row : Schedule) (s : State) (may_start : Bool) (advanced : Outcome Error Db)
      (db : Db)
      → AheadIn row.schedule_id advanced
      → (AllAhead base id s.db → AheadIn id advanced)
      → (AllAhead base id s.db → AllAhead base id db)
      → Turn id row s.db (start_task row s may_start advanced db)
  unfolding start_task
  start_task-Turn id row s may_start (raised error) db own others same = same
  start_task-Turn id row s true (returned advanced) db own others same = (others, own)
  start_task-Turn id row s false (returned advanced) db own others same = (others, own)

  start_row-Turn :
      (id : ℕ) (row : Schedule) (s : State)
      → RunsSteady calendar row
      → Turn id row s.db (start_row calendar now base row s)
  unfolding start_row
  start_row-Turn id row s steady =
      let db : Db = (handle_overlap row now s.db).0 in
      let same : AllAhead base id s.db → AllAhead base id db =
        λ old. subst (All (RowAhead base id)) (sym (handle_overlap-schedules row s.db)) old in
      start_task-Turn id row s (handle_overlap row now s.db).1
        (advance_schedule calendar row now base db) db (advance_own-Ahead row db steady)
        (λ old. advance_other-Ahead id row db steady (same old)) same

  -- What the whole loop leaves.
  abbrev Loop : List Schedule → Db → State × Outcome Error (List PublicRow) → Type 0
  Loop rows old (last, raised error) = (id : ℕ) → AllAhead base id old → AllAhead base id last.db
  Loop rows old (last, returned started) =
      ((id : ℕ) → AllAhead base id old → AllAhead base id last.db)
      × All (λ row. AllAhead base row.schedule_id last.db) rows

  returned_Loop :
      (rows : List Schedule) (old : Db) (end : State × Outcome Error (List PublicRow))
      {started : List PublicRow}
      → Loop rows old end
      → end.1 ≡ returned started
      → All (λ row. AllAhead base row.schedule_id end.0.db) rows
  returned_Loop rows old (last, raised error) loop ended = absurd (cc)
  returned_Loop rows old (last, returned started) loop ended = loop.1

  with_row-Loop :
      (row : Schedule) (rows : List Schedule) (old middle : Db)
      (end : State × Outcome Error (List PublicRow))
      → ((id : ℕ) → AllAhead base id old → AllAhead base id middle)
      → AllAhead base row.schedule_id middle
      → Loop rows middle end
      → Loop (row ∷ rows) old (with_row row end)
  unfolding with_row
  with_row-Loop row rows old middle (last, raised error) kept own loop =
      λ id before. loop id (kept id before)
  with_row-Loop row rows old middle (last, returned started) kept own loop =
      ((λ id before. loop.0 id (kept id before)), (loop.0 row.schedule_id own, loop.1))

  skip_row-Loop :
      (row : Schedule) (rows : List Schedule) (old middle : Db)
      (end : State × Outcome Error (List PublicRow))
      → ((id : ℕ) → AllAhead base id old → AllAhead base id middle)
      → AllAhead base row.schedule_id middle
      → Loop rows middle end
      → Loop (row ∷ rows) old end
  skip_row-Loop row rows old middle (last, raised error) kept own loop =
      λ id before. loop id (kept id before)
  skip_row-Loop row rows old middle (last, returned started) kept own loop =
      ((λ id before. loop.0 id (kept id before)), (loop.0 row.schedule_id own, loop.1))

  go_on-Loop :
      (row : Schedule) (rows : List Schedule) (old : Db) (turn : State × Outcome Error Bool)
      (others : State → State × Outcome Error (List PublicRow))
      → ((id : ℕ) → Turn id row old turn)
      → ((s : State) → Loop rows s.db (others s))
      → Loop (row ∷ rows) old (go_on row turn others)
  unfolding go_on
  go_on-Loop row rows old (s, raised error) others turn loop = turn
  go_on-Loop row rows old (s, returned false) others turn loop =
      skip_row-Loop row rows old s.db (others s) (λ id. (turn id).0) (turn 0).1 (loop s)
  go_on-Loop row rows old (s, returned true) others turn loop =
      with_row-Loop row rows old s.db (others s) (λ id. (turn id).0) (turn 0).1 (loop s)

  start_rows-Loop :
      (rows : List Schedule) (s : State)
      → All (RunsSteady calendar) rows
      → Loop rows s.db (start_rows calendar now base rows s)
  unfolding start_rows
  start_rows-Loop [] s steady = ((λ id old. old), tt)
  start_rows-Loop (row ∷ rows) s steady =
      go_on-Loop row rows s.db (start_row calendar now base row s)
        (start_rows calendar now base rows) (λ id. start_row-Turn id row s steady.0)
        (λ s'. start_rows-Loop rows s' steady.1)

-- If `run_due_once` returns, then no schedule that its query selected is still due at that time: each
-- of its rows is disabled, has no next time, or has one that is later. This needs that the clocks in
-- the zones of these schedules are never put back.
pub run_due_once-ahead :
    (calendar : Calendar) (config : Config) (now base : ℕ) (s : State) {started : List PublicRow}
    → All (RunsSteady calendar) (due_rows config base s.db)
    → (run_due_once calendar config now base s).1 ≡ returned started
    → All
        (λ row. AllAhead base row.schedule_id (run_due_once calendar config now base s).0.db)
        (due_rows config base s.db)
unfolding run_due_once
run_due_once-ahead calendar config now base s steady ended =
    returned_Loop calendar now base (due_rows config base s.db) s.db
      (start_rows calendar now base (due_rows config base s.db) s)
      (start_rows-Loop calendar now base (due_rows config base s.db) s steady) ended
