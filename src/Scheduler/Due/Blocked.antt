-- ===== src/Scheduler/Due/Blocked.antt =====
-- A schedule whose next time cannot be computed, and what it does to the others.
use mathlib.Core.Path.{subst}
use uv_agent.Common.{
  ℕ, zero, suc, ◌≤◌, ◌<◌, ◌≡◌, refl, sym, ap, ◌∙◌, ◌⊎◌, inl, inr, Bool, true, false, some, List, [],
  ◌∷◌, take, Bool-cases, Option-cases, All, arith,
}
use uv_agent.Common.Outcome.{raised}
use uv_agent.Scheduler.Error.{Error}
use uv_agent.Common.Queries.{filter, insert_by, order_by}
use uv_agent.Scheduler.Tables.{Schedule, Db}
use uv_agent.Common.Queries.Rows.{All-filter, All-order_by, filter-kept, filter-dropped}
use uv_agent.Scheduler.Cron.{Calendar}
use uv_agent.Scheduler.Service.{Config, at_least_one}
use uv_agent.Scheduler.Due.{
  State, is_due, key, sooner, next_of, advance_schedule, handle_overlap, start_task, start_row,
  go_on, start_rows, due_rows, run_due_once, poll, run_loop,
}
use uv_agent.Scheduler.Due.Advanced.{handle_overlap-schedules}

abbrev pub In : Schedule → List Schedule → Type 0
In row [] = ⊥
In row (x ∷ xs) = (row ≡ x) ⊎ In row xs

-- No other row has a next time that is as early.
abbrev Behind : Schedule → Schedule → Type 0
Behind row x = (x ≡ row) ⊎ (key row < key x)

In-filter :
    (test : Schedule → Bool) (row : Schedule) (xs : List Schedule)
    → test row ≡ true
    → In row xs
    → In row (filter test xs)
unfolding filter
In-filter test row [] kept i = i
In-filter test row (x ∷ xs) kept (inl same) =
    subst (In row) (sym (filter-kept test x xs (subst (λ y. test y ≡ true) same kept))) (inl same)
In-filter test row (x ∷ xs) kept (inr i) =
    let rest = In-filter test row xs kept i in
    elim (Bool-cases (test x)) [
      | inl first ↦ subst (In row) (sym (filter-kept test x xs first)) (inr rest)
      | inr first ↦ subst (In row) (sym (filter-dropped test x xs first)) rest
    ]

sooner-Behind : (row x : Schedule) → Behind row x → sooner row x ≡ true
sooner-Behind row x (inl same) = rw same (ground arith)
sooner-Behind row x (inr later) = ground arith

insert_first :
    (row : Schedule) (ys : List Schedule) → All (Behind row) ys → insert_by sooner row ys ≡ row ∷ ys
unfolding insert_by
insert_first row [] behind = refl
insert_first row (y ∷ ys) behind = rw (sooner-Behind row y behind.0)

insert_later :
    (row x : Schedule) (rest : List Schedule)
    → Behind row x
    → (others : List Schedule) × (insert_by sooner x (row ∷ rest) ≡ row ∷ others)
unfolding insert_by
insert_later row x rest (inl same) = (row ∷ rest, rw (same, sooner-Behind row row (inl refl)))
insert_later row x rest (inr later) =
    let after : sooner x row ≡ false = ground arith in (insert_by sooner x rest, rw after)

-- The first row of the order.
order_by-first :
    (row : Schedule) (xs : List Schedule)
    → All (Behind row) xs
    → In row xs
    → (rest : List Schedule) × (order_by sooner xs ≡ row ∷ rest)
unfolding order_by
order_by-first row [] behind i = absurd i
order_by-first row (x ∷ xs) behind (inl same) = (
  order_by sooner xs,
  ap (λ y. insert_by sooner y (order_by sooner xs)) (sym same)
      ∙ insert_first row (order_by sooner xs) (All-order_by (Behind row) sooner xs behind.1),
)
order_by-first row (x ∷ xs) behind (inr i) =
    let (rest, same) = order_by-first row xs behind.1 i in
    let (others, inserted) = insert_later row x rest behind.0 in
    (others, ap (insert_by sooner x) same ∙ inserted)

take-at_least_one :
    (n : ℕ) (row : Schedule) (rest : List Schedule)
    → (others : List Schedule) × (take (at_least_one n) (row ∷ rest) ≡ row ∷ others)
take-at_least_one zero row rest = ([], refl)
take-at_least_one (suc n) row rest = (take n rest, ground arith)

-- The schedule that blocks: it is enabled, its time has come, and every other one that is enabled has
-- a later time or none.
pub record Blocks (row : Schedule) (due : ℕ) (rows : List Schedule) : Type 0 where
  pub stored : In row rows
  pub enabled : row.enabled ≡ true
  pub waits : row.next_run_at ≡ some due
  pub first :
      All (λ x. x.enabled ≡ true → (t : ℕ) → x.next_run_at ≡ some t → (x ≡ row) ⊎ (due < t)) rows

due-Behind :
    (row : Schedule) (due now : ℕ) (x : Schedule)
    → row.next_run_at ≡ some due
    → (x.enabled ≡ true → (t : ℕ) → x.next_run_at ≡ some t → (x ≡ row) ⊎ (due < t))
    → is_due now x ≡ true
    → Behind row x
due-Behind row due now x waits first ready = elim (Option-cases x.next_run_at) [
  | inl none_at ↦ absurd (ground (arith, none_at))
  | inr (t, at_t) ↦ elim (first (ground arith) t at_t) [
    | inl same ↦ inl same
    | inr later ↦ inr (rw (waits, at_t) later)
  ]
]

due_rows-first :
    (config : Config) (row : Schedule) (due now : ℕ) (db : Db)
    → Blocks row due db.schedules
    → due ≤ now
    → (others : List Schedule) × (due_rows config now db ≡ row ∷ others)
unfolding due_rows
due_rows-first config row due now db blocks come =
    let ready : is_due now row ≡ true = ground (arith, blocks.enabled, blocks.waits) in
    let rows = filter (is_due now) db.schedules in
    let behind =
      All-filter (λ x. x.enabled ≡ true → (t : ℕ) → x.next_run_at ≡ some t → (x ≡ row) ⊎ (due < t))
        (Behind row) (is_due now) db.schedules
        (λ x first ready. due-Behind row due now x blocks.waits first ready) blocks.first in
    let (rest, sorted) =
      order_by-first row rows behind
        (In-filter (is_due now) row db.schedules ready blocks.stored) in
    let (others, taken) = take-at_least_one config.max_concurrent_jobs row rest in
    (others, ap (take (at_least_one config.max_concurrent_jobs)) sorted ∙ taken)

module _ (calendar : Calendar) (config : Config) (row : Schedule) where
  -- The next time of the row cannot be computed.
  abbrev pub CannotAdvance : ℕ → Type 0
  CannotAdvance now = (error : Error) × (next_of calendar row now ≡ raised error)

  start_rows-blocked :
      (now : ℕ) (others : List Schedule) (s : State)
      → CannotAdvance now
      → (error : Error) × (start_rows calendar now now (row ∷ others) s
          ≡ (record s { db = (handle_overlap row now s.db).0 }, raised error))
  unfolding start_rows go_on start_row start_task advance_schedule
  start_rows-blocked now others s (error, raises) = (error, rw raises)

  run_due_once-blocked :
      (due now : ℕ) (s : State)
      → Blocks row due s.db.schedules
      → due ≤ now
      → CannotAdvance now
      → (error : Error) × (run_due_once calendar config now now s
          ≡ (record s { db = (handle_overlap row now s.db).0 }, raised error))
  unfolding run_due_once
  run_due_once-blocked due now s blocks come fails =
      let (others, first) = due_rows-first config row due now s.db blocks come in
      let (error, ends) = start_rows-blocked now others s fails in
      (error, ap (λ rows. start_rows calendar now now rows s) first ∙ ends)

  poll-blocked :
      (due now : ℕ) (s : State)
      → Blocks row due s.db.schedules
      → due ≤ now
      → CannotAdvance now
      → poll calendar config now s ≡ record s { db = (handle_overlap row now s.db).0 }
  unfolding poll
  poll-blocked due now s blocks come fails =
      let (error, ends) = run_due_once-blocked due now s blocks come fails in
      rw (ends, poll) (ap (λ p. p.0) ends)

  abbrev pub Same : State → State → Type 0
  Same old new = (new.db.schedules ≡ old.db.schedules) × (new.tasks ≡ old.tasks)

  -- A schedule whose next time cannot be computed, as long as that is so, keeps all others from
  -- running, if its time has come and each other schedule that is enabled has a later time or none:
  -- whenever `_run_loop` polls then, it creates no task and changes no schedule.
  pub run_loop-Same :
      (due : ℕ) (times : List ℕ) (s : State)
      → Blocks row due s.db.schedules
      → All (λ now. (due ≤ now) × CannotAdvance now) times
      → Same s (run_loop calendar config times s)
  unfolding run_loop
  run_loop-Same due [] s blocks fails = (refl, refl)
  run_loop-Same due (now ∷ times) s blocks fails =
      let (come, cannot) = fails.0 in
      let s' : State = record s { db = (handle_overlap row now s.db).0 } in
      let kept : s'.db.schedules ≡ s.db.schedules =
        handle_overlap-schedules calendar now now row s.db in
      let (schedules, tasks) =
        run_loop-Same due times s' (subst (Blocks row due) (sym kept) blocks) fails.1 in
      rw (poll-blocked due now s blocks come cannot, run_loop) (schedules ∙ kept, tasks)
