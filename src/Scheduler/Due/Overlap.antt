-- ===== src/Scheduler/Due/Overlap.antt =====
-- Which of the schedules that are due `run_due_once` starts, and the runs that it replaces.
use mathlib.Core.Path.{subst}
use uv_agent.Common.{
  ℕ, ◌≡◌, refl, sym, ap, ◌∙◌, ◌⊎◌, inl, inr, Bool, true, false, ◌||◌, some, List, [], ◌∷◌, ◌++◌,
  append-nil, append_assoc, map, ◌==◌, ==_refl, All, Bool-cases, arith,
}
use uv_agent.Common.Text.{Text, lit, text_eq}
use uv_agent.Common.Outcome.{Outcome, raised, returned, Outcome-cases}
use uv_agent.Scheduler.Error.{Error}
use uv_agent.Scheduler.Cron.{Calendar}
use uv_agent.Scheduler.Service.{Config}
use uv_agent.Scheduler.Params.{text_or}
use uv_agent.Common.Queries.{filter}
use uv_agent.Scheduler.Tables.{Schedule, PublicRow, public_row, Run, Db}
use uv_agent.Common.Queries.Rows.{All-imp, All-update_where, filter-kept, filter-dropped}
use uv_agent.Scheduler.Due.{
  is_empty, State, Task, runs_now, cancel, cancel_all, handle_overlap, advance_schedule, start_task,
  start_row, go_on, with_row, start_rows, due_rows, run_due_once, next_of,
}

-- No run of the schedule `id` is running.
abbrev pub NoneRunning : ℕ → List Run → Type 0
NoneRunning id = All λ run. runs_now id run ≡ false

abbrev is_listed : List Run → Run → Bool
is_listed [] run = false
is_listed (old ∷ olds) run = (run.run_id == old.run_id) || is_listed olds run

cancel-not_running : (id now : ℕ) (run : Run) → runs_now id (cancel now run) ≡ false
cancel-not_running id now run = ground arith

-- The runs that are not listed were not running; then none runs once the listed ones are cancelled.
cancel_all-NoneRunning :
    (id now : ℕ) (olds runs : List Run)
    → All (λ run. runs_now id run ≡ true → is_listed olds run ≡ true) runs
    → NoneRunning id (cancel_all now olds runs)
unfolding cancel_all
cancel_all-NoneRunning id now [] runs listed =
    All-imp (λ run. runs_now id run ≡ true → false ≡ true) (λ run. runs_now id run ≡ false) runs
      (λ run absurdly. ground arith) listed
cancel_all-NoneRunning id now (old ∷ olds) runs listed = cancel_all-NoneRunning id now olds _ (
    All-update_where (λ run. runs_now id run ≡ true → is_listed (old ∷ olds) run ≡ true)
      (λ run. runs_now id run ≡ true → is_listed olds run ≡ true) (λ run. run.run_id == old.run_id)
      (cancel now) runs (λ run _ _ live. absurd (cc (cancel-not_running id now run)))
      (λ run before other live. rw (other) at (before live)) listed)

or-true : (b : Bool) → (b || true) ≡ true
or-true true = refl
or-true false = refl

abbrev ListsLive : (Run → Bool) → List Run → List Run → Type 0
ListsLive test runs olds = All (λ run. test run ≡ true → is_listed olds run ≡ true) runs

listed-filter : (test : Run → Bool) (runs : List Run) → ListsLive test runs (filter test runs)
listed-filter test [] = tt
listed-filter test (run ∷ runs) = elim (Bool-cases (test run)) [
  | inl kept ↦ subst (ListsLive test (run ∷ runs)) (sym (filter-kept test run runs kept)) (
    (λ _. ground (arith, ==_refl run.run_id)),
    All-imp (λ other. test other ≡ true → is_listed (filter test runs) other ≡ true)
        (λ other. test other ≡ true → is_listed (run ∷ filter test runs) other ≡ true) runs
        (λ other before live. rw (before live) (or-true (other.run_id == run.run_id)))
        (listed-filter test runs),
  )
  | inr dropped ↦
      subst (ListsLive test (run ∷ runs)) (sym (filter-dropped test run runs dropped))
        ((λ live. absurd (cc)), listed-filter test runs)
]

none_kept :
    (test : Run → Bool) (runs : List Run)
    → filter test runs ≡ []
    → All (λ run. test run ≡ false) runs
unfolding filter
none_kept test [] empty = tt
none_kept test (run ∷ runs) empty = elim (Bool-cases (test run)) [
  | inl kept ↦ absurd (cc (rw kept at empty))
  | inr dropped ↦ (dropped, none_kept test runs (rw dropped at empty))
]

keeps_none :
    (test : Run → Bool) (runs : List Run)
    → All (λ run. test run ≡ false) runs
    → filter test runs ≡ []
unfolding filter
keeps_none test [] all = refl
keeps_none test (run ∷ runs) all = rw (all.0, keeps_none test runs all.1)

abbrev pub Allows : Schedule → Type 0
Allows row = text_eq row.overlap_policy (lit "allow") ≡ true

abbrev pub Replaces : Schedule → Type 0
Replaces row = text_eq row.overlap_policy (lit "replace") ≡ true

-- The row may start: the runs are left as they are, and none of the schedule is running or its policy
-- allows a second one; or its policy replaces them, and none is running after that.
abbrev pub Starts : (runs after : List Run) → Schedule → Type 0
Starts runs after row =
    ((after ≡ runs) × (NoneRunning row.schedule_id runs ⊎ Allows row))
    ⊎ (Replaces row × NoneRunning row.schedule_id after)

-- A run of the schedule is running, and its policy neither allows nor replaces it.
abbrev pub MustWait : List Run → Schedule → Type 0
MustWait runs row =
    ¬ NoneRunning row.schedule_id runs
    × (text_eq row.overlap_policy (lit "allow") ≡ false)
    × (text_eq row.overlap_policy (lit "replace") ≡ false)

abbrev Decided : Schedule → Db → Db × Bool → Type 0
Decided row old (db, true) = Starts old.schedule_runs db.schedule_runs row
Decided row old (db, false) =
    (db.schedule_runs ≡ old.schedule_runs) × MustWait old.schedule_runs row

abbrev policy_of : Schedule → Text
policy_of row = text_or (some row.overlap_policy) (lit "skip")

allow_lem :
    (policy : Text)
    → text_eq (text_or (some policy) (lit "skip")) (lit "allow") ≡ text_eq policy (lit "allow")
allow_lem [] = unfold text_eq in refl
allow_lem (c ∷ s) = refl

replace_lem :
    (policy : Text)
    → text_eq (text_or (some policy) (lit "skip")) (lit "replace") ≡ text_eq policy (lit "replace")
replace_lem [] = unfold text_eq in refl
replace_lem (c ∷ s) = refl

is_empty-eq : (runs : List Run) → is_empty runs ≡ true → runs ≡ []
is_empty-eq [] empty = refl
is_empty-eq (run ∷ runs) empty = cc

ne_empty : (runs : List Run) → is_empty runs ≡ false → ¬ (runs ≡ [])
ne_empty [] empty same = cc
ne_empty (run ∷ runs) empty same = cc

decide-Decided : (row : Schedule) (now : ℕ) (db : Db) → Decided row db (handle_overlap row now db)
unfolding handle_overlap
decide-Decided row now db =
    let live = runs_now row.schedule_id in
    let running = filter live db.schedule_runs in
    let policy = policy_of row in
    let same_allow = allow_lem row.overlap_policy in
    let same_replace = replace_lem row.overlap_policy in
    elim (Bool-cases (is_empty running)) [
      | inl empty ↦
          rw empty (inl (refl, inl (none_kept live db.schedule_runs (is_empty-eq running empty))))
      | inr some_run ↦ elim (Bool-cases (text_eq policy (lit "allow"))) [
        | inl allow ↦ rw (some_run, allow) (inl (refl, inr (sym same_allow ∙ allow)))
        | inr not_allow ↦ elim (Bool-cases (text_eq policy (lit "replace"))) [
          | inl replace ↦
              rw (some_run, not_allow, replace)
                (inr (
                  sym same_replace ∙ replace,
                  cancel_all-NoneRunning row.schedule_id now running db.schedule_runs
                      (listed-filter live db.schedule_runs),
                ))
          | inr not_replace ↦
              rw (some_run, not_allow, not_replace)
                (
                  refl,
                  (
                    (λ none_now.
                        ne_empty running some_run (keeps_none live db.schedule_runs none_now)),
                    sym same_allow ∙ not_allow,
                    sym same_replace ∙ not_replace,
                  ),
                )
        ]
      ]
    ]

-- Which of the rows start, one after the other, with the runs as they are before and after each: a row
-- starts if it may, and only a row that starts can change the runs.
pub data Chosen : (runs last : List Run) → List Schedule → List Schedule → Type 0 where
  none_left : {runs : List Run} → Chosen runs runs [] []
  started :
      {row : Schedule} {rows chosen : List Schedule} {runs after last : List Run}
      → Starts runs after row
      → Chosen after last rows chosen
      → Chosen runs last (row ∷ rows) (row ∷ chosen)
  skipped :
      {row : Schedule} {rows chosen : List Schedule} {runs last : List Run}
      → MustWait runs row
      → Chosen runs last rows chosen
      → Chosen runs last (row ∷ rows) chosen

abbrev pub task_for : Schedule → Task
task_for row = record { schedule = row; due_at = row.next_run_at }

-- One turn of the loop, if nothing raises.
abbrev Turn : Schedule → State → State × Outcome Error Bool → Type 0
Turn row old (s, raised error) = Unit {0}
Turn row old (s, returned true) =
    Starts old.db.schedule_runs s.db.schedule_runs row × (s.tasks ≡ old.tasks ++ task_for row ∷ [])
Turn row old (s, returned false) =
    (s.db.schedule_runs ≡ old.db.schedule_runs)
    × MustWait old.db.schedule_runs row
    × (s.tasks ≡ old.tasks)

start_task-Turn :
    (row : Schedule) (s : State) (may_start : Bool) (db advanced : Db)
    → advanced.schedule_runs ≡ db.schedule_runs
    → Decided row s.db (db, may_start)
    → Turn row s (start_task row s may_start (returned advanced) db)
unfolding start_task
start_task-Turn row s true db advanced same may =
    (subst (λ runs. Starts s.db.schedule_runs runs row) (sym same) may, refl)
start_task-Turn row s false db advanced same (kept, must) = (same ∙ kept, must, refl)

start_task-raised :
    (row : Schedule) (s : State) (may_start : Bool) (db : Db) (error : Error)
    → Turn row s (start_task row s may_start (raised error) db)
unfolding start_task
start_task-raised row s true db error = tt
start_task-raised row s false db error = tt

start_row-Turn :
    (calendar : Calendar) (now base : ℕ) (row : Schedule) (s : State)
    → Turn row s (start_row calendar now base row s)
unfolding start_row advance_schedule
start_row-Turn calendar now base row s =
    let db : Db = (handle_overlap row now s.db).0 in
    elim (Outcome-cases (next_of calendar row base)) [
      | inl (error, raises) ↦
          rw raises (start_task-raised row s (handle_overlap row now s.db).1 db error)
      | inr (next, returns) ↦ rw returns (
          start_task-Turn row s (handle_overlap row now s.db).1 db _ refl
            (decide-Decided row now s.db))
    ]

-- What the loop has done if nothing raises.
abbrev Loop : List Schedule → State → State × Outcome Error (List PublicRow) → Type 0
Loop rows old (last, raised error) = Unit {0}
Loop rows old (last, returned shown) =
    (chosen : List Schedule) × Chosen old.db.schedule_runs last.db.schedule_runs rows chosen
    × (last.tasks ≡ old.tasks ++ map task_for chosen)
    × (shown ≡ map public_row chosen)

with_row-Loop :
    (row : Schedule) (rows : List Schedule) (old middle : State)
    (end : State × Outcome Error (List PublicRow))
    → Starts old.db.schedule_runs middle.db.schedule_runs row
    → middle.tasks ≡ old.tasks ++ task_for row ∷ []
    → Loop rows middle end
    → Loop (row ∷ rows) old (with_row row end)
unfolding with_row
with_row-Loop row rows old middle (last, raised error) may tasks loop = tt
with_row-Loop row rows old middle (last, returned shown) may tasks (chosen, choice, new, same) = (
  row ∷ chosen,
  started may choice,
  new
      ∙ ap (λ ts. ts ++ map task_for chosen) tasks
      ∙ append_assoc old.tasks (task_for row ∷ []) (map task_for chosen),
  ap (λ l. public_row row ∷ l) same,
)

skip_row-Loop :
    (row : Schedule) (rows : List Schedule) (old middle : State)
    (end : State × Outcome Error (List PublicRow))
    → middle.db.schedule_runs ≡ old.db.schedule_runs
    → MustWait old.db.schedule_runs row
    → middle.tasks ≡ old.tasks
    → Loop rows middle end
    → Loop (row ∷ rows) old end
skip_row-Loop row rows old middle (last, raised error) kept must tasks loop = tt
skip_row-Loop row rows old middle (last, returned shown) kept must tasks
      (chosen, choice, new, same) =
    (
      chosen,
      skipped must (subst (λ runs. Chosen runs last.db.schedule_runs rows chosen) kept choice),
      new ∙ ap (λ ts. ts ++ map task_for chosen) tasks,
      same,
    )

go_on-Loop :
    (row : Schedule) (rows : List Schedule) (old : State) (turn : State × Outcome Error Bool)
    (others : State → State × Outcome Error (List PublicRow))
    → Turn row old turn
    → ((s : State) → Loop rows s (others s))
    → Loop (row ∷ rows) old (go_on row turn others)
unfolding go_on
go_on-Loop row rows old (s, raised error) others turn loop = tt
go_on-Loop row rows old (s, returned true) others (may, tasks) loop =
    with_row-Loop row rows old s (others s) may tasks (loop s)
go_on-Loop row rows old (s, returned false) others (kept, must, tasks) loop =
    skip_row-Loop row rows old s (others s) kept must tasks (loop s)

start_rows-Loop :
    (calendar : Calendar) (now base : ℕ) (rows : List Schedule) (s : State)
    → Loop rows s (start_rows calendar now base rows s)
unfolding start_rows
start_rows-Loop calendar now base [] s = ([], none_left, sym (append-nil s.tasks), refl)
start_rows-Loop calendar now base (row ∷ rows) s =
    go_on-Loop row rows s (start_row calendar now base row s) (start_rows calendar now base rows)
      (start_row-Turn calendar now base row s) (λ s'. start_rows-Loop calendar now base rows s')

returned_Loop :
    (rows : List Schedule) (old : State) (end : State × Outcome Error (List PublicRow))
    {shown : List PublicRow}
    → Loop rows old end
    → end.1 ≡ returned shown
    → (chosen : List Schedule) × Chosen old.db.schedule_runs end.0.db.schedule_runs rows chosen
      × (end.0.tasks ≡ old.tasks ++ map task_for chosen)
      × (shown ≡ map public_row chosen)
returned_Loop rows old (last, raised error) loop ended = absurd (cc)
returned_Loop rows old (last, returned shown) (chosen, choice, new, same) ended =
    (chosen, choice, new, cc)

-- If `run_due_once` returns, then it has created one task for each of the rows that it returns, in
-- the order of its query and behind the older tasks. It takes the rows that the query selects one
-- after the other: a row starts if no run of its schedule is running then, or its policy is "allow",
-- and this changes no run; or if its policy is "replace", and then no run of its schedule is running
-- any more; all other rows are passed over, and change no run.
pub run_due_once-Chosen :
    (calendar : Calendar) (config : Config) (now base : ℕ) (s : State) {shown : List PublicRow}
    → (run_due_once calendar config now base s).1 ≡ returned shown
    → (chosen : List Schedule) × Chosen s.db.schedule_runs
        (run_due_once calendar config now base s).0.db.schedule_runs
        (due_rows config base s.db)
        chosen
      × ((run_due_once calendar config now base s).0.tasks ≡ s.tasks ++ map task_for chosen)
      × (shown ≡ map public_row chosen)
unfolding run_due_once
run_due_once-Chosen calendar config now base s ended =
    returned_Loop (due_rows config base s.db) s
      (start_rows calendar now base (due_rows config base s.db) s)
      (start_rows-Loop calendar now base (due_rows config base s.db) s) ended
