-- ===== src/Goal.antt =====
-- The goal of a thread: src/uv_agent/builtin/goal/__init__.py, on the storage of plugins. A thread has one
-- value under the key "state" and one collection, "tasks". What these calls publish to the thread and to
-- its context is not modelled.
pub mod Reset
mod Examples
use uv_agent.Common.{
  ℕ, Bool, true, false, not, Option, none, some, List, [], ◌∷◌, ◌++◌, map, if◌then◌else◌,
}
use mathlib.Core.List.{reverse}
use uv_agent.Common.Text.{Text, lit, text_eq, lstrip, strip}
use uv_agent.Common.Outcome.{Outcome, raised, returned, ◌>>=◌}
use uv_agent.Storage
use uv_agent.Storage.{Doc, Collection}

pub record Phase : Type 0 where
  pub name : Text
  pub summary : Text
  pub updated_at : ℕ

-- The value under the key "state". A phase that is an empty dictionary is none, and a time that is an
-- empty text is none.
pub record Stored : Type 0 where
  pub enabled : Bool
  pub objective : Text
  pub phase : Option Phase
  pub notes : Text
  pub created_at : Option ℕ
  pub updated_at : Option ℕ

pub record Task : Type 0 where
  pub id : Text
  pub text : Text
  pub status : Text
  pub priority : Option Text
  pub created_at : ℕ
  pub updated_at : ℕ

pub record Thread : Type 0 where
  pub state : Option Stored
  pub tasks : Collection Task

-- What `_state` returns.
pub record View : Type 0 where
  pub stored : Stored
  pub tasks : List Task

pub data Error : Type 0 where
  no_task_text no_task_id no_note_text : Error
  unknown_task : (task_id : Text) → Error

abbrev pub empty_state : Stored
empty_state = record {
  enabled = false;
  objective = [];
  phase = none;
  notes = [];
  created_at = none;
  updated_at = none;
}

abbrev pub stored_or_empty : Option Stored → Stored
stored_or_empty none = empty_state
stored_or_empty (some stored) = stored

abbrev pub body_of : Doc Task → Task
body_of doc = doc.body

-- `_state`
unfoldable pub state_of : Thread → View
state_of thread = record {
  stored = stored_or_empty thread.state;
  tasks = map body_of (Storage.list_docs 500 0 thread.tasks);
}

-- `value or default`
abbrev pub text_or : Option Text → Text → Text
text_or none default = default
text_or (some []) default = default
text_or (some (c ∷ s)) default = c ∷ s

abbrev write : Stored → Thread → Thread
write stored thread = record thread { state = some stored }

-- `_set_objective`
unfoldable pub set_objective : (now : ℕ) → (text objective : Option Text) → Thread → Thread × View
unfolding state_of
set_objective now text objective thread =
    let view = state_of thread in
    let stored = record view.stored {
      objective = text_or text (text_or objective []);
      updated_at = some now;
    } in
    (write stored thread, record view { stored = stored })

-- `_set_phase`
unfoldable pub set_phase : (now : ℕ) → (name summary : Option Text) → Thread → Thread × Phase
unfolding state_of
set_phase now name summary thread =
    let phase : Phase = record {
      name = text_or name [];
      summary = text_or summary [];
      updated_at = now;
    } in
    (
      write (record (state_of thread).stored { phase = some phase; updated_at = some now }) thread,
      phase,
    )

-- `_get_phase` and `_get_notes`
abbrev pub get_phase : Thread → Option Phase
get_phase thread = (state_of thread).stored.phase

abbrev pub get_notes : Thread → Text
get_notes thread = (state_of thread).stored.notes

-- `_set_notes`
unfoldable pub set_notes : (now : ℕ) → (text notes : Option Text) → Thread → Thread
unfolding state_of
set_notes now text notes thread =
    write
      (record (state_of thread).stored {
        notes = text_or text (text_or notes []);
        updated_at = some now;
      })
      thread

abbrev rstrip : Text → Text
rstrip s = reverse (lstrip (reverse s))

-- `_append_note`; `utc_now_iso` writes the time.
unfoldable pub append_note :
    (iso : ℕ → Text) → (now : ℕ) → Option Text → Thread → Outcome Error Thread
unfolding state_of
append_note iso now text thread =
    let note = strip (text_or text []) in
    let notes = (state_of thread).stored.notes in
    if text_eq note []
    then raised no_note_text
    else returned (
        write
          (record (state_of thread).stored {
            notes = strip (rstrip notes ++ (lit "\n- " ++ (iso now ++ (lit ": " ++ note))));
            updated_at = some now;
          })
          thread)

-- What `_extract_index_value` finds in a task: the schema of the plugin has an index by the status.
unfoldable pub extract : Text → Task → Option Text
extract field task = if text_eq field (lit "status") then some task.status else none

abbrev pub index_fields : List Text
index_fields = lit "status" ∷ []

abbrev put_task : (now : ℕ) → Task → Thread → Thread
put_task now task thread = record thread {
  tasks = Storage.put extract index_fields now task.id task thread.tasks;
}

-- `_list_tasks`
unfoldable pub list_tasks : Option Text → Thread → List Task
list_tasks none thread = map body_of (Storage.list_docs 500 0 thread.tasks)
list_tasks (some []) thread = map body_of (Storage.list_docs 500 0 thread.tasks)
list_tasks (some (c ∷ s)) thread =
    map body_of (Storage.query_index (lit "status") (some (c ∷ s)) 500 thread.tasks)

-- `_add_task`; `id` is what `new_id` makes.
unfoldable pub add_task :
    (now : ℕ)
    → (id : Text) → (text status priority : Option Text) → Thread
    → Outcome Error (Thread × Task)
add_task now id text status priority thread =
    let task : Task = record {
      id = id;
      text = strip (text_or text []);
      status = text_or status (lit "todo");
      priority = priority;
      created_at = now;
      updated_at = now;
    } in
    if text_eq (strip (text_or text [])) []
    then raised no_task_text
    else returned (put_task now task thread, task)

abbrev pub value_or {ℓ} : {A : Type ℓ} → Option A → A → A
value_or none default = default
value_or (some value) default = value

-- The identifier that `_update_task` and `_delete_task` read.
abbrev pub task_id_of : Option Text → Option Text → Outcome Error Text
task_id_of task_id id =
    if text_eq (strip (text_or task_id (text_or id []))) []
    then raised no_task_id
    else returned (strip (text_or task_id (text_or id [])))

abbrev pub change : (now : ℕ) → (text status : Option Text) → (priority : Option Text) → Task → Task
change now text status priority task = record task {
  text = value_or text task.text;
  status = value_or status task.status;
  priority = elim priority [ none ↦ task.priority | some p ↦ some p ];
  updated_at = now;
}

abbrev pub task_or_raise : Text → Option Task → Outcome Error Task
task_or_raise id none = raised (unknown_task id)
task_or_raise id (some task) = returned task

-- `_update_task`; what is none is not given.
unfoldable pub update_task :
    (now : ℕ)
    → (task_id : Text) → (text status priority : Option Text) → Thread
    → Outcome Error (Thread × Task)
update_task now task_id text status priority thread = do
  id ← task_id_of (some task_id) none
  task ← task_or_raise id (Storage.get id thread.tasks)
  let new = change now text status priority task
  returned (record thread { tasks = Storage.put extract index_fields now id new thread.tasks }, new)

-- `_delete_task`
unfoldable pub delete_task : (task_id id : Option Text) → Thread → Outcome Error (Thread × Bool)
delete_task task_id id thread = do
  id ← task_id_of task_id id
  let (tasks, deleted) = Storage.delete id thread.tasks
  returned (record thread { tasks = tasks }, deleted)

-- `enable_thread_goal`
unfoldable pub enable_thread_goal : (now : ℕ) → (objective : Text) → Thread → Thread
unfolding state_of
enable_thread_goal now objective thread =
    let existing = (state_of thread).stored in
    write
      (record existing {
        enabled = true;
        objective = text_or (some (strip objective)) existing.objective;
        created_at = some (value_or existing.created_at now);
        updated_at = some now;
      })
      thread

-- `disable_thread_goal`
unfoldable pub disable_thread_goal : (now : ℕ) → Thread → Thread
unfolding state_of
disable_thread_goal now thread =
    write (record (state_of thread).stored { enabled = false; updated_at = some now }) thread

-- The loop of `reset_thread_goal`.
unfoldable pub delete_all : List (Doc Task) → Collection Task → Collection Task
delete_all [] c = c
delete_all (doc ∷ docs) c = delete_all docs (Storage.delete doc.doc_id c).0

-- `reset_thread_goal`
unfoldable pub reset_thread_goal : (now : ℕ) → (objective : Text) → Thread → Thread
unfolding delete_all
reset_thread_goal now objective thread = record {
  state = some (record empty_state {
    objective = strip objective;
    created_at = some now;
    updated_at = some now;
  });
  tasks = delete_all (Storage.list_docs 500 0 thread.tasks) thread.tasks;
}
