-- ===== src/Turns/Thread.antt =====
-- One thread's `_ThreadState` and the sections of src/uv_agent/turn_manager.py that run under the
-- manager's lock. A handle is an object that several places refer to: it lives in the thread's
-- store, under the number of its allocation, and a reference is that number (`is` compares them).
use uv_agent.Common.{
  ℕ, ◌+◌, Bool, true, false, ◌||◌, Option, none, some, List, [], ◌∷◌, ◌++◌, ◌==◌, if◌then◌else◌,
  is_some,
}
use uv_agent.Common.Text.{Text}
use uv_agent.Turns.Handle.{
  Conflict, queue, reject, interrupt, guide, Status, queued, UserInput, Event, Outcome, Handle,
  mark_merged, on_event, begin, on_end, new_handle,
}

pub data Mode : Type 0 where
  by_guide by_interrupt : Mode

-- Where the thread's worker task is: before the locked section that chooses a handle, inside
-- `_run_handle`, before the locked section that settles, or ended (`worker.done()`).
pub data Worker : Type 0 where
  choosing : Worker
  running : ℕ → Worker
  settling : ℕ → Outcome → Worker
  ended : Worker

pub record Thread : Type 0 where
  pub store : ℕ → Handle
  pub next : ℕ
  pub active : Option ℕ
  pub waiting : List ℕ
  pub takeover : Option ℕ
  pub takeover_mode : Option Mode
  pub worker : Option Worker

abbrev pub update : (ℕ → Handle) → ℕ → Handle → (ℕ → Handle)
update store i h j = if i == j then h else store j

-- `handle.field = …` through a reference.
abbrev pub change : (Handle → Handle) → ℕ → (ℕ → Handle) → (ℕ → Handle)
change f i store = update store i (f (store i))

abbrev pub nonempty : List ℕ → Bool
nonempty [] = false
nonempty (i ∷ is) = true

-- `_ensure_worker_locked`; a new task starts at the head of `_thread_worker`.
abbrev pub live_worker : Option Worker → Option Worker
live_worker none = some choosing
live_worker (some ended) = some choosing
live_worker (some w) = some w

unfoldable pub ensure_worker : Thread → Thread
ensure_worker t = record t { worker = live_worker t.worker }

-- `_merge_into_takeover_locked`; `none` is its RuntimeError.
unfoldable pub merge_into_takeover : ℕ → Thread → Option Thread
merge_into_takeover incoming t = elim t.takeover [
  | none ↦ none
  | some takeover ↦
      if incoming == takeover
      then some t
      else (let absorb = λ (h : Handle). record h {
        user_inputs = h.user_inputs ++ (t.store incoming).user_inputs;
      } in
          let store = change absorb takeover t.store in
          some
            (record t { store = change (mark_merged (store takeover).request_id) incoming store }))
]

-- The loop of `_absorb_queue_into_takeover_locked` over the queued handles.
unfoldable pub merge_pending :
    Text → List ℕ → (ℕ → Handle) → List UserInput → (ℕ → Handle) × List UserInput
merge_pending target [] store inputs = (store, inputs)
merge_pending target (i ∷ is) store inputs =
    merge_pending target is (change (mark_merged target) i store) (inputs ++ (store i).user_inputs)

abbrev set_inputs : List UserInput → Handle → Handle
set_inputs inputs h = record h { user_inputs = inputs }

-- The branch of it that creates the takeover.
unfoldable pub start_takeover : ℕ → Mode → Thread → Thread
start_takeover incoming mode t = elim t.waiting [
  | [] ↦ record t { takeover = some incoming; takeover_mode = some mode }
  | i ∷ is ↦
      (let (store, inputs) = merge_pending (t.store incoming).request_id (i ∷ is) t.store [] in
        record t {
          takeover = some incoming;
          takeover_mode = some mode;
          waiting = [];
          store = change (set_inputs (inputs ++ (store incoming).user_inputs)) incoming store;
        })
]

-- The last statements of it: an interrupt wins over a guide.
unfoldable pub escalate : Mode → Thread → Thread
escalate by_guide t = t
escalate by_interrupt t = elim t.takeover [
  | none ↦ t
  | some takeover ↦ record t {
    takeover_mode = some by_interrupt;
    store = change (λ h. record h { conflict = interrupt }) takeover t.store;
  }
]

-- `_absorb_queue_into_takeover_locked`.
unfoldable pub absorb_queue : ℕ → Mode → Thread → Option Thread
absorb_queue incoming mode t = elim t.takeover [
  | none ↦ some (start_takeover incoming mode t)
  | some takeover ↦ elim (merge_into_takeover incoming t) [
    | none ↦ none
    | some t' ↦ some (escalate mode t')
  ]
]

-- The event that `submit_turn` sets on the active handle; it reads `takeover_mode`.
abbrev pub signal_handle : Option Mode → Handle → Handle
signal_handle none h = h
signal_handle (some by_interrupt) h = record h { cancel_event = true }
signal_handle (some by_guide) h = record h { guide_event = true }

unfoldable pub signal : Thread → Thread
signal t = elim t.active [
  | none ↦ t
  | some active ↦ record t { store = change (signal_handle t.takeover_mode) active t.store }
]

abbrev pub busy : Thread → Bool
busy t = is_some t.active || nonempty t.waiting || is_some t.takeover

-- How `submit_turn` ends: the handle is accepted, `TurnConflictError` or `RuntimeError` is raised.
pub data Submitted : Type 0 where
  accepted : Thread → Submitted
  conflicting : Submitted
  broken : Submitted

abbrev pub or_broken : Option Thread → Submitted
or_broken none = broken
or_broken (some t) = accepted t

abbrev pub signalled : Option Thread → Option Thread
signalled none = none
signalled (some t) = some (ensure_worker (signal t))

abbrev pub take_over : ℕ → Mode → Thread → Submitted
take_over h mode t = or_broken (signalled (absorb_queue h mode t))

-- The locked section of `submit_turn` on a thread that has work already.
unfoldable pub submit_busy : ℕ → Conflict → Thread → Submitted
submit_busy h reject t = conflicting
submit_busy h queue t =
    if is_some t.takeover
    then or_broken (merge_into_takeover h t)
    else accepted (ensure_worker (record t { waiting = t.waiting ++ h ∷ [] }))
submit_busy h interrupt t = take_over h by_interrupt t
submit_busy h guide t = take_over h by_guide t

unfoldable pub submit_locked : ℕ → Conflict → Thread → Submitted
submit_locked h conflict t =
    if busy t
    then submit_busy h conflict t
    else accepted (ensure_worker (record t { active = some h }))

unfoldable pub allocate : Handle → Thread → Thread
allocate h t = record t { store = update t.store t.next h; next = t.next + 1 }

-- `submit_turn` for a request with a thread.
unfoldable pub submit : Handle → Thread → Submitted
submit h t = submit_locked t.next h.conflict (allocate h t)

-- The first locked section of `_thread_worker`, and the first statement of `_run_handle`, which
-- follows with no suspension between.
abbrev run : ℕ → Thread → Thread
run h t = record t { active = some h; worker = some (running h); store = change begin h t.store }

abbrev run_waiting : List ℕ → Thread → Thread
run_waiting [] t = record t { worker = none }
run_waiting (h ∷ hs) t = run h (record t { waiting = hs })

abbrev choose_pending : Thread → Thread
choose_pending t = elim t.takeover [
  | some h ↦ run h (record t { takeover = none; takeover_mode = none })
  | none ↦ run_waiting t.waiting t
]

abbrev pub is_queued : Status → Bool
is_queued queued = true
is_queued _ = false

unfoldable pub choose : Thread → Thread
choose t = elim t.active [
  | some h ↦ if is_queued (t.store h).status then run h t else record t { worker = some ended }
  | none ↦ choose_pending t
]

-- An event of the engine, and the end of its run.
unfoldable pub engine_event : ℕ → Event → Thread → Thread
engine_event h e t = record t { store = change (on_event e) h t.store }

unfoldable pub engine_end : ℕ → Outcome → Thread → Thread
engine_end h outcome t = record t {
  store = change (on_end outcome) h t.store;
  worker = some (settling h outcome);
}

-- The `finally` of `_thread_worker`. A cancellation goes on once the section is done, unless its
-- `return` drops it.
abbrev pub next_worker : Outcome → Worker
next_worker Outcome.was_cancelled = ended
next_worker _ = choosing

abbrev pub drop_active : ℕ → Option ℕ → Option ℕ
drop_active h none = none
drop_active h (some i) = if i == h then none else some i

unfoldable pub settle : ℕ → Outcome → Thread → Thread
settle h outcome t =
    let cleared = record t { active = drop_active h t.active } in
    if nonempty t.waiting || is_some t.takeover
    then record cleared { worker = some (next_worker outcome) }
    else record cleared { worker = none }

-- The texts that wait in the thread, in the order in which the model will see them.
unfoldable pub inputs_of : (ℕ → Handle) → List ℕ → List UserInput
inputs_of store [] = []
inputs_of store (i ∷ is) = (store i).user_inputs ++ inputs_of store is

abbrev pub option_list : Option ℕ → List ℕ
option_list none = []
option_list (some i) = i ∷ []

unfoldable pub pending_inputs : Thread → List UserInput
unfolding inputs_of
pending_inputs t = inputs_of t.store (t.waiting ++ option_list t.takeover)

unfoldable pub new_thread : Thread
new_thread = record {
  store =
      λ i. new_handle [] (record { text = []; image_paths = []; attachments = [] }) none none queue;
  next = 0;
  active = none;
  waiting = [];
  takeover = none;
  takeover_mode = none;
  worker = none;
}
