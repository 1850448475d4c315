-- ===== src/Turns/Handle.antt =====
-- `TurnHandle` of src/uv_agent/turn_manager.py: the object that a submitter observes, and what the
-- supervisor does to it. The asyncio queue of a handle is the list of what was put into it; `none`
-- in it is the `None` that ends `events()`.
use mathlib.Core.List.{flat_map}
use uv_agent.Common.{Bool, true, false, Option, none, some, List, [], ◌∷◌, ◌++◌, if◌then◌else◌}
use uv_agent.Common.Text.{Text, lit, text_eq}

pub data Conflict : Type 0 where
  queue reject interrupt guide : Conflict

pub data Status : Type 0 where
  queued running completed failed interrupted cancelled merged : Status

-- One user message; a path or an attachment is known by its text.
pub record UserInput : Type 0 where
  pub text : Text
  pub image_paths : List Text
  pub attachments : List Text

-- The events that the supervisor reads or writes; `other` is any event that it only passes on.
pub data Event : Type 0 where
  started : (thread_id turn_id : Option Text) → Event
  finished : (final_text : Option Text) → Event
  stopped : Event
  errored : Event
  was_merged : (request_id merged_into : Text) → Event
  was_cancelled : (request_id : Text) → Event
  other : (kind : Text) → Event

-- How a call of the engine ends: it returns, is cancelled, raises `TurnInterrupted`, or raises
-- another exception.
pub data Outcome : Type 0 where
  returned was_cancelled turn_interrupted : Outcome
  raised : (error_type message : Text) → Outcome

pub record Handle : Type 0 where
  pub request_id : Text
  pub user_inputs : List UserInput
  pub thread_id : Option Text
  pub level : Option Text
  pub conflict : Conflict
  pub status : Status
  pub turn_id : Option Text
  pub final_text : Text
  pub error : Option (Text × Text)
  pub merged_into : Option Text
  pub cancel_event : Bool
  pub guide_event : Bool
  pub events : List (Option Event)
  pub done : Bool

-- `handle.user_text`, `handle.image_paths`, `handle.attachments`.
unfoldable pub user_text : Handle → Text
user_text h = elim h.user_inputs [ [] ↦ [] | input ∷ rest ↦ input.text ]

unfoldable pub image_paths : Handle → List Text
image_paths h = flat_map (λ input. input.image_paths) h.user_inputs

unfoldable pub attachments : Handle → List Text
attachments h = flat_map (λ input. input.attachments) h.user_inputs

-- `_emit` and `_finish`.
unfoldable pub emit : Event → Handle → Handle
emit e h = record h { events = h.events ++ some e ∷ [] }

unfoldable pub finish : Handle → Handle
finish h = if h.done then h else record h { events = h.events ++ none ∷ []; done = true }

-- `_mark_merged`.
unfoldable pub mark_merged : Text → Handle → Handle
unfolding emit finish
mark_merged target h = finish (
    emit (was_merged h.request_id target) (record h { status = merged; merged_into = some target }))

-- What a dynamic test takes for true: a text that is there and not empty.
abbrev pub truthy : Option Text → Option Text
truthy (some (c ∷ s)) = some (c ∷ s)
truthy _ = none

-- `a or b`, for the last step `or ""` and `or None` of the callers.
abbrev pub or_else : Option Text → Option Text → Option Text
or_else (some s) b = some s
or_else none b = b

abbrev pub or_empty : Option Text → Text
or_empty (some s) = s
or_empty none = []

-- The body of the `async for` of `_run_handle`.
abbrev note : Event → Handle → Handle
note (started thread_id turn_id) h = record h {
  thread_id = or_else (truthy thread_id) (truthy h.thread_id);
  turn_id = truthy turn_id;
}
note (finished final_text) h = record h {
  status = completed;
  final_text = or_empty (truthy final_text);
}
note stopped h = record h { status = interrupted }
note errored h = record h { status = failed }
note _ h = h

unfoldable pub on_event : Event → Handle → Handle
unfolding emit
on_event e h = emit e (note e h)

-- The first statement of `_run_handle`.
unfoldable pub begin : Handle → Handle
begin h = record h { status = running }

-- The `except` and `finally` clauses of `_run_handle`.
abbrev conclude : Outcome → Handle → Handle
conclude returned h = h
conclude Outcome.was_cancelled h = record h {
  status = cancelled;
  events = h.events ++ some (Event.was_cancelled h.request_id) ∷ [];
}
conclude turn_interrupted h = record h {
  status = interrupted;
  events = h.events ++ some stopped ∷ [];
}
conclude (raised error_type message) h = record h {
  status = failed;
  error = some (error_type, message);
  events = h.events ++ some errored ∷ [];
}

unfoldable pub on_end : Outcome → Handle → Handle
unfolding finish
on_end outcome h = finish (conclude outcome h)

-- The handle that `submit_turn` builds.
unfoldable pub new_handle : Text → UserInput → Option Text → Option Text → Conflict → Handle
new_handle request_id input thread_id level conflict = record {
  request_id = request_id;
  user_inputs = input ∷ [];
  thread_id = thread_id;
  level = level;
  conflict = conflict;
  status = queued;
  turn_id = none;
  final_text = [];
  error = none;
  merged_into = none;
  cancel_event = false;
  guide_event = false;
  events = [];
  done = false;
}

pub Status-discrete : Discrete Status
Status-discrete = hlevel

-- The test of `submit_turn` on its argument: the four spellings, and no other.
unfoldable pub read_conflict : Text → Option Conflict
read_conflict s =
    if text_eq s (lit "queue")
    then some queue
    else if text_eq s (lit "reject")
    then some reject
    else if text_eq s (lit "interrupt")
    then some interrupt
    else if text_eq s (lit "guide")
    then some guide
    else none
