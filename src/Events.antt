-- ===== src/Events.antt =====
-- `HostEventBus` of src/uv_agent/host_events.py. A handler is known by a number, which `==` compares;
-- what it does is a parameter, and it may subscribe, unsubscribe or attach a plugin bus itself.
pub mod Delivery
mod Examples
use uv_agent.Common.{
  ℕ, Bool, true, false, ◌&&◌, ◌||◌, Option, none, some, List, [], ◌∷◌, ◌++◌, ◌==◌, if◌then◌else◌,
}
use uv_agent.Common.Text.{Text, lit, text_eq, starts_with}

-- The two keys of an event that the bus reads; a key that is missing reads as an empty text.
pub record HostEvent : Type 0 where
  pub kind : Text
  pub scope : Text

pub record Bus : Type 0 where
  pub handlers : List ℕ
  pub plugin_bus : Option ℕ

-- How a handler ends: it returns, returns something to await, or raises.
pub data Ended : Type 0 where
  returned awaitable raised : Ended

-- What `publish` does, in order: a handler is called, its task is created, or the event is forwarded.
pub data Delivered : Type 0 where
  called scheduled : (handler : ℕ) → Delivered
  forwarded : (plugin_bus : ℕ) → Delivered

-- `subscribe`
unfoldable pub subscribe : ℕ → Bus → Bus
subscribe handler bus = record bus { handlers = bus.handlers ++ handler ∷ [] }

-- `list.remove`
unfoldable pub remove_first : ℕ → List ℕ → List ℕ
remove_first handler [] = []
remove_first handler (h ∷ hs) =
    let rest = remove_first handler hs in if h == handler then hs else h ∷ rest

-- What `subscribe` returns.
unfoldable pub unsubscribe : ℕ → Bus → Bus
unsubscribe handler bus = record bus { handlers = remove_first handler bus.handlers }

-- `register_plugin_bus`
unfoldable pub register_plugin_bus : ℕ → Bus → Bus
register_plugin_bus plugin_bus bus = record bus { plugin_bus = some plugin_bus }

-- The test of `_forward_to_plugin_bus`.
unfoldable pub is_forwarded : HostEvent → Bool
is_forwarded event =
    (text_eq event.scope (lit "plugin") || text_eq event.scope (lit "ui"))
    || (starts_with event.kind (lit "plugin.")
        || (starts_with event.kind (lit "runtime.ui.")
            || text_eq event.kind (lit "thread.event_stored")))

-- `_forward_to_plugin_bus`
unfoldable pub forward : HostEvent → Option ℕ → List Delivered
forward event none = []
forward event (some plugin_bus) = if is_forwarded event then forwarded plugin_bus ∷ [] else []

-- A handler's call, and whether an event loop runs.
module _ (call : ℕ → HostEvent → Bus → Bus × Ended) (has_loop : Bool) where
  abbrev pub task_of : ℕ → Ended → List Delivered
  task_of handler awaitable = if has_loop then scheduled handler ∷ [] else []
  task_of handler _ = []

  -- The loop of `publish` over the handlers that were there at its start.
  unfoldable pub deliver : HostEvent → List ℕ → Bus → Bus × List Delivered
  deliver event [] bus = (bus, [])
  deliver event (handler ∷ handlers) bus =
      let (bus', ended) = call handler event bus in
      let (last, deliveries) = deliver event handlers bus' in
      (last, called handler ∷ task_of handler ended ++ deliveries)

  -- `publish`; `none` is an event that is no dictionary.
  unfoldable pub publish : Option HostEvent → Bus → Bus × List Delivered
  publish none bus = (bus, [])
  publish (some event) bus =
      let (last, deliveries) = deliver event bus.handlers bus in
      (last, deliveries ++ forward event bus.plugin_bus)
