-- ===== src/Events/Delivery.antt =====
-- Who gets an event.
use uv_agent.Common.{ℕ, Option, none, some, List, [], ◌∷◌, if◌then◌else◌}
use uv_agent.Events.{HostEvent, Delivered, called, scheduled, forwarded, is_forwarded}

-- The handlers that were called, and the plugin buses that an event was forwarded to.
unfoldable pub calls : List Delivered → List ℕ
calls [] = []
calls (called handler ∷ ds) = handler ∷ calls ds
calls (scheduled handler ∷ ds) = calls ds
calls (forwarded plugin_bus ∷ ds) = calls ds

unfoldable pub forwards : List Delivered → List ℕ
forwards [] = []
forwards (called handler ∷ ds) = forwards ds
forwards (scheduled handler ∷ ds) = forwards ds
forwards (forwarded plugin_bus ∷ ds) = plugin_bus ∷ forwards ds

-- The plugin bus that should get an event.
abbrev pub receiver : HostEvent → Option ℕ → List ℕ
receiver event none = []
receiver event (some plugin_bus) = if is_forwarded event then plugin_bus ∷ [] else []
