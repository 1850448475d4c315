-- ===== src/Events/Examples.antt =====
-- A bus with two handlers, and the theorem about it at that.
use uv_agent.Common.{ℕ, some, [], ◌∷◌, ◌==◌, if◌then◌else◌}
use uv_agent.Common.Text.{lit}
use uv_agent.Events.{HostEvent, Bus, Ended, awaitable, raised, unsubscribe}

-- The first handler removes the second and raises; any other returns something to await.
abbrev call : ℕ → HostEvent → Bus → Bus × Ended
call handler event bus = if handler == 1 then (unsubscribe 2 bus, raised) else (bus, awaitable)

abbrev event : HostEvent
event = record { kind = lit "plugin.loaded"; scope = [] }

abbrev bus : Bus
bus = record { handlers = 1 ∷ 2 ∷ []; plugin_bus = some 7 }
