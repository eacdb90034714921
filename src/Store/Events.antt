-- ===== src/Store/Events.antt =====
-- agc_runtime/events.py: the event log. Each function reads the log and writes it back if it changed.
use agent_global_context.Prelude.{
  Bool, not, String, List, [], ◌∷◌, ◌++◌, ◌==◌, any, keep_if, length, eqb, if◌then◌else◌,
}
use agent_global_context.Effects.{M, pure, fetch, modify, ◌>>=◌}
use agent_global_context.Store.Disk.{Disk, MemoryEvent}

abbrev pub has_event : String → List MemoryEvent → Bool
has_event event_id = any (λ value. value.event_id == event_id)

abbrev pub without_event : String → List MemoryEvent → List MemoryEvent
without_event event_id = keep_if (λ value. not (value.event_id == event_id))

unfoldable pub write_events : List MemoryEvent → M Disk Unit
write_events values = modify (λ d. record d { events = values })

unfoldable pub append_event : MemoryEvent → M Disk Unit
unfolding write_events
append_event event = do
  values ← fetch (λ d. d.events)
  if has_event event.event_id values then pure tt else write_events (values ++ event ∷ [])

unfoldable pub remove_event : String → M Disk Unit
unfolding write_events
remove_event event_id = do
  values ← fetch (λ d. d.events)
  let retained = without_event event_id values
  if eqb (length retained) (length values) then pure tt else write_events retained

unfoldable pub event_exists : String → M Disk Bool
event_exists event_id = do values ← fetch (λ d. d.events); pure (has_event event_id values)
