-- ===== src/Events/Stream/Reach.antt =====
-- The streams that a program can reach.
use ouvrier.Base.{ℕ, ◌<◌, ◌≡◌, List, eq_string, eq_nat, ok, All}
use ouvrier.Events.{Event}
use ouvrier.Events.Redactor.{Redactor}
use ouvrier.Events.Metrics.{Floats}
use ouvrier.Events.Stream.{
  StreamOption, with_initial_id, new_event_stream, Config, Subscriber, Persist, EventStream, append,
  append_persisted, subscribe, ensure_next_id_at_least,
}
use ouvrier.Events.Stream.Order.{HasUint64Ids}
use ouvrier.State.Types.{Context, uint64_mod}

-- The initial ids that options give fit Go's uint64.
abbrev IsUint64Option : StreamOption → Type 0
IsUint64Option (with_initial_id id) = id < uint64_mod
IsUint64Option _ = Unit

abbrev IsRunnable : Config → Type 0
IsRunnable c = (0 < c.retention_limit) × (c.initial_id < uint64_mod)

module _ {F : Type 0} (floats : Floats F) (redactor : Redactor) where
  -- A stream made by NewEventStream, after any calls of its methods that change it.
  pub data Reachable : EventStream F → Type 0 where
    made_new :
        (options : List StreamOption) (s : EventStream F)
        → All IsUint64Option options
        → new_event_stream floats redactor options ≡ ok s
        → Reachable s
    appended :
        (s : EventStream F) (before after : Context) (e : Event) (persist : Persist) (now : ℕ)
        → HasUint64Ids persist
        → Reachable s
        → Reachable (append floats redactor before after e persist now s).1
    persisted :
        (s : EventStream F) (before after : Context) (e : Event) (persist : Persist) (now : ℕ)
        → HasUint64Ids persist
        → Reachable s
        → Reachable (append_persisted floats redactor before after e persist now s).1
    ensured :
        (s : EventStream F) (id : ℕ)
        → id < uint64_mod
        → Reachable s
        → Reachable (ensure_next_id_at_least id s)
    subscribed :
        (s : EventStream F) (sub : Subscriber) → Reachable s → Reachable (subscribe sub s).1
