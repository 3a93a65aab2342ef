-- ===== src/Events/Buffer.antt =====
-- internal/events/event_buffer.go: the circular buffer of recent events.
pub mod Indices
pub mod Queue
pub mod Recent
mod Tests
use ouvrier.Base.{
  get_at, set_at, replicate, ℕ, ◌+◌, ◌%◌, Option, List, [], ◌∷◌, eq_iff, eq_string, eq_nat,
  if◌then◌else◌, ltb, length, zero, suc,
}
use ouvrier.Events.{Event}
use ouvrier.Events.Values.{end}

pub record EventBuffer : Type 0 where
  pub entries : List Event
  pub start : ℕ
  pub size : ℕ

-- Go's zero Event
abbrev pub zero_event : Event
zero_event = record {
  id = 0;
  at = 0;
  kind = "";
  exec_id = "";
  session_id = "";
  trace_id = "";
  payload = end;
}

unfoldable pub new_event_buffer : ℕ → EventBuffer
new_event_buffer capacity = record { entries = replicate capacity zero_event; start = 0; size = 0 }

-- The method `append`. The modulus of 0, which panics in Go, is reached only with a capacity of 0.
unfoldable pub append : Event → EventBuffer → EventBuffer
append e b =
    if ltb b.size (length b.entries)
    then record b {
      entries = set_at b.entries ((b.start + b.size) % length b.entries) e;
      size = b.size + 1;
    }
    else record b { entries = set_at b.entries b.start e; start = (b.start + 1) % length b.entries }

-- The method `each` up to `n` events from the logical index `i`, with the events it visits.
unfoldable pub visit_from : EventBuffer → ℕ → ℕ → List (Option Event)
visit_from b i zero = []
visit_from b i (suc n) =
    get_at b.entries ((b.start + i) % length b.entries) ∷ visit_from b (suc i) n

unfoldable pub each : EventBuffer → List (Option Event)
unfolding visit_from
each b = visit_from b 0 b.size
