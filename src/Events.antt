-- ===== src/Events.antt =====
-- internal/events: the event record that the stream and every store keep.
pub mod Values
pub mod Redactor
pub mod Kinds
pub mod Keys
pub mod Sanitize
pub mod Buffer
pub mod Metrics
pub mod Stream
pub mod Hooks
use ouvrier.Base.{ℕ, String}
use ouvrier.Events.Values.{Payload}

-- event_stream.go, Event. Time is in nanoseconds since Go's zero Time, which is 0; an id of 0 is
-- one that is not allocated yet.
pub record Event : Type 0 where
  pub id : ℕ
  pub at : ℕ
  pub kind : String
  pub exec_id : String
  pub session_id : String
  pub trace_id : String
  pub payload : Payload
