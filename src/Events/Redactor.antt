-- ===== src/Events/Redactor.antt =====
-- The credential scrubbing of internal/events/event_stream.go as its clients see it. The two
-- functions run regular expressions and the process environment over texts, and stay parameters.
use ouvrier.Base.{String}

pub record Redactor : Type 0 where
  pub redact_text : String → String
  pub redact_json_text : String → String
