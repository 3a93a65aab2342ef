-- ===== src/Events/Sanitize/Tests.antt =====
-- A sanitized event, and the theorem of this folder at a concrete input.
use ouvrier.Base.{◌≡◌, refl, eq_string, eq_nat}
use ouvrier.Events.{Event}
use ouvrier.Events.Values.{text, object, other, end, field}
use ouvrier.Events.Redactor.{Redactor}
use ouvrier.Events.Sanitize.{sanitize_event}
use ouvrier.Events.Sanitize.Clean.{PayloadClean, OpaquePayload, sanitize_event-PayloadClean}
use ouvrier.Base.{String}

-- A redactor that hides every text.
abbrev mask : Redactor
mask = record { redact_text = λ s. "***"; redact_json_text = λ s. "***" }

abbrev event : Event
event = record {
  id = 0;
  at = 0;
  kind = "tool_called";
  exec_id = "run1";
  session_id = "";
  trace_id = "";
  payload =
      field "api_key" (text "k")
        (field "nested" (object (field "note" (text "n") (field "retries" (other "0") end))) end);
}

abbrev IsZero : String → Type 0
IsZero s = s ≡ "0"

sanitize_event-PayloadClean_example : PayloadClean mask IsZero (sanitize_event mask event).payload
unfolding OpaquePayload
sanitize_event-PayloadClean_example =
    sanitize_event-PayloadClean mask IsZero event (tt, ((tt, (refl, tt)), tt))
