-- ===== src/Events/Hooks/Tests.antt =====
-- A hook that stamps the events before a tool call.
use ouvrier.Base.{◌≡◌, refl, some, eq_string, eq_nat, ok, lookup}
use ouvrier.Events.{Event}
use ouvrier.Events.Redactor.{Redactor}
use ouvrier.Events.Buffer.{zero_event}
use ouvrier.Events.Kinds.{canonical_kind}
use ouvrier.Events.Sanitize.{sanitize_event, sanitize_payload}
use ouvrier.Events.Hooks.{Hook, new_hook_bus, register, emit}
use ouvrier.State.Types.{Context}
use ouvrier.Base.{insert}

abbrev scrub : Redactor
scrub = record { redact_text = λ s. s; redact_json_text = λ s. s }

abbrev stamp : Hook
stamp e = ok (record e { trace_id = "stamped" })

abbrev call : Event
call = record zero_event { kind = "tool_call_started" }

stamped :
    emit scrub Context.live call (register "before_tool" (some stamp) new_hook_bus).1
    ≡ ok (record call { trace_id = "stamped" })
unfolding emit register canonical_kind sanitize_event sanitize_payload lookup insert
stamped = refl
