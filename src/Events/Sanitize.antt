-- ===== src/Events/Sanitize.antt =====
-- internal/events/event_stream.go, SanitizeEvent and sanitizePayload: the values of sensitive keys
-- are replaced and all texts scrubbed, at every depth.
pub mod Clean
mod Tests
use ouvrier.Base.{String, List, [], ◌∷◌, if◌then◌else◌, map}
use ouvrier.Events.{Event}
use ouvrier.Events.Values.{
  named_text_map, named_texts_map, named_object, named_array, Value, text, object, array, text_map,
  texts_map, texts, bytes, other, Values, nil, cons, Payload, end, field,
}
use ouvrier.Events.Redactor.{Redactor}
use ouvrier.Events.Keys.{is_sensitive_key}
use ouvrier.Events.Kinds.{canonical_kind}

-- redactedPayloadValue
abbrev pub redacted : String
redacted = "[REDACTED]"

module _ (redactor : Redactor) where
  open redactor use {redact_json_text}

  abbrev pub sanitize_pair : String × String → String × String
  sanitize_pair (k, v) = (k, if is_sensitive_key k then redacted else redact_json_text v)

  abbrev pub sanitize_pairs : String × List String → String × List String
  sanitize_pairs (k, vs) =
      (k, if is_sensitive_key k then redacted ∷ [] else map redact_json_text vs)

-- The last five are sanitizeReflectPayloadValue, which leaves a value that is neither a map with
-- textual keys nor a list as it is.
unfoldable mutual
  pub sanitize_value : Redactor → String → Value → Value
  sanitize_value r key (text s) =
      if is_sensitive_key key then text redacted else text (r.redact_json_text s)
  sanitize_value r key (object p) =
      if is_sensitive_key key then text redacted else object (sanitize_payload r p)
  sanitize_value r key (array vs) =
      if is_sensitive_key key then text redacted else array (sanitize_values r vs)
  sanitize_value r key (text_map m) =
      if is_sensitive_key key then text redacted else text_map (map (sanitize_pair r) m)
  sanitize_value r key (texts_map m) =
      if is_sensitive_key key then text redacted else texts_map (map (sanitize_pairs r) m)
  sanitize_value r key (texts l) =
      if is_sensitive_key key then text redacted else texts (map r.redact_json_text l)
  sanitize_value r key (bytes s) =
      if is_sensitive_key key then text redacted else bytes (r.redact_json_text s)
  sanitize_value r key (named_text_map m) =
      if is_sensitive_key key then text redacted else text_map (map (sanitize_pair r) m)
  sanitize_value r key (named_texts_map m) =
      if is_sensitive_key key then text redacted else texts_map (map (sanitize_pairs r) m)
  sanitize_value r key (named_object p) =
      if is_sensitive_key key then text redacted else object (sanitize_payload r p)
  sanitize_value r key (named_array vs) =
      if is_sensitive_key key then text redacted else array (sanitize_values r vs)
  sanitize_value r key (other s) = if is_sensitive_key key then text redacted else other s

  pub sanitize_values : Redactor → Values → Values
  sanitize_values r nil = nil
  sanitize_values r (cons v vs) = cons (sanitize_value r "" v) (sanitize_values r vs)

  pub sanitize_payload : Redactor → Payload → Payload
  sanitize_payload r end = end
  sanitize_payload r (field k v p) = field k (sanitize_value r k v) (sanitize_payload r p)

-- SanitizeEvent
unfoldable pub sanitize_event : Redactor → Event → Event
sanitize_event redactor e = record e {
  kind = canonical_kind e.kind;
  payload = sanitize_payload redactor e.payload;
}
