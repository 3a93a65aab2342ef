-- ===== src/Events/Sanitize/Clean.antt =====
-- What sanitizing leaves behind.
use ouvrier.Base.{
  String, ◌≡◌, refl, inl, inr, true, false, List, [], ◌∷◌, if◌then◌else◌, map, All, Bool-cases,
}
use ouvrier.Events.{Event}
use ouvrier.Events.Values.{
  named_text_map, named_texts_map, named_object, named_array, Value, text, object, array, text_map,
  texts_map, texts, bytes, other, Values, nil, cons, Payload, end, field,
}
use ouvrier.Events.Redactor.{Redactor}
use ouvrier.Events.Keys.{is_sensitive_key}
use ouvrier.Events.Sanitize.{
  redacted, sanitize_pair, sanitize_pairs, sanitize_value, sanitize_values, sanitize_payload,
  sanitize_event,
}

-- The text is what the redactor made of some text.
abbrev IsRedacted : Redactor → String → Type 0
IsRedacted r s = (t : String) × (s ≡ r.redact_json_text t)

abbrev PairClean : Redactor → String × String → Type 0
PairClean r (k, v) =
    (is_sensitive_key k ≡ true → v ≡ redacted) × (is_sensitive_key k ≡ false → IsRedacted r v)

abbrev PairsClean : Redactor → String × List String → Type 0
PairsClean r (k, vs) =
    (is_sensitive_key k ≡ true → vs ≡ redacted ∷ [])
    × (is_sensitive_key k ≡ false → All (IsRedacted r) vs)

-- The values that sanitizing does not look into satisfy P, wherever it reaches them.
unfoldable mutual
  pub OpaqueValue : (String → Type 0) → Value → Type 0
  OpaqueValue P (object p) = OpaquePayload P p
  OpaqueValue P (array vs) = OpaqueValues P vs
  OpaqueValue P (named_object p) = OpaquePayload P p
  OpaqueValue P (named_array vs) = OpaqueValues P vs
  OpaqueValue P (other s) = P s
  OpaqueValue P (text s) = Unit {0}
  OpaqueValue P (text_map m) = Unit {0}
  OpaqueValue P (texts_map m) = Unit {0}
  OpaqueValue P (texts l) = Unit {0}
  OpaqueValue P (bytes s) = Unit {0}
  OpaqueValue P (named_text_map m) = Unit {0}
  OpaqueValue P (named_texts_map m) = Unit {0}

  pub OpaqueValues : (String → Type 0) → Values → Type 0
  OpaqueValues P nil = Unit {0}
  OpaqueValues P (cons v vs) = OpaqueValue P v × OpaqueValues P vs

  pub OpaquePayload : (String → Type 0) → Payload → Type 0
  OpaquePayload P end = Unit {0}
  OpaquePayload P (field k v p) = OpaqueValue P v × OpaquePayload P p

-- A value that may stand under a key: under a sensitive key only the placeholder; elsewhere no text
-- that did not go through the redactor, at any depth, and no value that sanitizing does not look
-- into but one that satisfies P. A map or list of a named type never stands there.
mutual
  pub data IsClean (r : Redactor) (P : String → Type 0) : String → Value → Type 0 where
    hidden : {k : String} → is_sensitive_key k ≡ true → IsClean r P k (text redacted)
    a_text : {k s : String} → is_sensitive_key k ≡ false → IsRedacted r s → IsClean r P k (text s)
    an_object :
        {k : String} {p : Payload}
        → is_sensitive_key k ≡ false
        → PayloadClean r P p
        → IsClean r P k (object p)
    an_array :
        {k : String} {vs : Values}
        → is_sensitive_key k ≡ false
        → ValuesClean r P vs
        → IsClean r P k (array vs)
    a_text_map :
        {k : String} {m : List (String × String)}
        → is_sensitive_key k ≡ false
        → All (PairClean r) m
        → IsClean r P k (text_map m)
    a_texts_map :
        {k : String} {m : List (String × List String)}
        → is_sensitive_key k ≡ false
        → All (PairsClean r) m
        → IsClean r P k (texts_map m)
    some_texts :
        {k : String} {l : List String}
        → is_sensitive_key k ≡ false
        → All (IsRedacted r) l
        → IsClean r P k (texts l)
    some_bytes :
        {k s : String} → is_sensitive_key k ≡ false → IsRedacted r s → IsClean r P k (bytes s)
    another : {k s : String} → is_sensitive_key k ≡ false → P s → IsClean r P k (other s)

  pub data ValuesClean (r : Redactor) (P : String → Type 0) : Values → Type 0 where
    none : ValuesClean r P nil
    more :
        {v : Value} {vs : Values}
        → IsClean r P "" v
        → ValuesClean r P vs
        → ValuesClean r P (cons v vs)

  pub data PayloadClean (r : Redactor) (P : String → Type 0) : Payload → Type 0 where
    done : PayloadClean r P end
    entry :
        {k : String} {v : Value} {p : Payload}
        → IsClean r P k v
        → PayloadClean r P p
        → PayloadClean r P (field k v p)

module _ (r : Redactor) where
  texts-IsRedacted : (l : List String) → All (IsRedacted r) (map r.redact_json_text l)
  texts-IsRedacted [] = tt
  texts-IsRedacted (s ∷ l) = ((s, refl), texts-IsRedacted l)

  pair_clean : (k v : String) → PairClean r (sanitize_pair r (k, v))
  pair_clean k v = (λ e. rw e, λ e. rw e (v, refl))

  pairs_clean : (k : String) (vs : List String) → PairsClean r (sanitize_pairs r (k, vs))
  pairs_clean k vs = (λ e. rw e, λ e. rw e (texts-IsRedacted vs))

  text_map_clean : (m : List (String × String)) → All (PairClean r) (map (sanitize_pair r) m)
  text_map_clean [] = tt
  text_map_clean ((k, v) ∷ m) = (pair_clean k v, text_map_clean m)

  texts_map_clean :
      (m : List (String × List String)) → All (PairsClean r) (map (sanitize_pairs r) m)
  texts_map_clean [] = tt
  texts_map_clean ((k, vs) ∷ m) = (pairs_clean k vs, texts_map_clean m)

  -- A sensitive key gets the placeholder; another key's value is judged by itself.
  under_key :
      (P : String → Type 0) (k : String) (v : Value)
      → (is_sensitive_key k ≡ false → IsClean r P k v)
      → IsClean r P k (if is_sensitive_key k then text redacted else v)
  under_key P k v clean = elim (Bool-cases (is_sensitive_key k)) [
    | inl e ↦ rw e (hidden e)
    | inr e ↦ rw e (clean e)
  ]

mutual
  unfolding sanitize_value OpaqueValue

  value-IsClean :
      (r : Redactor) (P : String → Type 0) (k : String) (v : Value)
      → OpaqueValue P v
      → IsClean r P k (sanitize_value r k v)
  value-IsClean r P k (text s) h = under_key r P k _ (λ e. a_text e (s, refl))
  value-IsClean r P k (object p) h =
      under_key r P k _ (λ e. an_object e (payload-PayloadClean r P p h))
  value-IsClean r P k (array vs) h =
      under_key r P k _ (λ e. an_array e (values-ValuesClean r P vs h))
  value-IsClean r P k (text_map m) h = under_key r P k _ (λ e. a_text_map e (text_map_clean r m))
  value-IsClean r P k (texts_map m) h = under_key r P k _ (λ e. a_texts_map e (texts_map_clean r m))
  value-IsClean r P k (texts l) h = under_key r P k _ (λ e. some_texts e (texts-IsRedacted r l))
  value-IsClean r P k (bytes s) h = under_key r P k _ (λ e. some_bytes e (s, refl))
  value-IsClean r P k (named_text_map m) h =
      under_key r P k _ (λ e. a_text_map e (text_map_clean r m))
  value-IsClean r P k (named_texts_map m) h =
      under_key r P k _ (λ e. a_texts_map e (texts_map_clean r m))
  value-IsClean r P k (named_object p) h =
      under_key r P k _ (λ e. an_object e (payload-PayloadClean r P p h))
  value-IsClean r P k (named_array vs) h =
      under_key r P k _ (λ e. an_array e (values-ValuesClean r P vs h))
  value-IsClean r P k (other s) h = under_key r P k _ (λ e. another e h)

  values-ValuesClean :
      (r : Redactor) (P : String → Type 0) (vs : Values)
      → OpaqueValues P vs
      → ValuesClean r P (sanitize_values r vs)
  values-ValuesClean r P nil h = none
  values-ValuesClean r P (cons v vs) h =
      more (value-IsClean r P "" v h.0) (values-ValuesClean r P vs h.1)

  payload-PayloadClean :
      (r : Redactor) (P : String → Type 0) (p : Payload)
      → OpaquePayload P p
      → PayloadClean r P (sanitize_payload r p)
  payload-PayloadClean r P end h = done
  payload-PayloadClean r P (field k v p) h =
      entry (value-IsClean r P k v h.0) (payload-PayloadClean r P p h.1)

-- The payload of a sanitized event is clean: at every depth a sensitive key holds only the
-- placeholder, every other text, those of the bytes and of the maps and lists of named types
-- included, is what the redactor made of some text, and the values that are not looked into (of a
-- Go type that is no text, bytes, map with textual keys, slice or array) satisfy whatever all such
-- values of the event satisfied, such as to be numbers.
pub sanitize_event-PayloadClean :
    (r : Redactor) (P : String → Type 0) (e : Event)
    → OpaquePayload P e.payload
    → PayloadClean r P (sanitize_event r e).payload
unfolding sanitize_event
sanitize_event-PayloadClean r P e h = payload-PayloadClean r P e.payload h
