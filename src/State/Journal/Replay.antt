-- ===== src/State/Journal/Replay.antt =====
-- internal/state/journal.go, storedReplayValue to decodeStoredReplayValue: how the SQL backends keep a
-- replay value with its safety bit.
mod Tests
use ouvrier.Base.{
  ℕ, String, ◌≡◌, Bool, not, ◌||◌, Option, none, some, eq_string, eq_nat, ◌==◌, ==-self, ◌>>=◌,
  ◌>>◌, if◌then◌else◌, nat_eq,
}
use ouvrier.Base.{false, ◌⊎◌, contains}
use ouvrier.Events.Redactor.{Redactor}

-- storedReplayValue
pub record StoredReplayValue : Type 0 where
  pub version : ℕ
  pub replay_unsafe : Bool
  pub value : String

-- encoding/json over the envelope: Marshal may fail, and Unmarshal of any text.
pub record Json : Type 0 where
  pub marshal : StoredReplayValue → Option String
  pub unmarshal : String → Option StoredReplayValue

abbrev fail_closed : String
fail_closed = "{\"__ouvrier_replay_value\":1,\"replay_unsafe\":true,\"value\":\"[REDACTED]\"}"

module _ (json : Json) (redactor : Redactor) where
  open json use {marshal, unmarshal}

  abbrev pub envelope : String → Bool → StoredReplayValue
  envelope value replay_unsafe = record {
    version = 1;
    replay_unsafe = replay_unsafe;
    value = value;
  }

  unfoldable pub encode_stored_replay_value : String → Bool → String
  encode_stored_replay_value value replay_unsafe = elim (marshal (envelope value replay_unsafe)) [
    | some encoded ↦ encoded
    | none ↦ fail_closed
  ]

  -- A row without an envelope, of an older binary.
  abbrev legacy_value : String → String × Bool
  legacy_value stored =
      let redacted = redactor.redact_json_text stored in
      (redacted, not (redacted == stored) || contains stored "[REDACTED]")

  unfoldable pub decode_stored_replay_value : String → String × Bool
  decode_stored_replay_value stored = elim (unmarshal stored) [
    | none ↦ legacy_value stored
    | some e ↦
        if nat_eq e.version 1
        then (let redacted = redactor.redact_json_text e.value in
            (redacted, e.replay_unsafe || not (redacted == e.value)))
        else legacy_value stored
  ]

  -- What makes a value safe to replay from its row: redaction leaves it alone, and it is that of an
  -- envelope that is not marked unsafe, or the whole text of an older row with no redaction in it.
  abbrev pub IsSafe : String → String → Type 0
  IsSafe stored value =
      (redactor.redact_json_text value ≡ value)
      × (((e : StoredReplayValue) × (unmarshal stored ≡ some e)
            × (e.version ≡ 1)
            × (e.value ≡ value)
            × (e.replay_unsafe ≡ false))
          ⊎ ((stored ≡ value) × (contains stored "[REDACTED]" ≡ false)))

  abbrev reading : String → Bool → String × Bool
  reading text marked =
      (redactor.redact_json_text text, marked || not (redactor.redact_json_text text == text))
