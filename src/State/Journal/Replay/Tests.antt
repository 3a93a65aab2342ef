-- ===== src/State/Journal/Replay/Tests.antt =====
-- A stored value behind one letter, and the theorem on safe values at a concrete input.
use ouvrier.Base.{
  String, ◌≡◌, refl, true, Option, none, some, eq_string, eq_nat, if◌then◌else◌, nat_eq,
}
use Prim.Native.String.{◌++◌}
use Prim.Native.Char.{code}
use ouvrier.Events.Redactor.{Redactor}
use ouvrier.State.Journal.Replay.{
  StoredReplayValue, Json, encode_stored_replay_value, decode_stored_replay_value,
}

abbrev read : String → Option StoredReplayValue
read String.[] = none
read (String.◌∷◌ c s) =
    some (record { version = 1; replay_unsafe = nat_eq (code c) 117; value = s })

abbrev letters : Json
letters = record {
  marshal = λ e. some (if e.replay_unsafe then "u" ++ e.value else "s" ++ e.value);
  unmarshal = read;
}

abbrev plain : Redactor
plain = record { redact_text = λ s. s; redact_json_text = λ s. s }

round_trip :
    decode_stored_replay_value letters plain (encode_stored_replay_value letters plain "42" true)
    ≡ ("42", true)
unfolding decode_stored_replay_value encode_stored_replay_value
round_trip = refl
