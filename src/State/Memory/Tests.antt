-- ===== src/State/Memory/Tests.antt =====
-- The theorem of this folder at a concrete input.
use ouvrier.Base.{◌≡◌, refl, some, eq_string, eq_nat, ok, trim_space}
use ouvrier.Events.Redactor.{Redactor}
use ouvrier.State.Types.{live, new_memory_store}
use ouvrier.State.Memory.{normalize_memory, save_args, save_memory, find_memory}
use ouvrier.State.Memory.Scopes.{find_memory-save_memory}

abbrev stars : Redactor
stars = record { redact_text = λ s. s; redact_json_text = λ s. "***" }

find_memory-save_memory_example :
    (find_memory live "team " " note"
      (save_memory stars (λ s. 3) live "team" "note" "abc" 7 new_memory_store).1).0
    ≡ ok (some "***")
unfolding save_args normalize_memory trim_space
find_memory-save_memory_example =
    find_memory-save_memory stars (λ s. 3) live "team" "note" "abc" "team " " note" 7
      (record { scope = "team"; key = "note"; value = "***" }) new_memory_store refl
