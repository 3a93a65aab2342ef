-- ===== src/State/Memory.antt =====
-- internal/state/memory.go and the memory methods of memory_store.go: values kept by scope and key.
pub mod Scopes
mod Tests
use ouvrier.Base.{
  ◌>>◌, ℕ, String, Option, none, some, List, eq_iff, eq_string, eq_nat, ◌==◌, Result, ok, err,
  if◌then◌else◌, ltb, values, lookup, insert, trim_space, str_ltb, ◌*◌, sort,
}
use ouvrier.Events.Redactor.{Redactor}
use ouvrier.State.Types.{
  Error, memory_scope_required, memory_key_required, memory_value_too_large, Context, check_context,
  MemoryRecord, Exec, checked,
}
use ouvrier.State.Journal.{bucket_of}

-- MaxMemoryValueBytes
abbrev pub max_memory_value_bytes : ℕ
max_memory_value_bytes = 64 * 1024

-- A write that passed the checks: the trimmed scope and key, and the scrubbed value.
pub record Write : Type 0 where
  pub scope : String
  pub key : String
  pub value : String

abbrev pub row_of : ℕ → Write → MemoryRecord
row_of now w = record { scope = w.scope; key = w.key; value = w.value; updated_at = now }

unfoldable pub put_memory : ℕ → Write → Exec (Unit {0})
put_memory now w s = (
  ok tt,
  record s {
    memory =
        insert w.scope (insert w.key (row_of now w) (bucket_of (lookup w.scope s.memory))) s.memory;
  },
)

-- `bytes` counts the bytes of a text's UTF-8 form, which Go's len answers.
module _ (redactor : Redactor) (bytes : String → ℕ) where
  unfoldable pub normalize_memory : String → String → String → Result Error Write
  normalize_memory scope key value =
      if trim_space scope == ""
      then err memory_scope_required
      else if trim_space key == ""
      then err memory_key_required
      else if ltb max_memory_value_bytes (bytes value)
      then err memory_value_too_large
      else ok (record {
        scope = trim_space scope;
        key = trim_space key;
        value = redactor.redact_json_text value;
      })

  unfoldable pub save_args : Context → String → String → String → Result Error Write
  unfolding check_context normalize_memory
  save_args ctx scope key value = do check_context ctx; normalize_memory scope key value

  unfoldable pub save_memory : Context → String → String → String → ℕ → Exec (Unit {0})
  unfolding save_args put_memory
  save_memory ctx scope key value now = checked (save_args ctx scope key value) (put_memory now)

abbrev value_of : Option MemoryRecord → Option String
value_of none = none
value_of (some r) = some r.value

-- Memory
unfoldable pub find_memory : Context → String → String → Exec (Option String)
unfolding check_context
find_memory ctx scope key = checked (check_context ctx) (λ _ s.
    (ok (value_of (lookup (trim_space key) (bucket_of (lookup (trim_space scope) s.memory)))), s))

unfoldable pub list_memory : Context → String → Exec (List MemoryRecord)
unfolding check_context str_ltb
list_memory ctx scope = checked (check_context ctx) (λ _ s. (
  ok (sort (λ a b. str_ltb a.key b.key) (values (bucket_of (lookup (trim_space scope) s.memory)))),
  s,
))
