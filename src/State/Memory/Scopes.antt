-- ===== src/State/Memory/Scopes.antt =====
-- What a write to the memory changes, and what a read then finds.
use ouvrier.Base.{
  ℕ, String, ◌≡◌, ◌&&◌, some, arith, eq_iff, eq_string, eq_nat, ◌==◌, ok, if◌then◌else◌, lookup,
  insert, lookup-insert, trim_space,
}
use ouvrier.Events.Redactor.{Redactor}
use ouvrier.State.Types.{Context, live, check_context, MemoryStore}
use ouvrier.State.Memory.{
  row_of, Write, normalize_memory, save_args, put_memory, save_memory, find_memory,
}
use ouvrier.State.Journal.{bucket_of}

module _ (r : Redactor) (bytes : String → ℕ) where
  written :
      (ctx : Context) (scope key value : String) (w : Write)
      → save_args r bytes ctx scope key value ≡ ok w
      → w ≡ record {
        scope = trim_space scope;
        key = trim_space key;
        value = r.redact_json_text value;
      }
  unfolding save_args check_context normalize_memory
  written ctx scope key value w h = ground arith

  read_back :
      (w : Write) (now : ℕ) (s : MemoryStore) (scope key : String)
      → find_memory live scope key (put_memory now w s).1 ≡ (
          if w.scope == trim_space scope && w.key == trim_space key
          then (ok (some w.value), (put_memory now w s).1)
          else ((find_memory live scope key s).0, (put_memory now w s).1))
  unfolding find_memory put_memory check_context
  read_back w now s scope key =
      let old = bucket_of (lookup w.scope s.memory) in
      let row = row_of now w in
      ground (
        arith,
        lookup-insert w.scope (trim_space scope) (insert w.key row old) s.memory,
        lookup-insert w.key (trim_space key) row old,
        eq_iff w.scope (trim_space scope),
        eq_iff w.key (trim_space key),
      )

  -- What a write that passes the checks stores is scrubbed and stands under the trimmed scope and
  -- key: a read of any scope and key finds the scrubbed value if they are, up to the spaces around
  -- them, the written ones, and what it found before otherwise.
  pub find_memory-save_memory :
      (ctx : Context) (scope key value scope' key' : String) (now : ℕ) (w : Write) (s : MemoryStore)
      → save_args r bytes ctx scope key value ≡ ok w
      → (find_memory live scope' key' (save_memory r bytes ctx scope key value now s).1).0 ≡ (
          if trim_space scope == trim_space scope' && trim_space key == trim_space key'
          then ok (some (r.redact_json_text value))
          else (find_memory live scope' key' s).0)
  unfolding save_memory
  find_memory-save_memory ctx scope key value scope' key' now w s valid =
      rw (valid, written ctx scope key value w valid)
        (rw
          (read_back
            (record {
              scope = trim_space scope;
              key = trim_space key;
              value = r.redact_json_text value;
            })
            now s scope' key')
          (ground arith))
