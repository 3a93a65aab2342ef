-- ===== src/State/Idempotency.antt =====
-- internal/state/memory_store.go (ReserveIdempotency to ResolveIdempotencyByExecution) and
-- idempotency.go: keys reserved by one execution, with the outcome of its guarded effect.
pub mod Calls
pub mod History
mod Tests
use ouvrier.Base.{
  ◌>>◌, ℕ, String, Bool, true, false, not, ◌||◌, Option, none, some, Result, ok, err, ◌==◌,
  eq_string, if◌then◌else◌, lookup, insert, update_all, trim_space, has_prefix,
}
use ouvrier.State.Types.{
  Error, execution_id_required, key_required, reservation_not_found, owner_mismatch,
  already_resolved, invalid_outcome, Context, check_context, IdempotencyOutcome, pending, succeeded,
  failed, IdempotencyRecord, MemoryStore, Exec, checked,
}

abbrev pub is_pending : IdempotencyOutcome → Bool
is_pending pending = true
is_pending _ = false

abbrev pub is_failed : IdempotencyOutcome → Bool
is_failed failed = true
is_failed _ = false

-- Go's == on the outcome's text.
abbrev pub same_outcome : IdempotencyOutcome → IdempotencyOutcome → Bool
same_outcome pending pending = true
same_outcome succeeded succeeded = true
same_outcome failed failed = true
same_outcome (IdempotencyOutcome.other a) (IdempotencyOutcome.other b) = a == b
same_outcome _ _ = false

abbrev pub require : Bool → Error → Result Error (Unit {0})
require true e = ok tt
require false e = err e

unfoldable pub reserve_args : Context → String → String → Result Error (Unit {0})
unfolding check_context
reserve_args ctx key exec_id = do
  check_context ctx
  require (not (key == "")) key_required
  require (not (exec_id == "")) execution_id_required

abbrev pub fresh_record : String → String → ℕ → IdempotencyRecord
fresh_record key exec_id now = record {
  key = key;
  exec_id = exec_id;
  outcome = pending;
  created_at = now;
  updated_at = now;
}

abbrev pub put_record : IdempotencyRecord → MemoryStore → MemoryStore
put_record r s = record s { idempotency = insert r.key r s.idempotency }

-- A key that is reserved and has not failed stays with its execution, whose id is the answer.
unfoldable pub reserve_locked : String → String → ℕ → Exec (String × Bool)
reserve_locked key exec_id now s = elim (lookup key s.idempotency) [
  | none ↦ (ok ("", true), put_record (fresh_record key exec_id now) s)
  | some existing ↦
      if not (is_failed existing.outcome)
      then (ok (existing.exec_id, false), s)
      else (ok ("", true), put_record (fresh_record key exec_id now) s)
]

unfoldable pub reserve_idempotency : Context → String → String → ℕ → Exec (String × Bool)
unfolding reserve_locked reserve_args
reserve_idempotency ctx key exec_id now =
    checked (reserve_args ctx key exec_id) (λ _. reserve_locked key exec_id now)

-- Idempotency: a read.
unfoldable pub idempotency_record : Context → String → Exec (Option IdempotencyRecord)
unfolding check_context
idempotency_record ctx key =
    checked (do check_context ctx; require (not (trim_space key == "")) key_required)
      (λ _ s. (ok (lookup key s.idempotency), s))

unfoldable pub validate_resolved_outcome : IdempotencyOutcome → Result Error (Unit {0})
validate_resolved_outcome succeeded = ok tt
validate_resolved_outcome failed = ok tt
validate_resolved_outcome _ = err invalid_outcome

unfoldable pub resolve_args :
    Context → String → String → IdempotencyOutcome → Result Error (Unit {0})
unfolding check_context validate_resolved_outcome
resolve_args ctx key exec_id outcome = do
  check_context ctx
  require (not (trim_space key == "")) key_required
  require (not (trim_space exec_id == "")) execution_id_required
  validate_resolved_outcome outcome

unfoldable pub resolve_locked : String → String → IdempotencyOutcome → ℕ → Exec (Unit {0})
resolve_locked key exec_id outcome now s = elim (lookup key s.idempotency) [
  | none ↦ (err reservation_not_found, s)
  | some r ↦
      if not (r.exec_id == exec_id)
      then (err owner_mismatch, s)
      else if not (is_pending r.outcome)
      then (if same_outcome r.outcome outcome then (ok tt, s) else (err already_resolved, s))
      else (
        ok tt,
        record s {
          idempotency = insert key (record r { outcome = outcome; updated_at = now }) s.idempotency;
        },
      )
]

unfoldable pub resolve_idempotency :
    Context → String → String → IdempotencyOutcome → ℕ → Exec (Unit {0})
unfolding resolve_locked resolve_args
resolve_idempotency ctx key exec_id outcome now =
    checked (resolve_args ctx key exec_id outcome) (λ _. resolve_locked key exec_id outcome now)

-- The loop body of ResolveIdempotencyByExecution, `continue` included.
unfoldable pub resolve_one :
    String → String → IdempotencyOutcome → ℕ → String → IdempotencyRecord → IdempotencyRecord
resolve_one exec_id prefix outcome now key r =
    if not (r.exec_id == exec_id) || (not (is_pending r.outcome) || not (has_prefix key prefix))
    then r
    else record r { outcome = outcome; updated_at = now }

unfoldable pub resolve_all_args : Context → String → IdempotencyOutcome → Result Error (Unit {0})
unfolding check_context validate_resolved_outcome
resolve_all_args ctx exec_id outcome = do
  check_context ctx
  require (not (trim_space exec_id == "")) execution_id_required
  validate_resolved_outcome outcome

unfoldable pub resolve_idempotency_by_execution :
    Context → String → String → IdempotencyOutcome → ℕ → Exec (Unit {0})
unfolding resolve_one resolve_all_args
resolve_idempotency_by_execution ctx exec_id prefix outcome now =
    checked (resolve_all_args ctx exec_id outcome) (λ _ s. (
      ok tt,
      record s { idempotency = update_all (resolve_one exec_id prefix outcome now) s.idempotency },
    ))
