-- ===== src/State/Idempotency/Calls.antt =====
-- Histories of the calls that write reservations, and the records that they leave alone.
use ouvrier.Base.{
  ℕ, String, ◌≡◌, ◌≢◌, ◌⊎◌, false, some, List, [], ◌∷◌, inl, inr, arith, eq_iff, eq_string,
  Option-cases, lookup, lookup-insert, lookup-update_all, All, ap,
}
use ouvrier.State.Types.{
  Context, IdempotencyOutcome, pending, succeeded, IdempotencyRecord, MemoryStore, checked-keeps,
}
use ouvrier.State.Idempotency.{
  is_failed, reserve_args, resolve_args, reserve_locked, resolve_locked, resolve_one,
  reserve_idempotency, resolve_idempotency, resolve_idempotency_by_execution, fresh_record,
  resolve_all_args,
}

-- One call that writes reservations, at the clock's reading `now`.
pub data Call : Type 0 where
  reserve : Context → (key exec_id : String) → (now : ℕ) → Call
  resolve : Context → (key exec_id : String) → IdempotencyOutcome → (now : ℕ) → Call
  resolve_all : Context → (exec_id prefix : String) → IdempotencyOutcome → (now : ℕ) → Call

unfoldable pub step : Call → MemoryStore → MemoryStore
step (reserve ctx key exec_id now) s = (reserve_idempotency ctx key exec_id now s).1
step (resolve ctx key exec_id o now) s = (resolve_idempotency ctx key exec_id o now s).1
step (resolve_all ctx exec_id prefix o now) s =
    (resolve_idempotency_by_execution ctx exec_id prefix o now s).1

unfoldable pub run : List Call → MemoryStore → MemoryStore
run [] s = s
run (c ∷ cs) s = run cs (step c s)

-- The call comes from another execution than `owner`. A reservation may come from any.
abbrev pub IsForeign : String → Call → Type 0
IsForeign owner (reserve ctx key exec_id now) = Unit {0}
IsForeign owner (resolve ctx key exec_id o now) = exec_id ≢ owner
IsForeign owner (resolve_all ctx exec_id prefix o now) = exec_id ≢ owner

-- A record that a call leaves alone: it has succeeded, or it is pending and the call is foreign.
abbrev pub IsFixed : IdempotencyRecord → Call → Type 0
IsFixed r c = (r.outcome ≡ succeeded) ⊎ ((r.outcome ≡ pending) × IsForeign r.exec_id c)

module _ (key : String) (r : IdempotencyRecord) (s : MemoryStore)
    (held : lookup key s.idempotency ≡ some r) where
  pub reserve_locked_keeps :
      (k e : String) (now : ℕ)
      → is_failed r.outcome ≡ false
      → lookup key (reserve_locked k e now s).1.idempotency ≡ some r
  unfolding reserve_locked
  reserve_locked_keeps k e now alive = elim (Option-cases (lookup k s.idempotency)) [
    | inl none_yet ↦ ground (
      arith,
      none_yet,
      held,
      eq_iff k key,
      lookup-insert k key (fresh_record k e now) s.idempotency,
    )
    | inr (x, found) ↦
        ground (
          arith,
          found,
          held,
          eq_iff k key,
          lookup-insert k key (fresh_record k e now) s.idempotency,
        )
  ]

  resolve_locked_keeps :
      (k e : String) (o : IdempotencyOutcome) (now : ℕ)
      → IsFixed r (resolve Context.live k e o now)
      → lookup key (resolve_locked k e o now s).1.idempotency ≡ some r
  unfolding resolve_locked
  resolve_locked_keeps k e o now fixed = elim (Option-cases (lookup k s.idempotency)) [
    | inl none_yet ↦ ground (arith, none_yet, held)
    | inr (x, found) ↦
        let next = record x { outcome = o; updated_at = now } in
        ground (
          arith,
          found,
          held,
          eq_iff k key,
          eq_iff x.exec_id e,
          lookup-insert k key next s.idempotency,
        )
  ]

  resolve_one_keeps :
      (e p : String) (o : IdempotencyOutcome) (now : ℕ)
      → IsFixed r (resolve_all Context.live e p o now)
      → resolve_one e p o now key r ≡ r
  unfolding resolve_one
  resolve_one_keeps e p o now fixed = ground (arith, eq_iff r.exec_id e)

  step_keeps : (c : Call) → IsFixed r c → lookup key (step c s).idempotency ≡ some r
  unfolding step reserve_idempotency resolve_idempotency resolve_idempotency_by_execution
  step_keeps (reserve ctx k e now) fixed =
      checked-keeps (λ t. lookup key t.idempotency ≡ some r) (reserve_args ctx k e) _ s held
        (λ _. reserve_locked_keeps k e now (ground arith))
  step_keeps (resolve ctx k e o now) fixed =
      checked-keeps (λ t. lookup key t.idempotency ≡ some r) (resolve_args ctx k e o) _ s held
        (λ _. resolve_locked_keeps k e o now fixed)
  step_keeps (resolve_all ctx e p o now) fixed =
      checked-keeps (λ t. lookup key t.idempotency ≡ some r) (resolve_all_args ctx e o) _ s held
        (λ _. rw (lookup-update_all, held) (ap some (resolve_one_keeps e p o now fixed)))

pub run_keeps :
    (key : String) (r : IdempotencyRecord) (cs : List Call) (s : MemoryStore)
    → lookup key s.idempotency ≡ some r
    → All (IsFixed r) cs
    → lookup key (run cs s).idempotency ≡ some r
unfolding run
run_keeps key r [] s held fixed = held
run_keeps key r (c ∷ cs) s held fixed =
    run_keeps key r cs (step c s) (step_keeps key r s held c fixed.0) fixed.1
