-- ===== src/Cron/Owner.antt =====
-- The owner of a reservation that has not failed, under the calls on reservations.
use ouvrier.Base.{
  has_prefix, update_all, lookup-update_all, ◌∙◌, ℕ, String, ◌≡◌, ◌≢◌, ◌⊎◌, refl, sym, ap, inl, inr,
  Bool, true, false, ◌&&◌, some, arith, eq_iff, eq_string, eq_nat, ◌==◌, if◌then◌else◌,
  Option-cases, lookup, lookup-insert,
}
use ouvrier.State.Types.{IdempotencyOutcome, IdempotencyRecord, MemoryStore, checked-keeps}
use ouvrier.State.Leases.Frame.{SameReservations}
use ouvrier.State.Idempotency.{
  is_failed, is_pending, reserve_args, resolve_args, resolve_all_args, reserve_locked,
  resolve_locked, resolve_one, reserve_idempotency, resolve_idempotency,
  resolve_idempotency_by_execution,
}
use ouvrier.State.Idempotency.Calls.{
  Call, reserve, resolve, resolve_all, step, reserve_locked_keeps,
}

-- One step of os not one that gives the key back.
abbrev pub IsKept : String → String → IdempotencyOutcome → Type 0
IsKept owner e o = (e ≢ owner) ⊎ (is_failed o ≡ false)

-- The call is not one that resolves a key of the execution `owner` as failed.
abbrev pub IsHarmlessCall : String → Call → Type 0
IsHarmlessCall owner (reserve ctx key e now) = Unit {0}
IsHarmlessCall owner (resolve ctx key e o now) = IsKept owner e o
IsHarmlessCall owner (resolve_all ctx e prefix o now) = IsKept owner e o

-- The key belongs to the execution `owner` and has not failed.
abbrev pub IsOwned : String → String → MemoryStore → Type 0
IsOwned key owner s =
    (r : IdempotencyRecord) × (lookup key s.idempotency ≡ some r)
    × (r.exec_id ≡ owner)
    × (is_failed r.outcome ≡ false)

module _ (key owner : String) where
  -- What leaves the reservations alone keeps the key's owner.
  pub moved_owner :
      (s t : MemoryStore) → SameReservations s t → IsOwned key owner s → IsOwned key owner t
  moved_owner s t same (r, held, own, alive) = (r, ap (lookup key) same ∙ held, own, alive)

  reserve_keeps :
      (k e : String) (now : ℕ) (s : MemoryStore)
      → IsOwned key owner s
      → IsOwned key owner (reserve_locked k e now s).1
  reserve_keeps k e now s (r, held, own, alive) =
      (r, reserve_locked_keeps key r s held k e now alive, own, alive)

  -- The record after a resolution, which is that of a pending key by its own execution or nothing.
  abbrev after_resolve : Bool → IdempotencyOutcome → ℕ → IdempotencyRecord → IdempotencyRecord
  after_resolve hit o now r = if hit then record r { outcome = o; updated_at = now } else r

  resolve_row :
      (k e : String) (o : IdempotencyOutcome) (now : ℕ) (s : MemoryStore) (r : IdempotencyRecord)
      → lookup key s.idempotency ≡ some r
      → lookup key (resolve_locked k e o now s).1.idempotency
        ≡ some (after_resolve (k == key && (r.exec_id == e && is_pending r.outcome)) o now r)
  unfolding resolve_locked
  resolve_row k e o now s r held = elim (Option-cases (lookup k s.idempotency)) [
    | inl none_yet ↦ ground (arith, none_yet, held, eq_iff k key)
    | inr (x, found) ↦ ground (
      arith,
      found,
      held,
      eq_iff k key,
      lookup-insert k key (record x { outcome = o; updated_at = now }) s.idempotency,
    )
  ]

  after_resolve_owned :
      (hit : Bool) (e : String) (o : IdempotencyOutcome) (now : ℕ) (r : IdempotencyRecord)
      → (hit ≡ true → r.exec_id ≡ e)
      → IsKept owner e o
      → r.exec_id ≡ owner
      → is_failed r.outcome ≡ false
      → ((after_resolve hit o now r).exec_id ≡ owner)
        × (is_failed (after_resolve hit o now r).outcome ≡ false)
  after_resolve_owned true e o now r by (inl foreign) own alive =
      absurd (foreign (sym (by refl) ∙ own))
  after_resolve_owned true e o now r by (inr fine) own alive = (own, fine)
  after_resolve_owned false e o now r by kept own alive = (own, alive)

  resolve_keeps :
      (k e : String) (o : IdempotencyOutcome) (now : ℕ) (s : MemoryStore)
      → IsKept owner e o
      → IsOwned key owner s
      → IsOwned key owner (resolve_locked k e o now s).1
  resolve_keeps k e o now s kept (r, held, own, alive) =
      let hit = k == key && (r.exec_id == e && is_pending r.outcome) in
      let (own', alive') =
        after_resolve_owned hit e o now r (λ h. ground (arith, h, eq_iff r.exec_id e)) kept own
          alive in
      (after_resolve hit o now r, resolve_row k e o now s r held, own', alive')

  resolve_one_row :
      (e p : String) (o : IdempotencyOutcome) (now : ℕ) (r : IdempotencyRecord)
      → resolve_one e p o now key r
        ≡ after_resolve (r.exec_id == e && (is_pending r.outcome && has_prefix key p)) o now r
  unfolding resolve_one
  resolve_one_row e p o now r = ground arith

  resolve_all_keeps :
      (e p : String) (o : IdempotencyOutcome) (now : ℕ) (s : MemoryStore)
      → IsKept owner e o
      → IsOwned key owner s
      → IsOwned key owner
          (record s { idempotency = update_all (resolve_one e p o now) s.idempotency })
  resolve_all_keeps e p o now s kept (r, held, own, alive) =
      let hit = r.exec_id == e && (is_pending r.outcome && has_prefix key p) in
      let (own', alive') =
        after_resolve_owned hit e o now r (λ h. ground (arith, h, eq_iff r.exec_id e)) kept own
          alive in
      (
        after_resolve hit o now r,
        rw (lookup-update_all, held) (ap some (resolve_one_row e p o now r)),
        own',
        alive',
      )

  pub settle_keeps :
      (c : Call) (s : MemoryStore)
      → IsHarmlessCall owner c
      → IsOwned key owner s
      → IsOwned key owner (step c s)
  unfolding step reserve_idempotency resolve_idempotency resolve_idempotency_by_execution
  settle_keeps (reserve ctx k e now) s harmless h =
      checked-keeps (IsOwned key owner) (reserve_args ctx k e) _ s h
        (λ _. reserve_keeps k e now s h)
  settle_keeps (resolve ctx k e o now) s harmless h =
      checked-keeps (IsOwned key owner) (resolve_args ctx k e o) _ s h
        (λ _. resolve_keeps k e o now s harmless h)
  settle_keeps (resolve_all ctx e p o now) s harmless h =
      checked-keeps (IsOwned key owner) (resolve_all_args ctx e o) _ s h
        (λ _. resolve_all_keeps e p o now s harmless h)
