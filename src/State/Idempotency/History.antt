-- ===== src/State/Idempotency/History.antt =====
-- Reservations over histories of calls.
use ouvrier.Base.{
  ℕ, String, ◌≡◌, ◌≢◌, refl, true, false, some, List, [], ◌∷◌, inl, inr, arith, eq_iff, eq_string,
  ok, err, Option-cases, Result-cases, lookup, insert, All, lookup-insert_self,
}
use ouvrier.State.Types.{
  Context, IdempotencyOutcome, pending, succeeded, failed, IdempotencyRecord, MemoryStore,
  owner_mismatch,
}
use ouvrier.State.Idempotency.{
  is_failed, reserve_args, resolve_args, reserve_locked, resolve_locked, reserve_idempotency,
  resolve_idempotency, fresh_record, put_record,
}
use ouvrier.State.Idempotency.Calls.{
  Call, reserve, resolve, step, run, IsForeign, IsFixed, run_keeps,
}

All-IsFixed : (r : IdempotencyRecord) (cs : List Call) → r.outcome ≡ succeeded → All (IsFixed r) cs
All-IsFixed r [] done = tt
All-IsFixed r (c ∷ cs) done = (inl done, All-IsFixed r cs done)

pub refused :
    (ctx : Context) (key e : String) (now : ℕ) (r : IdempotencyRecord) (s : MemoryStore)
    → lookup key s.idempotency ≡ some r
    → is_failed r.outcome ≡ false
    → reserve_args ctx key e ≡ ok tt
    → reserve_idempotency ctx key e now s ≡ (ok (r.exec_id, false), s)
unfolding reserve_idempotency
refused ctx key e now r s held alive valid = rw (valid, held, reserve_locked, alive)

-- A key whose effect has succeeded is settled for ever: whatever calls any executions make, its
-- record never changes, and every later valid reservation, by any execution, is answered with the
-- execution that owns the key and no grant, and changes nothing.
pub succeeded_forever :
    (ctx : Context) (key e : String) (now : ℕ) (r : IdempotencyRecord) (cs : List Call)
    (s : MemoryStore)
    → lookup key s.idempotency ≡ some r
    → r.outcome ≡ succeeded
    → reserve_args ctx key e ≡ ok tt
    → (lookup key (run cs s).idempotency ≡ some r)
      × (reserve_idempotency ctx key e now (run cs s) ≡ (ok (r.exec_id, false), run cs s))
succeeded_forever ctx key e now r cs s held done valid =
    let kept = run_keeps key r cs s held (All-IsFixed r cs done) in
    (kept, refused ctx key e now r (run cs s) kept (ground arith) valid)

locked_granted :
    (key e : String) (now : ℕ) (s t : MemoryStore) (a : String)
    → reserve_locked key e now s ≡ (ok (a, true), t)
    → lookup key t.idempotency ≡ some (fresh_record key e now)
unfolding reserve_locked
locked_granted key e now s t a granted =
    let row = lookup-insert_self key (fresh_record key e now) s.idempotency in
    elim (Option-cases (lookup key s.idempotency)) [
      | inl none_yet ↦ ground (arith, none_yet, row)
      | inr (x, found) ↦ ground (arith, found, row)
    ]

pub granted_record :
    (ctx : Context) (key e : String) (now : ℕ) (s t : MemoryStore) (a : String)
    → reserve_idempotency ctx key e now s ≡ (ok (a, true), t)
    → lookup key t.idempotency ≡ some (fresh_record key e now)
unfolding reserve_idempotency
granted_record ctx key e now s t a granted = elim (Result-cases (reserve_args ctx key e)) [
  | inl (x, bad) ↦ absurd (cc (rw bad at granted))
  | inr (u, good) ↦ locked_granted key e now s t a (rw good at granted)
]

pending-IsFixed :
    (r : IdempotencyRecord) (cs : List Call)
    → r.outcome ≡ pending
    → All (IsForeign r.exec_id) cs
    → All (IsFixed r) cs
pending-IsFixed r [] waiting foreign = tt
pending-IsFixed r (c ∷ cs) waiting foreign =
    (inr (waiting, foreign.0), pending-IsFixed r cs waiting foreign.1)

mismatched :
    (ctx : Context) (key e : String) (o : IdempotencyOutcome) (now : ℕ) (r : IdempotencyRecord)
    (s : MemoryStore)
    → lookup key s.idempotency ≡ some r
    → e ≢ r.exec_id
    → resolve_args ctx key e o ≡ ok tt
    → resolve_idempotency ctx key e o now s ≡ (err owner_mismatch, s)
unfolding resolve_idempotency resolve_locked
mismatched ctx key e o now r s held different valid = rw valid (ground (arith, eq_iff r.exec_id e))

-- After a granted reservation nobody else gets the key while its owner does not resolve it:
-- whatever calls the others make (reservations by anyone, resolutions by other executions), a
-- valid reservation is answered with the owner and no grant, and a valid resolution by another
-- execution is refused with an owner mismatch; neither changes the store.
pub one_owner :
    (ctx ctx' : Context) (key e e' a : String) (o : IdempotencyOutcome) (now now' : ℕ)
    (cs : List Call) (s t : MemoryStore)
    → reserve_idempotency ctx key e now s ≡ (ok (a, true), t)
    → All (IsForeign e) cs
    → e' ≢ e
    → reserve_args ctx' key e' ≡ ok tt
    → resolve_args ctx' key e' o ≡ ok tt
    → (reserve_idempotency ctx' key e' now' (run cs t) ≡ (ok (e, false), run cs t))
      × (resolve_idempotency ctx' key e' o now' (run cs t) ≡ (err owner_mismatch, run cs t))
one_owner ctx ctx' key e e' a o now now' cs s t granted foreign different valid valid' =
    let r = fresh_record key e now in
    let kept =
      run_keeps key r cs t (granted_record ctx key e now s t a granted)
        (pending-IsFixed r cs refl foreign) in
    (
      refused ctx' key e' now' r (run cs t) kept refl valid,
      mismatched ctx' key e' o now' r (run cs t) kept different valid',
    )

abbrev pub settled : String → IdempotencyOutcome → ℕ → IdempotencyRecord → MemoryStore → MemoryStore
settled key o now r s = record s {
  idempotency = insert key (record r { outcome = o; updated_at = now }) s.idempotency;
}

pub resolved :
    (ctx : Context) (key : String) (o : IdempotencyOutcome) (now : ℕ) (r : IdempotencyRecord)
    (s : MemoryStore)
    → lookup key s.idempotency ≡ some r
    → r.outcome ≡ pending
    → resolve_args ctx key r.exec_id o ≡ ok tt
    → resolve_idempotency ctx key r.exec_id o now s ≡ (ok tt, settled key o now r s)
unfolding resolve_idempotency resolve_locked
resolved ctx key o now r s held waiting valid =
    rw valid (ground (arith, eq_iff r.exec_id r.exec_id))

regranted :
    (ctx : Context) (key e : String) (now : ℕ) (r : IdempotencyRecord) (s : MemoryStore)
    → lookup key s.idempotency ≡ some r
    → r.outcome ≡ failed
    → reserve_args ctx key e ≡ ok tt
    → reserve_idempotency ctx key e now s ≡ (ok ("", true), put_record (fresh_record key e now) s)
unfolding reserve_idempotency reserve_locked
regranted ctx key e now r s held lost valid = rw valid (ground arith)

-- When the owner of a pending key resolves it as failed, the key is free again: the next valid
-- reservation, by any execution, is granted, and its execution is the new owner.
pub failed_is_retried :
    (ctx ctx' : Context) (key e' : String) (now now' : ℕ) (r : IdempotencyRecord) (s : MemoryStore)
    → lookup key s.idempotency ≡ some r
    → r.outcome ≡ pending
    → resolve_args ctx key r.exec_id failed ≡ ok tt
    → reserve_args ctx' key e' ≡ ok tt
    → ((resolve_idempotency ctx key r.exec_id failed now s).0 ≡ ok tt)
      × ((reserve_idempotency ctx' key e' now' (step (resolve ctx key r.exec_id failed now) s)).0
          ≡ ok ("", true))
      × (lookup key
            (run
              (resolve ctx key r.exec_id failed now ∷ reserve ctx' key e' now' ∷ [])
              s).idempotency
          ≡ some (fresh_record key e' now'))
unfolding step run
failed_is_retried ctx ctx' key e' now now' r s held waiting valid valid' =
    let freed = record r { outcome = failed; updated_at = now } in
    let u = settled key failed now r s in
    let row = lookup-insert_self key freed s.idempotency in
    rw
      (
        run,
        step,
        resolved ctx key failed now r s held waiting valid,
        regranted ctx' key e' now' freed u row refl valid',
      )
      (refl, refl, lookup-insert_self key (fresh_record key e' now') u.idempotency)
