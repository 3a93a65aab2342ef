-- ===== src/State/Idempotency/Tests.antt =====
-- Runs of the reservation calls, and the theorems of this folder at concrete inputs.
use ouvrier.Base.{
  ◌≡◌, refl, true, false, some, List, [], ◌∷◌, arith, eq_iff, eq_string, eq_nat, ok, err, lookup,
  insert, trim_space,
}
use ouvrier.State.Types.{
  live, succeeded, failed, IdempotencyRecord, MemoryStore, new_memory_store, owner_mismatch,
}
use ouvrier.State.Idempotency.{
  fresh_record, reserve_idempotency, resolve_idempotency, reserve_args, resolve_args,
}
use ouvrier.State.Idempotency.Calls.{Call, reserve, resolve, resolve_all, step, run}
use ouvrier.State.Idempotency.History.{succeeded_forever, one_owner, failed_is_retried}

abbrev reserved : MemoryStore
reserved = (reserve_idempotency live "k" "run1" 1 new_memory_store).1

abbrev row : IdempotencyRecord
row = fresh_record "k" "run1" 1

abbrev paid : MemoryStore
paid = step (resolve live "k" "run1" succeeded 2) reserved

abbrev paid_row : IdempotencyRecord
paid_row = record row { outcome = succeeded; updated_at = 2 }

abbrev others : List Call
others = reserve live "k" "run2" 3 ∷ resolve_all live "run2" "" failed 4 ∷ []

reserved-row : lookup "k" reserved.idempotency ≡ some row
unfolding reserve_idempotency lookup insert
reserved-row = refl

paid-row : lookup "k" paid.idempotency ≡ some paid_row
unfolding step reserve_idempotency resolve_idempotency lookup insert trim_space
paid-row = refl

granted : reserve_idempotency live "k" "run1" 1 new_memory_store ≡ (ok ("", true), reserved)
unfolding reserve_idempotency lookup insert
granted = refl

succeeded_forever_example :
    (lookup "k" (run others paid).idempotency ≡ some paid_row)
    × (reserve_idempotency live "k" "run2" 9 (run others paid)
        ≡ (ok ("run1", false), run others paid))
unfolding trim_space reserve_args resolve_args
succeeded_forever_example =
    succeeded_forever live "k" "run2" 9 paid_row others paid paid-row refl refl

one_owner_example :
    (reserve_idempotency live "k" "run2" 9 (run others reserved)
      ≡ (ok ("run1", false), run others reserved))
    × (resolve_idempotency live "k" "run2" failed 9 (run others reserved)
        ≡ (err owner_mismatch, run others reserved))
unfolding trim_space reserve_args resolve_args
one_owner_example =
    one_owner live live "k" "run1" "run2" "" failed 1 9 others new_memory_store reserved granted
      (tt, ((ground (arith, eq_iff "run2" "run1")), tt)) (ground (arith, eq_iff "run2" "run1")) refl
      refl

failed_is_retried_example :
    ((resolve_idempotency live "k" "run1" failed 2 reserved).0 ≡ ok tt)
    × ((reserve_idempotency live "k" "run2" 3 (step (resolve live "k" "run1" failed 2) reserved)).0
        ≡ ok ("", true))
    × (lookup "k"
          (run
            (resolve live "k" "run1" failed 2 ∷ reserve live "k" "run2" 3 ∷ [])
            reserved).idempotency
        ≡ some (fresh_record "k" "run2" 3))
unfolding trim_space reserve_args resolve_args
failed_is_retried_example =
    failed_is_retried live live "k" "run2" 2 3 row reserved reserved-row refl refl refl
