-- ===== src/State/Leases/Tests.antt =====
-- Runs of the lease calls, and the theorems of this folder at concrete inputs.
use ouvrier.Base.{
  ◌+◌, ◌≤◌, ◌<◌, ◌≡◌, ◌≢◌, refl, true, false, some, [], ◌∷◌, inr, arith, eq_string, pos, ok, lookup,
  insert, trim_space, List,
}
use ouvrier.State.Types.{live, Lease, MemoryStore, new_memory_store}
use ouvrier.State.Leases.{new_lease, acquire_lease, renew_lease, release_lease}
use ouvrier.State.Leases.Fencing.{acquire, renew, release, run, fence_of, run-fence_of, step, Call}
use ouvrier.State.Leases.Stale.{stale_fence_refused, fences_never_reissued}
use ouvrier.State.Leases.Exclusion.{held_lease_excludes}

-- Replica a takes the lease, releases it, and replica b takes it over at fence 2.
abbrev calls : List Call
calls =
    acquire live "job" "a" (pos 100) 5_000_000_000
    ∷ release live "job" "a" 1 5_000_000_010
    ∷ acquire live "job" "b" (pos 100) 5_000_000_020
    ∷ []

abbrev handed_over : MemoryStore
handed_over = run calls new_memory_store

abbrev first : Lease
first = new_lease "job" "a" 1 5_000_000_000 100

abbrev second : Lease
second = new_lease "job" "b" 2 5_000_000_020 100

handed_over-row : lookup "job" handed_over.leases ≡ some second
unfolding run step acquire_lease release_lease lookup insert trim_space
handed_over-row = refl

run-fence_of_example :
    (fence_of "job" new_memory_store ≤ fence_of "job" handed_over)
    × (fence_of "job" handed_over ≤ fence_of "job" new_memory_store + 3)
unfolding run step acquire_lease release_lease lookup insert trim_space
run-fence_of_example = run-fence_of "job" calls new_memory_store (omega arith)

stale_fence_refused_example :
    ((renew_lease live "job" "a" 1 (pos 100) 7 handed_over).1 ≡ handed_over)
    × ((renew_lease live "job" "a" 1 (pos 100) 7 handed_over).0 ≢ ok (first, true))
    × ((release_lease live "job" "a" 1 7 handed_over).1 ≡ handed_over)
unfolding run step acquire_lease release_lease lookup insert trim_space
stale_fence_refused_example =
    stale_fence_refused live "job" "a" 1 7 (pos 100) first [] handed_over (omega arith)
      (omega arith)

fences_never_reissued_example : first.fence < second.fence
unfolding run step acquire_lease release_lease lookup insert trim_space
fences_never_reissued_example =
    fences_never_reissued live live "job" "a" "b" (pos 100) (pos 100) 5_000_000_000 5_000_000_020
      first second (release live "job" "a" 1 5_000_000_010 ∷ []) new_memory_store _ handed_over refl
      refl (omega arith)

-- While b holds the lease, a may not renew or release it, and c is refused.
held_lease_excludes_example :
    (lookup "job" (run (renew live "job" "a" 1 (pos 9) 5_000_000_030 ∷ []) handed_over).leases
      ≡ some second)
    × (acquire_lease live "job" "c"
          (pos 9)
          5_000_000_120
          (run (renew live "job" "a" 1 (pos 9) 5_000_000_030 ∷ []) handed_over)
        ≡ (ok (second, false), run (renew live "job" "a" 1 (pos 9) 5_000_000_030 ∷ []) handed_over))
unfolding run step acquire_lease release_lease lookup insert trim_space
held_lease_excludes_example =
    held_lease_excludes second (renew live "job" "a" 1 (pos 9) 5_000_000_030 ∷ []) handed_over live
      "job" "c" (pos 9) 5_000_000_120 ("job", "c", 9) handed_over-row (inr (inr (omega arith)), tt)
      refl (omega arith) refl
