-- ===== src/State/Leases/Fencing.antt =====
-- Fences over histories of lease calls.
use ouvrier.Base.{
  ℕ, ◌+◌, ◌-◌, ◌%◌, ◌≤◌, ◌<◌, String, Option, none, some, List, [], ◌∷◌, arith, eq_iff, ℤ, lookup,
  lookup-insert, length, inl, inr, Option-cases, eq_string,
}
use ouvrier.State.Types.{Context, Lease, MemoryStore, uint64_mod, checked-keeps}
use ouvrier.State.Leases.{
  acquire_lease, renew_lease, release_lease, acquire_locked, renew_locked, release_locked,
  lease_args, release_args, new_lease, a_second,
}

-- One call of the lease interface, at the clock's reading `now`.
pub data Call : Type 0 where
  acquire : Context → String → String → ℤ → ℕ → Call
  renew : Context → String → String → ℕ → ℤ → ℕ → Call
  release : Context → String → String → ℕ → ℕ → Call

unfoldable pub step : Call → MemoryStore → MemoryStore
step (acquire ctx name holder ttl now) s = (acquire_lease ctx name holder ttl now s).1
step (renew ctx name holder fence ttl now) s = (renew_lease ctx name holder fence ttl now s).1
step (release ctx name holder fence now) s = (release_lease ctx name holder fence now s).1

unfoldable pub run : List Call → MemoryStore → MemoryStore
run [] s = s
run (c ∷ cs) s = run cs (step c s)

abbrev pub fence_row : Option Lease → ℕ
fence_row none = 0
fence_row (some l) = l.fence

-- The fence of a name's row, 0 where there is none yet.
abbrev pub fence_of : String → MemoryStore → ℕ
fence_of n s = fence_row (lookup n s.leases)

-- From one call to the next, a fence stays or grows by one.
abbrev Grows : ℕ → ℕ → Type 0
Grows f g = (f ≤ g) × (g ≤ f + 1)

module _ (n : String) (s : MemoryStore) (room : fence_of n s + 1 < uint64_mod) where
  acquire_locked-Grows :
      (now ttl : ℕ) (name holder : String)
      → Grows (fence_of n s) (fence_of n (acquire_locked now (name, holder, ttl) s).1)
  unfolding acquire_locked
  acquire_locked-Grows now ttl name holder = elim (Option-cases (lookup name s.leases)) [
    | inl e ↦ rw (e, acquire_locked) (rw lookup-insert (ground (arith, eq_iff name n)))
    | inr (l, e) ↦
        let next = new_lease name holder ((l.fence + 1) % uint64_mod) now ttl in
        ground (arith, e, eq_iff name n, lookup-insert name n next s.leases)
  ]

  renew_locked-Grows :
      (fence now ttl : ℕ) (name holder : String)
      → Grows (fence_of n s) (fence_of n (renew_locked fence now (name, holder, ttl) s).1)
  unfolding renew_locked
  renew_locked-Grows fence now ttl name holder = elim (Option-cases (lookup name s.leases)) [
    | inl e ↦ ground (arith, e)
    | inr (l, e) ↦
        let renewed = record l { renewed_at = now; expires_at = now + ttl } in
        ground (arith, e, eq_iff name n, lookup-insert name n renewed s.leases)
  ]

  release_locked-Grows :
      (fence now : ℕ) (name holder : String)
      → Grows (fence_of n s) (fence_of n (release_locked fence now (name, holder) s).1)
  unfolding release_locked
  release_locked-Grows fence now name holder = elim (Option-cases (lookup name s.leases)) [
    | inl e ↦ ground (arith, e)
    | inr (l, e) ↦
        let released = record l { expires_at = now - a_second } in
        ground (arith, e, eq_iff name n, lookup-insert name n released s.leases)
  ]

  step-Grows : (c : Call) → Grows (fence_of n s) (fence_of n (step c s))
  unfolding step acquire_lease renew_lease release_lease
  step-Grows (acquire ctx name holder ttl now) =
      checked-keeps (λ t. Grows (fence_of n s) (fence_of n t)) (lease_args ctx name holder ttl)
        (acquire_locked now) s (omega arith) (λ a. acquire_locked-Grows now a.2 a.0 a.1)
  step-Grows (renew ctx name holder fence ttl now) =
      checked-keeps (λ t. Grows (fence_of n s) (fence_of n t)) (lease_args ctx name holder ttl)
        (renew_locked fence now) s (omega arith) (λ a. renew_locked-Grows fence now a.2 a.0 a.1)
  step-Grows (release ctx name holder fence now) =
      checked-keeps (λ t. Grows (fence_of n s) (fence_of n t)) (release_args ctx name holder)
        (release_locked fence now) s (omega arith) (λ a. release_locked-Grows fence now a.0 a.1)

-- Over any calls, by any holders and at any times, the fence of a name never falls, and grows by
-- at most one for each call, as long as the 64 bits have room for them.
pub run-fence_of :
    (n : String) (cs : List Call) (s : MemoryStore)
    → fence_of n s + length cs < uint64_mod
    → (fence_of n s ≤ fence_of n (run cs s)) × (fence_of n (run cs s) ≤ fence_of n s + length cs)
unfolding run
run-fence_of n [] s room = omega arith
run-fence_of n (c ∷ cs) s room =
    let first = step-Grows n s (omega arith) c in
    omega (arith, first, run-fence_of n cs (step c s) (omega (arith, first)))
