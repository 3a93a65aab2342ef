-- ===== src/State/Leases/Exclusion.antt =====
-- A lease that has not expired excludes every other holder.
use ouvrier.Base.{
  ℕ, ◌+◌, ◌-◌, ◌%◌, ◌≤◌, String, ◌≡◌, ◌≢◌, ◌⊎◌, false, some, List, [], ◌∷◌, inl, inr, arith, eq_iff,
  eq_string, ℤ, ok, Result-cases, Option-cases, lookup, lookup-insert, trim_space, All,
}
use ouvrier.State.Types.{Context, Lease, MemoryStore, uint64_mod, checked-keeps}
use ouvrier.State.Leases.{
  acquire_lease, renew_lease, release_lease, acquire_locked, renew_locked, release_locked,
  lease_args, release_args, new_lease, a_second,
}
use ouvrier.State.Leases.Fencing.{Call, acquire, renew, release, step, run}
use ouvrier.State.Leases.Stale.{lease_args-key, release_args-key}

-- A call that the holder of `l` does not make: an acquisition that comes before the expiry, or a
-- renewal or release of another name, by another holder or with another fence.
abbrev pub IsForeign : Lease → Call → Type 0
IsForeign l (acquire ctx name holder ttl now) = now ≤ l.expires_at
IsForeign l (renew ctx name holder f ttl now) =
    (trim_space name ≢ l.name) ⊎ ((trim_space holder ≢ l.holder) ⊎ (f ≢ l.fence))
IsForeign l (release ctx name holder f now) =
    (trim_space name ≢ l.name) ⊎ ((trim_space holder ≢ l.holder) ⊎ (f ≢ l.fence))

module _ (l : Lease) (s : MemoryStore) (held : lookup l.name s.leases ≡ some l) where
  acquire_locked_keeps :
      (now d : ℕ) (n h : String)
      → now ≤ l.expires_at
      → lookup l.name (acquire_locked now (n, h, d) s).1.leases ≡ some l
  unfolding acquire_locked
  acquire_locked_keeps now d n h early = elim (Option-cases (lookup n s.leases)) [
    | inl e ↦ rw (e, acquire_locked) (rw lookup-insert (ground (arith, e, held, eq_iff n l.name)))
    | inr (r, e) ↦
        let next = new_lease n h ((r.fence + 1) % uint64_mod) now d in
        ground (arith, e, held, eq_iff n l.name, lookup-insert n l.name next s.leases)
  ]

  renew_locked_keeps :
      (f now d : ℕ) (n h : String)
      → (n ≢ l.name) ⊎ ((h ≢ l.holder) ⊎ (f ≢ l.fence))
      → lookup l.name (renew_locked f now (n, h, d) s).1.leases ≡ some l
  unfolding renew_locked
  renew_locked_keeps f now d n h foreign = elim (Option-cases (lookup n s.leases)) [
    | inl e ↦ ground (arith, e, held)
    | inr (r, e) ↦
        let next = record r { renewed_at = now; expires_at = now + d } in
        ground
          (arith, e, held, eq_iff n l.name, eq_iff r.holder h, lookup-insert n l.name next s.leases)
  ]

  release_locked_keeps :
      (f now : ℕ) (n h : String)
      → (n ≢ l.name) ⊎ ((h ≢ l.holder) ⊎ (f ≢ l.fence))
      → lookup l.name (release_locked f now (n, h) s).1.leases ≡ some l
  unfolding release_locked
  release_locked_keeps f now n h foreign = elim (Option-cases (lookup n s.leases)) [
    | inl e ↦ ground (arith, e, held)
    | inr (r, e) ↦
        let next = record r { expires_at = now - a_second } in
        ground
          (arith, e, held, eq_iff n l.name, eq_iff r.holder h, lookup-insert n l.name next s.leases)
  ]

  pub step_keeps : (c : Call) → IsForeign l c → lookup l.name (step c s).leases ≡ some l
  unfolding step acquire_lease renew_lease release_lease
  step_keeps (acquire ctx name holder ttl now) foreign =
      checked-keeps (λ t. lookup l.name t.leases ≡ some l) (lease_args ctx name holder ttl)
        (acquire_locked now) s held (λ a. acquire_locked_keeps now a.2 a.0 a.1 foreign)
  step_keeps (renew ctx name holder f ttl now) foreign =
      elim (Result-cases (lease_args ctx name holder ttl)) [
        | inl (x, e) ↦ rw (e, step) held
        | inr ((n, h, d), e) ↦
            let key = lease_args-key ctx name holder ttl n h d e in
            rw (e, step) (renew_locked_keeps f now d n h (rw (key.0, key.1) foreign))
      ]
  step_keeps (release ctx name holder f now) foreign =
      elim (Result-cases (release_args ctx name holder)) [
        | inl (x, e) ↦ rw (e, step) held
        | inr ((n, h), e) ↦
            let key = release_args-key ctx name holder n h e in
            rw (e, step) (release_locked_keeps f now n h (rw (key.0, key.1) foreign))
      ]

  acquire_locked_refused :
      (now d : ℕ) (h : String)
      → now ≤ l.expires_at
      → acquire_locked now (l.name, h, d) s ≡ (ok (l, false), s)
  unfolding acquire_locked
  acquire_locked_refused now d h early = ground (arith, held)

run_keeps :
    (l : Lease) (cs : List Call) (s : MemoryStore)
    → lookup l.name s.leases ≡ some l
    → All (IsForeign l) cs
    → lookup l.name (run cs s).leases ≡ some l
unfolding run
run_keeps l [] s held foreign = held
run_keeps l (c ∷ cs) s held foreign =
    run_keeps l cs (step c s) (step_keeps l s held c foreign.0) foreign.1

-- While a lease is in its row and not expired, and whatever others call in the meantime (they may
-- acquire before the expiry, and renew or release other names, other holders' or other fences'
-- leases), its row does not change, and an acquisition of the name before the expiry, with a
-- valid context, holder and time to live, is answered with the held lease and no grant, and
-- changes nothing.
pub held_lease_excludes :
    (l : Lease) (cs : List Call) (s : MemoryStore) (ctx : Context) (name holder : String) (ttl : ℤ)
    (now : ℕ) (a : String × String × ℕ)
    → lookup l.name s.leases ≡ some l
    → All (IsForeign l) cs
    → trim_space name ≡ l.name
    → now ≤ l.expires_at
    → lease_args ctx name holder ttl ≡ ok a
    → (lookup l.name (run cs s).leases ≡ some l)
      × (acquire_lease ctx name holder ttl now (run cs s) ≡ (ok (l, false), run cs s))
unfolding acquire_lease
held_lease_excludes l cs s ctx name holder ttl now (n, h, d) held foreign named early valid =
    let kept = run_keeps l cs s held foreign in
    let key = lease_args-key ctx name holder ttl n h d valid in
    (kept, rw (valid, key.0, named) (acquire_locked_refused l (run cs s) kept now d h early))
