-- ===== src/State/Leases/Stale.antt =====
-- A fence that was lost is worth nothing, and no fence is issued twice.
use ouvrier.Base.{
  ℕ, ◌+◌, ◌<◌, String, ◌≡◌, ◌≢◌, refl, true, List, inl, inr, arith, eq_string, ℤ, ok, Result-cases,
  Option-cases, lookup, lookup-insert_self, length, trim_space,
}
use ouvrier.State.Types.{Context, Lease, MemoryStore, uint64_mod}
use ouvrier.State.Leases.{
  acquire_lease, renew_lease, release_lease, acquire_locked, renew_locked, release_locked,
  lease_args, release_args,
}
use ouvrier.State.Leases.Fencing.{Call, run, fence_of, run-fence_of}

pub lease_args-key :
    (ctx : Context) (name holder : String) (ttl : ℤ) (n h : String) (d : ℕ)
    → lease_args ctx name holder ttl ≡ ok (n, h, d)
    → (n ≡ trim_space name) × (h ≡ trim_space holder)
unfolding lease_args
lease_args-key ctx name holder ttl n h d e = ground arith

pub release_args-key :
    (ctx : Context) (name holder n h : String)
    → release_args ctx name holder ≡ ok (n, h)
    → (n ≡ trim_space name) × (h ≡ trim_space holder)
unfolding release_args
release_args-key ctx name holder n h e = ground arith

module _ (f now : ℕ) (s : MemoryStore) where
  renew_locked_stale :
      (n h : String) (d : ℕ) (l : Lease)
      → f < fence_of n s
      → ((renew_locked f now (n, h, d) s).1 ≡ s)
        × ((renew_locked f now (n, h, d) s).0 ≢ ok (l, true))
  unfolding renew_locked
  renew_locked_stale n h d l stale = elim (Option-cases (lookup n s.leases)) [
    | inl e ↦ ground (arith, e)
    | inr (r, e) ↦ ground (arith, e)
  ]

  release_locked_stale : (n h : String) → f < fence_of n s → (release_locked f now (n, h) s).1 ≡ s
  unfolding release_locked
  release_locked_stale n h stale = elim (Option-cases (lookup n s.leases)) [
    | inl e ↦ ground (arith, e)
    | inr (r, e) ↦ ground (arith, e)
  ]

  renew_lease_stale :
      (ctx : Context) (name holder : String) (ttl : ℤ) (l : Lease)
      → f < fence_of (trim_space name) s
      → ((renew_lease ctx name holder f ttl now s).1 ≡ s)
        × ((renew_lease ctx name holder f ttl now s).0 ≢ ok (l, true))
  unfolding renew_lease
  renew_lease_stale ctx name holder ttl l stale =
      elim (Result-cases (lease_args ctx name holder ttl)) [
        | inl (x, e) ↦ rw e (refl, cc)
        | inr ((n, h, d), e) ↦
            let key = lease_args-key ctx name holder ttl n h d e in
            rw e (renew_locked_stale n h d l (rw key.0 stale))
      ]

  release_lease_stale :
      (ctx : Context) (name holder : String)
      → f < fence_of (trim_space name) s
      → (release_lease ctx name holder f now s).1 ≡ s
  unfolding release_lease
  release_lease_stale ctx name holder stale = elim (Result-cases (release_args ctx name holder)) [
    | inl (x, e) ↦ rw e
    | inr ((n, h), e) ↦
        let key = release_args-key ctx name holder n h e in
        rw e (release_locked_stale n h (rw key.0 stale))
  ]

-- Once the fence of a name has passed f, no call that presents f is ever obeyed again: after any
-- further calls, a renewal with f is not granted and a release with f does nothing, for every
-- holder, and neither changes the store, as long as the 64 bits of the fence have room.
pub stale_fence_refused :
    (ctx : Context) (name holder : String) (f now : ℕ) (ttl : ℤ) (l : Lease) (cs : List Call)
    (s : MemoryStore)
    → f < fence_of (trim_space name) s
    → fence_of (trim_space name) s + length cs < uint64_mod
    → ((renew_lease ctx name holder f ttl now (run cs s)).1 ≡ run cs s)
      × ((renew_lease ctx name holder f ttl now (run cs s)).0 ≢ ok (l, true))
      × ((release_lease ctx name holder f now (run cs s)).1 ≡ run cs s)
stale_fence_refused ctx name holder f now ttl l cs s stale room =
    let grown = run-fence_of (trim_space name) cs s room in
    let still : f < fence_of (trim_space name) (run cs s) = omega (arith, grown) in
    let renewal = renew_lease_stale f now (run cs s) ctx name holder ttl l still in
    (renewal.0, renewal.1, release_lease_stale f now (run cs s) ctx name holder still)

acquire_locked_granted :
    (now d : ℕ) (n h : String) (l : Lease) (s t : MemoryStore)
    → acquire_locked now (n, h, d) s ≡ (ok (l, true), t)
    → fence_of n s + 1 < uint64_mod
    → (l.fence ≡ fence_of n s + 1) × (fence_of n t ≡ l.fence)
unfolding acquire_locked
acquire_locked_granted now d n h l s t e room = elim (Option-cases (lookup n s.leases)) [
  | inl none_yet ↦ ground (arith, none_yet, lookup-insert_self n l s.leases)
  | inr (r, found) ↦ ground (arith, found, lookup-insert_self n l s.leases)
]

-- A granted acquisition takes the fence after the row's (the first is 1), and leaves it in the row.
pub acquire_granted :
    (ctx : Context) (name holder : String) (ttl : ℤ) (now : ℕ) (l : Lease) (s t : MemoryStore)
    → acquire_lease ctx name holder ttl now s ≡ (ok (l, true), t)
    → fence_of (trim_space name) s + 1 < uint64_mod
    → (l.fence ≡ fence_of (trim_space name) s + 1) × (fence_of (trim_space name) t ≡ l.fence)
unfolding acquire_lease
acquire_granted ctx name holder ttl now l s t e room =
    elim (Result-cases (lease_args ctx name holder ttl)) [
      | inl (x, bad) ↦ absurd (cc (rw bad at e))
      | inr ((n, h, d), good) ↦
          let key = lease_args-key ctx name holder ttl n h d good in
          rw (← key.0)
            (acquire_locked_granted now d n h l s t (rw good at e) (rw (← key.0) at room))
    ]

-- Two granted acquisitions of one name, whoever made them, never carry the same fence: the later
-- one's is the larger, as long as the 64 bits have room.
pub fences_never_reissued :
    (ctx ctx' : Context) (name holder holder' : String) (ttl ttl' : ℤ) (now now' : ℕ) (l l' : Lease)
    (cs : List Call) (s t u : MemoryStore)
    → acquire_lease ctx name holder ttl now s ≡ (ok (l, true), t)
    → acquire_lease ctx' name holder' ttl' now' (run cs t) ≡ (ok (l', true), u)
    → fence_of (trim_space name) s + length cs + 2 < uint64_mod
    → l.fence < l'.fence
fences_never_reissued ctx ctx' name holder holder' ttl ttl' now now' l l' cs s t u first later
      room =
    let granted = acquire_granted ctx name holder ttl now l s t first (omega arith) in
    let grown = run-fence_of (trim_space name) cs t (omega (arith, granted)) in
    let again =
      acquire_granted ctx' name holder' ttl' now' l' (run cs t) u later
        (omega (arith, granted, grown)) in
    omega (arith, granted, grown, again)
