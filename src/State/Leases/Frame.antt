-- ===== src/State/Leases/Frame.antt =====
-- The lease calls write nothing but the leases.
use ouvrier.Base.{
  ℤ, ℕ, String, ◌≡◌, refl, inl, inr, ◌&&◌, eq_string, eq_nat, ◌==◌, ltb, nat_eq, Bool-cases,
  Option-cases, lookup,
}
use ouvrier.State.Types.{Context, MemoryStore, checked-keeps}
use ouvrier.State.Leases.{
  acquire_lease, renew_lease, release_lease, acquire_locked, renew_locked, release_locked,
  lease_args, release_args,
}

-- The reservations of a store are those of another.
abbrev pub SameReservations : MemoryStore → MemoryStore → Type 0
SameReservations s t = t.idempotency ≡ s.idempotency

acquire_locked-SameReservations :
    (now : ℕ) (args : String × String × ℕ) (s : MemoryStore)
    → SameReservations s (acquire_locked now args s).1
unfolding acquire_locked
acquire_locked-SameReservations now (name, holder, ttl) s =
    elim (Option-cases (lookup name s.leases)) [
      | inl e ↦ rw (acquire_locked, e)
      | inr (current, e) ↦ elim (Bool-cases (ltb current.expires_at now)) [
        | inl late ↦ rw (acquire_locked, e, late)
        | inr early ↦ rw (acquire_locked, e, early)
      ]
    ]

renew_locked-SameReservations :
    (fence now : ℕ) (args : String × String × ℕ) (s : MemoryStore)
    → SameReservations s (renew_locked fence now args s).1
unfolding renew_locked
renew_locked-SameReservations fence now (name, holder, ttl) s =
    elim (Option-cases (lookup name s.leases)) [
      | inl e ↦ rw (renew_locked, e)
      | inr (current, e) ↦
          elim (Bool-cases (current.holder == holder && nat_eq current.fence fence)) [
            | inl own ↦ rw (renew_locked, e, own)
            | inr away ↦ rw (renew_locked, e, away)
          ]
    ]

release_locked-SameReservations :
    (fence now : ℕ) (args : String × String) (s : MemoryStore)
    → SameReservations s (release_locked fence now args s).1
unfolding release_locked
release_locked-SameReservations fence now (name, holder) s =
    elim (Option-cases (lookup name s.leases)) [
      | inl e ↦ rw (release_locked, e)
      | inr (current, e) ↦
          elim (Bool-cases (current.holder == holder && nat_eq current.fence fence)) [
            | inl own ↦ rw (release_locked, e, own)
            | inr away ↦ rw (release_locked, e, away)
          ]
    ]

pub acquire_lease-SameReservations :
    (ctx : Context) (name holder : String) (ttl : ℤ) (now : ℕ) (s : MemoryStore)
    → SameReservations s (acquire_lease ctx name holder ttl now s).1
unfolding acquire_lease
acquire_lease-SameReservations ctx name holder ttl now s =
    checked-keeps (SameReservations s) (lease_args ctx name holder ttl) _ s refl
      (λ args. acquire_locked-SameReservations now args s)

pub renew_lease-SameReservations :
    (ctx : Context) (name holder : String) (fence : ℕ) (ttl : ℤ) (now : ℕ) (s : MemoryStore)
    → SameReservations s (renew_lease ctx name holder fence ttl now s).1
unfolding renew_lease
renew_lease-SameReservations ctx name holder fence ttl now s =
    checked-keeps (SameReservations s) (lease_args ctx name holder ttl) _ s refl
      (λ args. renew_locked-SameReservations fence now args s)

pub release_lease-SameReservations :
    (ctx : Context) (name holder : String) (fence now : ℕ) (s : MemoryStore)
    → SameReservations s (release_lease ctx name holder fence now s).1
unfolding release_lease
release_lease-SameReservations ctx name holder fence now s =
    checked-keeps (SameReservations s) (release_args ctx name holder) _ s refl
      (λ args. release_locked-SameReservations fence now args s)
