-- ===== src/Recovery/Heartbeat/Takeover.antt =====
-- A heartbeat whose lease was taken over.
use ouvrier.Base.{
  ℕ, ◌+◌, ◌<◌, ◌≡◌, ◌≢◌, refl, inl, inr, Bool, true, false, List, [], eq_string, eq_nat, ◌==◌,
  Result, ok, err, Bool-cases, Option-cases, length, trim_space,
}
use ouvrier.State.Types.{Error, Context, check_context, Lease, MemoryStore, uint64_mod}
use ouvrier.State.Leases.{renew_lease}
use ouvrier.State.Leases.Fencing.{Call, run, fence_of}
use ouvrier.State.Leases.Stale.{stale_fence_refused}
use ouvrier.Recovery.Heartbeat.{
  of_failure, unproved, Loss, RenewError, over, lost, Heartbeat, mark_lost, on_renewal, renew,
  execution_error, tick, after_confirmation, confirm, stop_renewing, stop_and_confirm, release,
}

of_failure-refused :
    (ended : Result Error (Unit {0})) (l : Loss) → (e : RenewError) × (of_failure ended l ≡ err e)
of_failure-refused (err x) l = (over x, refl)
of_failure-refused (ok u) l = (lost l, refl)

on_renewal-refused :
    (ctx : Context) (answer : Result Error (Lease × Bool))
    → ((l : Lease) → answer ≢ ok (l, true))
    → (e : RenewError) × (on_renewal ctx answer ≡ err e)
on_renewal-refused ctx (err x) refused = of_failure-refused (check_context ctx) (unproved x)
on_renewal-refused ctx (ok (l, true)) refused = absurd (refused l refl)
on_renewal-refused ctx (ok (l, false)) refused = elim (Bool-cases (l.name == "")) [
  | inl free ↦ rw free (_, refl)
  | inr taken ↦ rw taken (_, refl)
]

execution_error-mark_lost : (l : Loss) (h : Heartbeat) → execution_error (mark_lost l h) [] ≢ []
unfolding execution_error mark_lost
execution_error-mark_lost l h = elim (Option-cases h.loss) [
  | inr (first, e) ↦ rw (e, mark_lost, execution_error) cc
  | inl e ↦ elim (Option-cases h.cause) [
    | inl c ↦ rw (e, mark_lost, c, execution_error) cc
    | inr (first, c) ↦ rw (e, mark_lost, c, execution_error) cc
  ]
]

after_confirmation-refused :
    (h : Heartbeat) (e : RenewError) → (after_confirmation h (err e)).0 ≢ []
after_confirmation-refused h (over e) = cc
after_confirmation-refused h (lost l) = execution_error-mark_lost l h

confirm_refused :
    (ctx ctx' : Context) (h : Heartbeat) (now : ℕ) (s : MemoryStore)
    → (renew_lease ctx h.name h.holder h.lease.fence h.ttl now s).1 ≡ s
    → ((l : Lease) → (renew_lease ctx h.name h.holder h.lease.fence h.ttl now s).0 ≢ ok (l, true))
    → ((confirm ctx ctx' h now s).0.0 ≢ []) × ((confirm ctx ctx' h now s).1 ≡ s)
unfolding confirm renew execution_error
confirm_refused ctx ctx' h now s same refused = elim (Option-cases h.loss) [
  | inr (l, e) ↦ rw (e, confirm, execution_error) (cc, refl)
  | inl e ↦
      let (x, answered) = on_renewal-refused ctx' _ refused in
      rw (e, confirm, execution_error, answered) (after_confirmation-refused h x, same)
]

tick_refused :
    (ctx ctx' : Context) (h : Heartbeat) (now : ℕ) (s : MemoryStore)
    → (renew_lease ctx h.name h.holder h.lease.fence h.ttl now s).1 ≡ s
    → (tick ctx ctx' h now s).1 ≡ s
unfolding tick renew
tick_refused ctx ctx' h now s same = elim (Option-cases h.loss) [
  | inr (l, e) ↦ rw (e, tick)
  | inl e ↦ elim (Bool-cases h.stopped) [
    | inl done ↦ rw (e, tick, done)
    | inr going ↦ rw (e, tick, going) same
  ]
]

-- Once the lease of a heartbeat was taken over, so that the fence of its row is beyond the
-- heartbeat's, and whatever lease calls follow, each confirmation of it is answered with an error,
-- also after it has stopped renewing, and neither its confirmations, its ticks nor its release change
-- the store, as long as the 64 bits of the fence have room.
pub taken_over_fails_closed :
    (ctx ctx' : Context) (h : Heartbeat) (now : ℕ) (cs : List Call) (s : MemoryStore)
    → h.lease.fence < fence_of (trim_space h.name) s
    → fence_of (trim_space h.name) s + length cs < uint64_mod
    → ((confirm ctx ctx' h now (run cs s)).0.0 ≢ [])
      × ((confirm ctx ctx' h now (run cs s)).1 ≡ run cs s)
      × ((stop_and_confirm ctx ctx' h now (run cs s)).0.0 ≢ [])
      × ((tick ctx ctx' h now (run cs s)).1 ≡ run cs s)
      × ((release ctx h now (run cs s)).1 ≡ run cs s)
unfolding stop_and_confirm release
taken_over_fails_closed ctx ctx' h now cs s behind room =
    let refused = λ (l : Lease).
      stale_fence_refused ctx h.name h.holder h.lease.fence now h.ttl l cs s behind room in
    let (same, _, released) = refused h.lease in
    let answers = λ (l : Lease). (refused l).1 in
    let (fails, kept) = confirm_refused ctx ctx' h now (run cs s) same answers in
    let again = confirm_refused ctx ctx' (stop_renewing h) now (run cs s) same answers in
    (fails, kept, again.0, tick_refused ctx ctx' h now (run cs s) same, released)
