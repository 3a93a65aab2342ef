-- ===== src/Recovery/Heartbeat.antt =====
-- durable_recovery.go (durableRunLeaseHeartbeat): the lease of a run that executes. The goroutine's
-- ticks, the run's confirmations and the release are functions on one store; a context may end
-- between the store's answer and the check of it. The nil heartbeat, of a store without leases, is
-- left out.
pub mod Takeover
mod Tests
use mathlib.Core.Path.{subst}
use ouvrier.Base.{
  if_true, if_false, ◌∙◌, suc, zero, ℤ, pos, negsuc, if-keeps, ℕ, ◌+◌, ◌-◌, ◌%◌, ◌≤◌, ◌<◌, String,
  ◌≡◌, ◌≢◌, ◌↔◌, ◌⊎◌, refl, sym, ap, inl, inr, Bool, true, false, not, ◌&&◌, ◌||◌, Option, none,
  some, List, [], ◌∷◌, ◌++◌, arith, eq_iff, eq_string, eq_nat, ◌==◌, ==-self, Result, ok, err,
  ◌>>=◌, ◌>>◌, if◌then◌else◌, ltb, leb, nat_eq, Bool-cases, Option-cases, Result-cases, Map,
  empty_map, values, lookup, insert, delete, lookup-insert, lookup-insert_self, lookup-delete, All,
  All-append, filter, map, all, any, length, trim_space,
}
use ouvrier.State.Types.{Error, Context, check_context, Lease, MemoryStore}
use ouvrier.State.Leases.{renew_lease, release_lease}
use ouvrier.Cron.{is_done}

-- The errors that wrap errDurableRunLeaseLost.
pub data Loss : Type 0 where
  unproved : Error → Loss
  no_longer_owned : Loss
  held_by : (holder : String) → (fence : ℕ) → Loss

pub data RenewError : Type 0 where
  over : Error → RenewError
  lost : Loss → RenewError

-- What errors.Join joins; an error that is nil has no parts.
pub data Part : Type 0 where
  operation : Error → Part
  canceled : Part
  loss_of : Loss → Part

-- The cause of the execution context's end.
pub data Cause : Type 0 where
  by_release : Cause
  by_loss : Loss → Cause

pub record Heartbeat : Type 0 where
  pub name : String
  pub holder : String
  pub ttl : ℤ
  pub lease : Lease
  pub cause : Option Cause
  pub stopped : Bool
  pub loss : Option Loss

unfoldable pub start_heartbeat : String → String → ℤ → Lease → Heartbeat
start_heartbeat name holder ttl lease = record {
  name = name;
  holder = holder;
  ttl = ttl;
  lease = lease;
  cause = none;
  stopped = false;
  loss = none;
}

-- A context.CancelCauseFunc: the first cause stays.
abbrev cancel_execution : Cause → Heartbeat → Heartbeat
cancel_execution c h = elim h.cause [ some first ↦ h | none ↦ record h { cause = some c } ]

unfoldable pub mark_lost : Loss → Heartbeat → Heartbeat
mark_lost l h = elim h.loss [
  | some first ↦ h
  | none ↦ cancel_execution (by_loss l) (record h { loss = some l })
]

-- The error of a renewal that failed, by the context's.
abbrev pub of_failure : Result Error (Unit {0}) → Loss → Result RenewError (Unit {0})
of_failure (err e) l = err (over e)
of_failure (ok u) l = err (lost l)

abbrev pub on_renewal : Context → Result Error (Lease × Bool) → Result RenewError (Unit {0})
on_renewal ctx (err e) = of_failure (check_context ctx) (unproved e)
on_renewal ctx (ok (current, true)) = ok tt
on_renewal ctx (ok (current, false)) =
    if current.name == ""
    then err (lost no_longer_owned)
    else err (lost (held_by current.holder current.fence))

unfoldable pub renew :
    Context → Context → Heartbeat → ℕ → MemoryStore → Result RenewError (Unit {0}) × MemoryStore
renew ctx ctx' h now s =
    let (answer, t) = renew_lease ctx h.name h.holder h.lease.fence h.ttl now s in
    (on_renewal ctx' answer, t)

unfoldable pub execution_error : Heartbeat → List Part → List Part
execution_error h parts = elim h.loss [ none ↦ parts | some l ↦ parts ++ canceled ∷ loss_of l ∷ [] ]

abbrev after_tick : Context → Heartbeat → Result RenewError (Unit {0}) → Heartbeat
after_tick ctx h (ok u) = h
after_tick ctx h (err (over e)) = h
after_tick ctx h (err (lost l)) = if is_done ctx then h else mark_lost l h

-- A tick of the goroutine, which has returned once it is stopped or has marked a loss.
unfoldable pub tick : Context → Context → Heartbeat → ℕ → MemoryStore → Heartbeat × MemoryStore
unfolding renew mark_lost
tick ctx ctx' h now s = elim h.loss [
  | some l ↦ (h, s)
  | none ↦
      if h.stopped
      then (h, s)
      else (let (answer, t) = renew ctx ctx' h now s in (after_tick ctx' h answer, t))
]

-- The error of confirm, none if it has no parts, and the heartbeat.
abbrev pub after_confirmation : Heartbeat → Result RenewError (Unit {0}) → List Part × Heartbeat
after_confirmation h (ok u) = ([], h)
after_confirmation h (err (over e)) = (operation e ∷ [], h)
after_confirmation h (err (lost l)) = (execution_error (mark_lost l h) [], mark_lost l h)

unfoldable pub confirm :
    Context → Context → Heartbeat → ℕ → MemoryStore → (List Part × Heartbeat) × MemoryStore
unfolding renew mark_lost execution_error
confirm ctx ctx' h now s = elim (execution_error h []) [
  | p ∷ ps ↦ ((p ∷ ps, h), s)
  | [] ↦ let (answer, t) = renew ctx ctx' h now s in (after_confirmation h answer, t)
]

abbrev pub stop_renewing : Heartbeat → Heartbeat
stop_renewing h = record h { stopped = true }

unfoldable pub stop_and_confirm :
    Context → Context → Heartbeat → ℕ → MemoryStore → (List Part × Heartbeat) × MemoryStore
unfolding confirm
stop_and_confirm ctx ctx' h now s = confirm ctx ctx' (stop_renewing h) now s

-- release; its context is a fresh one with a deadline.
unfoldable pub release : Context → Heartbeat → ℕ → MemoryStore → Heartbeat × MemoryStore
release ctx h now s = (
  cancel_execution by_release (stop_renewing h),
  (release_lease ctx h.name h.holder h.lease.fence now s).1,
)
