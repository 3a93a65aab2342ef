-- ===== src/Cron.antt =====
-- runtime_cron_lease.go: cron plans of several replicas that share one store. A replica follows
-- until it acquires the plan's lease, then leads: it renews before each tick, reserves the tick's
-- key and fires. The replicas' steps interleave on the store; timers and goroutines are not modelled.
pub mod Schedule
pub mod Owner
pub mod Once
mod Tests
use ouvrier.Base.{
  ℤ, ℕ, String, Bool, true, false, not, ◌&&◌, Option, none, some, eq_iff, eq_string, eq_nat, ◌==◌,
  Result, ok, err, ◌>>=◌, ◌>>◌, if◌then◌else◌,
}
use Prim.Native.String.{◌++◌}
use ouvrier.State.Types.{Error, Context, check_context, Lease, MemoryStore}
use ouvrier.State.Leases.{acquire_lease, renew_lease, release_lease}
use ouvrier.State.Idempotency.{reserve_idempotency, resolve_idempotency_by_execution}
use ouvrier.State.Types.{succeeded}
use ouvrier.State.Types.{failed}

-- cronLeaseConfig, without the store and the poll interval
pub record LeaseConfig : Type 0 where
  pub holder : String
  pub ttl : ℤ

-- cronLeaseStamp
pub record LeaseStamp : Type 0 where
  pub name : String
  pub holder : String
  pub fence : ℕ

-- cronFireKey; `format` stands for the RFC 3339 text of an instant in UTC.
unfoldable pub cron_fire_key : (ℕ → String) → String → ℕ → String
cron_fire_key format lease_name scheduled_at =
    "cron_fire:" ++ (lease_name ++ (":" ++ format scheduled_at))

-- One turn of runLeasedCronLoop: the lease that this replica then leads with, or none, and it waits.
pub data Followed : Type 0 where
  waits : Followed
  leads : Lease → Followed

abbrev after_acquire : Result Error (Lease × Bool) → Followed
after_acquire (ok (lease, true)) = leads lease
after_acquire (ok (lease, false)) = waits
after_acquire (err e) = waits

unfoldable pub follow : Context → String → LeaseConfig → ℕ → MemoryStore → Followed × MemoryStore
follow ctx lease_name cfg now s =
    let (answer, t) = acquire_lease ctx lease_name cfg.holder cfg.ttl now s in
    (after_acquire answer, t)

-- One tick of a leader: the plan's lease and the one it holds, the instant it is for, the context
-- and the clock at the renewal, at the reservation and for the workers, and the execution id of the
-- session made for it, unless that fails.
pub record Tick : Type 0 where
  pub lease_name : String
  pub cfg : LeaseConfig
  pub lease : Lease
  pub scheduled_at : ℕ
  pub at_renewal : Context × ℕ
  pub at_reservation : Context × ℕ
  pub session : Option String
  pub worker_free : Bool

pub data SkipReason : Type 0 where
  reserve_error : Error → SkipReason
  duplicate_fire : SkipReason

-- How a tick ends: the loop returns, silently or with a cron_lease_lost event, or it goes on with the
-- renewed lease, after no event, after a cron_tick_skipped event, or after a fire.
pub data TickEnd : Type 0 where
  returned : TickEnd
  lost : TickEnd
  no_session : Lease → TickEnd
  skipped : Lease → SkipReason → TickEnd
  fired : Lease → (exec_id : String) → LeaseStamp → TickEnd

abbrev pub is_fired : TickEnd → Bool
is_fired (fired _ _ _) = true
is_fired _ = false

-- ctx.Err() != nil
abbrev pub is_done : Context → Bool
is_done ctx = elim (check_context ctx) [ ok _ ↦ false | err _ ↦ true ]

abbrev stamp_of : Tick → Lease → LeaseStamp
stamp_of tick lease = record {
  name = tick.lease_name;
  holder = tick.cfg.holder;
  fence = lease.fence;
}

abbrev pub after_reservation : Tick → Lease → String → Result Error (String × Bool) → TickEnd
after_reservation tick lease exec_id (err e) =
    if is_done tick.at_reservation.0 then returned else skipped lease (reserve_error e)
after_reservation tick lease exec_id (ok (owner, false)) = skipped lease duplicate_fire
after_reservation tick lease exec_id (ok (owner, true)) =
    if tick.worker_free then fired lease exec_id (stamp_of tick lease) else returned

module _ (format : ℕ → String) where
  abbrev pub reserve_tick : Tick → Lease → String → MemoryStore → TickEnd × MemoryStore
  reserve_tick tick lease exec_id s =
      let (answer, t) =
        reserve_idempotency tick.at_reservation.0
          (cron_fire_key format tick.lease_name tick.scheduled_at) exec_id tick.at_reservation.1
          s in
      (after_reservation tick lease exec_id answer, t)

  abbrev pub with_session : Tick → Lease → Option String → MemoryStore → TickEnd × MemoryStore
  with_session tick lease none s = (no_session lease, s)
  with_session tick lease (some exec_id) s = reserve_tick tick lease exec_id s

  abbrev pub after_renewal :
      Tick → Result Error (Lease × Bool) × MemoryStore → TickEnd × MemoryStore
  after_renewal tick (ok (renewed, true), s) = with_session tick renewed tick.session s
  after_renewal tick (ok (renewed, false), s) =
      (if is_done tick.at_renewal.0 then returned else lost, s)
  after_renewal tick (err e, s) = (if is_done tick.at_renewal.0 then returned else lost, s)

  -- The timer branch of runCronLeaderLoop.
  unfoldable pub tick_step : Tick → MemoryStore → TickEnd × MemoryStore
  unfolding cron_fire_key
  tick_step tick s = after_renewal tick (
      renew_lease tick.at_renewal.0 tick.lease_name tick.cfg.holder tick.lease.fence tick.cfg.ttl
        tick.at_renewal.1 s)

-- releaseCronLeaseOnShutdown: its context is a fresh one with a deadline.
unfoldable pub release_on_shutdown :
    Context → String → LeaseConfig → Lease → ℕ → MemoryStore → MemoryStore
release_on_shutdown ctx lease_name cfg lease now s =
    (release_lease ctx lease_name cfg.holder lease.fence now s).1

-- One renewal of the background renewer: whether it closes the channel `lost` and ends.
unfoldable pub renewer_step :
    Context → String → LeaseConfig → (fence now : ℕ) → MemoryStore → Bool × MemoryStore
renewer_step ctx lease_name cfg fence now s =
    let (answer, t) = renew_lease ctx lease_name cfg.holder fence cfg.ttl now s in
    (
      elim answer [
        | ok (_, renewed) ↦ not renewed && not (is_done ctx)
        | err _ ↦ not (is_done ctx)
      ],
      t,
    )

-- runtime_idempotency.go, resolveTriggerIdempotency: the keys of an execution that ended, and the two
-- errors that are joined.
unfoldable pub resolve_trigger_idempotency :
    Context
    → (exec_id status : String) → ℕ
    → MemoryStore
    → (Result Error (Unit {0}) × Result Error (Unit {0})) × MemoryStore
resolve_trigger_idempotency ctx exec_id status now s =
    let outcome = if status == "completed" then succeeded else failed in
    let (first, t) = resolve_idempotency_by_execution ctx exec_id "trigger:" outcome now s in
    let (second, u) = resolve_idempotency_by_execution ctx exec_id "cron_fire:" outcome now t in
    ((first, second), u)
