-- ===== src/Cron/Once.antt =====
-- A tick fires once: the reservation of its key outlives the lease under which it was made.
use mathlib.Core.Path.{subst}
use ouvrier.Base.{
  if-keeps, ℕ, String, ◌≡◌, ◌≢◌, refl, sym, ap, inl, inr, Bool, true, false, Option, none, some,
  List, [], ◌∷◌, eq_string, eq_nat, Result, ok, err, Result-cases, All,
}
use ouvrier.State.Types.{Error, Context, Lease, MemoryStore}
use ouvrier.State.Leases.{acquire_lease, renew_lease, release_lease}
use ouvrier.State.Leases.Frame.{
  acquire_lease-SameReservations, renew_lease-SameReservations, release_lease-SameReservations,
}
use ouvrier.State.Idempotency.{reserve_args, reserve_idempotency, fresh_record}
use ouvrier.State.Idempotency.Calls.{Call, reserve, step}
use ouvrier.State.Idempotency.History.{refused, granted_record}
use ouvrier.Cron.{
  LeaseConfig, Tick, is_fired, cron_fire_key, follow, after_reservation, after_renewal,
  reserve_tick, with_session, tick_step, release_on_shutdown, renewer_step,
}
use ouvrier.Cron.{is_done}
use ouvrier.Cron.Owner.{IsHarmlessCall, IsOwned, moved_owner, settle_keeps}

-- One step of one replica, or a call on the reservations.
pub data Action : Type 0 where
  follows : Context → (lease_name : String) → LeaseConfig → (now : ℕ) → Action
  renews : Context → (lease_name : String) → LeaseConfig → (fence now : ℕ) → Action
  ticks : Tick → Action
  resigns : Context → (lease_name : String) → LeaseConfig → Lease → (now : ℕ) → Action
  settles : Call → Action

-- The action is not one that resolves a key of the execution `owner` as failed.
abbrev pub IsHarmless : String → Action → Type 0
IsHarmless owner (settles c) = IsHarmlessCall owner c
IsHarmless owner _ = Unit {0}

module _ (format : ℕ → String) where
  unfoldable pub act : Action → MemoryStore → MemoryStore
  act (follows ctx lease_name cfg now) s = (follow ctx lease_name cfg now s).1
  act (renews ctx lease_name cfg fence now) s = (renewer_step ctx lease_name cfg fence now s).1
  act (ticks tick) s = (tick_step format tick s).1
  act (resigns ctx lease_name cfg lease now) s = release_on_shutdown ctx lease_name cfg lease now s
  act (settles c) s = step c s

  unfoldable pub act_all : List Action → MemoryStore → MemoryStore
  act_all [] s = s
  act_all (a ∷ more) s = act_all more (act a s)

  abbrev pub tick_key : Tick → String
  tick_key tick = cron_fire_key format tick.lease_name tick.scheduled_at

  module _ (tick : Tick) where
    abbrev renewal : MemoryStore → Result Error (Lease × Bool) × MemoryStore
    renewal s =
        renew_lease tick.at_renewal.0 tick.lease_name tick.cfg.holder tick.lease.fence tick.cfg.ttl
          tick.at_renewal.1 s

    renewal_keeps :
        (key owner : String) (s : MemoryStore)
        → IsOwned key owner s
        → IsOwned key owner (renewal s).1
    renewal_keeps key owner s = moved_owner key owner s (renewal s).1 (
        renew_lease-SameReservations tick.at_renewal.0 tick.lease_name tick.cfg.holder
          tick.lease.fence tick.cfg.ttl tick.at_renewal.1 s)

    reserve_tick_keeps :
        (key owner : String) (lease : Lease) (e : String) (s : MemoryStore)
        → IsOwned key owner s
        → IsOwned key owner (reserve_tick format tick lease e s).1
    unfolding step
    reserve_tick_keeps key owner lease e s h =
        settle_keeps key owner
          (reserve tick.at_reservation.0 (tick_key tick) e tick.at_reservation.1) s tt h

    after_renewal_keeps :
        (key owner : String) (x : Result Error (Lease × Bool) × MemoryStore)
        → IsOwned key owner x.1
        → IsOwned key owner (after_renewal format tick x).1
    after_renewal_keeps key owner (ok (lease, true), s) h = session_keeps tick.session
      where
        session_keeps :
            (o : Option String) → IsOwned key owner (with_session format tick lease o s).1
        session_keeps none = h
        session_keeps (some e) = reserve_tick_keeps key owner lease e s h
    after_renewal_keeps key owner (ok (lease, false), s) h = h
    after_renewal_keeps key owner (err e, s) h = h

    tick_keeps :
        (key owner : String) (s : MemoryStore)
        → IsOwned key owner s
        → IsOwned key owner (tick_step format tick s).1
    unfolding tick_step
    tick_keeps key owner s h =
        after_renewal_keeps key owner (renewal s) (renewal_keeps key owner s h)

    -- A tick fires only if its reservation is granted.
    after_reservation_fired :
        (lease : Lease) (e : String) (answer : Result Error (String × Bool))
        → is_fired (after_reservation tick lease e answer) ≡ true
        → (o : String) × (answer ≡ ok (o, true))
    after_reservation_fired lease e (err x) h =
        absurd
          (if-keeps (λ r. is_fired r ≢ true) (is_done tick.at_reservation.0) (λ k. cc) (λ k. cc) h)
    after_reservation_fired lease e (ok (o, false)) h = absurd (cc)
    after_reservation_fired lease e (ok (o, true)) h = (o, refl)

    reserve_tick-IsOwned :
        (lease : Lease) (e o : String) (s : MemoryStore)
        → (reserve_idempotency tick.at_reservation.0 (tick_key tick) e tick.at_reservation.1 s).0
          ≡ ok (o, true)
        → IsOwned (tick_key tick) e (reserve_tick format tick lease e s).1
    reserve_tick-IsOwned lease e o s h =
        let t =
          (reserve_idempotency tick.at_reservation.0 (tick_key tick) e tick.at_reservation.1 s).1 in
        (
          fresh_record (tick_key tick) e tick.at_reservation.1,
          granted_record tick.at_reservation.0 (tick_key tick) e tick.at_reservation.1 s t o
              (ap (λ a. (a, t)) h),
          refl,
          refl,
        )

    after_renewal_fired :
        (e : String) (x : Result Error (Lease × Bool) × MemoryStore)
        → tick.session ≡ some e
        → is_fired (after_renewal format tick x).0 ≡ true
        → IsOwned (tick_key tick) e (after_renewal format tick x).1
    after_renewal_fired e (ok (lease, true), s) session h =
        subst (λ o. IsOwned (tick_key tick) e (with_session format tick lease o s).1) (sym session)
          (reserve_tick-IsOwned lease e granted.0 s granted.1)
      where
        granted :
            (o : String) × ((reserve_idempotency tick.at_reservation.0
                (tick_key tick)
                e
                tick.at_reservation.1
                s).0
              ≡ ok (o, true))
        granted =
            after_reservation_fired lease e _
              (subst (λ o. is_fired (with_session format tick lease o s).0 ≡ true) session h)
    after_renewal_fired e (ok (lease, false), s) session h =
        absurd (if-keeps (λ r. is_fired r ≢ true) (is_done tick.at_renewal.0) (λ k. cc) (λ k. cc) h)
    after_renewal_fired e (err x, s) session h =
        absurd (if-keeps (λ r. is_fired r ≢ true) (is_done tick.at_renewal.0) (λ k. cc) (λ k. cc) h)

    tick_fired :
        (e : String) (s : MemoryStore)
        → tick.session ≡ some e
        → is_fired (tick_step format tick s).0 ≡ true
        → IsOwned (tick_key tick) e (tick_step format tick s).1
    unfolding tick_step
    tick_fired e s session h = after_renewal_fired e (renewal s) session h

    -- A key that has an owner is not granted again.
    not_granted :
        (owner e o : String) (s : MemoryStore)
        → IsOwned (tick_key tick) owner s
        → (reserve_idempotency tick.at_reservation.0 (tick_key tick) e tick.at_reservation.1 s).0
          ≢ ok (o, true)
    unfolding reserve_idempotency
    not_granted owner e o s (r, held, own, alive) h =
        elim (Result-cases (reserve_args tick.at_reservation.0 (tick_key tick) e)) [
          | inl (x, bad) ↦ cc (rw bad at h)
          | inr (u, good) ↦
              let again =
                refused tick.at_reservation.0 (tick_key tick) e tick.at_reservation.1 r s held alive
                  good in
              cc (ap (λ x. x.0) again, h)
        ]

    session_refuses :
        (owner : String) (lease : Lease) (o : Option String) (s : MemoryStore)
        → IsOwned (tick_key tick) owner s
        → is_fired (with_session format tick lease o s).0 ≢ true
    session_refuses owner lease none s owned h = cc
    session_refuses owner lease (some e) s owned h =
        let (o, granted) = after_reservation_fired lease e _ h in
        not_granted owner e o s owned granted

    after_renewal_refuses :
        (owner : String) (x : Result Error (Lease × Bool) × MemoryStore)
        → IsOwned (tick_key tick) owner x.1
        → is_fired (after_renewal format tick x).0 ≢ true
    after_renewal_refuses owner (ok (lease, true), s) owned =
        session_refuses owner lease tick.session s owned
    after_renewal_refuses owner (ok (lease, false), s) owned =
        if-keeps (λ r. is_fired r ≢ true) (is_done tick.at_renewal.0) (λ k. cc) (λ k. cc)
    after_renewal_refuses owner (err x, s) owned =
        if-keeps (λ r. is_fired r ≢ true) (is_done tick.at_renewal.0) (λ k. cc) (λ k. cc)

    tick_refuses :
        (owner : String) (s : MemoryStore)
        → IsOwned (tick_key tick) owner s
        → is_fired (tick_step format tick s).0 ≢ true
    unfolding tick_step
    tick_refuses owner s owned =
        after_renewal_refuses owner (renewal s) (renewal_keeps (tick_key tick) owner s owned)

  act_keeps :
      (key owner : String) (a : Action) (s : MemoryStore)
      → IsHarmless owner a
      → IsOwned key owner s
      → IsOwned key owner (act a s)
  unfolding act follow renewer_step release_on_shutdown
  act_keeps key owner (follows ctx name cfg now) s harmless h =
      moved_owner key owner s (acquire_lease ctx name cfg.holder cfg.ttl now s).1
        (acquire_lease-SameReservations ctx name cfg.holder cfg.ttl now s) h
  act_keeps key owner (renews ctx name cfg fence now) s harmless h =
      moved_owner key owner s (renew_lease ctx name cfg.holder fence cfg.ttl now s).1
        (renew_lease-SameReservations ctx name cfg.holder fence cfg.ttl now s) h
  act_keeps key owner (ticks tick) s harmless h = tick_keeps tick key owner s h
  act_keeps key owner (resigns ctx name cfg lease now) s harmless h =
      moved_owner key owner s (release_lease ctx name cfg.holder lease.fence now s).1
        (release_lease-SameReservations ctx name cfg.holder lease.fence now s) h
  act_keeps key owner (settles c) s harmless h = settle_keeps key owner c s harmless h

  act_all_keeps :
      (key owner : String) (more : List Action) (s : MemoryStore)
      → All (IsHarmless owner) more
      → IsOwned key owner s
      → IsOwned key owner (act_all more s)
  unfolding act_all
  act_all_keeps key owner [] s harmless h = h
  act_all_keeps key owner (a ∷ more) s harmless h =
      act_all_keeps key owner more (act a s) harmless.1 (act_keeps key owner a s harmless.0 h)

  -- Once a replica has fired a tick, no replica fires a tick of the same key again: after any
  -- interleaving of the replicas' turns, renewals, ticks, releases and resolutions of keys, whoever
  -- leads by then and with whatever clocks, unless the execution of the first fire is resolved as
  -- failed in between.
  pub fired_once :
      (first second : Tick) (e : String) (more : List Action) (s : MemoryStore)
      → first.session ≡ some e
      → is_fired (tick_step format first s).0 ≡ true
      → tick_key second ≡ tick_key first
      → All (IsHarmless e) more
      → is_fired (tick_step format second (act_all more (tick_step format first s).1)).0 ≢ true
  fired_once first second e more s session fires same harmless =
      tick_refuses second e (act_all more (tick_step format first s).1) (
        subst (λ k. IsOwned k e (act_all more (tick_step format first s).1)) (sym same)
          (act_all_keeps (tick_key first) e more (tick_step format first s).1 harmless
            (tick_fired first e s session fires)))
