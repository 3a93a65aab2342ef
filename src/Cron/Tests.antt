-- ===== src/Cron/Tests.antt =====
-- Two replicas and one tick, and the theorems of this folder at concrete inputs.
use ouvrier.Base.{
  pos, negsuc, ℕ, ◌+◌, String, ◌≡◌, ◌≢◌, refl, inr, true, some, List, [], ◌∷◌, arith, eq_string,
  eq_nat, lookup, insert, trim_space,
}
use ouvrier.State.Types.{live, Lease, MemoryStore, new_memory_store, succeeded, check_context}
use ouvrier.State.Leases.{
  acquire_lease, renew_lease, normalize_lease_key, validate_lease_ttl, lease_args,
}
use ouvrier.State.Idempotency.{reserve_idempotency, reserve_args}
use ouvrier.State.Idempotency.Calls.{resolve_all}
use ouvrier.Cron.{LeaseConfig, Tick, is_fired, cron_fire_key, tick_step}
use ouvrier.Cron.Schedule.{IsNextMultiple, next_tick, slot_of, next_tick-IsNextMultiple}
use ouvrier.Cron.Once.{Action, follows, resigns, settles, act_all, fired_once}

-- Every instant has the same text, so that all ticks of a lease share their key.
abbrev blank : ℕ → String
blank n = "t"

abbrev replica : String → LeaseConfig
replica holder = record { holder = holder; ttl = pos 30 }

abbrev led : String → ℕ → ℕ → Lease
led holder fence now = record {
  name = "cron:a:0";
  holder = holder;
  fence = fence;
  acquired_at = now;
  renewed_at = now;
  expires_at = now + 30;
}

abbrev tick_of : String → Lease → String → ℕ → Tick
tick_of holder lease exec_id now = record {
  lease_name = "cron:a:0";
  cfg = replica holder;
  lease = lease;
  scheduled_at = 10;
  at_renewal = (live, now);
  at_reservation = (live, now);
  session = some exec_id;
  worker_free = true;
}

abbrev led_store : MemoryStore
led_store = (acquire_lease live "cron:a:0" "one" (pos 30) 5 new_memory_store).1

fires : is_fired (tick_step blank (tick_of "one" (led "one" 1 5) "run1" 10) led_store).0 ≡ true
unfolding tick_step acquire_lease renew_lease lease_args normalize_lease_key validate_lease_ttl
    check_context reserve_idempotency reserve_args lookup insert trim_space cron_fire_key
fires = refl

abbrev handover : List Action
handover =
    resigns live "cron:a:0" (replica "one") (led "one" 1 10) 11
    ∷ follows live "cron:a:0" (replica "two") 12
    ∷ settles (resolve_all live "run1" "cron_fire:" succeeded 13)
    ∷ []

fired_once_example :
    is_fired
      (tick_step blank (tick_of "two" (led "two" 2 12) "run2" 14) (
        act_all blank handover
          (tick_step blank (tick_of "one" (led "one" 1 5) "run1" 10) led_store).1)).0
    ≢ true
fired_once_example =
    fired_once blank (tick_of "one" (led "one" 1 5) "run1" 10)
      (tick_of "two" (led "two" 2 12) "run2" 14) "run1" handover led_store refl fires refl
      (tt, (tt, (inr refl, tt)))

before_epoch : next_tick 10 (negsuc 4) ≡ pos 0
unfolding next_tick slot_of
before_epoch = refl

next_tick-IsNextMultiple_example : IsNextMultiple 10 (negsuc 4) (next_tick 10 (negsuc 4))
next_tick-IsNextMultiple_example =
    next_tick-IsNextMultiple 10 (negsuc 4) (omega arith) (omega arith)
