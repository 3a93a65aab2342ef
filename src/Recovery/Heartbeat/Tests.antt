-- ===== src/Recovery/Heartbeat/Tests.antt =====
-- A run whose lease expired and went to another replica, and the theorem of this folder there.
use ouvrier.Base.{
  pos, ◌+◌, ◌<◌, ◌≡◌, ◌≢◌, refl, false, none, List, [], ◌∷◌, arith, eq_string, eq_nat, lookup,
  insert, length, trim_space,
}
use ouvrier.State.Types.{live, check_context, MemoryStore, new_memory_store, uint64_mod}
use ouvrier.State.Leases.{
  acquire_lease, renew_lease, lease_args, normalize_lease_key, validate_lease_ttl, new_lease,
}
use ouvrier.State.Leases.Fencing.{Call, renew, run, fence_of}
use ouvrier.Recovery.Heartbeat.{
  renew as again, canceled, loss_of, held_by, Heartbeat, start_heartbeat, mark_lost,
  execution_error, confirm, stop_and_confirm, tick, release,
}
use ouvrier.Recovery.Heartbeat.Takeover.{taken_over_fails_closed}

abbrev held : MemoryStore
held = (acquire_lease live "run:a" "one" (pos 30) 5 new_memory_store).1

abbrev taken : MemoryStore
taken = (acquire_lease live "run:a" "two" (pos 30) 50 held).1

abbrev beat : Heartbeat
beat = record {
  name = "run:a";
  holder = "one";
  ttl = pos 30;
  lease = new_lease "run:a" "one" 1 5 30;
  cause = none;
  stopped = false;
  loss = none;
}

starts : start_heartbeat "run:a" "one" (pos 30) (new_lease "run:a" "one" 1 5 30) ≡ beat
unfolding start_heartbeat
starts = refl

confirms : (confirm live live beat 20 held).0 ≡ ([], beat)
unfolding confirm execution_error again renew_lease acquire_lease lease_args normalize_lease_key
    validate_lease_ttl check_context lookup insert trim_space
confirms = refl

finds_holder : (confirm live live beat 60 taken).0.0 ≡ canceled ∷ loss_of (held_by "two" 2) ∷ []
unfolding confirm execution_error mark_lost again renew_lease acquire_lease lease_args
    normalize_lease_key validate_lease_ttl check_context lookup insert trim_space
finds_holder = refl

abbrev two_renews : List Call
two_renews = renew live "run:a" "two" 2 (pos 30) 55 ∷ []

fence_behind : beat.lease.fence < fence_of (trim_space "run:a") taken
unfolding acquire_lease lease_args normalize_lease_key validate_lease_ttl check_context lookup
    insert trim_space
fence_behind = omega arith

fence_room : fence_of (trim_space "run:a") taken + length two_renews < uint64_mod
unfolding acquire_lease lease_args normalize_lease_key validate_lease_ttl check_context lookup
    insert trim_space
fence_room = omega arith

taken_over_fails_closed_example :
    ((confirm live live beat 60 (run two_renews taken)).0.0 ≢ [])
    × ((confirm live live beat 60 (run two_renews taken)).1 ≡ run two_renews taken)
    × ((stop_and_confirm live live beat 60 (run two_renews taken)).0.0 ≢ [])
    × ((tick live live beat 60 (run two_renews taken)).1 ≡ run two_renews taken)
    × ((release live beat 60 (run two_renews taken)).1 ≡ run two_renews taken)
taken_over_fails_closed_example =
    taken_over_fails_closed live live beat 60 two_renews taken fence_behind fence_room
