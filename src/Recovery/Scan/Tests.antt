-- ===== src/Recovery/Scan/Tests.antt =====
-- A scan of two interrupted runs, one of them led by a live replica, and the theorem of this folder
-- at that input.
use ouvrier.Base.{
  str_ltb, pos, String, ◌≡◌, refl, true, false, [], ◌∷◌, arith, eq_string, eq_nat, lookup, insert,
  All, trim_space,
}
use ouvrier.Events.Redactor.{Redactor}
use ouvrier.State.Types.{
  live, check_context, Lease, Execution, running, RunJournal, MemoryStore, new_memory_store,
}
use ouvrier.State.Leases.{
  acquire_lease, lease_args, normalize_lease_key, validate_lease_ttl, new_lease,
}
use ouvrier.State.Records.{save_execution, find_execution}
use ouvrier.State.Approvals.{approvals_for_execution}
use ouvrier.State.Journal.{save_run_journal, normalize_run_journal, list_run_journals}
use ouvrier.Cron.{LeaseConfig}
use ouvrier.Recovery.Scan.{
  durable_run_lease_name, durable_run_claimable, Turn, scan_row, scan_rows,
  recover_durable_runs_scan,
}
use ouvrier.Recovery.Scan.Live.{IsHeld, IsElsewhere, live_run_not_claimed}
use ouvrier.Base.{sort}

abbrev plain : Redactor
plain = record { redact_text = λ s. s; redact_json_text = λ s. s }

abbrev row : String → RunJournal
row exec_id = record {
  exec_id = exec_id;
  plan_key = "nightly";
  plan_hash = "h1";
  trigger_kind = "cron";
  input = "start";
  replay_unsafe = false;
  created_at = 1;
}

abbrev begun : String → Execution
begun exec_id = record {
  exec_id = exec_id;
  trace_id = "";
  status = running;
  started_at = 1;
  completed_at = 0;
}

abbrev with_run : String → MemoryStore → MemoryStore
with_run exec_id s =
    (save_run_journal plain live (row exec_id) 1 (save_execution live (begun exec_id) s).1).1

abbrev held_run : Lease
held_run = new_lease "run:a" "one" 1 5 30

abbrev two_runs : MemoryStore
two_runs =
    (acquire_lease live "run:a" "one" (pos 30) 5 (with_run "b" (with_run "a" new_memory_store))).1

abbrev replica : LeaseConfig
replica = record { holder = "two"; ttl = pos 30 }

abbrev turn_at : RunJournal → Turn
turn_at j = record {
  meanwhile = λ s. s;
  at_check = live;
  at_execution = live;
  at_approvals = live;
  worker_free = true;
  at_acquire = (live, 20);
}

claims_orphan :
    (recover_durable_runs_scan replica turn_at live two_runs).0
    ≡ record { journal = row "b"; execution = begun "b"; lease = new_lease "run:b" "two" 1 20 30 }
      ∷ []
unfolding recover_durable_runs_scan scan_rows scan_row durable_run_claimable durable_run_lease_name
    list_run_journals find_execution approvals_for_execution save_run_journal normalize_run_journal
    save_execution acquire_lease lease_args normalize_lease_key validate_lease_ttl check_context
    lookup insert trim_space sort str_ltb
claims_orphan = refl

two_runs-IsHeld : IsHeld held_run two_runs
unfolding acquire_lease lease_args normalize_lease_key validate_lease_ttl save_run_journal
    normalize_run_journal save_execution check_context lookup insert trim_space
two_runs-IsHeld = refl

live_run_not_claimed_example :
    All (IsElsewhere held_run) (recover_durable_runs_scan replica turn_at live two_runs).0
    × IsHeld held_run (recover_durable_runs_scan replica turn_at live two_runs).1
live_run_not_claimed_example =
    live_run_not_claimed held_run replica turn_at live two_runs two_runs-IsHeld
      (λ j. ((λ s held. held), omega arith))
