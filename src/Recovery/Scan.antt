-- ===== src/Recovery/Scan.antt =====
-- durable_recovery.go (recoverDurableRunsScan): a scan of the journal that claims interrupted runs by
-- their leases. The pool's workers and the clock are the turn's; the replays are not modelled.
pub mod Live
mod Tests
use mathlib.Core.Path.{subst}
use ouvrier.Base.{
  if_true, if_false, ◌∙◌, suc, zero, ℤ, pos, negsuc, if-keeps, ℕ, ◌+◌, ◌-◌, ◌%◌, ◌≤◌, ◌<◌, String,
  ◌≡◌, ◌≢◌, ◌↔◌, ◌⊎◌, refl, sym, ap, inl, inr, Bool, true, false, not, ◌&&◌, ◌||◌, Option, none,
  some, List, [], ◌∷◌, arith, eq_iff, eq_string, eq_nat, ◌==◌, ==-self, Result, ok, err, ◌>>=◌,
  ◌>>◌, if◌then◌else◌, ltb, leb, nat_eq, Bool-cases, Option-cases, Result-cases, Map, empty_map,
  values, lookup, insert, delete, lookup-insert, lookup-insert_self, lookup-delete, All, All-append,
  filter, map, all, any, length, trim_space,
}
use Prim.Native.String.{◌++◌}
use ouvrier.State.Types.{Error, Context, Lease, Execution, RunJournal, PendingApproval, MemoryStore}
use ouvrier.State.Approvals.{is_pending, approvals_for_execution}
use ouvrier.State.Journal.{list_run_journals}
use ouvrier.State.Leases.{acquire_lease}
use ouvrier.State.Records.{find_execution}
use ouvrier.Cron.{LeaseConfig, is_done}
use ouvrier.Recovery.{is_running}
use Prim.Native.String.{String}
use ouvrier.Recovery.{Bool, List, Result, if◌then◌else◌}
use ouvrier.Recovery.{Option, ℕ}
use Prim.Native.String.{[], ◌∷◌}

unfoldable pub durable_run_lease_name : String → String
durable_run_lease_name exec_id = "run:" ++ exec_id

abbrev on_approvals :
    Execution → Result Error (List PendingApproval) → Result Error (Option Execution)
on_approvals e (err x) = err x
on_approvals e (ok approvals) =
    ok (if any (λ a. is_pending a.status) approvals then none else some e)

abbrev on_execution :
    Context
    → String
    → MemoryStore
    → Result Error (Option Execution)
    → Result Error (Option Execution)
on_execution ctx exec_id s (err x) = err x
on_execution ctx exec_id s (ok none) = ok none
on_execution ctx exec_id s (ok (some e)) =
    if is_running e.status
    then on_approvals e (approvals_for_execution ctx exec_id s).0
    else ok none

-- durableRunClaimable: the execution of a run that may be claimed. The context may end between its
-- two queries.
unfoldable pub durable_run_claimable :
    Context → Context → RunJournal → MemoryStore → Result Error (Option Execution)
durable_run_claimable ctx ctx' j s =
    on_execution ctx' j.exec_id s (find_execution ctx j.exec_id s).0

-- What a row of the scan meets: what the others, the scan's own replays among them, have done to the
-- store since the row before, the context at the row's check and its queries, whether the pool
-- gives a worker, and the context and the clock at the acquisition.
pub record Turn : Type 0 where
  pub meanwhile : MemoryStore → MemoryStore
  pub at_check : Context
  pub at_execution : Context
  pub at_approvals : Context
  pub worker_free : Bool
  pub at_acquire : Context × ℕ

-- A run that the scan hands to a worker, with the lease that it holds for it.
pub record Claim : Type 0 where
  pub journal : RunJournal
  pub execution : Execution
  pub lease : Lease

-- How a row ends: the scan returns, or goes on without or with a claim.
pub data RowEnd : Type 0 where
  returned : RowEnd
  passed : RowEnd
  claimed : Claim → RowEnd

abbrev pub on_acquire : RunJournal → Execution → Result Error (Lease × Bool) → RowEnd
on_acquire j e (ok (lease, true)) = claimed (record { journal = j; execution = e; lease = lease })
on_acquire j e (ok (lease, false)) = passed
on_acquire j e (err x) = passed

abbrev pub acquire_run :
    LeaseConfig → Turn → RunJournal → Execution → MemoryStore → RowEnd × MemoryStore
acquire_run cfg turn j e s =
    let (answer, t) =
      acquire_lease turn.at_acquire.0 (durable_run_lease_name j.exec_id) cfg.holder cfg.ttl
        turn.at_acquire.1 s in
    (on_acquire j e answer, t)

abbrev pub on_claimable :
    LeaseConfig
    → Turn
    → RunJournal
    → MemoryStore
    → Result Error (Option Execution)
    → RowEnd × MemoryStore
on_claimable cfg turn j s (err x) = (passed, s)
on_claimable cfg turn j s (ok none) = (passed, s)
on_claimable cfg turn j s (ok (some e)) =
    if turn.worker_free then acquire_run cfg turn j e s else (returned, s)

-- The body of the scan's loop.
unfoldable pub scan_row : LeaseConfig → Turn → RunJournal → MemoryStore → RowEnd × MemoryStore
unfolding durable_run_claimable durable_run_lease_name
scan_row cfg turn j s =
    if is_done turn.at_check
    then (returned, s)
    else on_claimable cfg turn j s (durable_run_claimable turn.at_execution turn.at_approvals j s)

module _ (cfg : LeaseConfig) (turns : RunJournal → Turn) where
  abbrev pub with_rest :
      RowEnd × MemoryStore → (MemoryStore → List Claim × MemoryStore) → List Claim × MemoryStore
  with_rest (returned, s) rest = ([], s)
  with_rest (passed, s) rest = rest s
  with_rest (claimed c, s) rest = (c ∷ (rest s).0, (rest s).1)

  unfoldable pub scan_rows : List RunJournal → MemoryStore → List Claim × MemoryStore
  scan_rows [] s = ([], s)
  scan_rows (j ∷ js) s = with_rest (scan_row cfg (turns j) j ((turns j).meanwhile s)) (scan_rows js)

  abbrev on_journals : MemoryStore → Result Error (List RunJournal) → List Claim × MemoryStore
  on_journals s (err x) = ([], s)
  on_journals s (ok js) = scan_rows js s

  -- recoverDurableRunsScan, without the first cycle's synchronization of the event stream.
  unfoldable pub recover_durable_runs_scan : Context → MemoryStore → List Claim × MemoryStore
  unfolding scan_row scan_rows
  recover_durable_runs_scan ctx s = on_journals s (list_run_journals ctx s).0
