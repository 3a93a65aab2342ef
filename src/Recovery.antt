-- ===== src/Recovery.antt =====
-- durable_recovery.go: what recovery does with an interrupted run whose lease it holds.
pub mod Safety
pub mod Resume
pub mod Abandon
pub mod Scan
pub mod Heartbeat
mod Tests
use ouvrier.Base.{
  ℤ, pos, suc_ℤ, ltb_ℤ, find, ℕ, String, Bool, true, false, not, ◌&&◌, ◌||◌, Option, none, some,
  List, [], ◌∷◌, eq_iff, eq_string, eq_nat, ◌==◌, Result, ok, err, ◌>>=◌, ◌>>◌, if◌then◌else◌,
  nat_eq, any,
}
use ouvrier.State.Types.{
  Error, Context, ExecutionStatus, running, failed, Execution, RunJournal, RunCheckpoint,
  ToolIntent, PendingApproval, MemoryStore,
}
use ouvrier.State.Approvals.{is_pending, approvals_for_execution}
use ouvrier.State.Journal.{list_run_checkpoints, list_tool_intents, prune_run_journal}
use ouvrier.State.Records.{save_execution, find_execution}

-- A compiled plan as recovery reads it: durablePlanKey and durablePlanHash of it, and its terminal.
pub record Plan : Type 0 where
  pub key : String
  pub hash : String
  pub replies : Bool
  pub sse : Bool
  pub async : Bool

-- durablePlanForJournal: a plan with the key and the hash, or else the first with the key.
unfoldable pub durable_plan_for_journal : List Plan → RunJournal → Option Plan
durable_plan_for_journal plans j =
    elim (find (λ p. p.key == j.plan_key && p.hash == j.plan_hash) plans) [
      | some p ↦ some p
      | none ↦ find (λ p. p.key == j.plan_key) plans
    ]

unfoldable pub durable_run_client_gone : Plan → Bool
durable_run_client_gone p = p.replies && (p.sse || not p.async)

pub record ReplayInput : Type 0 where
  pub resume_index : ℤ
  pub input : String
  pub replay_unsafe : Bool

abbrev from_checkpoint : RunCheckpoint → ReplayInput
from_checkpoint c = record {
  resume_index = suc_ℤ c.step_index;
  input = c.output;
  replay_unsafe = c.replay_unsafe;
}

-- durableReplayInput, without the two values that only describe the source in an event.
unfoldable pub durable_replay_input : RunJournal → List RunCheckpoint → ReplayInput
durable_replay_input j [] = record {
  resume_index = pos 0;
  input = j.input;
  replay_unsafe = j.replay_unsafe;
}
durable_replay_input j (c ∷ []) = from_checkpoint c
durable_replay_input j (c ∷ d ∷ cs) = durable_replay_input j (d ∷ cs)

-- The condition under which durableReplayBlockingIntent returns an intent.
unfoldable pub blocks : ℤ → ToolIntent → Bool
blocks resume_index i =
    not (ltb_ℤ i.step_index resume_index)
    && (nat_eq i.completed_at 0 || not (i.effect == "idempotent"))

abbrev pub durable_replay_blocking_intent : List ToolIntent → ℤ → Option ToolIntent
durable_replay_blocking_intent intents resume_index = find (blocks resume_index) intents

pub data Reason : Type 0 where
  plan_missing plan_hash_mismatch client_gone : Reason

-- What recovery decides: to leave the run alone, to abandon it, to fail it and keep its journal, or
-- to replay it.
pub data Verdict : Type 0 where
  leave : Verdict
  abandon : Reason → Verdict
  replay_unsafe : Verdict
  indeterminate : ToolIntent → Verdict
  replay : Plan → ReplayInput → Verdict

abbrev on_intents : Plan → ReplayInput → Result Error (List ToolIntent) → Verdict
on_intents p r (err e) = leave
on_intents p r (ok intents) = elim (durable_replay_blocking_intent intents r.resume_index) [
  | some i ↦ indeterminate i
  | none ↦ replay p r
]

abbrev on_input : Bool → Context → RunJournal → MemoryStore → Plan → ReplayInput → Verdict
on_input force ctx j s p r =
    if r.replay_unsafe
    then replay_unsafe
    else if not force
    then on_intents p r (list_tool_intents ctx j.exec_id s).0
    else replay p r

abbrev on_checkpoints :
    Bool → Context → RunJournal → MemoryStore → Plan → Result Error (List RunCheckpoint) → Verdict
on_checkpoints force ctx j s p (err e) = leave
on_checkpoints force ctx j s p (ok cs) = on_input force ctx j s p (durable_replay_input j cs)

abbrev on_plan : Bool → Context → RunJournal → MemoryStore → Option Plan → Verdict
on_plan force ctx j s none = abandon plan_missing
on_plan force ctx j s (some p) =
    if not (p.hash == j.plan_hash)
    then abandon plan_hash_mismatch
    else if durable_run_client_gone p
    then abandon client_gone
    else on_checkpoints force ctx j s p (list_run_checkpoints ctx j.exec_id s).0

-- durableRunHasPendingApproval; an error counts as pending for its caller.
abbrev pub maybe_pending : Result Error (List PendingApproval) → Bool
maybe_pending (err e) = true
maybe_pending (ok approvals) = any (λ a. is_pending a.status) approvals

-- recoverClaimedDurableRun up to its decision.
unfoldable pub verdict : Bool → Context → List Plan → RunJournal → MemoryStore → Verdict
unfolding durable_plan_for_journal durable_run_client_gone durable_replay_input blocks
verdict force ctx plans j s =
    if maybe_pending (approvals_for_execution ctx j.exec_id s).0
    then leave
    else on_plan force ctx j s (durable_plan_for_journal plans j)

abbrev current : Result Error (Option Execution) → Execution → Execution
current (ok (some e)) given = e
current (ok none) given = given
current (err x) given = given

abbrev pub is_running : ExecutionStatus → Bool
is_running running = true
is_running _ = false

-- failDurableRunExecution
unfoldable pub fail_durable_run_execution : Context → Execution → ℕ → MemoryStore → MemoryStore
fail_durable_run_execution ctx given now s =
    let e = current (find_execution ctx given.exec_id s).0 given in
    if is_running e.status
    then (save_execution ctx (record e { status = failed; completed_at = now }) s).1
    else s

-- What the verdict does to the store before a replay; the events that it emits are left out.
unfoldable pub enact : Context → RunJournal → Execution → ℕ → Verdict → MemoryStore → MemoryStore
unfolding fail_durable_run_execution
enact ctx j e now leave s = s
enact ctx j e now (abandon reason) s =
    (prune_run_journal ctx j.exec_id (fail_durable_run_execution ctx e now s)).1
enact ctx j e now replay_unsafe s = fail_durable_run_execution ctx e now s
enact ctx j e now (indeterminate i) s = fail_durable_run_execution ctx e now s
enact ctx j e now (replay p r) s = s
