-- ===== src/Recovery/Tests.antt =====
-- The recovery of a run with one checkpoint, and the theorems of this folder at concrete inputs.
use ouvrier.Base.{
  ◌≡◌, refl, true, false, [], ◌∷◌, eq_string, eq_nat, ok, lookup, insert, All, trim_space, pos,
  sort, ltb_ℤ, some,
}
use ouvrier.Events.Redactor.{Redactor}
use ouvrier.State.Types.{
  live, check_context, RunJournal, RunCheckpoint, MemoryStore, new_memory_store, running, Execution,
}
use ouvrier.State.Approvals.{approvals_for_execution}
use ouvrier.State.Journal.{
  save_run_checkpoint, normalize_run_checkpoint, list_run_checkpoints, checkpoints_locked,
  list_tool_intents, save_run_journal, normalize_run_journal,
}
use ouvrier.Recovery.{
  Plan, ReplayInput, replay, verdict, durable_replay_input, blocks, durable_plan_for_journal,
  durable_run_client_gone, abandon, plan_missing, enact,
}
use ouvrier.Recovery.Safety.{IsSafe, replay-IsSafe}
use ouvrier.State.Records.{save_execution}
use ouvrier.State.Journal.Pruning.{rows_of, no_rows}
use ouvrier.Recovery.Abandon.{ended_at, abandoned_run_ends}
use ouvrier.Recovery.Resume.{resume_above_checkpoints}

abbrev plain : Redactor
plain = record { redact_text = λ s. s; redact_json_text = λ s. s }

abbrev nightly : Plan
nightly = record { key = "nightly"; hash = "h1"; replies = false; sse = false; async = false }

abbrev row : RunJournal
row = record {
  exec_id = "run1";
  plan_key = "nightly";
  plan_hash = "h1";
  trigger_kind = "cron";
  input = "start";
  replay_unsafe = false;
  created_at = 1;
}

abbrev first_step : RunCheckpoint
first_step = record {
  exec_id = "run1";
  step_index = pos 0;
  output = "half";
  replay_unsafe = false;
  completed_at = 2;
}

abbrev interrupted : MemoryStore
interrupted = (save_run_checkpoint plain live first_step 2 new_memory_store).1

abbrev half : ReplayInput
half = record { resume_index = pos 1; input = "half"; replay_unsafe = false }

resumes : verdict false live (nightly ∷ []) row interrupted ≡ replay nightly half
unfolding verdict approvals_for_execution list_run_checkpoints checkpoints_locked list_tool_intents
    save_run_checkpoint normalize_run_checkpoint durable_plan_for_journal durable_run_client_gone
    durable_replay_input blocks check_context lookup insert trim_space sort
resumes = refl

replay-IsSafe_example : IsSafe live row interrupted nightly half
replay-IsSafe_example = replay-IsSafe live (nightly ∷ []) row interrupted nightly half resumes

listed : (list_run_checkpoints live "run1" interrupted).0 ≡ ok (first_step ∷ [])
unfolding list_run_checkpoints checkpoints_locked save_run_checkpoint normalize_run_checkpoint
    check_context lookup insert trim_space sort
listed = refl

resume_above_checkpoints_example :
    All
      (λ c. ltb_ℤ c.step_index (durable_replay_input row (first_step ∷ [])).resume_index ≡ true)
      (first_step ∷ [])
resume_above_checkpoints_example =
    resume_above_checkpoints live "run1" row interrupted (first_step ∷ []) listed

abbrev begun : Execution
begun = record {
  exec_id = "run1";
  trace_id = "";
  status = running;
  started_at = 1;
  completed_at = 0;
}

abbrev journalled : MemoryStore
journalled = (save_run_journal plain live row 1 (save_execution live begun interrupted).1).1

abandoned_run_ends_example :
    (lookup "run1" (enact live row begun 9 (abandon plan_missing) journalled).executions
      ≡ some (ended_at 9 begun))
    × (rows_of "run1" (enact live row begun 9 (abandon plan_missing) journalled) ≡ no_rows)
unfolding save_execution save_run_journal normalize_run_journal save_run_checkpoint
    normalize_run_checkpoint check_context lookup insert trim_space
abandoned_run_ends_example =
    abandoned_run_ends live plan_missing begun row 9 journalled refl refl refl refl refl refl refl
      refl
