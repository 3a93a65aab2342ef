-- ===== src/State/Journal/Tests.antt =====
-- A run that is journalled and pruned, and the theorems of this folder at concrete inputs.
use ouvrier.Base.{
  ◌≡◌, refl, inr, true, false, ◌&&◌, some, List, [], ◌∷◌, arith, eq_iff, eq_string, eq_nat, ◌==◌,
  ok, if◌then◌else◌, lookup, insert, any, trim_space, pos, sort,
}
use ouvrier.Events.Redactor.{Redactor}
use ouvrier.State.Types.{
  check_context, live, completed, Execution, RunJournal, ToolIntent, MemoryStore, new_memory_store,
}
use ouvrier.State.Records.{save_execution}
use ouvrier.State.Journal.{
  save_run_journal, normalize_run_journal, prune_candidates, prunable, prune_run_journals_before,
  begin_args, normalize_tool_intent, complete_args, normalize_journal_key, complete_tool_intent,
  intent_of,
}
use ouvrier.State.Journal.Pruning.{rows_of, no_rows, rows_of-prune_run_journals_before}
use ouvrier.State.Journal.Intents.{Call, begin, complete, run, intent_open_until_completed}

abbrev plain : Redactor
plain = record { redact_text = λ s. s; redact_json_text = λ s. s }

abbrev ended : Execution
ended = record {
  exec_id = "run1";
  trace_id = "";
  status = completed;
  started_at = 1;
  completed_at = 2;
}

abbrev journal_row : RunJournal
journal_row = record {
  exec_id = "run1";
  plan_key = "p";
  plan_hash = "h";
  trigger_kind = "http";
  input = "";
  replay_unsafe = false;
  created_at = 1;
}

abbrev journalled : MemoryStore
journalled =
    (save_run_journal plain live journal_row 1 (save_execution live ended new_memory_store).1).1

is_candidate :
    any (λ i. i == "run1") (prune_candidates 5 journalled) && prunable "run1" journalled ≡ true
unfolding prune_candidates prunable save_run_journal normalize_run_journal save_execution lookup
    insert trim_space sort
is_candidate = refl

rows_of-prune_run_journals_before_example :
    rows_of "run1" (prune_run_journals_before live 5 journalled).1 ≡ (
      if any (λ i. i == "run1") (prune_candidates 5 journalled) && prunable "run1" journalled
      then no_rows
      else rows_of "run1" journalled)
unfolding check_context
rows_of-prune_run_journals_before_example =
    rows_of-prune_run_journals_before live 5 "run1" journalled refl

abbrev intent : ToolIntent
intent = record {
  exec_id = "run1";
  tool_call_id = "call1";
  step_index = pos 0;
  tool_name = "pay";
  effect = "side_effecting";
  idem_key = "k";
  started_at = 3;
  completed_at = 0;
}

abbrev between : List Call
between = complete live "run1" "call2" 4 ∷ []

intent_open_until_completed_example :
    (intent_of "run1" "call1" (run (begin plain live intent 3 ∷ between) journalled) ≡ some intent)
    × ((complete_tool_intent live "run1" "call1" 9
          (run (begin plain live intent 3 ∷ between) journalled)).0
        ≡ ok tt)
    × (intent_of "run1" "call1"
          (complete_tool_intent live "run1" "call1" 9
            (run (begin plain live intent 3 ∷ between) journalled)).1
        ≡ some (record intent { completed_at = 9 }))
unfolding begin_args normalize_tool_intent complete_args normalize_journal_key trim_space
intent_open_until_completed_example =
    intent_open_until_completed plain live live intent intent 3 9 between journalled refl refl
      (inr (ground (arith, eq_iff "call2" "call1")), tt)
