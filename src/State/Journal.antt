-- ===== src/State/Journal.antt =====
-- internal/state/journal.go and memory_journal.go: the journal, checkpoints and tool intents of
-- durable runs, and their pruning.
pub mod Pruning
pub mod Intents
pub mod Replay
mod Tests
use ouvrier.Base.{
  ◌>>◌, ℕ, String, Bool, true, false, not, ◌&&◌, ◌||◌, Option, none, some, List, [], ◌∷◌, ◌++◌, ℤ,
  pos, negsuc, Map, empty_map, Result, ok, err, ◌==◌, eq_string, eq_int, if◌then◌else◌, ltb, nat_eq,
  ltb_ℤ, earlier, str_ltb, filter, any, map, lookup, insert, delete, values, sort, trim_space,
}
use ouvrier.Events.Redactor.{Redactor}
use ouvrier.State.Types.{
  Error, journal_execution_required, checkpoint_execution_required, checkpoint_index_negative,
  intent_execution_required, intent_call_required, intent_tool_required, intent_index_negative,
  intent_not_found, Context, check_context, ExecutionStatus, completed, failed, truncated,
  RunJournal, RunCheckpoint, ToolIntent, MemoryStore, Exec, checked,
}
use ouvrier.State.Approvals.{is_pending}

-- terminalExecutionStatus
abbrev pub terminal_execution_status : ExecutionStatus → Bool
terminal_execution_status completed = true
terminal_execution_status failed = true
terminal_execution_status truncated = true
terminal_execution_status _ = false

abbrev pub or_now : ℕ → ℕ → ℕ
or_now at now = if nat_eq at 0 then now else at

abbrev is_negative : ℤ → Bool
is_negative (pos n) = false
is_negative (negsuc n) = true

unfoldable pub normalize_run_journal : Redactor → ℕ → RunJournal → Result Error RunJournal
normalize_run_journal redactor now j =
    if trim_space j.exec_id == ""
    then err journal_execution_required
    else (let redacted = redactor.redact_json_text j.input in
        ok (record j {
          exec_id = trim_space j.exec_id;
          plan_key = trim_space j.plan_key;
          plan_hash = trim_space j.plan_hash;
          trigger_kind = trim_space j.trigger_kind;
          input = redacted;
          replay_unsafe = j.replay_unsafe || not (redacted == j.input);
          created_at = or_now j.created_at now;
        }))

unfoldable pub normalize_run_checkpoint : Redactor → ℕ → RunCheckpoint → Result Error RunCheckpoint
normalize_run_checkpoint redactor now c =
    if trim_space c.exec_id == ""
    then err checkpoint_execution_required
    else if is_negative c.step_index
    then err checkpoint_index_negative
    else (let redacted = redactor.redact_json_text c.output in
        ok (record c {
          exec_id = trim_space c.exec_id;
          output = redacted;
          replay_unsafe = c.replay_unsafe || not (redacted == c.output);
          completed_at = or_now c.completed_at now;
        }))

unfoldable pub normalize_tool_intent : Redactor → ℕ → ToolIntent → Result Error ToolIntent
normalize_tool_intent redactor now i =
    if trim_space i.exec_id == ""
    then err intent_execution_required
    else if trim_space i.tool_call_id == ""
    then err intent_call_required
    else if trim_space i.tool_name == ""
    then err intent_tool_required
    else if is_negative i.step_index
    then err intent_index_negative
    else ok (record i {
      exec_id = trim_space i.exec_id;
      tool_call_id = trim_space i.tool_call_id;
      tool_name = trim_space i.tool_name;
      effect = trim_space i.effect;
      idem_key = redactor.redact_text (trim_space i.idem_key);
      started_at = or_now i.started_at now;
    })

unfoldable pub normalize_journal_key : String → String → Result Error (String × String)
normalize_journal_key exec_id tool_call_id =
    if trim_space exec_id == ""
    then err intent_execution_required
    else if trim_space tool_call_id == ""
    then err intent_call_required
    else ok (trim_space exec_id, trim_space tool_call_id)

unfoldable pub save_run_journal : Redactor → Context → RunJournal → ℕ → Exec (Unit {0})
unfolding check_context normalize_run_journal
save_run_journal redactor ctx journal now =
    checked (do check_context ctx; normalize_run_journal redactor now journal)
      (λ j s. (ok tt, record s { run_journals = insert j.exec_id j s.run_journals }))

-- RunJournal
unfoldable pub find_run_journal : Context → String → Exec (Option RunJournal)
unfolding check_context
find_run_journal ctx exec_id =
    checked (check_context ctx) (λ _ s. (ok (lookup (trim_space exec_id) s.run_journals), s))

unfoldable pub list_run_journals : Context → Exec (List RunJournal)
unfolding check_context earlier
list_run_journals ctx = checked (check_context ctx) (λ _ s. (
  ok (sort (λ a b. earlier a.created_at a.exec_id b.created_at b.exec_id) (values s.run_journals)),
  s,
))

-- The inner map of a key; a missing one reads as an empty map, and a write makes it.
abbrev pub bucket_of {ℓ κ} : {K : Type ℓ} {V : Type κ} → Option (Map K V) → Map K V
bucket_of none = empty_map
bucket_of (some bucket) = bucket

unfoldable pub save_run_checkpoint : Redactor → Context → RunCheckpoint → ℕ → Exec (Unit {0})
unfolding check_context normalize_run_checkpoint
save_run_checkpoint redactor ctx checkpoint now =
    checked (do check_context ctx; normalize_run_checkpoint redactor now checkpoint)
      (λ c s.
        let bucket = bucket_of (lookup c.exec_id s.run_checkpoints) in
        (
          ok tt,
          record s {
            run_checkpoints = insert c.exec_id (insert c.step_index c bucket) s.run_checkpoints;
          },
        ))

-- The rows of one execution by step index.
unfoldable pub checkpoints_locked : String → MemoryStore → List RunCheckpoint
checkpoints_locked exec_id s =
    sort (λ a b. ltb_ℤ a.step_index b.step_index)
      (values (bucket_of (lookup (trim_space exec_id) s.run_checkpoints)))

unfoldable pub list_run_checkpoints : Context → String → Exec (List RunCheckpoint)
unfolding check_context checkpoints_locked
list_run_checkpoints ctx exec_id =
    checked (check_context ctx) (λ _ s. (ok (checkpoints_locked exec_id s), s))

abbrev pub put_intent : ToolIntent → MemoryStore → MemoryStore
put_intent i s = record s {
  tool_intents =
      insert i.exec_id (insert i.tool_call_id i (bucket_of (lookup i.exec_id s.tool_intents)))
        s.tool_intents;
}

unfoldable pub begin_args : Redactor → Context → ToolIntent → ℕ → Result Error ToolIntent
unfolding check_context normalize_tool_intent
begin_args redactor ctx intent now = do check_context ctx; normalize_tool_intent redactor now intent

-- BeginToolIntent: an intent that is begun again is open again.
unfoldable pub begin_tool_intent : Redactor → Context → ToolIntent → ℕ → Exec (Unit {0})
unfolding begin_args
begin_tool_intent redactor ctx intent now =
    checked (begin_args redactor ctx intent now)
      (λ i s. (ok tt, put_intent (record i { completed_at = 0 }) s))

abbrev pub intent_of : String → String → MemoryStore → Option ToolIntent
intent_of exec_id tool_call_id s = lookup tool_call_id (bucket_of (lookup exec_id s.tool_intents))

unfoldable pub complete_locked : ℕ → String × String → Exec (Unit {0})
complete_locked now (exec_id, tool_call_id) s = elim (intent_of exec_id tool_call_id s) [
  | none ↦ (err intent_not_found, s)
  | some i ↦ (
    ok tt,
    record s {
      tool_intents =
          insert exec_id
            (insert tool_call_id (record i { completed_at = now })
              (bucket_of (lookup exec_id s.tool_intents)))
            s.tool_intents;
    },
  )
]

unfoldable pub complete_args : Context → String → String → Result Error (String × String)
unfolding check_context normalize_journal_key
complete_args ctx exec_id tool_call_id = do
  check_context ctx
  normalize_journal_key exec_id tool_call_id

unfoldable pub complete_tool_intent : Context → String → String → ℕ → Exec (Unit {0})
unfolding complete_args complete_locked
complete_tool_intent ctx exec_id tool_call_id now =
    checked (complete_args ctx exec_id tool_call_id) (complete_locked now)

unfoldable pub list_tool_intents : Context → String → Exec (List ToolIntent)
unfolding check_context earlier
list_tool_intents ctx exec_id = checked (check_context ctx) (λ _ s. (
  ok (
      sort (λ a b. earlier a.started_at a.tool_call_id b.started_at b.tool_call_id)
        (values (bucket_of (lookup (trim_space exec_id) s.tool_intents)))),
  s,
))

-- pruneRunJournalLocked's conditions: the journal is there, the execution has ended and no approval
-- of it is pending.
unfoldable pub prunable : String → MemoryStore → Bool
prunable exec_id s = elim (lookup exec_id s.run_journals) [
  | none ↦ false
  | some _ ↦ elim (lookup exec_id s.executions) [
    | none ↦ false
    | some execution ↦
        if not (terminal_execution_status execution.status)
        then false
        else not (any (λ a. a.exec_id == exec_id && is_pending a.status) (values s.approvals))
  ]
]

abbrev pub drop_run : String → MemoryStore → MemoryStore
drop_run exec_id s = record s {
  run_journals = delete exec_id s.run_journals;
  run_checkpoints = delete exec_id s.run_checkpoints;
  tool_intents = delete exec_id s.tool_intents;
}

unfoldable pub prune_run_journal_locked : String → MemoryStore → Bool × MemoryStore
unfolding prunable
prune_run_journal_locked exec_id s =
    if prunable exec_id s then (true, drop_run exec_id s) else (false, s)

unfoldable pub prune_run_journal : Context → String → Exec (Unit {0})
unfolding check_context prune_run_journal_locked
prune_run_journal ctx exec_id =
    checked
      (do
        check_context ctx
        if trim_space exec_id == ""
            then err journal_execution_required
            else ok (trim_space exec_id))
      (λ id s. (ok tt, (prune_run_journal_locked id s).1))

-- The loop over the sorted candidates, with the ids that were pruned so far.
unfoldable pub prune_each : List String → List String → MemoryStore → List String × MemoryStore
prune_each [] done s = (done, s)
prune_each (id ∷ ids) done s =
    let (pruned, s') = prune_run_journal_locked id s in
    prune_each ids (if pruned then done ++ id ∷ [] else done) s'

unfoldable pub prune_candidates : ℕ → MemoryStore → List String
prune_candidates cutoff s =
    sort str_ltb (map (λ e. e.0) (filter (λ e. ltb e.1.created_at cutoff) s.run_journals.entries))

unfoldable pub prune_run_journals_before : Context → ℕ → Exec (List String)
unfolding check_context prune_each prune_candidates
prune_run_journals_before ctx cutoff =
    checked (check_context ctx)
      (λ _ s. let (pruned, s') = prune_each (prune_candidates cutoff s) [] s in (ok pruned, s'))
