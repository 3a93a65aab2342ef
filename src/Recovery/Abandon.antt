-- ===== src/Recovery/Abandon.antt =====
-- What abandoning a run leaves in the store.
use ouvrier.Base.{
  ℕ, String, ◌≡◌, refl, inl, inr, true, false, some, eq_string, eq_nat, ◌==◌, ==-self, ok,
  Bool-cases, lookup, insert, lookup-insert_self, trim_space,
}
use ouvrier.State.Types.{
  Context, check_context, running, failed, Execution, RunJournal, MemoryStore,
}
use ouvrier.State.Records.{save_execution, find_execution}
use ouvrier.State.Journal.{prunable, prune_run_journal, prune_run_journal_locked}
use ouvrier.State.Journal.Pruning.{rows_of, no_rows, rows_of-locked, prunable-ready, has_pending}
use ouvrier.Recovery.{Reason, abandon, fail_durable_run_execution, enact}

abbrev pub ended_at : ℕ → Execution → Execution
ended_at now e = record e { status = failed; completed_at = now }

abbrev pub with_failed : ℕ → Execution → MemoryStore → MemoryStore
with_failed now e s = record s { executions = insert e.exec_id (ended_at now e) s.executions }

fails :
    (ctx : Context) (given e : Execution) (now : ℕ) (s : MemoryStore)
    → check_context ctx ≡ ok tt
    → lookup given.exec_id s.executions ≡ some e
    → e.status ≡ running
    → (e.exec_id == "") ≡ false
    → fail_durable_run_execution ctx given now s ≡ with_failed now e s
unfolding fail_durable_run_execution find_execution save_execution
fails ctx given e now s alive held live_run some_id =
    rw (fail_durable_run_execution, find_execution, alive, held, live_run, save_execution, some_id)
      refl

executions-pruned :
    (id : String) (s : MemoryStore) → (prune_run_journal_locked id s).1.executions ≡ s.executions
unfolding prune_run_journal_locked
executions-pruned id s = elim (Bool-cases (prunable id s)) [ inl e ↦ rw e refl | inr e ↦ rw e refl ]

now_prunable :
    (now : ℕ) (e : Execution) (j : RunJournal) (s : MemoryStore)
    → lookup e.exec_id s.run_journals ≡ some j
    → has_pending e.exec_id s ≡ false
    → prunable e.exec_id (with_failed now e s) ≡ true
now_prunable now e j s kept quiet =
    rw
      (
        prunable-ready e.exec_id (with_failed now e s),
        kept,
        lookup-insert_self e.exec_id (ended_at now e) s.executions,
        quiet,
      )
      refl

-- A run that is abandoned, whose execution is running and has no pending approval, ends for good:
-- its execution is stored as failed at this time, and its journal, checkpoints and intents are gone,
-- so no later scan finds it.
pub abandoned_run_ends :
    (ctx : Context) (reason : Reason) (e : Execution) (j : RunJournal) (now : ℕ) (s : MemoryStore)
    → check_context ctx ≡ ok tt
    → lookup e.exec_id s.executions ≡ some e
    → e.status ≡ running
    → (e.exec_id == "") ≡ false
    → trim_space e.exec_id ≡ e.exec_id
    → j.exec_id ≡ e.exec_id
    → lookup e.exec_id s.run_journals ≡ some j
    → has_pending e.exec_id s ≡ false
    → (lookup e.exec_id (enact ctx j e now (abandon reason) s).executions ≡ some (ended_at now e))
      × (rows_of e.exec_id (enact ctx j e now (abandon reason) s) ≡ no_rows)
unfolding enact prune_run_journal
abandoned_run_ends ctx reason e j now s alive held live_run some_id trimmed same kept quiet =
    let t = with_failed now e s in
    let pruned = now_prunable now e j s kept quiet in
    rw
      (
        enact,
        fails ctx e e now s alive held live_run some_id,
        same,
        prune_run_journal,
        alive,
        trimmed,
        some_id,
      )
      (
        rw (executions-pruned e.exec_id t)
            (lookup-insert_self e.exec_id (ended_at now e) s.executions),
        rw (rows_of-locked e.exec_id e.exec_id t, pruned, ==-self e.exec_id) refl,
      )
