-- ===== src/State/Journal/Pruning.antt =====
-- What pruning removes and what it keeps.
use ouvrier.Base.{
  ℕ, String, ◌≡◌, refl, ap, inl, inr, Bool, true, false, not, ◌&&◌, ◌||◌, Option, none, some, List,
  [], ◌∷◌, ◌++◌, arith, eq_iff, eq_string, eq_nat, ◌==◌, ok, if◌then◌else◌, Bool-cases,
  Option-cases, Map, values, lookup, lookup-delete, any, ◌∙◌, ℤ,
}
use ouvrier.State.Types.{
  Context, check_context, Execution, RunJournal, RunCheckpoint, ToolIntent, MemoryStore,
}
use ouvrier.State.Approvals.{is_pending}
use ouvrier.State.Journal.{
  terminal_execution_status, prunable, drop_run, prune_run_journal_locked, prune_each,
  prune_candidates, prune_run_journals_before,
}

-- What the store keeps of a durable run.
pub record Rows : Type 0 where
  pub journal : Option RunJournal
  pub checkpoints : Option (Map ℤ RunCheckpoint)
  pub intents : Option (Map String ToolIntent)

abbrev pub rows_of : String → MemoryStore → Rows
rows_of id s = record {
  journal = lookup id s.run_journals;
  checkpoints = lookup id s.run_checkpoints;
  intents = lookup id s.tool_intents;
}

abbrev pub no_rows : Rows
no_rows = record { journal = none; checkpoints = none; intents = none }

-- The conditions for pruning, with the journal's row as an argument.
abbrev pub ready : String → Option RunJournal → Option Execution → Bool → Bool
ready id none e waiting = false
ready id (some j) none waiting = false
ready id (some j) (some e) waiting =
    if not (terminal_execution_status e.status) then false else not waiting

abbrev pub has_pending : String → MemoryStore → Bool
has_pending id s = any (λ a. a.exec_id == id && is_pending a.status) (values s.approvals)

pub prunable-ready :
    (id : String) (s : MemoryStore)
    → prunable id s
      ≡ ready id (lookup id s.run_journals) (lookup id s.executions) (has_pending id s)
unfolding prunable
prunable-ready id s = elim (Option-cases (lookup id s.run_journals)) [
  | inl e ↦ rw (prunable, e) refl
  | inr (j, e) ↦ elim (Option-cases (lookup id s.executions)) [
    | inl f ↦ rw (prunable, e, f) refl
    | inr (x, f) ↦ rw (prunable, e, f) refl
  ]
]

rows_of-drop_run :
    (id j : String) (s : MemoryStore)
    → rows_of j (drop_run id s) ≡ (if id == j then no_rows else rows_of j s)
rows_of-drop_run id j s =
    rw
      (
        lookup-delete id j s.run_journals,
        lookup-delete id j s.run_checkpoints,
        lookup-delete id j s.tool_intents,
      )
      (elim (Bool-cases (id == j)) [ inl e ↦ rw e refl | inr e ↦ rw e refl ])

prunable-drop_run :
    (id j : String) (s : MemoryStore)
    → prunable j (drop_run id s) ≡ (if id == j then false else prunable j s)
prunable-drop_run id j s =
    rw (prunable-ready j (drop_run id s), prunable-ready j s, lookup-delete id j s.run_journals)
      (elim (Bool-cases (id == j)) [ inl e ↦ rw e refl | inr e ↦ rw e refl ])

pub rows_of-locked :
    (id j : String) (s : MemoryStore)
    → rows_of j (prune_run_journal_locked id s).1
      ≡ (if prunable id s && id == j then no_rows else rows_of j s)
unfolding prune_run_journal_locked
rows_of-locked id j s = elim (Bool-cases (prunable id s)) [
  | inl e ↦ rw (e, rows_of-drop_run id j s) refl
  | inr e ↦ rw e refl
]

prunable-locked :
    (id j : String) (s : MemoryStore)
    → prunable j (prune_run_journal_locked id s).1
      ≡ (if prunable id s && id == j then false else prunable j s)
unfolding prune_run_journal_locked
prunable-locked id j s = elim (Bool-cases (prunable id s)) [
  | inl e ↦ rw (e, prunable-drop_run id j s) refl
  | inr e ↦ rw e refl
]

one_round :
    (same removed later ended : Bool) (r : Rows)
    → (same ≡ true → removed ≡ ended)
    → (if later && (if removed && same then false else ended)
        then no_rows
        else if removed && same
        then no_rows
        else r)
      ≡ (if (same || later) && ended then no_rows else r)
one_round true removed later ended r h = elim (Bool-cases ended) [
  | inl e ↦ ground (arith, e, h refl)
  | inr e ↦ ground (arith, e, h refl)
]
one_round false removed later ended r h = ground arith

rows_of-prune_each :
    (j : String) (ids done : List String) (s : MemoryStore)
    → rows_of j (prune_each ids done s).1
      ≡ (if any (λ i. i == j) ids && prunable j s then no_rows else rows_of j s)
unfolding prune_each
rows_of-prune_each j [] done s = refl
rows_of-prune_each j (id ∷ ids) done s =
    let t = (prune_run_journal_locked id s).1 in
    rows_of-prune_each j ids (if (prune_run_journal_locked id s).0 then done ++ id ∷ [] else done) t
    ∙ rw (prunable-locked id j s, rows_of-locked id j s)
        (one_round (id == j) (prunable id s) (any (λ i. i == j) ids) (prunable j s) (rows_of j s)
          (λ same. ap (λ i. prunable i s) (ground (arith, eq_iff id j, same))))

-- Pruning before a cutoff removes the journal, the checkpoints and the intents of exactly the
-- candidates that may go (their execution has ended and no approval of it is pending), together;
-- of every other run it leaves all three, whatever was pruned before it in the same call.
pub rows_of-prune_run_journals_before :
    (ctx : Context) (cutoff : ℕ) (j : String) (s : MemoryStore)
    → check_context ctx ≡ ok tt
    → rows_of j (prune_run_journals_before ctx cutoff s).1 ≡ (
        if any (λ i. i == j) (prune_candidates cutoff s) && prunable j s
        then no_rows
        else rows_of j s)
unfolding prune_run_journals_before
rows_of-prune_run_journals_before ctx cutoff j s valid =
    rw valid (rows_of-prune_each j (prune_candidates cutoff s) [] s)
