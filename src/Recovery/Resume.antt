-- ===== src/Recovery/Resume.antt =====
-- Where a replay resumes.
use ouvrier.Base.{
  String, ◌≡◌, refl, inl, inr, Bool, true, false, List, [], ◌∷◌, arith, eq_string, eq_nat, Result,
  ok, Bool-cases, values, lookup, All, trim_space, ℤ, pos, negsuc, zero, suc, suc_ℤ, ltb_ℤ,
  IsSorted, sort-IsSorted, StrictOrder, ltb_ℤ-StrictOrder,
}
use mathlib.Core.Path.{subst}
use ouvrier.State.Types.{Error, Context, RunJournal, RunCheckpoint, MemoryStore, check_context}
use ouvrier.State.Journal.{bucket_of, list_run_checkpoints, checkpoints_locked}
use ouvrier.Recovery.{durable_replay_input}

abbrev by_step : RunCheckpoint → RunCheckpoint → Bool
by_step a b = ltb_ℤ a.step_index b.step_index

by_step-StrictOrder : StrictOrder by_step
by_step-StrictOrder = record {
  asym = λ a b. ltb_ℤ-StrictOrder.asym a.step_index b.step_index;
  neg_trans = λ a b c. ltb_ℤ-StrictOrder.neg_trans a.step_index b.step_index c.step_index;
}

below_next : (i : ℤ) → ltb_ℤ i (suc_ℤ i) ≡ true
below_next (pos n) = ground arith
below_next (negsuc zero) = ground arith
below_next (negsuc (suc n)) = ground arith

-- An index that is not above one below the bound is below the bound.
below_trans : (i j k : ℤ) → ltb_ℤ j i ≡ false → ltb_ℤ j k ≡ true → ltb_ℤ i k ≡ true
below_trans i j k h below = elim (Bool-cases (ltb_ℤ i k)) [
  | inl e ↦ e
  | inr e ↦ absurd (cc (ltb_ℤ-StrictOrder.neg_trans j i k h e, below))
]

resumes_above :
    (j : RunJournal) (cs : List RunCheckpoint)
    → IsSorted by_step cs
    → All (λ c. ltb_ℤ c.step_index (durable_replay_input j cs).resume_index ≡ true) cs
unfolding durable_replay_input
resumes_above j [] h = tt
resumes_above j (c ∷ []) h = (below_next c.step_index, tt)
resumes_above j (c ∷ d ∷ cs) h =
    let rest = resumes_above j (d ∷ cs) h.1 in
    (below_trans c.step_index d.step_index _ h.0.0 rest.0, rest)

ok-IsSorted :
    (l cs : List RunCheckpoint) (answer : Result Error (List RunCheckpoint))
    → answer ≡ ok l
    → answer ≡ ok cs
    → IsSorted by_step l
    → IsSorted by_step cs
ok-IsSorted l cs answer here same h = subst (IsSorted by_step) (cc (here, same)) h

listed-IsSorted :
    (ctx : Context) (id : String) (s : MemoryStore) (cs : List RunCheckpoint)
    → (list_run_checkpoints ctx id s).0 ≡ ok cs
    → IsSorted by_step cs
unfolding list_run_checkpoints checkpoints_locked check_context
listed-IsSorted Context.nil_context id s cs h = ok-IsSorted _ cs _ refl h (
    sort-IsSorted by_step by_step-StrictOrder
      (values (bucket_of (lookup (trim_space id) s.run_checkpoints))))
listed-IsSorted Context.live id s cs h = ok-IsSorted _ cs _ refl h (
    sort-IsSorted by_step by_step-StrictOrder
      (values (bucket_of (lookup (trim_space id) s.run_checkpoints))))
listed-IsSorted Context.cancelled id s cs h = absurd (cc)
listed-IsSorted Context.deadline_exceeded id s cs h = absurd (cc)

-- A replay never repeats a step that has a checkpoint: it resumes above the index of every
-- checkpoint that the store lists for the run, in whatever order they were saved.
pub resume_above_checkpoints :
    (ctx : Context) (id : String) (j : RunJournal) (s : MemoryStore) (cs : List RunCheckpoint)
    → (list_run_checkpoints ctx id s).0 ≡ ok cs
    → All (λ c. ltb_ℤ c.step_index (durable_replay_input j cs).resume_index ≡ true) cs
resume_above_checkpoints ctx id j s cs listed =
    resumes_above j cs (listed-IsSorted ctx id s cs listed)
