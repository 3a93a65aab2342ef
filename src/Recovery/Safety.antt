-- ===== src/Recovery/Safety.antt =====
-- A run is replayed only where that is safe.
use ouvrier.Base.{
  ◌≡◌, ◌≢◌, ◌⊎◌, refl, inl, inr, Bool, true, false, ◌&&◌, Option, none, some, List, [], ◌∷◌, arith,
  eq_iff, eq_string, eq_nat, ◌==◌, Result, ok, err, if◌then◌else◌, Bool-cases, Option-cases, All, ℤ,
  ltb_ℤ, find,
}
use mathlib.Core.Path.{subst}
use ouvrier.State.Types.{Error, Context, RunJournal, RunCheckpoint, ToolIntent, MemoryStore}
use ouvrier.State.Approvals.{approvals_for_execution}
use ouvrier.State.Journal.{list_run_checkpoints, list_tool_intents}
use ouvrier.Recovery.{
  Plan, durable_plan_for_journal, durable_run_client_gone, ReplayInput, durable_replay_input,
  blocks, durable_replay_blocking_intent, replay_unsafe, replay, on_intents, on_input,
  on_checkpoints, on_plan, maybe_pending, verdict,
}

find-none {ℓ} :
    {A : Type ℓ} (f : A → Bool) (l : List A) → find f l ≡ none → All (λ x. f x ≡ false) l
find-none f [] h = tt
find-none f (x ∷ l) h = elim (Bool-cases (f x)) [
  | inl e ↦ absurd (cc (rw e at h))
  | inr e ↦ (e, find-none f l (rw e at h))
]

find-some {ℓ} : {A : Type ℓ} (f : A → Bool) (l : List A) (x : A) → find f l ≡ some x → f x ≡ true
find-some f [] x h = absurd (cc)
find-some f (y ∷ l) x h = elim (Bool-cases (f y)) [
  | inl e ↦ cc (rw e at h, e)
  | inr e ↦ find-some f l x (rw e at h)
]

-- The intent is of a step that a checkpoint covers, or it was completed and is idempotent.
abbrev pub IsHarmless : ℤ → ToolIntent → Type 0
IsHarmless resume_index i =
    (ltb_ℤ i.step_index resume_index ≡ true) ⊎ ((i.completed_at ≢ 0) × (i.effect ≡ "idempotent"))

blocks-IsHarmless :
    (resume_index : ℤ) (i : ToolIntent) → blocks resume_index i ≡ false → IsHarmless resume_index i
unfolding blocks
blocks-IsHarmless resume_index i h = elim (Bool-cases (ltb_ℤ i.step_index resume_index)) [
  | inl e ↦ inl e
  | inr e ↦ inr (ground (arith, h, e), ground (arith, h, e, eq_iff i.effect "idempotent"))
]

All-IsHarmless :
    (k : ℤ) (l : List ToolIntent) → All (λ i. blocks k i ≡ false) l → All (IsHarmless k) l
All-IsHarmless k [] h = tt
All-IsHarmless k (i ∷ l) h = (blocks-IsHarmless k i h.0, All-IsHarmless k l h.1)

-- What a replay of the plan from the input rests on, in the store.
pub record IsSafe (ctx : Context) (j : RunJournal) (s : MemoryStore) (p : Plan) (r : ReplayInput)
    : Type 0 where
  pub same_key : p.key ≡ j.plan_key
  pub same_hash : p.hash ≡ j.plan_hash
  pub deliverable : durable_run_client_gone p ≡ false
  pub no_approval : maybe_pending (approvals_for_execution ctx j.exec_id s).0 ≡ false
  pub unredacted : r.replay_unsafe ≡ false
  pub from_last :
      (cs : List RunCheckpoint) × ((list_run_checkpoints ctx j.exec_id s).0 ≡ ok cs)
      × (r ≡ durable_replay_input j cs)
  pub harmless :
      (is : List ToolIntent) × ((list_tool_intents ctx j.exec_id s).0 ≡ ok is)
      × All (IsHarmless r.resume_index) is

on_intents-replay :
    (p q : Plan) (r t : ReplayInput) (answer : Result Error (List ToolIntent))
    → on_intents p r answer ≡ replay q t
    → (p ≡ q)
      × (r ≡ t)
      × ((is : List ToolIntent) × (answer ≡ ok is) × All (IsHarmless r.resume_index) is)
on_intents-replay p q r t (err e) h = absurd (cc)
on_intents-replay p q r t (ok is) h =
    elim (Option-cases (durable_replay_blocking_intent is r.resume_index)) [
      | inr (i, e) ↦ absurd (cc (rw (on_intents, e) at h))
      | inl e ↦
          let replayed : replay p r ≡ replay q t = rw (on_intents, e) at h in
          (
            cc replayed,
            cc replayed,
            (is, refl, All-IsHarmless r.resume_index is (find-none (blocks r.resume_index) is e)),
          )
    ]

plan_key :
    (plans : List Plan) (j : RunJournal) (p : Plan)
    → durable_plan_for_journal plans j ≡ some p
    → (p.key == j.plan_key) ≡ true
unfolding durable_plan_for_journal
plan_key plans j p h =
    elim (Option-cases (find (λ p. p.key == j.plan_key && p.hash == j.plan_hash) plans)) [
      | inl e ↦ find-some (λ p. p.key == j.plan_key) plans p (rw (durable_plan_for_journal, e) at h)
      | inr (q, e) ↦
          let exact = find-some (λ p. p.key == j.plan_key && p.hash == j.plan_hash) plans q e in
          let same : some q ≡ some p = rw (durable_plan_for_journal, e) at h in
          let named : q ≡ p = cc same in
          let key : (q.key == j.plan_key) ≡ true = ground (arith, exact) in rw named at key
    ]

on_input-replay :
    (ctx : Context) (j : RunJournal) (s : MemoryStore) (p q : Plan) (r t : ReplayInput)
    → on_input false ctx j s p r ≡ replay q t
    → (p ≡ q)
      × (r ≡ t)
      × (r.replay_unsafe ≡ false)
      × ((is : List ToolIntent) × ((list_tool_intents ctx j.exec_id s).0 ≡ ok is)
          × All (IsHarmless r.resume_index) is)
on_input-replay ctx j s p q r t = gate r.replay_unsafe refl
  where
    gate :
        (b : Bool)
        → r.replay_unsafe ≡ b
        → (if b then replay_unsafe else on_intents p r (list_tool_intents ctx j.exec_id s).0)
          ≡ replay q t
        → (p ≡ q)
          × (r ≡ t)
          × (r.replay_unsafe ≡ false)
          × ((is : List ToolIntent) × ((list_tool_intents ctx j.exec_id s).0 ≡ ok is)
              × All (IsHarmless r.resume_index) is)
    gate true e h = absurd (cc)
    gate false e h =
        let (a, b, c) = on_intents-replay p q r t (list_tool_intents ctx j.exec_id s).0 h in
        (a, b, e, c)

on_checkpoints-replay :
    (ctx : Context) (j : RunJournal) (s : MemoryStore) (p q : Plan) (t : ReplayInput)
    (answer : Result Error (List RunCheckpoint))
    → on_checkpoints false ctx j s p answer ≡ replay q t
    → (cs : List RunCheckpoint) × (answer ≡ ok cs)
      × (on_input false ctx j s p (durable_replay_input j cs) ≡ replay q t)
on_checkpoints-replay ctx j s p q t (err e) h = absurd (cc)
on_checkpoints-replay ctx j s p q t (ok cs) h = (cs, refl, h)

on_plan-replay :
    (ctx : Context) (j : RunJournal) (s : MemoryStore) (found : Option Plan) (q : Plan)
    (t : ReplayInput)
    → on_plan false ctx j s found ≡ replay q t
    → (p : Plan) × (found ≡ some p)
      × ((p.hash == j.plan_hash) ≡ true)
      × (durable_run_client_gone p ≡ false)
      × (on_checkpoints false ctx j s p (list_run_checkpoints ctx j.exec_id s).0 ≡ replay q t)
on_plan-replay ctx j s none q t h = absurd (cc)
on_plan-replay ctx j s (some p) q t h = elim (Bool-cases (p.hash == j.plan_hash)) [
  | inr e ↦ absurd (cc (rw (on_plan, e) at h))
  | inl e ↦ elim (Bool-cases (durable_run_client_gone p)) [
    | inl d ↦ absurd (cc (rw (on_plan, e, d) at h))
    | inr d ↦ (p, refl, e, d, rw (on_plan, e, d) at h)
  ]
]

-- Recovery that is not forced replays a run only if the plan has the key and the hash of the
-- journal, its reply does not need the lost client, no approval of the run is pending, the input is
-- that of the last checkpoint or the journal and was not redacted, and every tool intent of the
-- steps to replay was completed and is idempotent.
pub replay-IsSafe :
    (ctx : Context) (plans : List Plan) (j : RunJournal) (s : MemoryStore) (p : Plan)
    (r : ReplayInput)
    → verdict false ctx plans j s ≡ replay p r
    → IsSafe ctx j s p r
unfolding verdict
replay-IsSafe ctx plans j s p r h =
    elim (Bool-cases (maybe_pending (approvals_for_execution ctx j.exec_id s).0)) [
      | inl e ↦ absurd (cc (rw (verdict, e) at h))
      | inr e ↦
          let (q, found, hash, gone, h1) =
            on_plan-replay ctx j s (durable_plan_for_journal plans j) p r (rw (verdict, e) at h) in
          let (cs, listed, h2) =
            on_checkpoints-replay ctx j s q p r (list_run_checkpoints ctx j.exec_id s).0 h1 in
          let (same, input, clean, is) =
            on_input-replay ctx j s q p (durable_replay_input j cs) r h2 in
          let named = plan_key plans j q found in
          let safe : IsSafe ctx j s q (durable_replay_input j cs) = record {
            same_key = ground (arith, named, eq_iff q.key j.plan_key);
            same_hash = ground (arith, hash, eq_iff q.hash j.plan_hash);
            deliverable = gone;
            no_approval = e;
            unredacted = clean;
            from_last = (cs, listed, refl);
            harmless = is;
          } in
          subst (λ x. IsSafe ctx j s x r) same (subst (IsSafe ctx j s q) input safe)
    ]
