-- ===== src/State/Journal/Intents.antt =====
-- Tool intents: open from their begin to their completion.
use ouvrier.Base.{
  ℕ, String, ◌≡◌, ◌≢◌, ◌⊎◌, refl, sym, inl, inr, ◌&&◌, some, List, [], ◌∷◌, arith, eq_iff,
  eq_string, eq_nat, ◌==◌, ==-self, ok, if◌then◌else◌, Option-cases, Map, lookup, insert,
  lookup-insert, All, trim_space, ◌∙◌,
}
use ouvrier.Events.Redactor.{Redactor}
use ouvrier.State.Types.{check_context, Context, ToolIntent, MemoryStore, checked-keeps_when}
use ouvrier.State.Journal.{
  begin_args, complete_args, bucket_of, normalize_tool_intent, normalize_journal_key, put_intent,
  begin_tool_intent, intent_of, complete_locked, complete_tool_intent, check_context,
}

-- One call that writes intents, at the clock's reading `now`.
pub data Call : Type 0 where
  begin : Redactor → Context → ToolIntent → (now : ℕ) → Call
  complete : Context → (exec_id tool_call_id : String) → (now : ℕ) → Call

unfoldable pub step : Call → MemoryStore → MemoryStore
step (begin r ctx i now) s = (begin_tool_intent r ctx i now s).1
step (complete ctx exec_id tool_call_id now) s =
    (complete_tool_intent ctx exec_id tool_call_id now s).1

unfoldable pub run : List Call → MemoryStore → MemoryStore
run [] s = s
run (c ∷ cs) s = run cs (step c s)

-- The call is about another tool call than this one of this execution.
abbrev pub IsElsewhere : String → String → Call → Type 0
IsElsewhere exec_id id (begin r ctx i now) =
    (trim_space i.exec_id ≢ exec_id) ⊎ (trim_space i.tool_call_id ≢ id)
IsElsewhere exec_id id (complete ctx e t now) = (trim_space e ≢ exec_id) ⊎ (trim_space t ≢ id)

-- The two-level map after a write.
module _ (e t exec_id id : String) (i : ToolIntent) (s : MemoryStore) where
  abbrev written : Map String (Map String ToolIntent)
  written = insert e (insert t i (bucket_of (lookup e s.tool_intents))) s.tool_intents

  intent_of-written :
      lookup id (bucket_of (lookup exec_id written))
      ≡ (if e == exec_id && t == id then some i else intent_of exec_id id s)
  intent_of-written = ground (
    arith,
    eq_iff e exec_id,
    eq_iff t id,
    lookup-insert e exec_id (insert t i (bucket_of (lookup e s.tool_intents))) s.tool_intents,
    lookup-insert t id i (bucket_of (lookup e s.tool_intents)),
  )

begun :
    (r : Redactor) (ctx : Context) (now : ℕ) (i j : ToolIntent)
    → begin_args r ctx i now ≡ ok j
    → (j.exec_id ≡ trim_space i.exec_id) × (j.tool_call_id ≡ trim_space i.tool_call_id)
unfolding begin_args check_context normalize_tool_intent
begun r ctx now i j h = (ground arith, ground arith)

completed_key :
    (ctx : Context) (e t : String) (key : String × String)
    → complete_args ctx e t ≡ ok key
    → key ≡ (trim_space e, trim_space t)
unfolding complete_args check_context normalize_journal_key
completed_key ctx e t key h = ground arith

module _ (exec_id id : String) (i : ToolIntent) (s : MemoryStore)
    (held : intent_of exec_id id s ≡ some i) where
  put_keeps :
      (j : ToolIntent)
      → (j.exec_id ≢ exec_id) ⊎ (j.tool_call_id ≢ id)
      → intent_of exec_id id (put_intent j s) ≡ some i
  put_keeps j elsewhere =
      intent_of-written j.exec_id j.tool_call_id exec_id id j s
      ∙ ground (arith, eq_iff j.exec_id exec_id, eq_iff j.tool_call_id id)

  complete_keeps :
      (now : ℕ) (e t : String)
      → (e ≢ exec_id) ⊎ (t ≢ id)
      → intent_of exec_id id (complete_locked now (e, t) s).1 ≡ some i
  unfolding complete_locked
  complete_keeps now e t elsewhere = elim (Option-cases (intent_of e t s)) [
    | inl f ↦ rw (complete_locked, f) held
    | inr (x, f) ↦
        rw (complete_locked, f)
          (intent_of-written e t exec_id id (record x { completed_at = now }) s
            ∙ ground (arith, eq_iff e exec_id, eq_iff t id))
  ]

  step_keeps : (c : Call) → IsElsewhere exec_id id c → intent_of exec_id id (step c s) ≡ some i
  unfolding step begin_tool_intent complete_tool_intent
  step_keeps (begin r ctx j now) elsewhere =
      checked-keeps_when (λ t. intent_of exec_id id t ≡ some i) (begin_args r ctx j now) _ s held
        (λ j' e.
          put_keeps (record j' { completed_at = 0 })
            (rw (sym (begun r ctx now j j' e).0, sym (begun r ctx now j j' e).1) at elsewhere))
  step_keeps (complete ctx e t now) elsewhere =
      checked-keeps_when (λ t. intent_of exec_id id t ≡ some i) (complete_args ctx e t) _ s held
        (λ key h.
          rw (completed_key ctx e t key h)
            (complete_keeps now (trim_space e) (trim_space t) elsewhere))

run_keeps :
    (exec_id id : String) (i : ToolIntent) (cs : List Call) (s : MemoryStore)
    → intent_of exec_id id s ≡ some i
    → All (IsElsewhere exec_id id) cs
    → intent_of exec_id id (run cs s) ≡ some i
unfolding run
run_keeps exec_id id i [] s held elsewhere = held
run_keeps exec_id id i (c ∷ cs) s held elsewhere =
    run_keeps exec_id id i cs (step c s) (step_keeps exec_id id i s held c elsewhere.0) elsewhere.1

pub begins :
    (r : Redactor) (ctx : Context) (i j : ToolIntent) (now : ℕ) (s : MemoryStore)
    → begin_args r ctx i now ≡ ok j
    → intent_of j.exec_id j.tool_call_id (begin_tool_intent r ctx i now s).1
      ≡ some (record j { completed_at = 0 })
unfolding begin_tool_intent
begins r ctx i j now s valid = rw valid (
    intent_of-written j.exec_id j.tool_call_id j.exec_id j.tool_call_id
      (record j { completed_at = 0 }) s
    ∙ ground (arith, ==-self j.exec_id, ==-self j.tool_call_id))

pub completes :
    (ctx : Context) (given_e given_t e t : String) (i : ToolIntent) (now : ℕ) (s : MemoryStore)
    → intent_of e t s ≡ some i
    → complete_args ctx given_e given_t ≡ ok (e, t)
    → ((complete_tool_intent ctx given_e given_t now s).0 ≡ ok tt)
      × (intent_of e t (complete_tool_intent ctx given_e given_t now s).1
          ≡ some (record i { completed_at = now }))
unfolding complete_tool_intent complete_locked
completes ctx given_e given_t e t i now s held valid =
    rw (valid, complete_locked, held)
      (
        refl,
        intent_of-written e t e t (record i { completed_at = now }) s
            ∙ ground (arith, ==-self e, ==-self t),
      )

-- What may be begun may be completed, under a context that is still alive.
pub begun-completes :
    (r : Redactor) (ctx ctx' : Context) (now : ℕ) (i j : ToolIntent)
    → begin_args r ctx i now ≡ ok j
    → check_context ctx' ≡ ok tt
    → complete_args ctx' i.exec_id i.tool_call_id ≡ ok (j.exec_id, j.tool_call_id)
unfolding begin_args check_context normalize_tool_intent complete_args normalize_journal_key
begun-completes r ctx ctx' now i j h alive = ground (arith, begun r ctx now i j h)

-- An intent that was begun is found open, with its normalized fields, after any calls about other
-- tool calls, and its completion then succeeds and changes only the time of completion.
pub intent_open_until_completed :
    (r : Redactor) (ctx ctx' : Context) (i j : ToolIntent) (now now' : ℕ) (cs : List Call)
    (s : MemoryStore)
    → begin_args r ctx i now ≡ ok j
    → complete_args ctx' j.exec_id j.tool_call_id ≡ ok (j.exec_id, j.tool_call_id)
    → All (IsElsewhere j.exec_id j.tool_call_id) cs
    → (intent_of j.exec_id j.tool_call_id (run (begin r ctx i now ∷ cs) s)
        ≡ some (record j { completed_at = 0 }))
      × ((complete_tool_intent ctx' j.exec_id j.tool_call_id now'
            (run (begin r ctx i now ∷ cs) s)).0
          ≡ ok tt)
      × (intent_of j.exec_id j.tool_call_id
            (complete_tool_intent ctx' j.exec_id j.tool_call_id now'
              (run (begin r ctx i now ∷ cs) s)).1
          ≡ some (record j { completed_at = now' }))
unfolding run step
intent_open_until_completed r ctx ctx' i j now now' cs s valid valid' elsewhere =
    let open_one = record j { completed_at = 0 } in
    let t = run cs (begin_tool_intent r ctx i now s).1 in
    let held =
      run_keeps j.exec_id j.tool_call_id open_one cs _ (begins r ctx i j now s valid) elsewhere in
    let closed =
      completes ctx' j.exec_id j.tool_call_id j.exec_id j.tool_call_id open_one now' t held
        valid' in
    (held, closed.0, closed.1)
