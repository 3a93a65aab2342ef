-- ===== src/Tools/Execution/Settled.antt =====
-- A handler's call that holds a claim settles it.
use ouvrier.Base.{
  ◌∙◌, ℕ, String, ◌≡◌, refl, sym, ap, inl, inr, Option, none, some, eq_string, eq_nat, Result, ok,
  err, if◌then◌else◌, Bool-cases, Option-cases, Result-cases, lookup, lookup-insert_self,
}
use ouvrier.Events.Redactor.{Redactor}
use ouvrier.State.Types.{
  Error, Context, check_context, checked-keeps, pending, succeeded, failed, IdempotencyOutcome,
  IdempotencyRecord, MemoryStore, ToolIntent,
}
use ouvrier.State.Idempotency.{resolve_args}
use ouvrier.State.Idempotency.History.{resolved, settled as resolved_as}
use ouvrier.State.Journal.{
  begin_args, begin_tool_intent, complete_args, complete_tool_intent, complete_locked, intent_of,
}
use ouvrier.Tools.{
  Called, ToolResult, Claim, execute_with_retry, settled_outcome, settle_idempotency,
}
use ouvrier.Tools.Definite.{unstopped, handler_calls_answer}
use ouvrier.Tools.Permission.{Registered, ToolCall}
use ouvrier.Tools.Execution.{
  Surroundings, IntentScope, Ran, completed, intent_for, intent_scope_of, after_retries,
  after_begin, execute_with_intent, settle,
}
use ouvrier.Tools.Execution.Intents.{intent_open_while_unknown}

-- What a result settles its claim as.
abbrev pub outcome_of : ToolResult → IdempotencyOutcome
outcome_of a = if a.is_error then failed else succeeded

module _ (c : Claim) (now : ℕ) (row : IdempotencyRecord) (ctx : Context)
    (can_succeed : resolve_args ctx c.key c.exec_id succeeded ≡ ok tt)
    (can_fail : resolve_args ctx c.key c.exec_id failed ≡ ok tt) where
  may_resolve : (a : ToolResult) → resolve_args ctx c.key c.exec_id (outcome_of a) ≡ ok tt
  may_resolve a = elim (Bool-cases a.is_error) [ inl e ↦ rw e can_fail | inr e ↦ rw e can_succeed ]

  decided : (a : ToolResult) → settled_outcome (ok a) ≡ some (outcome_of a)
  unfolding settled_outcome
  decided a = elim (Bool-cases a.is_error) [ inl e ↦ rw e | inr e ↦ rw e ]

  settles :
      (a : ToolResult) (s : MemoryStore)
      → lookup c.key s.idempotency ≡ some row
      → row.outcome ≡ pending
      → row.exec_id ≡ c.exec_id
      → settle_idempotency ctx (some c) (ok a) now s
        ≡ (none, resolved_as c.key (outcome_of a) now row s)
  unfolding settle_idempotency
  settles a s held waiting own =
      let valid : resolve_args ctx c.key row.exec_id (outcome_of a) ≡ ok tt =
        rw own (may_resolve a) in
      rw
        (
          settle_idempotency,
          decided a,
          sym own,
          resolved ctx c.key (outcome_of a) now row s held waiting valid,
        )
        refl

begin-frame :
    (redactor : Redactor) (ctx : Context) (i : ToolIntent) (now : ℕ) (s : MemoryStore)
    → (begin_tool_intent redactor ctx i now s).1.idempotency ≡ s.idempotency
unfolding begin_tool_intent
begin-frame redactor ctx i now s =
    checked-keeps (λ t. t.idempotency ≡ s.idempotency) (begin_args redactor ctx i now) _ s refl
      (λ j. refl)

complete-frame :
    (ctx : Context) (e t : String) (now : ℕ) (s : MemoryStore)
    → (complete_tool_intent ctx e t now s).1.idempotency ≡ s.idempotency
unfolding complete_tool_intent complete_locked
complete-frame ctx e t now s =
    checked-keeps (λ t. t.idempotency ≡ s.idempotency) (complete_args ctx e t) _ s refl
      (λ key. elim (Option-cases (intent_of key.0 key.1 s)) [
        | inl none_there ↦ rw (complete_locked, none_there)
        | inr (i, there) ↦ rw (complete_locked, there)
      ])

module _ (redactor : Redactor) (key_of : String → String → String → String → Option String)
    (digest : String → String → String) where
  completed-frame :
      (r : Called) (n : ℕ) (x : Result Error (Unit {0}) × MemoryStore)
      → (completed redactor key_of digest (r, n) x).2.idempotency ≡ x.1.idempotency
  completed-frame r n (ok _, s) = refl
  completed-frame r n (err e, s) = refl

  after_retries-frame :
      (env : Surroundings) (scope : IntentScope) (call : ToolCall) (answer : Called × ℕ)
      (s : MemoryStore)
      → (after_retries redactor key_of digest env scope call answer s).2.idempotency ≡ s.idempotency
  after_retries-frame env scope call (err e, n) s = refl
  after_retries-frame env scope call (ok a, n) s =
      completed-frame (ok a) n _
      ∙ complete-frame env.at_complete.0 scope.exec_id call.id env.at_complete.1 s

  after_begin-frame :
      (env : Surroundings) (scope : IntentScope) (r : Registered) (call : ToolCall)
      (x : Result Error (Unit {0}) × MemoryStore)
      → (after_begin redactor key_of digest env scope r call x).2.idempotency ≡ x.1.idempotency
  after_begin-frame env scope r call (err e, s) = refl
  after_begin-frame env scope r call (ok _, s) =
      after_retries-frame env scope call (execute_with_retry r.tool.effect env.retry) s

  module _ (env : Surroundings) (r : Registered) (call : ToolCall) (s : MemoryStore) where
    abbrev ran : Ran redactor key_of digest
    ran = execute_with_intent redactor key_of digest env r call s

    ran-frame : ran.2.idempotency ≡ s.idempotency
    unfolding execute_with_intent
    ran-frame = elim (Option-cases (intent_scope_of redactor key_of digest env r)) [
      | inl without ↦ rw (without, execute_with_intent) refl
      | inr (scope, there) ↦
          rw (there, execute_with_intent)
            (after_begin-frame env scope r call _
              ∙ begin-frame redactor env.at_begin.0
                  (intent_for redactor key_of digest env scope r call) env.at_begin.1 s)
    ]

    ran_answers :
        (max : ℕ) (body : ℕ → Called)
        → env.retry ≡ unstopped max body
        → check_context env.at_complete.0 ≡ ok tt
        → (a : ToolResult) × (ran.0 ≡ ok a)
    unfolding execute_with_intent begin_tool_intent
    ran_answers max body handler alive =
        let (a, answered) = handler_calls_answer r.tool.effect max body in
        let retried : (execute_with_retry r.tool.effect env.retry).0 ≡ ok a =
          ap (λ y. (execute_with_retry r.tool.effect y).0) handler ∙ answered in
        elim (Option-cases (intent_scope_of redactor key_of digest env r)) [
          | inl without ↦ (a, rw (without, execute_with_intent) retried)
          | inr (scope, there) ↦
              let given = intent_for redactor key_of digest env scope r call in
              elim (Result-cases (begin_args redactor env.at_begin.0 given env.at_begin.1)) [
                | inl (x, bad) ↦ rw (there, execute_with_intent, bad) (_, refl)
                | inr (i, good) ↦
                    let bracketed =
                      intent_open_while_unknown redactor key_of digest env r call scope i s there
                        good alive in
                    (a, bracketed.0 ∙ retried)
              ]
        ]

  -- When a handler's call holds the claim of a pending key, and the contexts are still alive when its
  -- intent is completed and its claim is resolved, then, whatever the handler returns, also the
  -- error of a context that was cancelled in the middle of it, and however often it is retried, the
  -- call answers a result, and the key's record is resolved: as failed if that result is an error,
  -- and otherwise as succeeded. The retries have no observer or wait that stops them.
  pub handler_call_settles :
      (env : Surroundings) (r : Registered) (call : ToolCall) (c : Claim) (row : IdempotencyRecord)
      (max : ℕ) (body : ℕ → Called) (s : MemoryStore)
      → env.retry ≡ unstopped max body
      → lookup c.key s.idempotency ≡ some row
      → row.outcome ≡ pending
      → row.exec_id ≡ c.exec_id
      → check_context env.at_complete.0 ≡ ok tt
      → resolve_args env.at_settle.0 c.key c.exec_id succeeded ≡ ok tt
      → resolve_args env.at_settle.0 c.key c.exec_id failed ≡ ok tt
      → (a : ToolResult) × ((execute_with_intent redactor key_of digest env r call s).0 ≡ ok a)
        × (lookup c.key
              (settle redactor key_of digest env
                (some c)
                (execute_with_intent redactor key_of digest env r call s)).2.idempotency
            ≡ some (record row { outcome = outcome_of a; updated_at = env.at_settle.1 }))
  handler_call_settles env r call c row max body s handler held waiting own alive succeeds fails =
      let x = execute_with_intent redactor key_of digest env r call s in
      let (a, answered) = ran_answers env r call s max body handler alive in
      let kept = ap (lookup c.key) (ran-frame env r call s) ∙ held in
      let t = x.2 in
      let final = record row { outcome = outcome_of a; updated_at = env.at_settle.1 } in
      let done =
        settles c env.at_settle.1 row env.at_settle.0 succeeds fails a t kept waiting own in
      (a, answered, rw (answered, done) (lookup-insert_self c.key final t.idempotency))
