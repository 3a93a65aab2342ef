-- ===== src/Tools/Execution/Intents.antt =====
-- The intent of a call stays open exactly while the outcome of the call is unknown.
use ouvrier.Base.{ℕ, String, ◌≡◌, refl, Option, some, eq_string, eq_nat, Result, ok, err}
use ouvrier.Events.Redactor.{Redactor}
use ouvrier.State.Types.{Error, Context, check_context, ToolIntent, MemoryStore}
use ouvrier.State.Journal.{begin_args, complete_args, begin_tool_intent, intent_of}
use ouvrier.State.Journal.Intents.{begins, completes, begun-completes}
use ouvrier.Tools.{Called, ToolResult, execute_with_retry}
use ouvrier.Tools.Permission.{Registered, ToolCall}
use ouvrier.Tools.Execution.{
  Surroundings, IntentScope, Ran, completed, intent_for, intent_scope_of, after_retries,
  after_begin, execute_with_intent,
}

module _ (redactor : Redactor) (key_of : String → String → String → String → Option String)
    (digest : String → String → String) where
  -- The intent is open beside an error, and completed beside an answer.
  abbrev pub IsSettledIntent : ToolIntent → (now : ℕ) → Called → MemoryStore → Type 0
  IsSettledIntent i now (ok a) s =
      intent_of i.exec_id i.tool_call_id s ≡ some (record i { completed_at = now })
  IsSettledIntent i now (err e) s =
      intent_of i.exec_id i.tool_call_id s ≡ some (record i { completed_at = 0 })

  -- What the execution of the retries leaves, with the intent i.
  abbrev pub IsBracketed : ToolIntent → (now : ℕ) → Called × ℕ → Ran redactor key_of digest → Type 0
  IsBracketed i now answer x = (x.0 ≡ answer.0) × (x.1 ≡ answer.1) × IsSettledIntent i now x.0 x.2

  completed-IsBracketed :
      (i : ToolIntent) (now : ℕ) (a : ToolResult) (n : ℕ)
      (x : Result Error (Unit {0}) × MemoryStore)
      → x.0 ≡ ok tt
      → intent_of i.exec_id i.tool_call_id x.1 ≡ some (record i { completed_at = now })
      → IsBracketed i now (ok a, n) (completed redactor key_of digest (ok a, n) x)
  completed-IsBracketed i now a n (ok _, s) fine held = (refl, refl, held)
  completed-IsBracketed i now a n (err e, s) fine held = absurd (cc)

  after_retries-IsBracketed :
      (env : Surroundings) (scope : IntentScope) (call : ToolCall) (i : ToolIntent)
      (answer : Called × ℕ) (s : MemoryStore)
      → intent_of i.exec_id i.tool_call_id s ≡ some (record i { completed_at = 0 })
      → complete_args env.at_complete.0 scope.exec_id call.id ≡ ok (i.exec_id, i.tool_call_id)
      → IsBracketed i env.at_complete.1 answer
          (after_retries redactor key_of digest env scope call answer s)
  after_retries-IsBracketed env scope call i (err e, n) s held valid = (refl, refl, held)
  after_retries-IsBracketed env scope call i (ok a, n) s held valid =
      let closed =
        completes env.at_complete.0 scope.exec_id call.id i.exec_id i.tool_call_id
          (record i { completed_at = 0 }) env.at_complete.1 s held valid in
      completed-IsBracketed i env.at_complete.1 a n _ closed.0 closed.1

  after_begin-IsBracketed :
      (env : Surroundings) (scope : IntentScope) (r : Registered) (call : ToolCall) (i : ToolIntent)
      (x : Result Error (Unit {0}) × MemoryStore)
      → x.0 ≡ ok tt
      → intent_of i.exec_id i.tool_call_id x.1 ≡ some (record i { completed_at = 0 })
      → complete_args env.at_complete.0 scope.exec_id call.id ≡ ok (i.exec_id, i.tool_call_id)
      → IsBracketed i env.at_complete.1
          (execute_with_retry r.tool.effect env.retry)
          (after_begin redactor key_of digest env scope r call x)
  after_begin-IsBracketed env scope r call i (ok _, s) fine held valid =
      after_retries-IsBracketed env scope call i (execute_with_retry r.tool.effect env.retry) s held
        valid
  after_begin-IsBracketed env scope r call i (err e, s) fine held valid = absurd (cc)

  begin_answers :
      (ctx : Context) (i j : ToolIntent) (now : ℕ) (s : MemoryStore)
      → begin_args redactor ctx i now ≡ ok j
      → (begin_tool_intent redactor ctx i now s).0 ≡ ok tt
  unfolding begin_tool_intent
  begin_answers ctx i j now s valid = rw valid

  -- A call with an intent recorder, of a tool that is not read-only, answers what its retries answer
  -- and, if the intent can be written and the context is still alive for its completion, leaves the
  -- intent open in the store exactly when that answer is an error, and otherwise completed.
  pub intent_open_while_unknown :
      (env : Surroundings) (r : Registered) (call : ToolCall) (scope : IntentScope) (i : ToolIntent)
      (s : MemoryStore)
      → intent_scope_of redactor key_of digest env r ≡ some scope
      → begin_args redactor env.at_begin.0
          (intent_for redactor key_of digest env scope r call)
          env.at_begin.1
        ≡ ok i
      → check_context env.at_complete.0 ≡ ok tt
      → IsBracketed i env.at_complete.1
          (execute_with_retry r.tool.effect env.retry)
          (execute_with_intent redactor key_of digest env r call s)
  unfolding execute_with_intent
  intent_open_while_unknown env r call scope i s scoped valid alive =
      let given = intent_for redactor key_of digest env scope r call in
      rw (execute_with_intent, scoped)
        (after_begin-IsBracketed env scope r call i
          (begin_tool_intent redactor env.at_begin.0 given env.at_begin.1 s)
          (begin_answers env.at_begin.0 given i env.at_begin.1 s valid)
          (begins redactor env.at_begin.0 given i env.at_begin.1 s valid)
          (begun-completes redactor env.at_begin.0 env.at_complete.0 env.at_begin.1 given i valid
            alive))
