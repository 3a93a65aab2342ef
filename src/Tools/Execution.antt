-- ===== src/Tools/Execution.antt =====
-- internal/tools: one tool call as a whole (executor.go, Execute and executeWithIntent; intent.go),
-- over the in-memory store. The recorder of intents is that of durable_runs.go, which writes them to
-- the store. The deferred recover of Execute is not modelled; a panic of the tool is one of the
-- errors that its invocation returns. An error result says which write failed, not the text of the
-- store's error.
pub mod Intents
pub mod Gate
pub mod Settled
mod Tests
use ouvrier.Policy.{Effect, unset, side_effecting, read_only, idempotent, normalize_effect}
use ouvrier.Base.{
  ℤ, ℕ, String, Bool, true, false, Option, none, some, eq_iff, eq_string, eq_nat, ◌==◌, Result, ok,
  err, ◌>>=◌, ◌>>◌, if◌then◌else◌, Map, lookup, trim_space,
}
use ouvrier.Events.Redactor.{Redactor}
use ouvrier.State.Types.{
  Error, context_cancelled, context_deadline_exceeded, Context, check_context, ToolIntent,
  MemoryStore,
}
use ouvrier.State.Journal.{begin_tool_intent, complete_tool_intent}
use ouvrier.Tools.{
  Cause, cancelled, deadline_exceeded, another, CallError, ToolResult, Called, Retry,
  execute_with_retry, Scope, Claim, Refusal, Reserved, skip, go, reserve_tool_call,
  settle_idempotency,
}
use ouvrier.Tools.Permission.{
  Registered, ToolCall, CallContext, PermissionError, Permission, permitted, denied, halted,
  PermissionPolicy, intent_key, authorize_tool_call,
}

abbrev cause_of : Error → Cause
cause_of context_cancelled = cancelled
cause_of context_deadline_exceeded = deadline_exceeded
cause_of _ = another

-- An error of the store, wrapped with a message.
abbrev pub store_failure : String → Error → CallError
store_failure message e = record {
  cause = cause_of e;
  failure = false;
  transient = false;
  message = message;
}

abbrev pub effect_name : Effect → String
effect_name unset = ""
effect_name side_effecting = "side_effecting"
effect_name read_only = "read_only"
effect_name idempotent = "idempotent"
effect_name (Effect.other s) = s

-- toolIntentContextValue, with a recorder over the store
pub record IntentScope : Type 0 where
  pub exec_id : String
  pub step_index : ℤ

-- What an execution reads of its surroundings: the contexts at each of its writes with the clock's
-- reading there, the observed retries and the scopes that the context carries.
pub record Surroundings : Type 0 where
  pub at_entry : Context
  pub at_reserve : Context × ℕ
  pub at_begin : Context × ℕ
  pub at_complete : Context × ℕ
  pub at_settle : Context × ℕ
  pub approvals : CallContext
  pub replay : Bool
  pub idempotency_scope : Option Scope
  pub intent_scope : Option IntentScope
  pub retry : Retry

pub data ToolError : Type 0 where
  context_error : Error → ToolError
  call_id_required call_name_required tool_not_found : ToolError
  permission_error : PermissionError → ToolError
  call_error : CallError → ToolError
  settle_error : Option CallError → Error → ToolError

-- ToolCall.Validate
unfoldable pub validate_call : ToolCall → Option ToolError
validate_call call =
    if trim_space call.id == ""
    then some call_id_required
    else if trim_space call.name == ""
    then some call_name_required
    else none

-- The error result, of an error by its message.
abbrev pub refusal : String → ToolResult
refusal message = record { content = message; is_error = true }

module _ (redactor : Redactor) (key_of : String → String → String → String → Option String)
    (digest : String → String → String) where
  abbrev pub namespace_of : Option Scope → String
  namespace_of none = ""
  namespace_of (some scope) = scope.namespace

  abbrev pub intent_for : Surroundings → IntentScope → Registered → ToolCall → ToolIntent
  intent_for env scope r call = record {
    exec_id = scope.exec_id;
    tool_call_id = call.id;
    step_index = scope.step_index;
    tool_name = r.tool.name;
    effect = effect_name (normalize_effect r.tool.effect);
    idem_key = intent_key key_of digest (namespace_of env.idempotency_scope) r.tool call;
    started_at = 0;
    completed_at = 0;
  }

  -- toolIntentFromContext, and the return of beginToolIntent for a read-only tool: the scope of the
  -- intent to record, or none.
  unfoldable pub intent_scope_of : Surroundings → Registered → Option IntentScope
  unfolding normalize_effect
  intent_scope_of env r = elim env.intent_scope [
    | none ↦ none
    | some scope ↦ if scope.exec_id == "" then none else elim (normalize_effect r.tool.effect) [
      | read_only ↦ none
      | unset ↦ some scope
      | side_effecting ↦ some scope
      | idempotent ↦ some scope
      | Effect.other _ ↦ some scope
    ]
  ]

  -- What the body of a call leaves: its answer, how often the tool ran, and the store.
  abbrev pub Ran : Type 0
  Ran = Called × ℕ × MemoryStore

  abbrev pub completed : Called × ℕ → Result Error (Unit {0}) × MemoryStore → Ran
  completed (r, n) (ok _, s) = (r, n, s)
  completed (r, n) (err e, s) = (err (store_failure "complete tool intent" e), n, s)

  -- After the retries, with an open intent: only an answer without an error completes it.
  abbrev pub after_retries : Surroundings → IntentScope → ToolCall → Called × ℕ → MemoryStore → Ran
  after_retries env scope call (err e, n) s = (err e, n, s)
  after_retries env scope call (ok a, n) s =
      completed (ok a, n)
        (complete_tool_intent env.at_complete.0 scope.exec_id call.id env.at_complete.1 s)

  abbrev pub after_begin :
      Surroundings
      → IntentScope
      → Registered
      → ToolCall
      → Result Error (Unit {0}) × MemoryStore
      → Ran
  after_begin env scope r call (err e, s) = (ok (refusal "record tool intent"), 0, s)
  after_begin env scope r call (ok _, s) =
      after_retries env scope call (execute_with_retry r.tool.effect env.retry) s

  -- executeWithIntent
  unfoldable pub execute_with_intent : Surroundings → Registered → ToolCall → MemoryStore → Ran
  unfolding intent_scope_of
  execute_with_intent env r call s = elim (intent_scope_of env r) [
    | none ↦ let (answer, n) = execute_with_retry r.tool.effect env.retry in (answer, n, s)
    | some scope ↦
        after_begin env scope r call
          (begin_tool_intent redactor env.at_begin.0 (intent_for env scope r call) env.at_begin.1 s)
  ]

  -- The result of Execute, how often the tool ran, and the store.
  abbrev pub Executed : Type 0
  Executed = Result ToolError ToolResult × ℕ × MemoryStore

  abbrev error_of : Called → Option CallError
  error_of (ok a) = none
  error_of (err e) = some e

  abbrev settled : Called → Option Error → Result ToolError ToolResult
  settled r (some e) = err (settle_error (error_of r) e)
  settled (ok a) none = ok a
  settled (err e) none = err (call_error e)

  abbrev pub settle : Surroundings → Option Claim → Ran → Executed
  settle env claim (r, n, s) =
      let (problem, t) = settle_idempotency env.at_settle.0 claim r env.at_settle.1 s in
      (settled r problem, n, t)

  abbrev pub duplicate_result : ToolResult
  duplicate_result = record {
    content = "duplicate idempotent call skipped: already performed by this execution";
    is_error = false;
  }

  abbrev pub after_reservation :
      Surroundings → Registered → ToolCall → Result Refusal Reserved × MemoryStore → Executed
  after_reservation env r call (err e, s) = (ok (refusal "reserve idempotency key"), 0, s)
  after_reservation env r call (ok skip, s) = (ok duplicate_result, 0, s)
  after_reservation env r call (ok (go claim), s) =
      settle env claim (execute_with_intent env r call s)

  -- What comes after the permission; `prepared` is the error of validateToolArguments or of
  -- buildCallArgs, which run a JSON schema and reflection.
  abbrev pub after_permission :
      Surroundings → Option String → Registered → ToolCall → Permission → MemoryStore → Executed
  after_permission env prepared r call (denied reason) s = (ok (refusal reason), 0, s)
  after_permission env prepared r call (halted e) s = (err (permission_error e), 0, s)
  after_permission env (some message) r call permitted s = (ok (refusal message), 0, s)
  after_permission env none r call permitted s = after_reservation env r call (
      reserve_tool_call key_of env.replay env.at_reserve.0 env.idempotency_scope r.tool
        call.arguments env.at_reserve.1 s)

  abbrev pub after_lookup :
      Surroundings
      → PermissionPolicy
      → (Registered → Option String)
      → ToolCall
      → Option Registered
      → MemoryStore
      → Executed
  after_lookup env policy prepare call none s = (err tool_not_found, 0, s)
  after_lookup env policy prepare call (some r) s =
      let (permission, t) =
        authorize_tool_call key_of digest (namespace_of env.idempotency_scope) env.approvals policy
          r call s in
      after_permission env (prepare r) r call permission t

  abbrev pub after_checks :
      Result Error (Unit {0}) → Option ToolError → Executed → MemoryStore → Executed
  after_checks (err e) _ rest s = (err (context_error e), 0, s)
  after_checks (ok _) (some e) rest s = (err e, 0, s)
  after_checks (ok _) none rest s = rest

  unfoldable pub execute :
      Surroundings
      → PermissionPolicy
      → (Registered → Option String)
      → Map String Registered
      → ToolCall
      → MemoryStore
      → Executed
  unfolding check_context validate_call
  execute env policy prepare tools call s =
      after_checks (check_context env.at_entry) (validate_call call)
        (after_lookup env policy prepare call (lookup call.name tools) s) s
