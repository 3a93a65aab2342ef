-- ===== src/Tools.antt =====
-- internal/tools: the execution of one tool call (executor.go, idempotency.go): retries, the
-- reservation of an idempotent call before it runs, and its settlement afterwards.
pub mod Retries
pub mod Settlement
pub mod Definite
pub mod Permission
pub mod Execution
mod Tests
use ouvrier.Base.{
  ℕ, String, Bool, true, false, not, ◌&&◌, ◌||◌, Option, none, some, eq_iff, eq_string, eq_nat,
  ◌==◌, Result, ok, err, if◌then◌else◌, leb, nat_eq, trim_space, zero, suc,
}
use ouvrier.Policy.{Effect, unset, side_effecting, read_only, idempotent, normalize_effect}
use ouvrier.State.Types.{
  Error, Context, IdempotencyOutcome, pending, succeeded, failed, IdempotencyRecord, MemoryStore,
}
use ouvrier.State.Idempotency.{reserve_idempotency, idempotency_record, resolve_idempotency}

-- What errors.Is finds below an error.
pub data Cause : Type 0 where
  cancelled deadline_exceeded another : Cause

-- An error of a call: `failure` if errors.As finds a toolExecutionFailure in it, `transient` if
-- provider.IsTransientError holds of it.
pub record CallError : Type 0 where
  pub cause : Cause
  pub failure : Bool
  pub transient : Bool
  pub message : String

-- provider.ToolResult, without the call's own id and name; the content before it is JSON.
pub record ToolResult : Type 0 where
  pub content : String
  pub is_error : Bool

abbrev pub Called : Type 0
Called = Result CallError ToolResult

abbrev pub error_result : CallError → ToolResult
error_result e = record { content = e.message; is_error = true }

-- invokeToolCall over a handler (Execute): whatever error the tool returns becomes a tool failure.
abbrev pub handler_result : Called → Called
handler_result (ok r) = ok r
handler_result (err e) = err (record e { failure = true })

abbrev pub retryable : Effect → Bool
retryable read_only = true
retryable idempotent = true
retryable _ = false

unfoldable pub should_retry_tool_call : Effect → Called → ℕ → ℕ → Bool
should_retry_tool_call effect (ok r) max_retries attempt = false
should_retry_tool_call effect (err e) max_retries attempt =
    if nat_eq max_retries 0 || leb max_retries attempt
    then false
    else if not e.transient
    then false
    else retryable (normalize_effect effect)

-- The retries of a call: what the n-th invocation returns, and what the observer and the wait
-- before it return, an error or nothing.
pub record Retry : Type 0 where
  pub max_retries : ℕ
  pub invoke : ℕ → Called
  pub observe : ℕ → Option CallError
  pub wait : ℕ → Option CallError

-- The loop's end: an error of the observer or the wait returns at once.
pub data LoopEnd : Type 0 where
  stopped : CallError → LoopEnd
  ended : Called → LoopEnd

-- The loop of executeWithRetry with the number of invocations so far. `fuel` bounds the rounds; the
-- attempt grows in each, and none is left at `max_retries`.
unfoldable pub retry_loop : (fuel attempt : ℕ) → Effect → Retry → Called → LoopEnd × ℕ
retry_loop zero attempt effect retry r = (ended r, suc attempt)
retry_loop (suc fuel) attempt effect retry r =
    let rest = retry_loop fuel (suc attempt) effect retry (retry.invoke (suc attempt)) in
    if not (should_retry_tool_call effect r retry.max_retries attempt)
    then (ended r, suc attempt)
    else elim (retry.observe attempt) [
      | some e ↦ (stopped e, suc attempt)
      | none ↦ elim (retry.wait attempt) [ some e ↦ (stopped e, suc attempt) | none ↦ rest ]
    ]

abbrev pub retry_end : LoopEnd → Called
retry_end (stopped e) = err e
retry_end (ended (ok r)) = ok r
retry_end (ended (err e)) = if e.failure then ok (error_result e) else err e

-- executeWithRetry, with the number of invocations.
unfoldable pub execute_with_retry : Effect → Retry → Called × ℕ
unfolding retry_loop should_retry_tool_call
execute_with_retry effect retry =
    let (final, n) = retry_loop retry.max_retries 0 effect retry (retry.invoke 0) in
    (retry_end final, n)

-- registeredTool, as far as a reservation reads it.
pub record Tool : Type 0 where
  pub name : String
  pub effect : Effect
  pub idempotency_key : String

-- idempotencyContext; the store is the one that the functions below pass on.
pub record Scope : Type 0 where
  pub exec_id : String
  pub namespace : String

pub record Claim : Type 0 where
  pub key : String
  pub exec_id : String

pub data Refusal : Type 0 where
  key_required store_required key_unresolved disappeared not_available : Refusal
  store_error : Error → Refusal
  succeeded_elsewhere still_pending : (owner : String) → Refusal
  unknown_outcome : String → Refusal

-- The answer of a reservation: skip the call, or run it, with the claim to settle.
pub data Reserved : Type 0 where
  skip : Reserved
  go : Option Claim → Reserved

-- The switch on the outcome of a key that was not granted.
unfoldable pub on_conflict : Bool → Scope → String → IdempotencyRecord → Result Refusal Reserved
on_conflict replay scope key r = elim r.outcome [
  | succeeded ↦ if r.exec_id == scope.exec_id then ok skip else err (succeeded_elsewhere r.exec_id)
  | pending ↦
      if r.exec_id == scope.exec_id && replay
      then ok (go (some (record { key = key; exec_id = scope.exec_id })))
      else err (still_pending r.exec_id)
  | failed ↦ err not_available
  | IdempotencyOutcome.other o ↦ err (unknown_outcome o)
]

abbrev after_read :
    Bool → Scope → String → Result Error (Option IdempotencyRecord) → Result Refusal Reserved
after_read replay scope key (err e) = err (store_error e)
after_read replay scope key (ok none) = err disappeared
after_read replay scope key (ok (some r)) = on_conflict replay scope key r

abbrev after_reserve :
    Bool
    → Context
    → Scope
    → String
    → Result Error (String × Bool)
    → MemoryStore
    → Result Refusal Reserved
after_reserve replay ctx scope key (err e) s = err (store_error e)
after_reserve replay ctx scope key (ok (owner, true)) s =
    ok (go (some (record { key = key; exec_id = scope.exec_id })))
after_reserve replay ctx scope key (ok (owner, false)) s =
    after_read replay scope key (idempotency_record ctx key s).0

-- reserveIdempotency over the in-memory store, which knows outcomes. `key_of` stands for
-- idempotencyReservationKeyInNamespace, a SHA-256 digest over decoded JSON: it takes the namespace,
-- the tool's name, the expression and the arguments.
module _ (key_of : String → String → String → String → Option String) where
  abbrev reserve_key :
      Bool → Context → Scope → String → ℕ → MemoryStore → Result Refusal Reserved × MemoryStore
  reserve_key replay ctx scope key now s =
      let (answer, t) = reserve_idempotency ctx key scope.exec_id now s in
      (after_reserve replay ctx scope key answer t, t)

  unfoldable pub reserve_tool_call :
      Bool
      → Context
      → Option Scope
      → Tool
      → String
      → ℕ
      → MemoryStore
      → Result Refusal Reserved × MemoryStore
  unfolding normalize_effect on_conflict
  reserve_tool_call replay ctx scope tool raw now s = elim (normalize_effect tool.effect) [
    | idempotent ↦
        if trim_space tool.idempotency_key == "" then (err key_required, s) else elim scope [
          | none ↦ (err store_required, s)
          | some sc ↦ elim (key_of sc.namespace tool.name (trim_space tool.idempotency_key) raw) [
            | none ↦ (err key_unresolved, s)
            | some key ↦ reserve_key replay ctx sc key now s
          ]
        ]
    | unset ↦ (ok (go none), s)
    | read_only ↦ (ok (go none), s)
    | side_effecting ↦ (ok (go none), s)
    | Effect.other _ ↦ (ok (go none), s)
  ]

-- The outcome that settleIdempotency resolves a claim with, or none to keep it pending.
unfoldable pub settled_outcome : Called → Option IdempotencyOutcome
settled_outcome (ok r) = if r.is_error then some failed else some succeeded
settled_outcome (err e) = elim e.cause [
  | cancelled ↦ none
  | deadline_exceeded ↦ none
  | another ↦ if e.failure then some failed else none
]

-- settleIdempotency: the error that is joined to the call's own, and the store.
unfoldable pub settle_idempotency :
    Context → Option Claim → Called → ℕ → MemoryStore → Option Error × MemoryStore
unfolding settled_outcome
settle_idempotency ctx none r now s = (none, s)
settle_idempotency ctx (some c) r now s = elim (settled_outcome r) [
  | none ↦ (none, s)
  | some o ↦
      let (answer, t) = resolve_idempotency ctx c.key c.exec_id o now s in
      (elim answer [ ok _ ↦ none | err e ↦ some e ], t)
]
