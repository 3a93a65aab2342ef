-- ===== src/Tools/Execution/Gate.antt =====
-- Execute runs no tool that was not permitted.
use mathlib.Core.Path.{subst}
use ouvrier.Base.{
  ◌<◌, String, ◌≡◌, ◌⊎◌, refl, true, Option, none, some, arith, eq_string, eq_nat, Result, ok, err,
  Map, lookup,
}
use ouvrier.Events.Redactor.{Redactor}
use ouvrier.State.Types.{Error, MemoryStore, check_context}
use ouvrier.Tools.Permission.{
  Registered, ToolCall, Permission, permitted, denied, halted, PermissionPolicy,
  authorize_tool_call, action_of,
}
use ouvrier.Tools.Permission.Gated.{IsApproved, AllowsCall, gated_call-IsApproved}
use ouvrier.Tools.Execution.{
  Surroundings, ToolError, Executed, namespace_of, after_checks, after_permission, after_lookup,
  validate_call, execute,
}

module _ (redactor : Redactor) (key_of : String → String → String → String → Option String)
    (digest : String → String → String) where
  -- The answer of the gate for a call in its surroundings, and the store.
  abbrev permission_of :
      Surroundings
      → PermissionPolicy
      → Registered
      → ToolCall
      → MemoryStore
      → Permission × MemoryStore
  permission_of env policy r call s =
      authorize_tool_call key_of digest (namespace_of redactor key_of digest env.idempotency_scope)
        env.approvals policy r call s

  permission_runs :
      (env : Surroundings) (prepared : Option String) (r : Registered) (call : ToolCall)
      (p : Permission) (s : MemoryStore)
      → 0 < (after_permission redactor key_of digest env prepared r call p s).1
      → p ≡ permitted
  permission_runs env prepared r call (denied reason) s h = absurd (omega (arith, h))
  permission_runs env prepared r call (halted e) s h = absurd (omega (arith, h))
  permission_runs env prepared r call permitted s h = refl

  checks_run :
      (checks : Result Error (Unit {0})) (invalid : Option ToolError)
      (rest : Executed redactor key_of digest) (s : MemoryStore)
      → 0 < (after_checks redactor key_of digest checks invalid rest s).1
      → after_checks redactor key_of digest checks invalid rest s ≡ rest
  checks_run (err e) invalid rest s h = absurd (omega (arith, h))
  checks_run (ok _) (some e) rest s h = absurd (omega (arith, h))
  checks_run (ok _) none rest s h = refl

  -- Whenever Execute runs a tool that requires approval, even once, the context carried the approval
  -- of this very call, or the resolver of a replay knew one for it, or no gate was installed and the
  -- policy allowed the action: whatever the store, the retries and the contexts.
  pub executed_call-IsApproved :
      (env : Surroundings) (policy : PermissionPolicy) (prepare : Registered → Option String)
      (tools : Map String Registered) (call : ToolCall) (r : Registered) (s : MemoryStore)
      → lookup call.name tools ≡ some r
      → r.requires_approval ≡ true
      → 0 < (execute redactor key_of digest env policy prepare tools call s).1
      → IsApproved key_of digest
          (namespace_of redactor key_of digest env.idempotency_scope)
          env.approvals
          r
          call
        ⊎ ((env.approvals.gate ≡ none)
            × AllowsCall key_of digest
                (namespace_of redactor key_of digest env.idempotency_scope)
                policy
                (action_of r call))
  unfolding execute
  executed_call-IsApproved env policy prepare tools call r s found required ran =
      let namespace = namespace_of redactor key_of digest env.idempotency_scope in
      let rest =
        after_lookup redactor key_of digest env policy prepare call (lookup call.name tools) s in
      let same = checks_run (check_context env.at_entry) (validate_call call) rest s ran in
      let ran' : 0 < rest.1 = subst (λ x. 0 < x.1) same ran in
      gated_call-IsApproved key_of digest namespace env.approvals policy r call s required (
        permission_runs env (prepare r) r call (permission_of env policy r call s).0
          (permission_of env policy r call s).1 (rw found at ran'))
