-- ===== src/Tools/Permission.antt =====
-- internal/tools/permission.go, with what it reads of approval.go, options.go and intent.go: whether
-- a tool call may run, is denied, or is suspended until a person approves it.
pub mod Gated
use ouvrier.Base.{
  String, Bool, true, false, not, ◌||◌, Option, none, some, List, eq_iff, eq_string, eq_nat, ◌==◌,
  Result, ok, err, ◌>>=◌, ◌>>◌, if◌then◌else◌, trim_space,
}
use ouvrier.Policy.{
  Effect, side_effecting, read_only, idempotent, unset, normalize_effect, Action, ActionKind,
  tool_call, Decision,
}
use ouvrier.State.Types.{MemoryStore}
use ouvrier.Tools.{Tool}

-- registeredTool with the metadata that the gate reads. An ActionKind or kind may be the empty text.
pub record Registered : Type 0 where
  pub tool : Tool
  pub action_kind : ActionKind
  pub kind : String
  pub target : String
  pub side_effects : List String
  pub requires_approval : Bool

pub record ToolCall : Type 0 where
  pub id : String
  pub name : String
  pub arguments : String

pub record ApprovalContext : Type 0 where
  pub exec_id : String
  pub session_id : String
  pub trace_id : String

pub record ApprovalRequest : Type 0 where
  pub context : ApprovalContext
  pub tool_name : String
  pub tool_call_id : String
  pub tool_kind : String
  pub effect : Effect
  pub reason : String
  pub args_hash : String

-- SuspendedError
pub record Suspension : Type 0 where
  pub approval_id : String
  pub exec_id : String
  pub tool_name : String
  pub tool_call_id : String

-- PermissionDecisionAudit; an error is its message.
pub record Audit : Type 0 where
  pub action : Action
  pub decision : Decision
  pub error : Option String

-- An ApprovalGate, by what it answers and does to the store that the harness shares with it, and its
-- context.
pub record Gate : Type 0 where
  pub record_pending : ApprovalRequest → MemoryStore → Result String String × MemoryStore
  pub gate_context : ApprovalContext

-- approvedApprovalContextValue
pub record Approved : Type 0 where
  pub approval_id : String
  pub tool_call_id : String

-- The values of the context: the approved call, the resolver of a replay, the gate, and what the
-- observer answers for an audit, an error or nothing.
pub record CallContext : Type 0 where
  pub approved : Option Approved
  pub resolver : Option (String → String → Option String)
  pub gate : Option Gate
  pub observe : Audit → Option String

pub data PermissionError : Type 0 where
  observer_failed : String → PermissionError
  policy_failed : String → (observer : Option String) → PermissionError
  record_failed : String → (observer : Option String) → PermissionError
  awaiting : Suspension → PermissionError

-- The three results of authorizeToolCall: the call may run, it is answered with an error result, or
-- an error ends the run.
pub data Permission : Type 0 where
  permitted : Permission
  denied : (reason : String) → Permission
  halted : PermissionError → Permission

-- PermissionPolicy.Authorize, with both results.
abbrev pub PermissionPolicy : Type 0
PermissionPolicy = Action → Decision × Option String

abbrev effective_kind : ActionKind → ActionKind
effective_kind (ActionKind.other k) = if k == "" then tool_call else ActionKind.other k
effective_kind k = k

unfoldable pub action_of : Registered → ToolCall → Action
unfolding normalize_effect
action_of r call = record {
  kind = effective_kind r.action_kind;
  tool_name = r.tool.name;
  tool_call_id = call.id;
  tool_kind = r.kind;
  target = r.target;
  effect = normalize_effect r.tool.effect;
  idempotency_key = r.tool.idempotency_key;
  side_effects = r.side_effects;
  requires_approval = r.requires_approval;
}

abbrev pub approved_for : String → Option Approved → Option String
approved_for id none = none
approved_for id (some a) =
    if id == "" || (not (a.tool_call_id == id) || a.approval_id == "")
    then none
    else some a.approval_id

-- approvedApprovalFromContext
unfoldable pub approved_approval : CallContext → String → Option String
approved_approval ctx id = approved_for id ctx.approved

-- An error of the observer, or the permission that it leaves.
abbrev pub observed : Option String → Permission → Permission
observed none p = p
observed (some e) p = halted (observer_failed e)

abbrev pub approval_decision : String → String → Decision
approval_decision id reason = record {
  allowed = true;
  reason = reason;
  suspended = false;
  approval_id = id;
}

-- `key_of` stands for idempotencyReservationKeyInNamespace and `digest` for the SHA-256 digest over
-- the tool's name and the raw arguments.
module _ (key_of : String → String → String → String → Option String)
    (digest : String → String → String) (namespace : String) where
  abbrev or_digest : Tool → ToolCall → Option String → String
  or_digest tool call none = digest tool.name call.arguments
  or_digest tool call (some key) = key

  -- toolIntentIdemKey
  unfoldable pub intent_key : Tool → ToolCall → String
  unfolding normalize_effect
  intent_key tool call = elim (normalize_effect tool.effect) [
    | idempotent ↦
        if trim_space tool.idempotency_key == ""
        then digest tool.name call.arguments
        else or_digest tool call
            (key_of namespace tool.name (trim_space tool.idempotency_key) call.arguments)
    | unset ↦ digest tool.name call.arguments
    | read_only ↦ digest tool.name call.arguments
    | side_effecting ↦ digest tool.name call.arguments
    | Effect.other _ ↦ digest tool.name call.arguments
  ]

  abbrev pub suspension : Action → ApprovalContext → String → Suspension
  suspension a c id = record {
    approval_id = id;
    exec_id = c.exec_id;
    tool_name = a.tool_name;
    tool_call_id = a.tool_call_id;
  }

  abbrev approval_reason : String
  approval_reason = "tool requires explicit approval"

  abbrev pub waiting_decision : Bool → String → Decision
  waiting_decision suspended id = record {
    allowed = false;
    reason = approval_reason;
    suspended = suspended;
    approval_id = id;
  }

  abbrev pub after_record : CallContext → Gate → Action → Result String String → Permission
  after_record ctx gate a (err e) = halted (
      record_failed e
        (ctx.observe (record { action = a; decision = waiting_decision false ""; error = some e })))
  after_record ctx gate a (ok id) =
      observed
        (ctx.observe (record { action = a; decision = waiting_decision true id; error = none }))
        (halted (awaiting (suspension a gate.gate_context id)))

  abbrev pub request : Gate → Registered → Action → ToolCall → ApprovalRequest
  request gate r a call = record {
    context = gate.gate_context;
    tool_name = a.tool_name;
    tool_call_id = a.tool_call_id;
    tool_kind = a.tool_kind;
    effect = a.effect;
    reason = approval_reason;
    args_hash = intent_key r.tool call;
  }

  -- suspendForApproval
  unfoldable pub suspend_for_approval :
      CallContext → Gate → Registered → Action → ToolCall → MemoryStore → Permission × MemoryStore
  unfolding intent_key
  suspend_for_approval ctx gate r a call s =
      let (answer, t) = gate.record_pending (request gate r a call) s in
      (after_record ctx gate a answer, t)

  abbrev reason_or : String → String → String
  reason_or default reason = if trim_space reason == "" then default else reason

  abbrev gate_context_of : Option Gate → ApprovalContext
  gate_context_of none = record { exec_id = ""; session_id = ""; trace_id = "" }
  gate_context_of (some gate) = gate.gate_context

  -- What a decision of the policy that has no error means.
  abbrev pub decided : CallContext → Action → Decision → Permission
  decided ctx a d =
      if d.allowed
      then permitted
      else if d.suspended
      then (if trim_space d.approval_id == ""
          then denied (reason_or "suspended permission decision requires an approval id" d.reason)
          else halted
              (awaiting (suspension a (gate_context_of ctx.gate) (trim_space d.approval_id))))
      else denied (reason_or "permission denied" d.reason)

  abbrev pub after_policy : CallContext → Action → Decision × Option String → Permission
  after_policy ctx a (d, some e) =
      halted (policy_failed e (ctx.observe (record { action = a; decision = d; error = some e })))
  after_policy ctx a (d, none) =
      observed (ctx.observe (record { action = a; decision = d; error = none })) (decided ctx a d)

  abbrev pub with_approval : CallContext → Action → String → String → Permission
  with_approval ctx a id reason =
      observed
        (ctx.observe (record { action = a; decision = approval_decision id reason; error = none }))
        permitted

  -- The resolver's answer for the call, of a resolver that is there.
  abbrev pub resolved_approval : CallContext → Registered → ToolCall → Option String
  resolved_approval ctx r call = elim ctx.resolver [
    | none ↦ none
    | some resolver ↦ resolver r.tool.name (intent_key r.tool call)
  ]

  -- A call that requires approval: the approval of the context, that of the resolver, the gate, and
  -- without any of these the policy.
  unfoldable pub by_approval :
      CallContext
      → Registered
      → ToolCall
      → (of_context of_resolver : Option String) → Option Gate
      → Permission
      → MemoryStore
      → Permission × MemoryStore
  unfolding action_of suspend_for_approval
  by_approval ctx r call (some id) _ _ by_policy s =
      (with_approval ctx (action_of r call) id "approval approved", s)
  by_approval ctx r call none (some id) _ by_policy s =
      (with_approval ctx (action_of r call) id "approval approved before recovery", s)
  by_approval ctx r call none none (some gate) by_policy s =
      suspend_for_approval ctx gate r (action_of r call) call s
  by_approval ctx r call none none none by_policy s = (by_policy, s)

  unfoldable pub authorize_tool_call :
      CallContext
      → PermissionPolicy
      → Registered
      → ToolCall
      → MemoryStore
      → Permission × MemoryStore
  unfolding action_of approved_approval by_approval
  authorize_tool_call ctx policy r call s =
      let by_policy = after_policy ctx (action_of r call) (policy (action_of r call)) in
      if r.requires_approval
      then by_approval ctx r call (approved_approval ctx call.id) (resolved_approval ctx r call)
          ctx.gate by_policy s
      else (by_policy, s)
