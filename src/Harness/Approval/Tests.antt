-- ===== src/Harness/Approval/Tests.antt =====
-- A mail that requires approval, and the theorem of this folder at a concrete input.
use ouvrier.Base.{
  String, ◌≡◌, refl, true, false, Option, none, some, [], ◌∷◌, eq_string, eq_nat, ok, Map, lookup,
  trim_space,
}
use ouvrier.Policy.{side_effecting, tool_call}
use ouvrier.Events.Redactor.{Redactor}
use ouvrier.State.Types.{Error, live, check_context, new_memory_store, MemoryStore}
use ouvrier.Tools.{Retry}
use ouvrier.Tools.Permission.{
  Registered, ToolCall, ApprovalContext, PermissionPolicy, approved_approval, intent_key,
}
use ouvrier.Tools.Execution.{Surroundings, validate_call, execute}
use ouvrier.Harness.Approval.{approval_gate}
use ouvrier.Harness.Approval.Waiting.{IsStored, IsBeside, suspended_call_waits}
use ouvrier.Policy.{normalize_effect}

abbrev plain : Redactor
plain = record { redact_text = λ s. s; redact_json_text = λ s. s }

abbrev no_key : String → String → String → String → Option String
no_key _ _ _ _ = none

abbrev digest : String → String → String
digest name arguments = name

abbrev silent : Error → String
silent _ = ""

abbrev mail : Registered
mail = record {
  tool = record { name = "mail"; effect = side_effecting; idempotency_key = "" };
  action_kind = tool_call;
  kind = "";
  target = "";
  side_effects = "mail" ∷ [];
  requires_approval = true;
}

abbrev send : ToolCall
send = record { id = "call1"; name = "mail"; arguments = "{}" }

abbrev run1 : ApprovalContext
run1 = record { exec_id = "run1"; session_id = "s1"; trace_id = "t1" }

abbrev sent : Retry
sent = record {
  max_retries = 0;
  invoke = λ _. ok (record { content = "sent"; is_error = false });
  observe = λ _. none;
  wait = λ _. none;
}

abbrev around : Surroundings
around = record {
  at_entry = live;
  at_reserve = (live, 1);
  at_begin = (live, 2);
  at_complete = (live, 3);
  at_settle = (live, 4);
  approvals = record {
    approved = none;
    resolver = none;
    gate = some (approval_gate plain silent live "appr_1" 1 run1);
    observe = λ _. none;
  };
  replay = false;
  idempotency_scope = none;
  intent_scope = none;
  retry = sent;
}

abbrev anything_goes : PermissionPolicy
anything_goes _ =
    (record { allowed = true; reason = ""; suspended = false; approval_id = "" }, none)

abbrev shelf : Map String Registered
shelf = record { entries = ("mail", mail) ∷ [] }

abbrev left : MemoryStore
left = (execute plain no_key digest around anything_goes (λ _. none) shelf send new_memory_store).2

suspended_call_waits_example :
    ((execute plain no_key digest around anything_goes (λ _. none) shelf send new_memory_store).1
      ≡ 0)
    × IsStored plain "appr_1" "run1" "mail" "call1" "mail" left
    × IsBeside left new_memory_store
unfolding lookup check_context validate_call approved_approval trim_space intent_key
    normalize_effect
suspended_call_waits_example =
    suspended_call_waits plain silent no_key digest around mail send anything_goes (λ _. none) shelf
      live "appr_1" 1 run1 new_memory_store refl refl refl refl refl refl refl refl refl refl refl
