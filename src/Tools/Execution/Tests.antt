-- ===== src/Tools/Execution/Tests.antt =====
-- A call of a tool that requires approval, and the theorems of this folder at concrete inputs.
use mathlib.Core.Path.{subst}
use ouvrier.Base.{
  pos, ◌<◌, String, ◌≡◌, ◌⊎◌, refl, sym, true, false, Option, none, some, [], ◌∷◌, arith, eq_string,
  eq_nat, ok, err, Map, lookup, insert, trim_space,
}
use ouvrier.State.Types.{IdempotencyRecord, MemoryStore}
use ouvrier.State.Idempotency.{fresh_record, put_record, resolve_args}
use ouvrier.Tools.{Claim, ToolResult}
use ouvrier.Tools.Definite.{unstopped}
use ouvrier.Tools.Execution.{settle}
use ouvrier.Tools.Execution.Settled.{outcome_of, handler_call_settles}
use ouvrier.Events.Redactor.{Redactor}
use ouvrier.Policy.{side_effecting, tool_call, normalize_effect}
use ouvrier.State.Types.{live, new_memory_store, check_context, ToolIntent}
use ouvrier.State.Journal.{
  begin_args, normalize_tool_intent, begin_tool_intent, complete_tool_intent, complete_args,
  complete_locked, normalize_journal_key,
}
use ouvrier.Tools.{
  cancelled, Retry, execute_with_retry, retry_loop, should_retry_tool_call, reserve_tool_call,
  settle_idempotency,
}
use ouvrier.Tools.Permission.{
  Registered, ToolCall, Approved, Gate, PermissionPolicy, approved_approval, action_of,
  authorize_tool_call, by_approval, intent_key,
}
use ouvrier.Tools.Permission.Gated.{IsApproved, AllowsCall}
use ouvrier.Tools.Execution.{
  Surroundings, validate_call, execute, execute_with_intent, intent_for, intent_scope_of,
}
use ouvrier.Tools.Execution.Gate.{executed_call-IsApproved}
use ouvrier.Tools.Execution.Intents.{IsBracketed, intent_open_while_unknown}

abbrev plain : Redactor
plain = record { redact_text = λ s. s; redact_json_text = λ s. s }

abbrev no_key : String → String → String → String → Option String
no_key _ _ _ _ = none

abbrev digest : String → String → String
digest name arguments = name

abbrev mail : Registered
mail = record {
  tool = record { name = "mail"; effect = side_effecting; idempotency_key = "" };
  action_kind = tool_call;
  kind = "";
  target = "";
  side_effects = "mail" ∷ [];
  requires_approval = true;
}

abbrev send : ToolCall
send = record { id = "call1"; name = "mail"; arguments = "{}" }

abbrev desk : Gate
desk = record {
  record_pending = λ _ s. (ok "approval1", s);
  gate_context = record { exec_id = "run1"; session_id = "s1"; trace_id = "t1" };
}

abbrev sent : Retry
sent = record {
  max_retries = 0;
  invoke = λ _. ok (record { content = "sent"; is_error = false });
  observe = λ _. none;
  wait = λ _. none;
}

abbrev cut_off : Retry
cut_off = record sent {
  invoke = λ _. err (record {
    cause = cancelled;
    failure = false;
    transient = false;
    message = "context canceled";
  });
}

abbrev around : Option Approved → Retry → Surroundings
around approval retry = record {
  at_entry = live;
  at_reserve = (live, 1);
  at_begin = (live, 2);
  at_complete = (live, 3);
  at_settle = (live, 4);
  approvals = record {
    approved = approval;
    resolver = none;
    gate = some desk;
    observe = λ _. none;
  };
  replay = false;
  idempotency_scope = none;
  intent_scope = some (record { exec_id = "run1"; step_index = pos 0 });
  retry = retry;
}

abbrev approval1 : Approved
approval1 = record { approval_id = "approval1"; tool_call_id = "call1" }

abbrev anything_goes : PermissionPolicy
anything_goes _ =
    (record { allowed = true; reason = ""; suspended = false; approval_id = "" }, none)

abbrev unprepared : Registered → Option String
unprepared _ = none

abbrev shelf : Map String Registered
shelf = record { entries = ("mail", mail) ∷ [] }

runs_approved :
    (execute plain no_key digest
      (around (some approval1) sent)
      anything_goes
      unprepared
      shelf
      send
      new_memory_store).1
    ≡ 1
unfolding execute check_context validate_call trim_space lookup authorize_tool_call
    approved_approval by_approval reserve_tool_call normalize_effect execute_with_intent
    intent_scope_of execute_with_retry retry_loop should_retry_tool_call settle_idempotency
    begin_args normalize_tool_intent begin_tool_intent complete_tool_intent complete_args
    complete_locked normalize_journal_key insert intent_key
runs_approved = refl

executed_call-IsApproved_example :
    IsApproved no_key digest "" (around (some approval1) sent).approvals mail send
    ⊎ (((around (some approval1) sent).approvals.gate ≡ none)
        × AllowsCall no_key digest "" anything_goes (action_of mail send))
unfolding lookup
executed_call-IsApproved_example =
    executed_call-IsApproved plain no_key digest (around (some approval1) sent) anything_goes
      unprepared shelf send mail new_memory_store refl refl
      (subst (λ n. 0 < n) (sym runs_approved) (omega arith))

abbrev intent : ToolIntent
unfolding intent_key
intent =
    record (intent_for plain no_key digest (around none cut_off)
      (record { exec_id = "run1"; step_index = pos 0 }) mail send) { started_at = 2 }

intent_open_while_unknown_example :
    IsBracketed plain no_key digest intent 3
      (execute_with_retry side_effecting cut_off)
      (execute_with_intent plain no_key digest (around none cut_off) mail send new_memory_store)
unfolding intent_key normalize_effect intent_scope_of begin_args check_context normalize_tool_intent
    trim_space
intent_open_while_unknown_example =
    intent_open_while_unknown plain no_key digest (around none cut_off) mail send
      (record { exec_id = "run1"; step_index = pos 0 }) intent new_memory_store refl refl refl

-- A handler that is cut off in the middle of the call, with a claim to settle.
abbrev claim : Claim
claim = record { key = "k1"; exec_id = "run1" }

abbrev waiting : IdempotencyRecord
waiting = fresh_record "k1" "run1" 1

abbrev claimed : MemoryStore
claimed = put_record waiting new_memory_store

abbrev cut_handler : Retry
cut_handler = unstopped 0 cut_off.invoke

handler_call_settles_example :
    (a : ToolResult) × ((execute_with_intent plain no_key digest
        (around none cut_handler)
        mail
        send
        claimed).0
      ≡ ok a)
    × (lookup "k1"
          (settle plain no_key digest (around none cut_handler) (some claim) (
            execute_with_intent plain no_key digest
              (around none cut_handler)
              mail
              send
              claimed)).2.idempotency
        ≡ some (record waiting { outcome = outcome_of a; updated_at = 4 }))
unfolding check_context resolve_args lookup insert trim_space
handler_call_settles_example =
    handler_call_settles plain no_key digest (around none cut_handler) mail send claim waiting 0
      cut_off.invoke claimed refl refl refl refl refl refl refl
