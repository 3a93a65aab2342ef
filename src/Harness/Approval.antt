-- ===== src/Harness/Approval.antt =====
-- internal/harness/approval.go: the gate that keeps the approvals of gated tool calls in the store.
pub mod Waiting
mod Tests
use mathlib.Core.Path.{subst}
use ouvrier.Base.{
  if_true, if_false, ◌∙◌, suc, zero, ℤ, pos, negsuc, if-keeps, ℕ, ◌+◌, ◌-◌, ◌%◌, ◌≤◌, ◌<◌, String,
  ◌≡◌, ◌≢◌, ◌↔◌, ◌⊎◌, refl, sym, ap, inl, inr, Bool, true, false, not, ◌&&◌, ◌||◌, Option, none,
  some, List, [], ◌∷◌, ◌++◌, arith, eq_iff, eq_string, eq_nat, ◌==◌, ==-self, Result, ok, err,
  ◌>>=◌, ◌>>◌, if◌then◌else◌, ltb, leb, nat_eq, Bool-cases, Option-cases, Result-cases, Map,
  empty_map, values, lookup, insert, delete, lookup-insert, lookup-insert_self, lookup-delete, All,
  All-append, filter, map, all, any, length, trim_space,
}
use ouvrier.Events.Redactor.{Redactor}
use ouvrier.State.Types.{Error, Context, pending, PendingApproval, MemoryStore}
use ouvrier.State.Approvals.{save_approval}
use ouvrier.Tools.Permission.{ApprovalContext, ApprovalRequest, Gate}
use ouvrier.Tools.Execution.{effect_name}

abbrev pub approval_of : String → ApprovalRequest → PendingApproval
approval_of id q = record {
  id = id;
  exec_id = q.context.exec_id;
  session_id = q.context.session_id;
  trace_id = q.context.trace_id;
  tool_name = q.tool_name;
  tool_call_id = q.tool_call_id;
  tool_kind = q.tool_kind;
  effect = effect_name q.effect;
  reason = q.reason;
  args_hash = q.args_hash;
  status = pending;
  created_at = 0;
  decided_at = 0;
  decided_by = "";
}

-- `id` is what newApprovalID draws, and `text_of` the Error method of the store's errors.
module _ (redactor : Redactor) (text_of : Error → String) where
  abbrev recorded : String → Result Error (Unit {0}) → Result String String
  recorded id (ok _) = ok id
  recorded id (err e) = err (text_of e)

  -- RecordPendingApproval
  unfoldable pub record_pending_approval :
      Context
      → (id : String) → (now : ℕ) → ApprovalRequest
      → MemoryStore
      → Result String String × MemoryStore
  record_pending_approval ctx id now q s =
      let (answer, t) = save_approval redactor ctx (approval_of id q) now s in
      (recorded id answer, t)

  -- approvalGateAdapter, with the ApprovalContext that callTool gives it.
  abbrev pub approval_gate : Context → (id : String) → (now : ℕ) → ApprovalContext → Gate
  approval_gate ctx id now context = record {
    record_pending = record_pending_approval ctx id now;
    gate_context = context;
  }
