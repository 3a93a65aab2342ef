-- ===== src/State/Approvals.antt =====
-- internal/state/approval.go and the approval methods of memory_store.go: human decisions on gated
-- tool calls.
pub mod Decisions
mod Tests
use ouvrier.Base.{
  ◌>>◌, ℕ, ◌+◌, ◌%◌, String, Bool, true, false, not, Option, none, some, List, Result, ok, err,
  ◌==◌, eq_string, if◌then◌else◌, ltb, nat_eq, filter, lookup, insert, values, sort, trim_space,
}
use ouvrier.Events.Redactor.{Redactor}
use ouvrier.State.Types.{
  Error, approval_id_required, approval_execution_required, approval_tool_required,
  approval_not_terminal, approval_not_found, approval_already_decided, Context, check_context,
  ApprovalStatus, unset, pending, approved, denied, PendingApproval, MemoryStore, Exec, checked,
  uint64_mod,
}

abbrev pub is_pending : ApprovalStatus → Bool
is_pending pending = true
is_pending _ = false

-- terminalApprovalStatus
abbrev pub terminal_approval_status : ApprovalStatus → Bool
terminal_approval_status approved = true
terminal_approval_status denied = true
terminal_approval_status _ = false

abbrev pub or_pending : ApprovalStatus → ApprovalStatus
or_pending unset = pending
or_pending status = status

-- The approval with its texts trimmed and scrubbed.
abbrev pub normalized : Redactor → PendingApproval → PendingApproval
normalized redactor a = record a {
  id = trim_space a.id;
  exec_id = trim_space a.exec_id;
  tool_name = trim_space a.tool_name;
  status = or_pending a.status;
  session_id = trim_space a.session_id;
  trace_id = trim_space a.trace_id;
  tool_call_id = trim_space a.tool_call_id;
  tool_kind = trim_space a.tool_kind;
  effect = trim_space a.effect;
  decided_by = trim_space a.decided_by;
  reason = redactor.redact_text (trim_space a.reason);
  args_hash = redactor.redact_text (trim_space a.args_hash);
}

unfoldable pub normalize_approval : Redactor → PendingApproval → Result Error PendingApproval
normalize_approval redactor a =
    if trim_space a.id == ""
    then err approval_id_required
    else if trim_space a.exec_id == ""
    then err approval_execution_required
    else if trim_space a.tool_name == ""
    then err approval_tool_required
    else ok (normalized redactor a)

-- A new id goes to the end of the creation order; an id that is saved again keeps its place.
abbrev pub place_approval : String → MemoryStore → MemoryStore
place_approval id s = elim (lookup id s.approval_order) [
  | some place ↦ s
  | none ↦ record s {
    approval_seq = (s.approval_seq + 1) % uint64_mod;
    approval_order = insert id ((s.approval_seq + 1) % uint64_mod) s.approval_order;
  }
]

unfoldable pub save_locked : ℕ → PendingApproval → Exec (Unit {0})
save_locked now a s =
    let dated = record a { created_at = if nat_eq a.created_at 0 then now else a.created_at } in
    let placed = place_approval a.id s in
    (ok tt, record placed { approvals = insert a.id dated placed.approvals })

unfoldable pub save_args : Redactor → Context → PendingApproval → Result Error PendingApproval
unfolding check_context normalize_approval
save_args redactor ctx approval = do check_context ctx; normalize_approval redactor approval

unfoldable pub save_approval : Redactor → Context → PendingApproval → ℕ → Exec (Unit {0})
unfolding save_args save_locked
save_approval redactor ctx approval now =
    checked (save_args redactor ctx approval) (save_locked now)

-- Approval
unfoldable pub find_approval : Context → String → Exec (Option PendingApproval)
unfolding check_context
find_approval ctx id =
    checked (check_context ctx) (λ _ s. (ok (lookup (trim_space id) s.approvals), s))

abbrev pub place_of : MemoryStore → PendingApproval → ℕ
place_of s a = elim (lookup a.id s.approval_order) [ none ↦ 0 | some place ↦ place ]

abbrev pub in_order : MemoryStore → List PendingApproval → List PendingApproval
in_order s = sort (λ a b. ltb (place_of s a) (place_of s b))

unfoldable pub pending_approvals : Context → Exec (List PendingApproval)
unfolding check_context
pending_approvals ctx =
    checked (check_context ctx)
      (λ _ s. (ok (in_order s (filter (λ a. is_pending a.status) (values s.approvals))), s))

unfoldable pub approvals_for_execution : Context → String → Exec (List PendingApproval)
unfolding check_context
approvals_for_execution ctx exec_id = checked (check_context ctx) (λ _ s.
    (ok (in_order s (filter (λ a. a.exec_id == trim_space exec_id) (values s.approvals))), s))

unfoldable pub resolve_args : Context → ApprovalStatus → Result Error (Unit {0})
unfolding check_context
resolve_args ctx status = do
  check_context ctx
  if terminal_approval_status status then ok tt else err approval_not_terminal

abbrev pub decided : ApprovalStatus → String → ℕ → PendingApproval → PendingApproval
decided status decided_by now a = record a {
  status = status;
  decided_by = trim_space decided_by;
  decided_at = now;
}

unfoldable pub resolve_locked : String → ApprovalStatus → String → ℕ → Exec PendingApproval
resolve_locked id status decided_by now s = elim (lookup id s.approvals) [
  | none ↦ (err approval_not_found, s)
  | some a ↦ if not (is_pending a.status) then (err approval_already_decided, s) else (
    ok (decided status decided_by now a),
    record s { approvals = insert id (decided status decided_by now a) s.approvals },
  )
]

unfoldable pub resolve_approval :
    Context → String → ApprovalStatus → String → ℕ → Exec PendingApproval
unfolding resolve_args resolve_locked
resolve_approval ctx id status decided_by now =
    checked (resolve_args ctx status) (λ _. resolve_locked (trim_space id) status decided_by now)
