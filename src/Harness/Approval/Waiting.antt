-- ===== src/Harness/Approval/Waiting.antt =====
-- A gated call without an approval waits for one in the store.
use mathlib.Core.Path.{subst}
use ouvrier.Base.{
  if_true, ◌∙◌, ℕ, String, ◌≡◌, ◌≢◌, refl, sym, ap, inl, inr, true, false, Option, none, some,
  eq_string, eq_nat, ◌==◌, ok, Option-cases, Map, lookup, lookup-insert_self, trim_space,
}
use ouvrier.Events.Redactor.{Redactor}
use ouvrier.State.Types.{Error, Context, check_context, pending, PendingApproval, MemoryStore}
use ouvrier.State.Approvals.{
  normalized, save_approval, save_args, save_locked, normalize_approval, place_approval,
}
use ouvrier.Tools.Permission.{
  Registered, ToolCall, ApprovalContext, ApprovalRequest, Gate, Permission, permitted, denied,
  halted, PermissionPolicy, request, action_of, approved_approval, resolved_approval,
  suspend_for_approval, by_approval, authorize_tool_call, after_policy,
}
use ouvrier.Tools.Permission.Gated.{recorded_halts}
use ouvrier.Tools.Execution.{Surroundings, namespace_of, after_permission, validate_call, execute}
use ouvrier.Harness.Approval.{approval_of, record_pending_approval, approval_gate}
use ouvrier.Tools.Permission.{intent_key}

-- Saving an approval touches neither the reservations nor the intents.
abbrev pub IsBeside : MemoryStore → MemoryStore → Type 0
IsBeside t s = (t.idempotency ≡ s.idempotency) × (t.tool_intents ≡ s.tool_intents)

placed-IsBeside : (id : String) (s : MemoryStore) → IsBeside (place_approval id s) s
placed-IsBeside id s = elim (Option-cases (lookup id s.approval_order)) [
  | inl new ↦ rw (place_approval, new) (refl, refl)
  | inr (place, old) ↦ rw (place_approval, old) (refl, refl)
]

module _ (redactor : Redactor) where
  accepted :
      (ctx : Context) (id : String) (q : ApprovalRequest)
      → check_context ctx ≡ ok tt
      → (trim_space id == "") ≡ false
      → (trim_space q.context.exec_id == "") ≡ false
      → (trim_space q.tool_name == "") ≡ false
      → save_args redactor ctx (approval_of id q) ≡ ok (normalized redactor (approval_of id q))
  unfolding save_args normalize_approval
  accepted ctx id q alive id_there exec_there tool_there =
      rw (save_args, alive, normalize_approval, id_there, exec_there, tool_there) refl

  -- Under the id the store has a pending approval of the run, the tool and the call, with the key of
  -- the arguments.
  abbrev pub IsStored :
      (id exec_id tool_name tool_call_id args_hash : String) → MemoryStore → Type 0
  IsStored id exec_id tool_name tool_call_id args_hash t =
      (p : PendingApproval) × (lookup (trim_space id) t.approvals ≡ some p)
      × (p.status ≡ pending)
      × (p.exec_id ≡ trim_space exec_id)
      × (p.tool_name ≡ trim_space tool_name)
      × (p.tool_call_id ≡ trim_space tool_call_id)
      × (p.args_hash ≡ redactor.redact_text (trim_space args_hash))

  saved :
      (ctx : Context) (id : String) (q : ApprovalRequest) (now : ℕ) (s : MemoryStore)
      → check_context ctx ≡ ok tt
      → (trim_space id == "") ≡ false
      → (trim_space q.context.exec_id == "") ≡ false
      → (trim_space q.tool_name == "") ≡ false
      → IsStored id q.context.exec_id q.tool_name q.tool_call_id q.args_hash
          (save_approval redactor ctx (approval_of id q) now s).1
        × IsBeside (save_approval redactor ctx (approval_of id q) now s).1 s
  unfolding save_approval save_locked
  saved ctx id q now s alive id_there exec_there tool_there =
      let a = normalized redactor (approval_of id q) in
      let fine = accepted ctx id q alive id_there exec_there tool_there in
      let placed = place_approval a.id s in
      let dated = record a { created_at = now } in
      rw fine (
        (dated, lookup-insert_self a.id dated placed.approvals, refl, refl, refl, refl, refl),
        placed-IsBeside a.id s,
      )

-- A permission that does not let the call run.
stops :
    (redactor : Redactor) (key_of : String → String → String → String → Option String)
    (digest : String → String → String) (env : Surroundings) (prepared : Option String)
    (r : Registered) (call : ToolCall) (p : Permission) (t : MemoryStore)
    → p ≢ permitted
    → ((after_permission redactor key_of digest env prepared r call p t).1 ≡ 0)
      × ((after_permission redactor key_of digest env prepared r call p t).2 ≡ t)
stops redactor key_of digest env prepared r call (denied reason) t h = (refl, refl)
stops redactor key_of digest env prepared r call (halted e) t h = (refl, refl)
stops redactor key_of digest env prepared r call permitted t h = absurd (h refl)

module _ (redactor : Redactor) (text_of : Error → String)
    (key_of : String → String → String → String → Option String) (digest : String → String → String)
    (env : Surroundings) (r : Registered) (call : ToolCall) where
  abbrev namespace : String
  namespace = namespace_of redactor key_of digest env.idempotency_scope

  -- What the gate of the harness is asked for the call.
  abbrev asked : Gate → ApprovalRequest
  asked gate = request key_of digest namespace gate r (action_of r call) call

  suspends :
      (policy : PermissionPolicy) (gate : Gate) (s : MemoryStore)
      → env.approvals.gate ≡ some gate
      → r.requires_approval ≡ true
      → approved_approval env.approvals call.id ≡ none
      → resolved_approval key_of digest namespace env.approvals r call ≡ none
      → authorize_tool_call key_of digest namespace env.approvals policy r call s
        ≡ suspend_for_approval key_of digest namespace env.approvals gate r
            (action_of r call)
            call
            s
  unfolding authorize_tool_call by_approval
  suspends policy gate s gated required unapproved unresolved =
      let by_policy =
        after_policy key_of digest namespace env.approvals (action_of r call)
          (policy (action_of r call)) in
      let known = resolved_approval key_of digest namespace env.approvals r call in
      let by = by_approval key_of digest namespace env.approvals r call in
      if_true r.requires_approval _ _ required
      ∙ ap (λ o. by o known env.approvals.gate by_policy s) unapproved
      ∙ ap (λ o. by none o env.approvals.gate by_policy s) unresolved
      ∙ ap (λ g. by none none g by_policy s) gated

  -- With the harness's gate, a call of a tool that requires approval, for which neither the context
  -- nor a resolver knows one, runs the tool not once; it leaves a pending approval in the store under
  -- the new id, of this run, tool and call and with the scrubbed key of its arguments; and it
  -- reserves no key and begins no intent. The contexts are alive, and the ids and the tool's name
  -- are not blank.
  pub suspended_call_waits :
      (policy : PermissionPolicy) (prepare : Registered → Option String)
      (tools : Map String Registered) (ctx : Context) (id : String) (now : ℕ)
      (context : ApprovalContext) (s : MemoryStore)
      → lookup call.name tools ≡ some r
      → env.approvals.gate ≡ some (approval_gate redactor text_of ctx id now context)
      → r.requires_approval ≡ true
      → approved_approval env.approvals call.id ≡ none
      → resolved_approval key_of digest namespace env.approvals r call ≡ none
      → check_context env.at_entry ≡ ok tt
      → validate_call call ≡ none
      → check_context ctx ≡ ok tt
      → (trim_space id == "") ≡ false
      → (trim_space context.exec_id == "") ≡ false
      → (trim_space r.tool.name == "") ≡ false
      → ((execute redactor key_of digest env policy prepare tools call s).1 ≡ 0)
        × IsStored redactor id context.exec_id r.tool.name call.id
            (intent_key key_of digest namespace r.tool call)
            (execute redactor key_of digest env policy prepare tools call s).2
        × IsBeside (execute redactor key_of digest env policy prepare tools call s).2 s
  unfolding execute suspend_for_approval record_pending_approval action_of
  suspended_call_waits policy prepare tools ctx id now context s found gated required unapproved
        unresolved entered valid alive id_there exec_there tool_there =
      let gate = approval_gate redactor text_of ctx id now context in
      let q = asked gate in
      let t = (save_approval redactor ctx (approval_of id q) now s).1 in
      let p =
        (suspend_for_approval key_of digest namespace env.approvals gate r (action_of r call) call
          s).0 in
      let halts = recorded_halts key_of digest namespace env.approvals gate (action_of r call) _ in
      let (still, left) = stops redactor key_of digest env (prepare r) r call p t halts in
      let (stored, beside) = saved redactor ctx id q now s alive id_there exec_there tool_there in
      rw
        (
          execute,
          entered,
          valid,
          found,
          suspends policy gate s gated required unapproved unresolved,
        )
        (
          still,
          subst
              (IsStored redactor id context.exec_id r.tool.name call.id
                (intent_key key_of digest namespace r.tool call))
              (sym left) stored,
          subst (λ u. IsBeside u s) (sym left) beside,
        )
