-- ===== src/Tools/Permission/Gated.antt =====
-- A tool that requires approval is permitted only with an approval.
use ouvrier.Base.{
  ap, if_true, ◌∙◌, if-keeps, String, ◌≡◌, ◌≢◌, ◌⊎◌, refl, sym, inl, inr, true, Option, none, some,
  arith, eq_iff, eq_string, eq_nat, ◌==◌, Result, ok, err, Bool-cases, trim_space,
}
use ouvrier.Policy.{Action, Decision}
use ouvrier.State.Types.{MemoryStore}
use ouvrier.Tools.Permission.{
  Registered, ToolCall, Gate, Approved, CallContext, PermissionError, Permission, permitted, halted,
  awaiting, suspension, waiting_decision, PermissionPolicy, action_of, approved_approval,
  approved_for, after_record, observed, suspend_for_approval, by_approval, decided, after_policy,
  resolved_approval, authorize_tool_call,
}

named_approval :
    (id approval : String) (a : Approved)
    → approved_for id (some a) ≡ some approval
    → (a.tool_call_id ≡ id) × (a.approval_id ≢ "")
named_approval id approval a h = (
  ground (arith, eq_iff a.tool_call_id id, h),
  λ empty. ground (arith, eq_iff a.approval_id "", empty, h),
)

approved_by :
    (o : Option Approved) (id approval : String)
    → approved_for id o ≡ some approval
    → (a : Approved) × (o ≡ some a) × (a.tool_call_id ≡ id) × (a.approval_id ≢ "")
approved_by none id approval h = absurd (cc)
approved_by (some a) id approval h =
    let (same, named) = named_approval id approval a h in (a, refl, same, named)

module _ (key_of : String → String → String → String → Option String)
    (digest : String → String → String) (namespace : String) where
  -- The context carries the approval of this very call, or the resolver of a replay knows one for
  -- the tool's name and the key of the call.
  abbrev pub IsApproved : CallContext → Registered → ToolCall → Type 0
  IsApproved ctx r call =
      ((a : Approved) × (ctx.approved ≡ some a) × (a.tool_call_id ≡ call.id) × (a.approval_id ≢ ""))
      ⊎ ((id : String) × (resolved_approval key_of digest namespace ctx r call ≡ some id))

  -- The decisions under which a policy lets a call run.
  abbrev pub AllowsCall : PermissionPolicy → Action → Type 0
  AllowsCall policy a = ((policy a).0.allowed ≡ true) × ((policy a).1 ≡ none)

  decided_allows :
      (ctx : CallContext) (a : Action) (d : Decision)
      → decided key_of digest namespace ctx a d ≡ permitted
      → d.allowed ≡ true
  decided_allows ctx a d h = elim (Bool-cases d.allowed) [
    | inl fine ↦ fine
    | inr refused ↦ absurd (
        if-keeps (λ p. p ≢ permitted) d.suspended
          (if-keeps (λ p. p ≢ permitted) (trim_space d.approval_id == "") (λ e. cc) (λ e. cc))
          (λ e. cc) (rw refused at h))
  ]

  observed_permits : (o : Option String) (p : Permission) → observed o p ≡ permitted → p ≡ permitted
  observed_permits none p h = h
  observed_permits (some e) p h = absurd (cc)

  observed_halts : (o : Option String) (x : PermissionError) → observed o (halted x) ≢ permitted
  observed_halts none x = λ h. cc
  observed_halts (some e) x = λ h. cc

  policy_allows :
      (ctx : CallContext) (policy : PermissionPolicy) (a : Action)
      → after_policy key_of digest namespace ctx a (policy a) ≡ permitted
      → AllowsCall policy a
  policy_allows ctx policy a h = go (policy a) h
    where
      go :
          (d : Decision × Option String)
          → after_policy key_of digest namespace ctx a d ≡ permitted
          → (d.0.allowed ≡ true) × (d.1 ≡ none)
      go (d, some e) h = absurd (cc)
      go (d, none) h = (
        decided_allows ctx a d (
            observed_permits (ctx.observe (record { action = a; decision = d; error = none })) _ h),
        refl,
      )

  pub recorded_halts :
      (ctx : CallContext) (gate : Gate) (a : Action) (answer : Result String String)
      → after_record key_of digest namespace ctx gate a answer ≢ permitted
  recorded_halts ctx gate a (err e) = λ h. cc
  recorded_halts ctx gate a (ok id) =
      observed_halts
        (ctx.observe (record {
          action = a;
          decision = waiting_decision key_of digest namespace true id;
          error = none;
        }))
        (awaiting (suspension key_of digest namespace a gate.gate_context id))

  by_approval-cases :
      (ctx : CallContext) (r : Registered) (call : ToolCall) (o o' : Option String)
      (g : Option Gate) (p : Permission) (s : MemoryStore)
      → (by_approval key_of digest namespace ctx r call o o' g p s).0 ≡ permitted
      → (((id : String) × (o ≡ some id)) ⊎ ((id : String) × (o' ≡ some id)))
        ⊎ ((g ≡ none) × (p ≡ permitted))
  unfolding by_approval suspend_for_approval
  by_approval-cases ctx r call (some id) o' g p s h = inl (inl (id, refl))
  by_approval-cases ctx r call none (some id) g p s h = inl (inr (id, refl))
  by_approval-cases ctx r call none none (some gate) p s h =
      absurd (recorded_halts ctx gate (action_of r call) _ h)
  by_approval-cases ctx r call none none none p s h = inr (refl, h)

  -- A call of a tool that requires approval is permitted only if the context carries the approval of
  -- this very call, or the resolver of a replay knows one for it, or no gate is installed and the
  -- policy allows the action without an error. With a gate no policy can permit an unapproved call.
  pub gated_call-IsApproved :
      (ctx : CallContext) (policy : PermissionPolicy) (r : Registered) (call : ToolCall)
      (s : MemoryStore)
      → r.requires_approval ≡ true
      → (authorize_tool_call key_of digest namespace ctx policy r call s).0 ≡ permitted
      → IsApproved ctx r call ⊎ ((ctx.gate ≡ none) × AllowsCall policy (action_of r call))
  unfolding authorize_tool_call approved_approval
  gated_call-IsApproved ctx policy r call s required h =
      elim (by_approval-cases ctx r call (approved_approval ctx call.id)
        (resolved_approval key_of digest namespace ctx r call) ctx.gate
        (after_policy key_of digest namespace ctx (action_of r call) (policy (action_of r call))) s
        (sym (ap (λ (x : Permission × MemoryStore). x.0) (if_true r.requires_approval _ _ required))
          ∙ h)) [
            | inl (inl (id, e)) ↦ inl (inl (approved_by ctx.approved call.id id e))
            | inl (inr (id, e)) ↦ inl (inr (id, e))
            | inr (none_set, p) ↦ inr (none_set, policy_allows ctx policy (action_of r call) p)
          ]
