-- ===== src/State/Approvals/Decisions.antt =====
-- Approvals over histories of calls: decisions and the order of creation.
use ouvrier.Base.{
  ℕ, String, ◌≡◌, ◌≢◌, refl, sym, inl, inr, true, false, some, List, [], ◌∷◌, arith, eq_iff,
  eq_string, eq_nat, ok, err, if◌then◌else◌, nat_eq, Option-cases, lookup, insert, lookup-insert,
  lookup-insert_self, All, trim_space, ◌∙◌,
}
use ouvrier.State.Types.{
  check_context, Context, MemoryStore, ApprovalStatus, PendingApproval, checked-keeps,
  approval_already_decided, checked-keeps_when,
}
use ouvrier.State.Approvals.{
  is_pending, normalize_approval, place_approval, save_locked, save_approval, resolve_args, decided,
  resolve_locked, resolve_approval, check_context, save_args,
}
use ouvrier.Events.Redactor.{Redactor}

-- One call that writes approvals, at the clock's reading `now`.
pub data Call : Type 0 where
  save : Redactor → Context → PendingApproval → (now : ℕ) → Call
  resolve : Context → (id : String) → ApprovalStatus → (decided_by : String) → (now : ℕ) → Call

unfoldable pub step : Call → MemoryStore → MemoryStore
step (save redactor ctx a now) s = (save_approval redactor ctx a now s).1
step (resolve ctx id status decided_by now) s = (resolve_approval ctx id status decided_by now s).1

unfoldable pub run : List Call → MemoryStore → MemoryStore
run [] s = s
run (c ∷ cs) s = run cs (step c s)

-- The call does not save the approval of this id again. It may resolve it.
abbrev pub NotSaving : String → Call → Type 0
NotSaving id (save redactor ctx a now) = trim_space a.id ≢ id
NotSaving id (resolve ctx i status decided_by now) = Unit {0}

place_approval-approvals :
    (id : String) (s : MemoryStore) → (place_approval id s).approvals ≡ s.approvals
place_approval-approvals id s = elim (Option-cases (lookup id s.approval_order)) [
  | inl e ↦ ground (arith, e)
  | inr (p, e) ↦ ground (arith, e)
]

module _ (id : String) (a : PendingApproval) (s : MemoryStore)
    (held : lookup id s.approvals ≡ some a) where
  save_locked_keeps :
      (now : ℕ) (b : PendingApproval)
      → b.id ≢ id
      → lookup id (save_locked now b s).1.approvals ≡ some a
  unfolding save_locked
  save_locked_keeps now b different =
      let dated = record b { created_at = if nat_eq b.created_at 0 then now else b.created_at } in
      rw (save_locked, place_approval-approvals b.id s)
        (ground (arith, held, eq_iff b.id id, lookup-insert b.id id dated s.approvals))

  resolve_locked_keeps :
      (i : String) (status : ApprovalStatus) (by : String) (now : ℕ)
      → is_pending a.status ≡ false
      → lookup id (resolve_locked i status by now s).1.approvals ≡ some a
  unfolding resolve_locked
  resolve_locked_keeps i status by now final = elim (Option-cases (lookup i s.approvals)) [
    | inl e ↦ ground (arith, e, held)
    | inr (x, e) ↦
        ground
          (arith, e, held, eq_iff i id, lookup-insert i id (decided status by now x) s.approvals)
  ]

saved_id :
    (r : Redactor) (ctx : Context) (a b : PendingApproval)
    → save_args r ctx a ≡ ok b
    → b.id ≡ trim_space a.id
unfolding save_args check_context normalize_approval
saved_id r ctx a b h = ground arith

step_keeps :
    (id : String) (a : PendingApproval) (c : Call) (s : MemoryStore)
    → lookup id s.approvals ≡ some a
    → is_pending a.status ≡ false
    → NotSaving id c
    → lookup id (step c s).approvals ≡ some a
unfolding step save_approval resolve_approval
step_keeps id a (save r ctx b now) s held final other =
    checked-keeps_when (λ t. lookup id t.approvals ≡ some a) (save_args r ctx b) _ s held
      (λ b' e.
        save_locked_keeps id a s held now b' (λ same. other (sym (saved_id r ctx b b' e) ∙ same)))
step_keeps id a (resolve ctx i status by now) s held final other =
    checked-keeps (λ t. lookup id t.approvals ≡ some a) (resolve_args ctx status) _ s held
      (λ _. resolve_locked_keeps id a s held (trim_space i) status by now final)

run_keeps :
    (id : String) (a : PendingApproval) (cs : List Call) (s : MemoryStore)
    → lookup id s.approvals ≡ some a
    → is_pending a.status ≡ false
    → All (NotSaving id) cs
    → lookup id (run cs s).approvals ≡ some a
unfolding run
run_keeps id a [] s held final others = held
run_keeps id a (c ∷ cs) s held final others =
    run_keeps id a cs (step c s) (step_keeps id a c s held final others.0) final others.1

refused :
    (id : String) (a : PendingApproval) (ctx : Context) (status : ApprovalStatus) (by : String)
    (now : ℕ) (s : MemoryStore)
    → lookup (trim_space id) s.approvals ≡ some a
    → is_pending a.status ≡ false
    → resolve_args ctx status ≡ ok tt
    → resolve_approval ctx id status by now s ≡ (err approval_already_decided, s)
unfolding resolve_approval resolve_locked
refused id a ctx status by now s held final valid = rw valid (ground (arith, held, final))

decides :
    (id : String) (a : PendingApproval) (ctx : Context) (status : ApprovalStatus) (by : String)
    (now : ℕ) (s : MemoryStore)
    → lookup (trim_space id) s.approvals ≡ some a
    → is_pending a.status ≡ true
    → resolve_args ctx status ≡ ok tt
    → resolve_approval ctx id status by now s ≡ (
      ok (decided status by now a),
      record s { approvals = insert (trim_space id) (decided status by now a) s.approvals },
    )
unfolding resolve_approval resolve_locked
decides id a ctx status by now s held waiting valid = rw valid (ground (arith, held, waiting))

terminal_not_pending :
    (ctx : Context) (status : ApprovalStatus)
    → resolve_args ctx status ≡ ok tt
    → is_pending status ≡ false
unfolding resolve_args check_context
terminal_not_pending ctx status h = ground arith

-- The first decision on a pending approval is the last: it is answered with the approval as decided,
-- and after it, whatever calls follow, as long as none saves this approval again, the stored
-- approval is the decided one, and every further valid decision is refused as already decided and
-- changes nothing.
pub first_decision_stands :
    (ctx ctx' : Context) (id by by' : String) (status status' : ApprovalStatus) (now now' : ℕ)
    (a : PendingApproval) (cs : List Call) (s : MemoryStore)
    → lookup (trim_space id) s.approvals ≡ some a
    → is_pending a.status ≡ true
    → resolve_args ctx status ≡ ok tt
    → resolve_args ctx' status' ≡ ok tt
    → All (NotSaving (trim_space id)) cs
    → ((resolve_approval ctx id status by now s).0 ≡ ok (decided status by now a))
      × (lookup (trim_space id) (run (resolve ctx id status by now ∷ cs) s).approvals
          ≡ some (decided status by now a))
      × (resolve_approval ctx' id status' by' now' (run (resolve ctx id status by now ∷ cs) s)
          ≡ (err approval_already_decided, run (resolve ctx id status by now ∷ cs) s))
unfolding run step
first_decision_stands ctx ctx' id by by' status status' now now' a cs s held waiting valid valid'
      others =
    let first = decides id a ctx status by now s held waiting valid in
    let d = decided status by now a in
    let final = terminal_not_pending ctx status valid in
    let t = record s { approvals = insert (trim_space id) d s.approvals } in
    let kept =
      run_keeps (trim_space id) d cs t (lookup-insert_self (trim_space id) d s.approvals) final
        others in
    rw (run, step, first)
      (refl, kept, refused id d ctx' status' by' now' (run cs t) kept final valid')
