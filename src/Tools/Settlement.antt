-- ===== src/Tools/Settlement.antt =====
-- What a settled call means for the later calls with its key.
use ouvrier.Base.{
  ℕ, String, ◌≡◌, refl, sym, Bool, false, Option, none, some, List, eq_string, eq_nat, ◌==◌, ok,
  err, if◌then◌else◌, lookup, insert, lookup-insert_self, trim_space, ◌∙◌,
}
use ouvrier.Policy.{idempotent, normalize_effect}
use ouvrier.State.Types.{Context, pending, succeeded, IdempotencyRecord, MemoryStore, check_context}
use ouvrier.State.Idempotency.{
  reserve_args, resolve_args, reserve_idempotency, idempotency_record, resolve_idempotency,
  resolve_locked,
}
use ouvrier.State.Idempotency.Calls.{Call, run}
use ouvrier.State.Idempotency.History.{resolved, succeeded_forever}
use ouvrier.Tools.{
  ToolResult, Tool, Scope, Claim, succeeded_elsewhere, skip, on_conflict, reserve_tool_call,
  settled_outcome, settle_idempotency,
}

-- The tool call is idempotent and this is its key in the scope.
pub record IsKeyed (key_of : String → String → String → String → Option String) (ctx : Context)
    (sc : Scope) (tool : Tool) (raw key : String) : Type 0 where
  pub is_idempotent : normalize_effect tool.effect ≡ idempotent
  pub has_expression : (trim_space tool.idempotency_key == "") ≡ false
  pub resolves : key_of sc.namespace tool.name (trim_space tool.idempotency_key) raw ≡ some key
  pub reservable : reserve_args ctx key sc.exec_id ≡ ok tt
  pub readable : (trim_space key == "") ≡ false

record_found :
    (ctx : Context) (key e : String) (r : IdempotencyRecord) (s : MemoryStore)
    → lookup key s.idempotency ≡ some r
    → reserve_args ctx key e ≡ ok tt
    → (trim_space key == "") ≡ false
    → (idempotency_record ctx key s).0 ≡ ok (some r)
unfolding idempotency_record reserve_args check_context
record_found Context.nil_context key e r s held valid readable = rw (readable, held) refl
record_found Context.live key e r s held valid readable = rw (readable, held) refl
record_found Context.cancelled key e r s held valid readable = absurd (cc)
record_found Context.deadline_exceeded key e r s held valid readable = absurd (cc)

answered :
    (key_of : String → String → String → String → Option String) (replay : Bool) (ctx : Context)
    (sc : Scope) (tool : Tool) (raw key : String) (now : ℕ) (r : IdempotencyRecord)
    (s : MemoryStore)
    → IsKeyed key_of ctx sc tool raw key
    → lookup key s.idempotency ≡ some r
    → reserve_idempotency ctx key sc.exec_id now s ≡ (ok (r.exec_id, false), s)
    → reserve_tool_call key_of replay ctx (some sc) tool raw now s
      ≡ (on_conflict replay sc key r, s)
unfolding reserve_tool_call
answered key_of replay ctx sc tool raw key now r s keyed held refused =
    rw
      (
        reserve_tool_call,
        keyed.is_idempotent,
        keyed.has_expression,
        keyed.resolves,
        refused,
        record_found ctx key sc.exec_id r s held keyed.reservable keyed.readable,
      )
      refl

succeeds :
    (ctx : Context) (c : Claim) (a : ToolResult) (now : ℕ) (r : IdempotencyRecord) (s : MemoryStore)
    → lookup c.key s.idempotency ≡ some r
    → r.outcome ≡ pending
    → r.exec_id ≡ c.exec_id
    → resolve_args ctx c.key c.exec_id succeeded ≡ ok tt
    → a.is_error ≡ false
    → settle_idempotency ctx (some c) (ok a) now s ≡ (
      none,
      record s {
        idempotency =
            insert c.key (record r { outcome = succeeded; updated_at = now }) s.idempotency;
      },
    )
unfolding settle_idempotency settled_outcome resolve_idempotency resolve_locked
succeeds ctx c a now r s held waiting own valid fine =
    let valid' : resolve_args ctx c.key r.exec_id succeeded ≡ ok tt = rw own valid in
    rw (fine, sym own, resolved ctx c.key succeeded now r s held waiting valid') refl

-- Once the call that holds the claim of a pending key has settled with a result that is no error,
-- the tool is never run again for that key: after any further reservations and resolutions, by any
-- executions, a call with this key is answered as a duplicate to the same execution and refused to
-- every other, replay or not, and changes nothing.
pub settled_call_never_runs_again :
    (key_of : String → String → String → String → Option String) (replay : Bool)
    (ctx ctx' : Context) (c : Claim) (a : ToolResult) (sc : Scope) (tool : Tool) (raw : String)
    (now now' : ℕ) (r : IdempotencyRecord) (cs : List Call) (s : MemoryStore)
    → lookup c.key s.idempotency ≡ some r
    → r.outcome ≡ pending
    → r.exec_id ≡ c.exec_id
    → resolve_args ctx c.key c.exec_id succeeded ≡ ok tt
    → a.is_error ≡ false
    → IsKeyed key_of ctx' sc tool raw c.key
    → reserve_tool_call key_of replay ctx'
        (some sc)
        tool
        raw
        now'
        (run cs (settle_idempotency ctx (some c) (ok a) now s).1)
      ≡ (
        (if c.exec_id == sc.exec_id then ok skip else err (succeeded_elsewhere c.exec_id)),
        run cs (settle_idempotency ctx (some c) (ok a) now s).1,
      )
unfolding on_conflict
settled_call_never_runs_again key_of replay ctx ctx' c a sc tool raw now now' r cs s held waiting
      own valid fine keyed =
    let final = record r { outcome = succeeded; updated_at = now } in
    let t = record s { idempotency = insert c.key final s.idempotency } in
    let stays =
      succeeded_forever ctx' c.key sc.exec_id now' final cs t
        (lookup-insert_self c.key final s.idempotency) refl keyed.reservable in
    rw (succeeds ctx c a now r s held waiting own valid fine) (
      answered key_of replay ctx' sc tool raw c.key now' final (run cs t) keyed stays.0 stays.1
      ∙ rw (on_conflict, own) refl)
