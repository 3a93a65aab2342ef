-- ===== src/State/Types.antt =====
-- The data of internal/state (types.go, idempotency.go, lease.go, journal.go) and the MemoryStore
-- record of memory_store.go. An instant is the nanoseconds since Go's zero Time, so `IsZero` is a
-- test for 0. The mutex makes each method one step; a method takes the clock's reading as `now`.
use ouvrier.Base.{◌≡◌, refl, ℕ, ◌^◌, String, Bool, List, [], Map, empty_map, ℤ, Result, ok, err}
use ouvrier.Events.{Event}

pub data Error : Type 0 where
  context_cancelled context_deadline_exceeded : Error
  execution_id_required session_id_required key_required : Error
  reservation_not_found owner_mismatch already_resolved invalid_outcome : Error
  lease_name_required lease_holder_required lease_ttl_not_positive : Error
  event_id_exhausted event_id_exists : Error
  approval_id_required approval_execution_required approval_tool_required : Error
  approval_not_terminal approval_not_found approval_already_decided : Error
  journal_execution_required checkpoint_execution_required checkpoint_index_negative : Error
  intent_execution_required intent_call_required intent_tool_required : Error
  intent_index_negative intent_not_found : Error
  memory_scope_required memory_key_required memory_value_too_large : Error

-- A context.Context as the store reads it: nil, live, or ended with ctx.Err().
pub data Context : Type 0 where
  nil_context live cancelled deadline_exceeded : Context

unfoldable pub check_context : Context → Result Error (Unit {0})
check_context nil_context = ok tt
check_context live = ok tt
check_context cancelled = err context_cancelled
check_context deadline_exceeded = err context_deadline_exceeded

pub data ExecutionStatus : Type 0 where
  running completed failed truncated : ExecutionStatus
  other : String → ExecutionStatus

pub record Execution : Type 0 where
  pub exec_id : String
  pub trace_id : String
  pub status : ExecutionStatus
  pub started_at : ℕ
  pub completed_at : ℕ

pub data IdempotencyOutcome : Type 0 where
  pending succeeded failed : IdempotencyOutcome
  other : String → IdempotencyOutcome

pub record IdempotencyRecord : Type 0 where
  pub key : String
  pub exec_id : String
  pub outcome : IdempotencyOutcome
  pub created_at : ℕ
  pub updated_at : ℕ

pub record Lease : Type 0 where
  pub name : String
  pub holder : String
  pub fence : ℕ
  pub acquired_at : ℕ
  pub renewed_at : ℕ
  pub expires_at : ℕ

pub data ApprovalStatus : Type 0 where
  unset pending approved denied : ApprovalStatus
  other : String → ApprovalStatus

pub record PendingApproval : Type 0 where
  pub id : String
  pub exec_id : String
  pub session_id : String
  pub trace_id : String
  pub tool_name : String
  pub tool_call_id : String
  pub tool_kind : String
  pub effect : String
  pub reason : String
  pub args_hash : String
  pub status : ApprovalStatus
  pub created_at : ℕ
  pub decided_at : ℕ
  pub decided_by : String

pub record RunJournal : Type 0 where
  pub exec_id : String
  pub plan_key : String
  pub plan_hash : String
  pub trigger_kind : String
  pub input : String
  pub replay_unsafe : Bool
  pub created_at : ℕ

pub record RunCheckpoint : Type 0 where
  pub exec_id : String
  pub step_index : ℤ
  pub output : String
  pub replay_unsafe : Bool
  pub completed_at : ℕ

-- A `completed_at` of 0 marks an intent that is still open.
pub record ToolIntent : Type 0 where
  pub exec_id : String
  pub tool_call_id : String
  pub step_index : ℤ
  pub tool_name : String
  pub effect : String
  pub idem_key : String
  pub started_at : ℕ
  pub completed_at : ℕ

pub record MemoryRecord : Type 0 where
  pub scope : String
  pub key : String
  pub value : String
  pub updated_at : ℕ

pub record SchemaViolation : Type 0 where
  pub id : ℕ
  pub at : ℕ
  pub exec_id : String
  pub session_id : String
  pub schema_name : String
  pub message : String

-- internal/runtime/session.go. The store only keeps a session, so a float64 stands by its bits.
pub record Budget : Type 0 where
  pub max_iterations : ℤ
  pub max_tokens : ℤ
  pub max_cost_usd : ℕ
  pub max_wall_clock : ℤ

pub record Session : Type 0 where
  pub exec_id : String
  pub session_id : String
  pub parent_session_id : String
  pub trace_id : String
  pub model : String
  pub started_at : ℕ
  pub budget : Budget

-- Go's zero values, which a method returns beside an error or for a missing row.
abbrev pub zero_lease : Lease
zero_lease = record {
  name = "";
  holder = "";
  fence = 0;
  acquired_at = 0;
  renewed_at = 0;
  expires_at = 0;
}

pub record MemoryStore : Type 0 where
  pub executions : Map String Execution
  pub sessions : Map String Session
  pub idempotency : Map String IdempotencyRecord
  pub events : List Event
  pub event_ids : Map ℕ (Unit {0})
  pub next_event_id : ℕ
  pub violations : List SchemaViolation
  pub next_violation_id : ℕ
  pub memory : Map String (Map String MemoryRecord)
  pub approvals : Map String PendingApproval
  pub approval_seq : ℕ
  pub approval_order : Map String ℕ
  pub leases : Map String Lease
  pub run_journals : Map String RunJournal
  pub run_checkpoints : Map String (Map ℤ RunCheckpoint)
  pub tool_intents : Map String (Map String ToolIntent)

-- NewMemoryStore
abbrev pub new_memory_store : MemoryStore
new_memory_store = record {
  executions = empty_map;
  sessions = empty_map;
  idempotency = empty_map;
  events = [];
  event_ids = empty_map;
  next_event_id = 0;
  violations = [];
  next_violation_id = 0;
  memory = empty_map;
  approvals = empty_map;
  approval_seq = 0;
  approval_order = empty_map;
  leases = empty_map;
  run_journals = empty_map;
  run_checkpoints = empty_map;
  tool_intents = empty_map;
}

-- A method's answer and the store that it leaves.
abbrev pub Exec {ℓ} : Type ℓ → Type ℓ
Exec A = MemoryStore → Result Error A × MemoryStore

-- The checks that come before the lock, and what runs under it.
abbrev pub checked {ℓ κ} : {A : Type ℓ} {B : Type κ} → Result Error A → (A → Exec B) → Exec B
checked (ok a) body s = body a s
checked (err e) body s = (err e, s)

abbrev pub uint64_mod : ℕ
uint64_mod = 2 ^ 64

-- What holds of the store and is kept under the lock is kept by the method.
pub checked-keeps {ℓ κ} :
    {A : Type ℓ} {B : Type κ} (P : MemoryStore → Type 0) (r : Result Error A) (body : A → Exec B)
    (s : MemoryStore)
    → P s
    → ((a : A) → P (body a s).1)
    → P (checked r body s).1
checked-keeps P (ok a) body s h k = k a
checked-keeps P (err e) body s h k = h

-- The same, knowing what the checks answered.
pub checked-keeps_when {ℓ κ} :
    {A : Type ℓ} {B : Type κ} (P : MemoryStore → Type 0) (r : Result Error A) (body : A → Exec B)
    (s : MemoryStore)
    → P s
    → ((a : A) → r ≡ ok a → P (body a s).1)
    → P (checked r body s).1
checked-keeps_when P (ok a) body s h k = k a refl
checked-keeps_when P (err e) body s h k = h
