-- ===== src/State/Records.antt =====
-- internal/state/memory_store.go: the records of executions, sessions and schema violations.
use ouvrier.Base.{
  ◌>>◌, ℕ, ◌+◌, ◌%◌, String, not, ◌||◌, Option, List, [], ◌∷◌, ◌++◌, eq_string, eq_nat, ◌==◌, ok,
  if◌then◌else◌, nat_eq, values, lookup, insert, filter, earlier, sort,
}
use ouvrier.Events.Redactor.{Redactor}
use ouvrier.State.Types.{
  execution_id_required, session_id_required, Context, check_context, Execution, Session,
  SchemaViolation, MemoryStore, Exec, checked, uint64_mod,
}
use ouvrier.State.Idempotency.{require}

unfoldable pub save_execution : Context → Execution → Exec (Unit {0})
unfolding check_context
save_execution ctx execution =
    checked (do check_context ctx; require (not (execution.exec_id == "")) execution_id_required)
      (λ _ s. (ok tt, record s { executions = insert execution.exec_id execution s.executions }))

-- Execution
unfoldable pub find_execution : Context → String → Exec (Option Execution)
unfolding check_context
find_execution ctx exec_id =
    checked (check_context ctx) (λ _ s. (ok (lookup exec_id s.executions), s))

-- Executions
unfoldable pub list_executions : Context → Exec (List Execution)
unfolding check_context earlier
list_executions ctx = checked (check_context ctx) (λ _ s. (
  ok (sort (λ a b. earlier a.started_at a.exec_id b.started_at b.exec_id) (values s.executions)),
  s,
))

unfoldable pub save_session : Context → Session → Exec (Unit {0})
unfolding check_context
save_session ctx session =
    checked (do check_context ctx; require (not (session.session_id == "")) session_id_required)
      (λ _ s. (ok tt, record s { sessions = insert session.session_id session s.sessions }))

-- Session
unfoldable pub find_session : Context → String → Exec (Option Session)
unfolding check_context
find_session ctx session_id =
    checked (check_context ctx) (λ _ s. (ok (lookup session_id s.sessions), s))

-- Sessions, in the order of the entries: the source returns them in Go's order of iteration.
unfoldable pub list_sessions : Context → Exec (List Session)
unfolding check_context
list_sessions ctx = checked (check_context ctx) (λ _ s. (ok (values s.sessions), s))

abbrev numbered : Redactor → SchemaViolation → ℕ → MemoryStore → SchemaViolation
numbered redactor v now s = record v {
  message = redactor.redact_text v.message;
  id = (s.next_violation_id + 1) % uint64_mod;
  at = if nat_eq v.at 0 then now else v.at;
}

unfoldable pub add_schema_violation :
    Redactor → Context → SchemaViolation → ℕ → Exec SchemaViolation
unfolding check_context
add_schema_violation redactor ctx v now = checked (check_context ctx) (λ _ s. (
  ok (numbered redactor v now s),
  record s {
    next_violation_id = (s.next_violation_id + 1) % uint64_mod;
    violations = s.violations ++ numbered redactor v now s ∷ [];
  },
))

unfoldable pub schema_violations : Context → String → Exec (List SchemaViolation)
unfolding check_context
schema_violations ctx exec_id =
    checked (check_context ctx)
      (λ _ s. (ok (filter (λ v. exec_id == "" || v.exec_id == exec_id) s.violations), s))
