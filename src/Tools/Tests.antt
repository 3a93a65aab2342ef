-- ===== src/Tools/Tests.antt =====
-- Calls of small tools, and the theorems of this folder at concrete inputs.
use ouvrier.Base.{
  ℕ, String, ◌≡◌, refl, true, false, Option, none, some, List, [], ◌∷◌, eq_string, eq_nat, ok, err,
  if◌then◌else◌, ltb, lookup, insert, trim_space,
}
use ouvrier.Policy.{idempotent, side_effecting, read_only, normalize_effect}
use ouvrier.State.Types.{live, failed, MemoryStore, new_memory_store, check_context}
use ouvrier.State.Idempotency.{
  fresh_record, reserve_idempotency, reserve_args, resolve_args, validate_resolved_outcome,
}
use ouvrier.State.Idempotency.Calls.{Call, reserve, resolve_all, run}
use ouvrier.Tools.{
  Called, CallError, cancelled, another, ToolResult, Retry, ended, retry_end, retry_loop,
  execute_with_retry, should_retry_tool_call, Tool, Claim, succeeded_elsewhere, reserve_tool_call,
  settle_idempotency,
}
use ouvrier.Tools.Retries.{side_effects_once}
use ouvrier.Tools.Settlement.{IsKeyed, settled_call_never_runs_again}
use ouvrier.Tools.Definite.{unstopped}

abbrev lost : CallError
lost = record { cause = another; failure = true; transient = true; message = "connection reset" }

-- It fails twice and then answers.
abbrev third_time : ℕ → Called
third_time n = if ltb n 2 then err lost else ok (record { content = "done"; is_error = false })

abbrev patient : Retry
patient = record { max_retries = 5; invoke = third_time; observe = λ n. none; wait = λ n. none }

retried :
    execute_with_retry read_only patient ≡ (ok (record { content = "done"; is_error = false }), 3)
unfolding execute_with_retry retry_loop should_retry_tool_call normalize_effect
retried = refl

side_effects_once_example :
    execute_with_retry side_effecting patient ≡ (retry_end (ended (third_time 0)), 1)
unfolding normalize_effect
side_effects_once_example = side_effects_once side_effecting patient refl

abbrev cut_off : ℕ → Called
cut_off n =
    err (record {
      cause = cancelled;
      failure = false;
      transient = false;
      message = "context canceled";
    })

cut_off_answers :
    (execute_with_retry idempotent (unstopped 2 cut_off)).0
    ≡ ok (record { content = "context canceled"; is_error = true })
unfolding execute_with_retry retry_loop should_retry_tool_call
cut_off_answers = refl

abbrev pay : Tool
pay = record { name = "pay"; effect = idempotent; idempotency_key = "order" }

abbrev same_key : String → String → String → String → Option String
same_key namespace name expression raw = some "tool:pay:order:1"

abbrev key : String
key = "tool:pay:order:1"

abbrev claimed : MemoryStore
claimed = (reserve_idempotency live key "run1" 1 new_memory_store).1

claimed-row : lookup key claimed.idempotency ≡ some (fresh_record key "run1" 1)
unfolding reserve_idempotency lookup insert
claimed-row = refl

abbrev others : List Call
others = reserve live key "run2" 3 ∷ resolve_all live "run2" "tool:" failed 4 ∷ []

abbrev claim : Claim
claim = record { key = key; exec_id = "run1" }

abbrev paid : ToolResult
paid = record { content = "paid"; is_error = false }

keyed : IsKeyed same_key live (record { exec_id = "run2"; namespace = "" }) pay "{}" key
unfolding normalize_effect reserve_args check_context trim_space
keyed = record {
  is_idempotent = refl;
  has_expression = refl;
  resolves = refl;
  reservable = refl;
  readable = refl;
}

settled_call_never_runs_again_example :
    reserve_tool_call same_key true live
      (some (record { exec_id = "run2"; namespace = "" }))
      pay
      "{}"
      9
      (run others (settle_idempotency live (some claim) (ok paid) 2 claimed).1)
    ≡ (
      err (succeeded_elsewhere "run1"),
      run others (settle_idempotency live (some claim) (ok paid) 2 claimed).1,
    )
unfolding resolve_args validate_resolved_outcome check_context trim_space
settled_call_never_runs_again_example =
    settled_call_never_runs_again same_key true live live claim paid
      (record { exec_id = "run2"; namespace = "" }) pay "{}" 2 9 (fresh_record key "run1" 1) others
      claimed claimed-row refl refl refl refl keyed
