-- ===== src/Tools/Definite.antt =====
-- The errors of a tool's own body become results, a cancellation included.
use ouvrier.Base.{ℕ, ◌≡◌, refl, inl, inr, none, eq_string, eq_nat, ok, err, Bool-cases, zero, suc}
use ouvrier.Policy.{Effect}
use ouvrier.Tools.{
  ToolResult, error_result, Called, Retry, ended, handler_result, retry_end, retry_loop,
  should_retry_tool_call, execute_with_retry,
}
use ouvrier.Base.{true}

-- The retries of a handler whose n-th invocation returns `body n`, with no observer that stops them
-- and a context that stays alive between the invocations.
abbrev pub unstopped : ℕ → (ℕ → Called) → Retry
unstopped max body = record {
  max_retries = max;
  invoke = λ n. handler_result (body n);
  observe = λ n. none;
  wait = λ n. none;
}

loop_ends :
    (effect : Effect) (max : ℕ) (body : ℕ → Called) (fuel attempt : ℕ)
    → (k : ℕ) × (retry_loop fuel attempt effect (unstopped max body) (handler_result (body attempt))
        ≡ (ended (handler_result (body k)), suc k))
unfolding retry_loop
loop_ends effect max body zero attempt = (attempt, refl)
loop_ends effect max body (suc fuel) attempt =
    elim (Bool-cases (should_retry_tool_call effect (handler_result (body attempt)) max attempt)) [
      | inr over ↦ (attempt, rw over refl)
      | inl again ↦ let (k, e) = loop_ends effect max body fuel (suc attempt) in (k, rw again e)
    ]

answers : (r : Called) → (a : ToolResult) × (retry_end (ended (handler_result r)) ≡ ok a)
answers (ok a) = (a, refl)
answers (err e) = (error_result (record e { failure = true }), refl)

-- Whatever a handler returns, the retries answer a result, of an error too.
pub handler_calls_answer :
    (effect : Effect) (max : ℕ) (body : ℕ → Called)
    → (a : ToolResult) × ((execute_with_retry effect (unstopped max body)).0 ≡ ok a)
unfolding execute_with_retry
handler_calls_answer effect max body =
    let (k, e) = loop_ends effect max body max 0 in rw e (answers (body k))
