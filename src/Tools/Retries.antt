-- ===== src/Tools/Retries.antt =====
-- How often a call is invoked.
use ouvrier.Base.{ℕ, ◌≡◌, refl, false, arith, eq_string, eq_nat, ok, err, zero, suc}
use ouvrier.Policy.{Effect, normalize_effect}
use ouvrier.Tools.{
  Called, Retry, LoopEnd, stopped, ended, retryable, should_retry_tool_call, retry_loop, retry_end,
  execute_with_retry,
}

-- The loop ended by itself: its result is that of its last invocation, and is not to be retried.
abbrev pub IsFinal : Effect → Retry → LoopEnd × ℕ → Type 0
IsFinal effect retry (stopped e, n) = Unit {0}
IsFinal effect retry (ended r, n) =
    (k : ℕ) × (n ≡ suc k)
    × (r ≡ retry.invoke k)
    × (should_retry_tool_call effect r retry.max_retries k ≡ false)

not_retryable :
    (effect : Effect) (r : Called) (max attempt : ℕ)
    → retryable (normalize_effect effect) ≡ false
    → should_retry_tool_call effect r max attempt ≡ false
unfolding should_retry_tool_call
not_retryable effect (ok r) max attempt h = refl
not_retryable effect (err e) max attempt h = ground (arith, h)

module _ (effect : Effect) (retry : Retry) where
  once :
      (fuel : ℕ) (r : Called)
      → retryable (normalize_effect effect) ≡ false
      → retry_loop fuel 0 effect retry r ≡ (ended r, 1)
  unfolding retry_loop
  once zero r h = refl
  once (suc fuel) r h = rw (not_retryable effect r retry.max_retries 0 h) refl

-- A tool that is neither read-only nor idempotent is invoked exactly once, whatever it returns and
-- however many retries are allowed, and its answer is that of this invocation, a tool failure
-- turned into an error result.
pub side_effects_once :
    (effect : Effect) (retry : Retry)
    → retryable (normalize_effect effect) ≡ false
    → execute_with_retry effect retry ≡ (retry_end (ended (retry.invoke 0)), 1)
unfolding execute_with_retry
side_effects_once effect retry h = rw (once effect retry retry.max_retries (retry.invoke 0) h) refl
