-- ===== src/Events/Metrics/Tests.antt =====
-- Starts that never finish, in a ring of two, and the theorems of this folder at concrete inputs.
use ouvrier.Base.{
  ℕ, ◌+◌, ◌-◌, ◌≤◌, String, ◌≡◌, refl, false, List, [], ◌∷◌, ◌++◌, arith, eq_string, eq_nat, ltb,
  lookup, insert, delete, length, trim_space,
}
use ouvrier.Events.{Event}
use ouvrier.Events.Values.{text, end, field}
use ouvrier.Events.Buffer.{zero_event}
use ouvrier.Events.Kinds.{canonical_kind}
use ouvrier.Events.Metrics.{
  Floats, new_metric_state, observe, remember_start, add_duration, metric_number, metric_operation,
  duration_key,
}
use ouvrier.Events.Metrics.Bounded.{observe_all, observe_all-open_starts}
use ouvrier.Base.{◌*◌}

-- Whole milliseconds in place of floats.
abbrev whole : Floats ℕ
whole = record {
  zero_float = 0;
  add = λ a b. a + b;
  is_positive = λ a. ltb 0 a;
  is_negative = λ a. false;
  parse_float = λ s. 0;
  convert = λ s. 7;
  milliseconds = λ a b. b - a;
}

abbrev tool_event : ℕ → String → String → Event
tool_event n kind call = record zero_event {
  id = n;
  at = 10 * n;
  kind = kind;
  exec_id = "run";
  payload = field "tool_call_id" (text call) end;
}

abbrev unfinished : List Event
unfinished =
    tool_event 1 "tool_call_started" "a"
    ∷ tool_event 2 "before_tool" "b"
    ∷ tool_event 3 "tool_call_started" "c"
    ∷ []

-- The third start evicts the first, whose finish then has no start.
evicts :
    (observe_all whole
      (unfinished ++ tool_event 4 "tool_call_completed" "a" ∷ [])
      (new_metric_state whole 2)).tool_call.count
    ≡ 0
unfolding observe_all observe new_metric_state remember_start add_duration metric_number
    metric_operation duration_key canonical_kind lookup insert delete trim_space
evicts = refl

measures :
    (observe_all whole
      (unfinished ++ tool_event 9 "after_tool" "b" ∷ [])
      (new_metric_state whole 2)).tool_call.sum_milliseconds
    ≡ 70
unfolding observe_all observe new_metric_state remember_start add_duration metric_number
    metric_operation duration_key canonical_kind lookup insert delete trim_space
measures = refl

observe_all-open_starts_example :
    length (observe_all whole unfinished (new_metric_state whole 2)).open_starts.entries ≤ 2
observe_all-open_starts_example = observe_all-open_starts whole 2 unfinished (omega arith)
