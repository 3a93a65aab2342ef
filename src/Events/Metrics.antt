-- ===== src/Events/Metrics.antt =====
-- internal/events/event_stream_metrics.go: the sums of durations that a stream keeps, with a ring of
-- the most recent starts that bounds the operations it remembers.
pub mod Names
pub mod Ring
pub mod Bounded
use ouvrier.Base.{
  ℕ, ◌+◌, ◌%◌, String, Bool, not, ◌&&◌, ◌||◌, Option, none, some, List, [], ◌∷◌, eq_iff, eq_string,
  eq_nat, ◌==◌, ◌>>=◌, ◌>>◌, if◌then◌else◌, nat_eq, Map, empty_map, lookup, insert, delete, any,
  length, trim_space,
}
mod Tests
use Prim.Native.String.{◌++◌}
use ouvrier.Events.{Event}
use ouvrier.Events.Values.{Value, text, other, Payload, end, field}
use ouvrier.Events.Kinds.{canonical_kind}
use ouvrier.Base.{get_at, replicate, ◌^◌}
use ouvrier.Base.{set_at}

-- Go's float64, which is not modelled: its addition and comparisons, strconv.ParseFloat, the
-- conversion of a printed number of another Go type, and the milliseconds between two instants.
pub record Floats (F : Type 0) : Type 0 where
  pub zero_float : F
  pub add : F → F → F
  pub is_positive : F → Bool
  pub is_negative : F → Bool
  pub parse_float : String → F
  pub convert : String → F
  pub milliseconds : (started finished : ℕ) → F

-- MetricSummaryStats; the count is an uint64.
pub record MetricSummary (F : Type 0) : Type 0 where
  pub sum_milliseconds : F
  pub count : ℕ

-- streamMetricStart
pub record MetricStart : Type 0 where
  pub event_id : ℕ
  pub started_at : ℕ

-- streamMetricStartRef
pub record StartRef : Type 0 where
  pub ref_key : String
  pub ref_event : ℕ

pub record MetricState (F : Type 0) : Type 0 where
  pub open_starts : Map String MetricStart
  pub start_order : List StartRef
  pub start_head : ℕ
  pub start_size : ℕ
  pub llm_call : MetricSummary F
  pub pipeline : MetricSummary F
  pub pipe : MetricSummary F
  pub tool_call : MetricSummary F

abbrev pub zero_ref : StartRef
zero_ref = record { ref_key = ""; ref_event = 0 }

unfoldable pub is_lifetime_counter_kind : String → Bool
is_lifetime_counter_kind kind =
    any (λ k. k == canonical_kind kind)
      ("pipeline_started" ∷ "pipeline_completed" ∷ "pipeline_failed" ∷ "pipe_started"
        ∷ "pipe_completed" ∷ "pipe_failed" ∷ "llm_call_started" ∷ "llm_call_completed"
        ∷ "llm_call_failed" ∷ "tool_call_started" ∷ "tool_call_completed" ∷ "tool_call_failed"
        ∷ "stream_dead_lettered" ∷ "stream_redelivered" ∷ [])

-- streamMetricOperation
unfoldable pub metric_operation : String → String × String
metric_operation kind =
    if kind == "pipeline_started"
    then ("pipeline", "start")
    else if kind == "pipeline_completed" || kind == "pipeline_failed"
    then ("pipeline", "finish")
    else if kind == "pipe_started"
    then ("pipe", "start")
    else if kind == "pipe_completed" || kind == "pipe_failed"
    then ("pipe", "finish")
    else if kind == "tool_call_started"
    then ("tool_call", "start")
    else if kind == "tool_call_completed" || kind == "tool_call_failed"
    then ("tool_call", "finish")
    else ("", "")

-- payload[key], where a nil map has no key
abbrev pub payload_value : String → Payload → Option Value
payload_value key end = none
payload_value key (field k v p) =
    let rest = payload_value key p in if k == key then some v else rest

-- payload[key].(string), "" where the value is missing or of another type
abbrev pub payload_text : String → Payload → String
payload_text key p = elim (payload_value key p) [ some (text s) ↦ s | _ ↦ "" ]

-- The parts after the operation, each after a colon.
abbrev identity_part : Event → String
identity_part e =
    if not (e.trace_id == "")
    then ":" ++ e.trace_id
    else if not (e.exec_id == "")
    then ":" ++ e.exec_id
    else ""

abbrev call_id : Payload → String
call_id p =
    if payload_text "tool_call_id" p == ""
    then payload_text "call_id" p
    else payload_text "tool_call_id" p

abbrev call_part : String → Event → String
call_part op e =
    if op == "tool_call" && not (call_id e.payload == "") then ":" ++ call_id e.payload else ""

-- streamMetricDurationKey: "" where only the operation is known
unfoldable pub duration_key : String → Event → String
duration_key op e =
    if identity_part e == "" && call_part op e == ""
    then ""
    else op ++ (identity_part e ++ call_part op e)

-- The eviction from a full ring forgets a start that no newer one has replaced.
abbrev pub forget : Option StartRef → Map String MetricStart → Map String MetricStart
forget none starts = starts
forget (some ref) starts = elim (lookup ref.ref_key starts) [
  | none ↦ starts
  | some started ↦
      if nat_eq started.event_id ref.ref_event then delete ref.ref_key starts else starts
]

module _ {F : Type 0} where
  unfoldable pub remember_start : String → ℕ → MetricState F → MetricState F
  remember_start key id m =
      let ref : StartRef = record { ref_key = key; ref_event = id } in
      let n = length m.start_order in
      if nat_eq n 0
      then m
      else if nat_eq m.start_size n
      then record m {
        open_starts = forget (get_at m.start_order m.start_head) m.open_starts;
        start_order = set_at m.start_order m.start_head ref;
        start_head = (m.start_head + 1) % n;
      }
      else record m {
        start_order = set_at m.start_order ((m.start_head + m.start_size) % n) ref;
        start_size = m.start_size + 1;
      }

  abbrev pub open_start : String → Event → MetricState F → MetricState F
  open_start key e m = record m {
    open_starts = insert key (record { event_id = e.id; started_at = e.at }) m.open_starts;
  }

module _ {F : Type 0} (floats : Floats F) where
  open floats use {zero_float, add, is_positive, is_negative, parse_float, convert, milliseconds}

  abbrev pub zero_summary : MetricSummary F
  zero_summary = record { sum_milliseconds = zero_float; count = 0 }

  unfoldable pub new_metric_state : ℕ → MetricState F
  new_metric_state max_open = record {
    open_starts = empty_map;
    start_order = replicate max_open zero_ref;
    start_head = 0;
    start_size = 0;
    llm_call = zero_summary;
    pipeline = zero_summary;
    pipe = zero_summary;
    tool_call = zero_summary;
  }

  -- streamMetricNumber
  unfoldable pub metric_number : Payload → String → F
  metric_number p key = elim (payload_value key p) [
    | some (text s) ↦ parse_float (trim_space s)
    | some (other s) ↦ convert s
    | _ ↦ zero_float
  ]

  abbrev pub add_to : F → MetricSummary F → MetricSummary F
  add_to ms summary = record {
    sum_milliseconds = add summary.sum_milliseconds ms;
    count = (summary.count + 1) % 2 ^ 64;
  }

  unfoldable pub add_duration : String → F → MetricState F → MetricState F
  add_duration op ms m =
      if op == "pipeline"
      then record m { pipeline = add_to ms m.pipeline }
      else if op == "pipe"
      then record m { pipe = add_to ms m.pipe }
      else if op == "tool_call"
      then record m { tool_call = add_to ms m.tool_call }
      else m

  abbrev pub finish : String → String → Event → MetricState F → MetricState F
  finish op key e m = elim (lookup key m.open_starts) [
    | none ↦ m
    | some started ↦
        let ms = milliseconds started.started_at e.at in
        add_duration op (if is_negative ms then zero_float else ms)
          (record m { open_starts = delete key m.open_starts })
  ]

  abbrev pub observe_latency : Event → MetricState F → MetricState F
  observe_latency e m =
      let latency = metric_number e.payload "latency_ms" in
      if canonical_kind e.kind == "llm_call_completed" && is_positive latency
      then record m { llm_call = add_to latency m.llm_call }
      else m

  abbrev pub observe_operation : String × String → Event → MetricState F → MetricState F
  observe_operation (op, action) e m =
      if op == "" || nat_eq e.at 0
      then m
      else if duration_key op e == ""
      then m
      else if action == "start"
      then open_start (duration_key op e) e (remember_start (duration_key op e) e.id m)
      else if action == "finish"
      then finish op (duration_key op e) e m
      else m

  unfoldable pub observe : Event → MetricState F → MetricState F
  unfolding remember_start add_duration metric_number
  observe e m = observe_operation (metric_operation (canonical_kind e.kind)) e (observe_latency e m)
