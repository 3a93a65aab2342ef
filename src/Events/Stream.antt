-- ===== src/Events/Stream.antt =====
-- internal/events: the event stream (event_stream.go, event_stream_options.go,
-- event_stream_persistence.go, event_stream_retention.go). The locks make each method one step; a
-- method takes the clock's reading as `now`. The receiver is not nil.
pub mod Order
pub mod Reach
pub mod Append
pub mod Since
pub mod Fresh
mod Tests
use ouvrier.Base.{
  suc, zero, ℤ, pos, negsuc, ℕ, ◌+◌, ◌-◌, ◌%◌, String, Bool, not, Option, none, some, List, [], ◌∷◌,
  ◌++◌, eq_iff, eq_string, eq_nat, Result, ok, err, ◌>>=◌, ◌>>◌, if◌then◌else◌, ltb, leb, nat_eq,
  Map, empty_map, lookup, insert, filter, map, length,
}
use ouvrier.Events.{Event}
use ouvrier.Events.Redactor.{Redactor}
use ouvrier.Events.Kinds.{canonical_kind}
use ouvrier.Events.Sanitize.{sanitize_event, sanitize_payload}
use ouvrier.Events.Buffer as Buffer
use ouvrier.Events.Buffer.{EventBuffer, new_event_buffer, each}
use ouvrier.Events.Metrics.{
  Floats, MetricState, MetricSummary, new_metric_state, observe, is_lifetime_counter_kind,
}
use ouvrier.State.Types.{Error, Context, check_context, uint64_mod}

pub data StreamError : Type 0 where
  context_error : Error → StreamError
  id_exhausted empty_persisted_id not_advanced : StreamError
  persistence_failed : String → StreamError
  callback_required id_not_allocated subscriber_required : StreamError
  nil_option clock_required limit_not_positive : StreamError

-- A subscriber by its name, or nil.
abbrev pub Subscriber : Type 0
Subscriber = Option ℕ

-- The callback of AppendPersisted, or nil: what it answers for a sanitized event.
abbrev pub Persist : Type 0
Persist = Option (Event → Result String Event)

pub record EventStream (F : Type 0) : Type 0 where
  pub next_id : ℕ
  pub events : EventBuffer
  pub appended : ℕ
  pub kind_counts : Map String ℕ
  pub metric_stats : MetricState F
  pub subscribers : List Subscriber

-- The functions of type Option: the clock only by whether it is nil.
pub data StreamOption : Type 0 where
  no_option : StreamOption
  with_clock : (is_nil : Bool) → StreamOption
  with_initial_id : ℕ → StreamOption
  with_retention_limit : ℤ → StreamOption

-- config, without the clock
pub record Config : Type 0 where
  pub initial_id : ℕ
  pub retention_limit : ℕ

unfoldable pub apply_option : StreamOption → Config → Result StreamError Config
apply_option no_option c = err nil_option
apply_option (with_clock is_nil) c = if is_nil then err clock_required else ok c
apply_option (with_initial_id id) c = ok (record c { initial_id = id })
apply_option (with_retention_limit (pos zero)) c = err limit_not_positive
apply_option (with_retention_limit (pos (suc n))) c = ok (record c { retention_limit = suc n })
apply_option (with_retention_limit (negsuc n)) c = err limit_not_positive

unfoldable pub configure : List StreamOption → Config → Result StreamError Config
unfolding apply_option
configure [] c = ok c
configure (o ∷ os) c = apply_option o c >>= configure os

abbrev pub max_uint64 : ℕ
max_uint64 = uint64_mod - 1

pub record HistoryGap : Type 0 where
  pub after_id : ℕ
  pub expected_id : ℕ
  pub next_retained_id : ℕ

-- EventStream.Stats, with the counters of kinds
pub record StreamStats (F : Type 0) : Type 0 where
  pub appended : ℕ
  pub retained : ℕ
  pub retention_limit : ℕ
  pub dropped : ℕ
  pub kind_counts : Map String ℕ
  pub llm_call_duration : MetricSummary F
  pub pipeline_duration : MetricSummary F
  pub pipe_duration : MetricSummary F
  pub tool_call_duration : MetricSummary F

-- The visited entries; an index out of range, which panics in Go, would have none.
abbrev pub recorded : List (Option Event) → List Event
recorded [] = []
recorded (none ∷ es) = recorded es
recorded (some e ∷ es) = e ∷ recorded es

-- The notifications of one append, in the order of registration.
abbrev pub notifications : List Subscriber → Event → List (ℕ × Event)
notifications [] e = []
notifications (none ∷ subs) e = notifications subs e
notifications (some name ∷ subs) e = (name, e) ∷ notifications subs e

abbrev count_of : Option ℕ → ℕ
count_of none = 0
count_of (some n) = n

abbrev count_kind : String → Map String ℕ → Map String ℕ
count_kind kind counts =
    if is_lifetime_counter_kind kind
    then insert kind ((count_of (lookup kind counts) + 1) % uint64_mod) counts
    else counts

-- The answer of an append, the stream it leaves, and what it delivers.
abbrev pub Appended : Type 0 → Type 0
Appended F = Result StreamError Event × EventStream F × List (ℕ × Event)

module _ {F : Type 0} where
  unfoldable pub ensure_next_id_at_least : ℕ → EventStream F → EventStream F
  ensure_next_id_at_least id s =
      if nat_eq id 0 then s else if ltb s.next_id id then record s { next_id = id } else s

  unfoldable pub subscribe :
      Subscriber → EventStream F → Result StreamError (Unit {0}) × EventStream F
  subscribe none s = (err subscriber_required, s)
  subscribe (some name) s = (ok tt, record s { subscribers = s.subscribers ++ some name ∷ [] })

  abbrev pub refused : StreamError → EventStream F → Appended F
  refused e s = (err e, s, [])

  unfoldable pub stats : EventStream F → StreamStats F
  stats s = record {
    appended = s.appended;
    retained = s.events.size;
    retention_limit = length s.events.entries;
    dropped = (s.appended + uint64_mod - s.events.size) % uint64_mod;
    kind_counts = s.kind_counts;
    llm_call_duration = s.metric_stats.llm_call;
    pipeline_duration = s.metric_stats.pipeline;
    pipe_duration = s.metric_stats.pipe;
    tool_call_duration = s.metric_stats.tool_call;
  }

module _ {F : Type 0} (floats : Floats F) (redactor : Redactor) where
  abbrev pub made : Config → EventStream F
  made c = record {
    next_id = c.initial_id;
    events = new_event_buffer c.retention_limit;
    appended = 0;
    kind_counts = empty_map;
    metric_stats = new_metric_state floats c.retention_limit;
    subscribers = [];
  }

  unfoldable pub new_event_stream : List StreamOption → Result StreamError (EventStream F)
  unfolding configure
  new_event_stream options =
      configure options (record { initial_id = 0; retention_limit = 4096 }) >>= λ c. ok (made c)

  -- The kind, the time and the payload, before persistence.
  abbrev pub prepare : ℕ → Event → Event
  prepare now e = record e {
    kind = canonical_kind e.kind;
    at = if nat_eq e.at 0 then now else e.at;
    payload = sanitize_payload redactor e.payload;
  }

  -- Under the state lock, with the event's id settled.
  abbrev pub store : Event → EventStream F → Appended F
  store e s = (
    ok (sanitize_event redactor e),
    record s {
      next_id = e.id;
      events = Buffer.append e s.events;
      appended = (s.appended + 1) % uint64_mod;
      kind_counts = count_kind e.kind s.kind_counts;
      metric_stats = observe floats e s.metric_stats;
    },
    notifications s.subscribers (sanitize_event redactor (sanitize_event redactor e)),
  )

  abbrev pub store_persisted : Result String Event → EventStream F → Appended F
  store_persisted (err e) s = refused (persistence_failed e) s
  store_persisted (ok persisted) s =
      if nat_eq persisted.id 0
      then refused empty_persisted_id s
      else if leb persisted.id s.next_id
      then refused not_advanced s
      else store (sanitize_event redactor persisted) s

  abbrev pub append_locked : Event → Persist → EventStream F → Appended F
  append_locked e none s =
      if nat_eq s.next_id max_uint64
      then refused id_exhausted s
      else store (record e { id = s.next_id + 1 }) s
  append_locked e (some persist) s = store_persisted (persist e) s

  abbrev pub append_checked : Result Error (Unit {0}) → Event → Persist → EventStream F → Appended F
  append_checked (err e) event persist s = refused (context_error e) s
  append_checked (ok _) event persist s = append_locked event persist s

  -- The private method `append`; the context is read before and after the wait for the append lock.
  unfoldable pub append :
      (before after : Context) → Event → Persist → ℕ → EventStream F → Appended F
  unfolding check_context
  append before after e persist now s =
      append_checked (check_context before >> check_context after) (prepare now e) persist s

  -- AppendPersisted
  unfoldable pub append_persisted :
      (before after : Context) → Event → Persist → ℕ → EventStream F → Appended F
  unfolding append
  append_persisted before after e none now s = refused callback_required s
  append_persisted before after e (some persist) now s =
      if not (nat_eq e.id 0)
      then refused id_not_allocated s
      else append before after e (some persist) now s

module _ (redactor : Redactor) where
  -- List
  unfoldable pub list_events : {F : Type 0} → EventStream F → List Event
  list_events s = map (sanitize_event redactor) (recorded (each s.events))

  unfoldable pub since : {F : Type 0} → ℕ → EventStream F → List Event
  since id s = map (sanitize_event redactor) (filter (λ e. ltb id e.id) (recorded (each s.events)))

  abbrev pub cons_recorded : Event → Result HistoryGap (List Event) → Result HistoryGap (List Event)
  cons_recorded e (ok es) = ok (sanitize_event redactor e ∷ es)
  cons_recorded e (err gap) = err gap

  -- The visit of SinceChecked, with the id it expects next.
  unfoldable pub checked_from : ℕ → ℕ → List Event → Result HistoryGap (List Event)
  checked_from id expected [] = ok []
  checked_from id expected (e ∷ es) =
      let rest = checked_from id (e.id + 1) es in
      let skipped = checked_from id expected es in
      if leb e.id id
      then skipped
      else if not (nat_eq e.id expected)
      then err (record { after_id = id; expected_id = expected; next_retained_id = e.id })
      else if nat_eq e.id max_uint64
      then ok (sanitize_event redactor e ∷ [])
      else cons_recorded e rest

  unfoldable pub since_checked : {F : Type 0} → ℕ → EventStream F → Result HistoryGap (List Event)
  unfolding checked_from
  since_checked id s =
      if nat_eq id max_uint64 then ok [] else checked_from id (id + 1) (recorded (each s.events))
