-- ===== src/Events/Metrics/Bounded.antt =====
-- The operations that a stream remembers are those of its ring of starts.
use ouvrier.Events.Metrics.Names.{deleted, named_count}
use ouvrier.Events.Metrics.Ring.{
  IsTracked, new_metric_state-IsTracked, remember_start-IsTracked, open_start-IsTracked,
}
use ouvrier.Base.{
  ℕ, ◌≤◌, ◌<◌, String, inl, inr, ◌&&◌, ◌||◌, List, [], ◌∷◌, arith, eq_string, eq_nat, ◌==◌, nat_eq,
  Option-cases, lookup, delete, length,
}
use ouvrier.Events.{Event}
use ouvrier.Events.Kinds.{canonical_kind}
use ouvrier.Events.Metrics.{
  Floats, MetricState, metric_operation, duration_key, new_metric_state, add_duration,
  remember_start, finish, observe_latency, observe_operation, observe,
}
use ouvrier.Base.{delete-HasDistinctKeys}
use ouvrier.Base.{if-keeps}

-- The metrics after the events of a history.
unfoldable pub observe_all : {F : Type 0} → Floats F → List Event → MetricState F → MetricState F
observe_all floats [] m = m
observe_all floats (e ∷ es) m = observe_all floats es (observe floats e m)

module _ {F : Type 0} (floats : Floats F) (capacity : ℕ) where
  add_duration-IsTracked :
      (op : String) (ms : F) (m : MetricState F)
      → IsTracked capacity m
      → IsTracked capacity (add_duration floats op ms m)
  unfolding add_duration
  add_duration-IsTracked op ms m h = if-keeps (IsTracked capacity) (op == "pipeline") h (
      if-keeps (IsTracked capacity) (op == "pipe") h
        (if-keeps (IsTracked capacity) (op == "tool_call") h h))

  finish-IsTracked :
      (op key : String) (e : Event) (m : MetricState F)
      → IsTracked capacity m
      → IsTracked capacity (finish floats op key e m)
  finish-IsTracked op key e m h = elim (Option-cases (lookup key m.open_starts)) [
    | inl missing ↦ rw (finish, missing) h
    | inr (v, found) ↦
        rw (finish, found)
          (let (sized, in_range, small, unmoved, distinct, named) = h in
            add_duration-IsTracked op _ (record m { open_starts = delete key m.open_starts })
              (
                sized,
                in_range,
                small,
                unmoved,
                delete-HasDistinctKeys key m.open_starts distinct,
                λ k w kept. named k w (deleted key k m.open_starts kept).1,
              ))
  ]

  observe_operation-IsTracked :
      (o : String × String) (e : Event) (m : MetricState F)
      → IsTracked capacity m
      → IsTracked capacity (observe_operation floats o e m)
  observe_operation-IsTracked (op, action) e m h =
      let P = IsTracked capacity in
      let key = duration_key op e in
      let started = remember_start-IsTracked capacity key e.id m h in
      if-keeps P (op == "" || nat_eq e.at 0) h (
        if-keeps P (key == "") h (
          if-keeps P (action == "start")
            (open_start-IsTracked capacity key e.id (remember_start key e.id m) started.0 e
              started.1)
            (if-keeps P (action == "finish") (finish-IsTracked op key e m h) h)))

  observe-IsTracked :
      (e : Event) (m : MetricState F)
      → IsTracked capacity m
      → IsTracked capacity (observe floats e m)
  unfolding observe
  observe-IsTracked e m h =
      observe_operation-IsTracked (metric_operation (canonical_kind e.kind)) e
        (observe_latency floats e m)
        (if-keeps (IsTracked capacity) (canonical_kind e.kind == "llm_call_completed" && _) h h)

  observe_all-IsTracked :
      (es : List Event) (m : MetricState F)
      → IsTracked capacity m
      → IsTracked capacity (observe_all floats es m)
  unfolding observe_all
  observe_all-IsTracked [] m h = h
  observe_all-IsTracked (e ∷ es) m h =
      observe_all-IsTracked es (observe floats e m) (observe-IsTracked e m h)

-- A stream of a positive retention limit remembers at most that many unfinished operations, however
-- many events start operations that never finish.
pub observe_all-open_starts :
    {F : Type 0} (floats : Floats F) (capacity : ℕ) (es : List Event)
    → 0 < capacity
    → length (observe_all floats es (new_metric_state floats capacity)).open_starts.entries
      ≤ capacity
observe_all-open_starts floats capacity es some_room =
    let m = observe_all floats es (new_metric_state floats capacity) in
    let (sized, in_range, small, unmoved, distinct, named) =
      observe_all-IsTracked floats capacity es (new_metric_state floats capacity)
        (new_metric_state-IsTracked floats capacity some_room) in
    omega (arith, small, named_count m.start_order m.start_size m.open_starts distinct named)
