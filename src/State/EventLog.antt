-- ===== src/State/EventLog.antt =====
-- The event methods of internal/state/memory_store.go: the log of events, with ids allocated by the
-- store or brought by the caller.
pub mod Ids
mod Tests
use ouvrier.Base.{
  ℕ, ◌+◌, ◌-◌, String, ◌&&◌, ◌||◌, none, some, List, [], ◌∷◌, ◌++◌, Result, ok, err, ◌==◌,
  eq_string, eq_nat, if◌then◌else◌, ltb, nat_eq, filter, map, lookup, insert, sort,
}
use ouvrier.Events.{Event}
use ouvrier.Events.Redactor.{Redactor}
use ouvrier.Events.Sanitize.{sanitize_event}
use ouvrier.State.Types.{
  Error, event_id_exhausted, event_id_exists, Context, check_context, MemoryStore, Exec, checked,
  uint64_mod,
}

abbrev max_uint64 : ℕ
max_uint64 = uint64_mod - 1

module _ (redactor : Redactor) where
  -- Under the lock, with the event's id settled: the time, the two writes and the answer.
  abbrev pub record_event : ℕ → Event → MemoryStore → Result Error Event × MemoryStore
  record_event now e s =
      let dated = record e { at = if nat_eq e.at 0 then now else e.at } in
      (
        ok (sanitize_event redactor dated),
        record s { event_ids = insert e.id tt s.event_ids; events = s.events ++ dated ∷ [] },
      )

  unfoldable pub add_locked : ℕ → Event → Exec Event
  add_locked now e s =
      if nat_eq e.id 0
      then (if nat_eq s.next_event_id max_uint64
          then (err event_id_exhausted, s)
          else record_event now (record e { id = s.next_event_id + 1 })
              (record s { next_event_id = s.next_event_id + 1 }))
      else elim (lookup e.id s.event_ids) [
        | some _ ↦ (err event_id_exists, s)
        | none ↦ record_event now e (record s {
          next_event_id = if ltb s.next_event_id e.id then e.id else s.next_event_id;
        })
      ]

  unfoldable pub add_event : Context → Event → ℕ → Exec Event
  unfolding check_context add_locked
  add_event ctx e now =
      checked (check_context ctx) (λ _. add_locked now (sanitize_event redactor e))

  -- eventsSinceLocked
  unfoldable pub events_since_locked : String → ℕ → MemoryStore → List Event
  events_since_locked exec_id after s =
      sort (λ a b. ltb a.id b.id)
        (map (sanitize_event redactor)
          (filter (λ e. (exec_id == "" || e.exec_id == exec_id) && ltb after e.id) s.events))

  unfoldable pub events_since : Context → String → ℕ → Exec (List Event)
  unfolding check_context events_since_locked
  events_since ctx exec_id after =
      checked (check_context ctx) (λ _ s. (ok (events_since_locked exec_id after s), s))

  -- Events
  unfoldable pub all_events : Context → String → Exec (List Event)
  unfolding events_since
  all_events ctx exec_id = events_since ctx exec_id 0
