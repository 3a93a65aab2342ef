-- ===== src/State/EventLog/Tests.antt =====
-- A log of two events, and the theorems of this folder at concrete inputs.
use ouvrier.Base.{
  ◌≤◌, ◌≡◌, ◌≢◌, refl, some, List, [], ◌∷◌, arith, eq_string, eq_nat, err, lookup, All,
}
use ouvrier.Events.Buffer.{zero_event}
use ouvrier.Events.Redactor.{Redactor}
use ouvrier.State.Types.{live, MemoryStore, new_memory_store, event_id_exists}
use ouvrier.State.EventLog.{add_event}
use ouvrier.State.EventLog.Ids.{
  Call, run, IsDistinct, log_ids-IsDistinct, new_memory_store-LogValid, add_event-allocates,
}

abbrev plain : Redactor
plain = record { redact_text = λ s. s; redact_json_text = λ s. s }

abbrev appends : List Call
appends =
    record { context = live; event = zero_event; now = 7 }
    ∷ record { context = live; event = record zero_event { id = 5 }; now = 8 }
    ∷ []

log_ids-IsDistinct_example :
    IsDistinct (run plain appends new_memory_store).events
    × All
        (λ e. e.id ≤ (run plain appends new_memory_store).next_event_id)
        (run plain appends new_memory_store).events
log_ids-IsDistinct_example = log_ids-IsDistinct plain appends

abbrev one_logged : MemoryStore
one_logged = (add_event plain live zero_event 7 new_memory_store).1

add_event-allocates_example :
    All (λ y. y.id ≢ 1) new_memory_store.events
    × (one_logged.next_event_id ≡ 1)
    × (lookup 1 one_logged.event_ids ≡ some tt)
    × (add_event plain live (record zero_event { id = 1 }) 7 one_logged
        ≡ (err event_id_exists, one_logged))
add_event-allocates_example =
    add_event-allocates plain zero_event (record zero_event { id = 1 }) 7 new_memory_store
      new_memory_store-LogValid refl (omega arith) refl
