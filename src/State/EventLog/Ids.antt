-- ===== src/State/EventLog/Ids.antt =====
-- The ids of the event log over histories of appends.
use ouvrier.Base.{
  ℕ, ◌+◌, ◌-◌, ◌≤◌, ◌<◌, ◌≡◌, ◌≢◌, refl, ap, inl, inr, none, some, List, [], ◌∷◌, ◌++◌, arith,
  eq_string, eq_nat, err, if◌then◌else◌, ltb, nat_eq, Bool-cases, Option-cases, lookup, insert,
  lookup-insert, lookup-insert_self, All, All-append,
}
use ouvrier.Events.{Event}
use ouvrier.Events.Redactor.{Redactor}
use ouvrier.Events.Sanitize.{sanitize_event}
use ouvrier.State.Types.{
  Context, MemoryStore, new_memory_store, check_context, checked-keeps, event_id_exists, live,
}
use ouvrier.State.EventLog.{record_event, add_locked, add_event, uint64_mod}

-- One append, at the clock's reading `now`.
pub record Call : Type 0 where
  pub context : Context
  pub event : Event
  pub now : ℕ

unfoldable pub run : Redactor → List Call → MemoryStore → MemoryStore
run r [] s = s
run r (c ∷ cs) s = run r cs (add_event r c.context c.event c.now s).1

-- No two events of the log have the same id.
abbrev pub IsDistinct : List Event → Type 0
IsDistinct [] = Unit {0}
IsDistinct (e ∷ es) = All (λ x. e.id ≢ x.id) es × IsDistinct es

-- Every event's id is registered, and none is above the counter.
pub record LogValid (s : MemoryStore) : Type 0 where
  pub registered : All (λ e. lookup e.id s.event_ids ≡ some tt) s.events
  pub bounded : (i : ℕ) → lookup i s.event_ids ≡ some tt → i ≤ s.next_event_id
  pub distinct : IsDistinct s.events

All-map : {P Q : Event → Type 0} (l : List Event) → ((e : Event) → P e → Q e) → All P l → All Q l
All-map [] f h = tt
All-map (e ∷ l) f h = (f e h.0, All-map l f h.1)

IsDistinct-snoc :
    (l : List Event) (e : Event)
    → IsDistinct l
    → All (λ x. x.id ≢ e.id) l
    → IsDistinct (l ++ e ∷ [])
IsDistinct-snoc [] e h k = (tt, tt)
IsDistinct-snoc (x ∷ l) e h k =
    (All-append (λ y. x.id ≢ y.id) l (e ∷ []) h.0 (k.0, tt), IsDistinct-snoc l e h.1 k.1)

module _ (r : Redactor) (now : ℕ) (e : Event) (s : MemoryStore) where
  -- Recording an event under an id that is free and within the counter keeps the log valid.
  record_event-LogValid :
      LogValid s
      → lookup e.id s.event_ids ≡ none
      → e.id ≤ s.next_event_id
      → LogValid (record_event r now e s).1
  record_event-LogValid valid free within =
      let dated = record e { at = if nat_eq e.at 0 then now else e.at } in
      record {
        registered =
            All-append (λ x. lookup x.id (insert e.id tt s.event_ids) ≡ some tt) s.events
              (dated ∷ [])
              (All-map s.events (λ x h. ground (arith, h, lookup-insert e.id x.id tt s.event_ids))
                valid.registered)
              (lookup-insert_self e.id tt s.event_ids, tt);
        bounded =
            λ i h. ground (arith, h, within, valid.bounded i, lookup-insert e.id i tt s.event_ids);
        distinct = IsDistinct-snoc s.events dated valid.distinct (
            All-map s.events
              (λ x h same. absurd (ground (arith, h, free, ap (λ i. lookup i s.event_ids) same)))
              valid.registered);
      }

abbrev raised : ℕ → MemoryStore → MemoryStore
raised n s = record s { next_event_id = n }

raised-LogValid :
    (n : ℕ) (s : MemoryStore) → s.next_event_id ≤ n → LogValid s → LogValid (raised n s)
raised-LogValid n s h valid = record {
  registered = valid.registered;
  bounded = λ i k. omega (arith, h, valid.bounded i k);
  distinct = valid.distinct;
}

-- An id above the counter is not registered.
free_above :
    (i : ℕ) (s : MemoryStore) → LogValid s → s.next_event_id < i → lookup i s.event_ids ≡ none
free_above i s valid above = elim (Option-cases (lookup i s.event_ids)) [
  | inl e ↦ e
  | inr (u, e) ↦ absurd (omega (arith, above, valid.bounded i e))
]

add_locked-LogValid :
    (r : Redactor) (now : ℕ) (e : Event) (s : MemoryStore)
    → LogValid s
    → LogValid (add_locked r now e s).1
unfolding add_locked
add_locked-LogValid r now e s valid = elim (Bool-cases (nat_eq e.id 0)) [
  | inl fresh ↦ rw fresh (elim (Bool-cases (nat_eq s.next_event_id (uint64_mod - 1))) [
    | inl full ↦ rw full valid
    | inr room ↦ rw room (
        let next = s.next_event_id + 1 in
        record_event-LogValid r now (record e { id = next }) (raised next s)
          (raised-LogValid next s (omega arith) valid) (free_above next s valid (omega arith))
          (omega arith))
  ])
  | inr given ↦ rw given (elim (Option-cases (lookup e.id s.event_ids)) [
    | inr (u, taken) ↦ rw taken valid
    | inl free ↦ rw free (
        let next = if ltb s.next_event_id e.id then e.id else s.next_event_id in
        record_event-LogValid r now e (raised next s) (raised-LogValid next s (ground arith) valid)
          free (ground arith))
  ])
]

run-LogValid :
    (r : Redactor) (cs : List Call) (s : MemoryStore) → LogValid s → LogValid (run r cs s)
unfolding run add_event
run-LogValid r [] s valid = valid
run-LogValid r (c ∷ cs) s valid = run-LogValid r cs (add_event r c.context c.event c.now s).1 (
    checked-keeps LogValid (check_context c.context) _ s valid
      (λ _. add_locked-LogValid r c.now (sanitize_event r c.event) s valid))

pub new_memory_store-LogValid : LogValid new_memory_store
unfolding lookup
new_memory_store-LogValid = record { registered = tt; bounded = λ i h. absurd (cc); distinct = tt }

-- Whatever appends a new store has seen, with ids of its own or of the callers, from live or ended
-- contexts, no two events of its log have the same id, and no id is above the store's counter.
pub log_ids-IsDistinct :
    (r : Redactor) (cs : List Call)
    → IsDistinct (run r cs new_memory_store).events
      × All
          (λ e. e.id ≤ (run r cs new_memory_store).next_event_id)
          (run r cs new_memory_store).events
log_ids-IsDistinct r cs =
    let valid = run-LogValid r cs new_memory_store new_memory_store-LogValid in
    (
      valid.distinct,
      All-map (run r cs new_memory_store).events (λ e. valid.bounded e.id) valid.registered,
    )

allocated :
    (r : Redactor) (now : ℕ) (e : Event) (s : MemoryStore)
    → e.id ≡ 0
    → s.next_event_id < uint64_mod - 1
    → add_locked r now e s
      ≡ record_event r now (record e { id = s.next_event_id + 1 }) (raised (s.next_event_id + 1) s)
unfolding add_locked
allocated r now e s fresh room = ground (arith, fresh, room)

taken :
    (r : Redactor) (now : ℕ) (e : Event) (s : MemoryStore)
    → e.id ≢ 0
    → lookup e.id s.event_ids ≡ some tt
    → add_locked r now e s ≡ (err event_id_exists, s)
unfolding add_locked
taken r now e s some_id held = ground (arith, some_id, held)

after_allocation :
    (r : Redactor) (e x : Event) (now : ℕ) (s : MemoryStore)
    → e.id ≡ 0
    → s.next_event_id < uint64_mod - 1
    → x.id ≡ s.next_event_id + 1
    → ((add_event r live e now s).1.next_event_id ≡ x.id)
      × (lookup x.id (add_event r live e now s).1.event_ids ≡ some tt)
unfolding add_event check_context sanitize_event
after_allocation r e x now s fresh room same =
    rw (allocated r now (sanitize_event r e) s fresh room, same)
      (refl, lookup-insert_self (s.next_event_id + 1) tt s.event_ids)

refused :
    (r : Redactor) (x : Event) (now : ℕ) (t : MemoryStore)
    → x.id ≢ 0
    → lookup x.id t.event_ids ≡ some tt
    → add_event r live x now t ≡ (err event_id_exists, t)
unfolding add_event check_context sanitize_event
refused r x now t some_id held = taken r now (sanitize_event r x) t some_id held

-- An append without an id, while the counter can still grow, takes the next id, which no event of
-- the log had; the id is registered, so a later append that brings it is refused and changes
-- nothing.
pub add_event-allocates :
    (r : Redactor) (e x : Event) (now : ℕ) (s : MemoryStore)
    → LogValid s
    → e.id ≡ 0
    → s.next_event_id < uint64_mod - 1
    → x.id ≡ s.next_event_id + 1
    → All (λ y. y.id ≢ x.id) s.events
      × ((add_event r live e now s).1.next_event_id ≡ x.id)
      × (lookup x.id (add_event r live e now s).1.event_ids ≡ some tt)
      × (add_event r live x now (add_event r live e now s).1
          ≡ (err event_id_exists, (add_event r live e now s).1))
add_event-allocates r e x now s valid fresh room same =
    let after = after_allocation r e x now s fresh room same in
    (
      All-map s.events (λ y h bad. absurd (omega (arith, bad, same, valid.bounded y.id h)))
          valid.registered,
      after.0,
      after.1,
      refused r x now (add_event r live e now s).1 (omega (arith, same)) after.1,
    )
