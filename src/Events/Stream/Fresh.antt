-- ===== src/Events/Stream/Fresh.antt =====
-- A reader at the head of a stream gets the next event.
use ouvrier.Base.{
  ◌∙◌, if-keeps, ℕ, ◌+◌, ◌<◌, ◌≡◌, refl, true, false, none, List, [], ◌∷◌, arith, eq_string, eq_nat,
  ok, ltb, leb, nat_eq, length,
}
use ouvrier.Events.{Event}
use ouvrier.Events.Redactor.{Redactor}
use ouvrier.Events.Sanitize.{sanitize_event}
use ouvrier.Events.Buffer.Queue.{push, drop_first}
use ouvrier.Events.Metrics.{Floats}
use ouvrier.Events.Stream.{
  EventStream, since_checked, checked_from, append, prepare, store, max_uint64,
}
use ouvrier.Events.Stream.Order.{Between, Between-drop_first, IsOrdered, store-IsOrdered}
use ouvrier.Events.Stream.Since.{held_events, passed_over}
use ouvrier.State.Types.{Context, check_context}

module _ {F : Type 0} (floats : Floats F) (redactor : Redactor) where
  checked_next :
      (id : ℕ) (e : Event)
      → e.id ≡ id + 1
      → checked_from redactor id (id + 1) (e ∷ []) ≡ ok (sanitize_event redactor e ∷ [])
  unfolding checked_from
  checked_next id e next =
      let newer : leb e.id id ≡ false = ground (arith, next) in
      let hit : nat_eq e.id (id + 1) ≡ true = ground (arith, next) in
      rw (newer, hit)
        (if-keeps (λ r. r ≡ ok (sanitize_event redactor e ∷ [])) (nat_eq e.id max_uint64) refl refl)

  checked_push :
      (capacity : ℕ) (id : ℕ) (e : Event) (q : List Event)
      → Between 0 id q
      → e.id ≡ id + 1
      → checked_from redactor id (id + 1) (push capacity e q) ≡ ok (sanitize_event redactor e ∷ [])
  checked_push capacity id e q h next =
      if-keeps (λ l. checked_from redactor id (id + 1) l ≡ ok (sanitize_event redactor e ∷ []))
        (ltb (length q) capacity)
        (passed_over redactor id (id + 1) 0 id q (e ∷ []) h (omega arith) ∙ checked_next id e next)
        (passed_over redactor id (id + 1) 0 id (drop_first q) (e ∷ []) (Between-drop_first 0 id q h)
            (omega arith)
          ∙ checked_next id e next)

  -- On a stream in the order of its ids that has ids left, an append under a live context succeeds
  -- whatever the event, and SinceChecked from the counter before it answers exactly the event that
  -- the append returned, without a gap, even when the append evicts an older event.
  pub append-since_checked :
      (e : Event) (now : ℕ) (s : EventStream F) (q : List Event)
      → IsOrdered s q
      → s.next_id < max_uint64
      → (stored : Event) × ((append floats redactor Context.live Context.live e none now s).0
          ≡ ok stored)
        × (since_checked redactor s.next_id
              (append floats redactor Context.live Context.live e none now s).1
            ≡ ok (stored ∷ []))
  unfolding append check_context since_checked
  append-since_checked e now s q h below =
      let room : nat_eq s.next_id max_uint64 ≡ false = ground (arith, below) in
      let new : Event = record (prepare floats redactor now e) { id = s.next_id + 1 } in
      let t = (store floats redactor new s).1 in
      let ordered =
        store-IsOrdered floats redactor new s q (omega arith) (omega (arith, below)) h in
      (
        sanitize_event redactor new,
        rw room,
        rw (room, held_events redactor t (push (length s.events.entries) new q) ordered)
            (checked_push (length s.events.entries) s.next_id new q h.1 refl),
      )
