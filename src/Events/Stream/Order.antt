-- ===== src/Events/Stream/Order.antt =====
-- The retained events of a stream, oldest first, have increasing ids up to the stream's counter.
use ouvrier.Base.{
  if-keeps, ℕ, ◌≤◌, ◌<◌, String, inl, inr, none, some, List, [], ◌∷◌, ◌++◌, arith, eq_string,
  eq_nat, Result, ok, err, ltb, nat_eq, Bool-cases, length,
}
use ouvrier.Events.{Event}
use ouvrier.Events.Redactor.{Redactor}
use ouvrier.Events.Buffer.Queue.{
  Represents, push, drop_first, append-Represents, new_event_buffer-Represents,
}
use ouvrier.Events.Metrics.{Floats}
use ouvrier.Events.Stream.{Persist, EventStream, Config, store, ensure_next_id_at_least, made}
use ouvrier.State.Types.{uint64_mod}
use ouvrier.Base.{ltb→lt}

-- Ids grow strictly from above `low` to at most `high`.
abbrev pub Between : ℕ → ℕ → List Event → Type 0
Between low high [] = low ≤ high
Between low high (e ∷ es) = (low < e.id) × Between e.id high es

pub Between-bound : (low high : ℕ) (q : List Event) → Between low high q → low ≤ high
Between-bound low high [] h = h
Between-bound low high (e ∷ q) (h, r) = omega (arith, h, Between-bound e.id high q r)

pub Between-raise :
    (low high higher : ℕ) (q : List Event)
    → high ≤ higher
    → Between low high q
    → Between low higher q
Between-raise low high higher [] h k = omega (arith, h, k)
Between-raise low high higher (e ∷ q) h (k, r) = (k, Between-raise e.id high higher q h r)

Between-lower :
    (lower low high : ℕ) (q : List Event) → lower ≤ low → Between low high q → Between lower high q
Between-lower lower low high [] h k = omega (arith, h, k)
Between-lower lower low high (e ∷ q) h (k, r) = (omega (arith, h, k), r)

Between-snoc :
    (low high : ℕ) (q : List Event) (e : Event)
    → high < e.id
    → Between low high q
    → Between low e.id (q ++ e ∷ [])
Between-snoc low high [] e h k = (omega (arith, h, k), omega arith)
Between-snoc low high (x ∷ q) e h (k, r) = (k, Between-snoc x.id high q e h r)

pub Between-drop_first :
    (low high : ℕ) (q : List Event) → Between low high q → Between low high (drop_first q)
Between-drop_first low high [] h = h
Between-drop_first low high (e ∷ q) (h, r) = Between-lower low e.id high q (omega (arith, h)) r

Between-push :
    (low high capacity : ℕ) (q : List Event) (e : Event)
    → high < e.id
    → Between low high q
    → Between low e.id (push capacity e q)
Between-push low high capacity q e h k =
    if-keeps (Between low e.id) (ltb (length q) capacity) (Between-snoc low high q e h k)
      (Between-snoc low high (drop_first q) e h (Between-drop_first low high q k))

module _ {F : Type 0} where
  -- The buffer holds exactly the events of q, in the order of their ids.
  abbrev pub IsOrdered : EventStream F → List Event → Type 0
  IsOrdered s q = Represents s.events q × Between 0 s.next_id q × (s.next_id < uint64_mod)

  -- The stream holds some events in the order of their ids.
  abbrev pub IsSomeOrdered : EventStream F → Type 0
  IsSomeOrdered s = (q : List Event) × IsOrdered s q

  pub ensure_next_id_at_least-IsOrdered :
      (id : ℕ) (s : EventStream F) (q : List Event)
      → id < uint64_mod
      → IsOrdered s q
      → IsOrdered (ensure_next_id_at_least id s) q
  unfolding ensure_next_id_at_least
  ensure_next_id_at_least-IsOrdered id s q in_range (held, between, bounded) =
      if-keeps (λ t. IsOrdered t q) (nat_eq id 0) (held, between, bounded)
        (elim (Bool-cases (ltb s.next_id id)) [
          | inl low ↦ rw low (
            held,
            Between-raise 0 s.next_id id q (omega (arith, ltb→lt s.next_id id low)) between,
            in_range,
          )
          | inr high ↦ rw high (held, between, bounded)
        ])

-- An id that fits Go's uint64, of an answer of a callback.
abbrev pub IsUint64 : Result String Event → Type 0
IsUint64 (ok e) = e.id < uint64_mod
IsUint64 (err e) = Unit

abbrev pub HasUint64Ids : Persist → Type 0
HasUint64Ids none = Unit
HasUint64Ids (some persist) = (e : Event) → IsUint64 (persist e)

module _ {F : Type 0} (floats : Floats F) (redactor : Redactor) where
  pub made-IsOrdered :
      (c : Config)
      → 0 < c.retention_limit
      → c.initial_id < uint64_mod
      → IsOrdered (made floats redactor c) []
  made-IsOrdered c room bounded =
      (new_event_buffer-Represents c.retention_limit room, omega arith, bounded)

  pub store-IsOrdered :
      (e : Event) (s : EventStream F) (q : List Event)
      → s.next_id < e.id
      → e.id < uint64_mod
      → IsOrdered s q
      → IsOrdered (store floats redactor e s).1 (push (length s.events.entries) e q)
  store-IsOrdered e s q newer in_range (held, between, bounded) = (
    append-Represents e s.events q held,
    Between-push 0 s.next_id (length s.events.entries) q e newer between,
    in_range,
  )
