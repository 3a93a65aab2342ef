-- ===== src/Events/Stream/Append.antt =====
-- What one append does to a stream, on every path.
use mathlib.Core.Path.{subst}
use ouvrier.Base.{
  if-keeps, ℕ, ◌+◌, ◌<◌, String, ◌≡◌, ◌⊎◌, refl, sym, inl, inr, not, none, some, arith, eq_string,
  eq_nat, Result, ok, err, ◌>>◌, leb, nat_eq, Bool-cases, length,
}
use ouvrier.Events.{Event}
use ouvrier.Events.Redactor.{Redactor}
use ouvrier.Events.Sanitize.{sanitize_event}
use ouvrier.Events.Buffer.Queue.{push}
use ouvrier.Events.Metrics.{Floats}
use ouvrier.Events.Stream.{
  StreamError, context_error, id_exhausted, empty_persisted_id, not_advanced, persistence_failed,
  callback_required, id_not_allocated, Persist, EventStream, Appended, refused, store,
  store_persisted, append_locked, append_checked, append, append_persisted, prepare, max_uint64,
}
use ouvrier.Events.Stream.Order.{IsUint64, HasUint64Ids, IsSomeOrdered, store-IsOrdered}
use ouvrier.State.Types.{Error, Context, check_context, uint64_mod}

module _ {F : Type 0} (floats : Floats F) (redactor : Redactor) where
  -- An append is refused, which changes nothing, or it stores an event of a newer id.
  abbrev pub IsStep : EventStream F → Appended F → Type 0
  IsStep s r =
      ((x : StreamError) × (r ≡ refused x s))
      ⊎ ((e : Event) × (s.next_id < e.id) × (e.id < uint64_mod) × (r ≡ store floats redactor e s))

  sanitize_event-id : (e : Event) → (sanitize_event redactor e).id ≡ e.id
  unfolding sanitize_event
  sanitize_event-id e = refl

  store_persisted-IsStep :
      (answer : Result String Event) (s : EventStream F)
      → IsUint64 answer
      → IsStep s (store_persisted floats redactor answer s)
  store_persisted-IsStep (err x) s h = inl (persistence_failed x, refl)
  store_persisted-IsStep (ok e) s h =
      if-keeps (IsStep s) (nat_eq e.id 0) (inl (empty_persisted_id, refl))
        (elim (Bool-cases (leb e.id s.next_id)) [
          | inl old ↦ rw old (inl (not_advanced, refl))
          | inr newer ↦ rw newer (
              inr (
                sanitize_event redactor e,
                ground (arith, newer, sanitize_event-id e),
                omega (arith, h, sanitize_event-id e),
                refl,
              ))
        ])

  append_locked-IsStep :
      (e : Event) (persist : Persist) (s : EventStream F)
      → s.next_id < uint64_mod
      → HasUint64Ids persist
      → IsStep s (append_locked floats redactor e persist s)
  append_locked-IsStep e none s bounded h = elim (Bool-cases (nat_eq s.next_id max_uint64)) [
    | inl last ↦ rw last (inl (id_exhausted, refl))
    | inr more ↦
        rw more
          (inr (record e { id = s.next_id + 1 }, omega arith, ground (arith, bounded, more), refl))
  ]
  append_locked-IsStep e (some persist) s bounded h = store_persisted-IsStep (persist e) s (h e)

  append_checked-IsStep :
      (checks : Result Error (Unit {0})) (e : Event) (persist : Persist) (s : EventStream F)
      → s.next_id < uint64_mod
      → HasUint64Ids persist
      → IsStep s (append_checked floats redactor checks e persist s)
  append_checked-IsStep (err x) e persist s bounded h = inl (context_error x, refl)
  append_checked-IsStep (ok _) e persist s bounded h = append_locked-IsStep e persist s bounded h

  -- Whatever the context and the callback do, an append either answers an error, changes nothing
  -- and notifies nobody, or it stores an event whose id is greater than the stream's counter; the
  -- stream's counter and the ids that a callback answers are taken to fit an uint64.
  pub append-IsStep :
      (before after : Context) (e : Event) (persist : Persist) (now : ℕ) (s : EventStream F)
      → s.next_id < uint64_mod
      → HasUint64Ids persist
      → IsStep s (append floats redactor before after e persist now s)
  unfolding append
  append-IsStep before after e persist now s =
      append_checked-IsStep (check_context before >> check_context after)
        (prepare floats redactor now e) persist s

  pub append_persisted-IsStep :
      (before after : Context) (e : Event) (persist : Persist) (now : ℕ) (s : EventStream F)
      → s.next_id < uint64_mod
      → HasUint64Ids persist
      → IsStep s (append_persisted floats redactor before after e persist now s)
  unfolding append_persisted
  append_persisted-IsStep before after e none now s bounded h = inl (callback_required, refl)
  append_persisted-IsStep before after e (some persist) now s bounded h =
      if-keeps (IsStep s) (not (nat_eq e.id 0)) (inl (id_not_allocated, refl))
        (append-IsStep before after e (some persist) now s bounded h)

  -- A step keeps the stream's order, and a stored event becomes the newest one.
  pub step-IsSomeOrdered :
      (s : EventStream F) (r : Appended F) → IsStep s r → IsSomeOrdered s → IsSomeOrdered r.1
  step-IsSomeOrdered s r (inl (x, same)) h = subst (λ t. IsSomeOrdered t.1) (sym same) h
  step-IsSomeOrdered s r (inr (e, newer, in_range, same)) (q, h) =
      subst (λ t. IsSomeOrdered t.1) (sym same)
        (push (length s.events.entries) e q, store-IsOrdered floats redactor e s q newer in_range h)
