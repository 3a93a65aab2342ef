-- ===== src/Events/Metrics/Ring.antt =====
-- Remembering a start keeps the ring in range and every kept start named.
use ouvrier.Events.Metrics.Names.{IsNamed, AllNamed, forget-HasDistinctKeys, forgotten}
use ouvrier.Base.{
  ℕ, ◌+◌, ◌%◌, ◌≤◌, ◌<◌, String, ◌≡◌, refl, sym, ap, inl, inr, false, some, arith, eq_iff,
  eq_string, eq_nat, ◌==◌, nat_eq, Bool-cases, lookup, lookup-insert, length,
}
use ouvrier.Base.{length-replicate}
use mathlib.Core.Path.{subst}
use native.Mathlib.Nat.{mod-lt, mod-eq_of_lt}
use ouvrier.Events.{Event}
use ouvrier.Events.Metrics.{
  Floats, MetricStart, StartRef, MetricState, zero_ref, new_metric_state, forget, remember_start,
  open_start,
}
use ouvrier.Base.{HasDistinctKeys, get_at, length-replicate}
use ouvrier.Base.{◌∙◌}
use ouvrier.Base.{insert-HasDistinctKeys, length-set_at, nat_eq_iff, set_at}
use ouvrier.Base.{get_at-set_at_other}
use ouvrier.Base.{get_at-set_at_same}

module _ {F : Type 0} where
  -- The ring's window is in range, and it names every start that is kept.
  abbrev pub IsTracked : ℕ → MetricState F → Type 0
  IsTracked capacity m =
      (length m.start_order ≡ capacity)
      × (m.start_head < capacity)
      × (m.start_size ≤ capacity)
      × (m.start_size < capacity → m.start_head ≡ 0)
      × HasDistinctKeys m.open_starts.entries
      × AllNamed m.start_order m.start_size m.open_starts

  pub new_metric_state-IsTracked :
      (floats : Floats F) (capacity : ℕ)
      → 0 < capacity
      → IsTracked capacity (new_metric_state floats capacity)
  unfolding new_metric_state lookup
  new_metric_state-IsTracked floats capacity some_room = (
    length-replicate capacity zero_ref,
    some_room,
    omega arith,
    λ _. refl,
    tt,
    λ key started found. absurd (cc),
  )

  module _ (capacity : ℕ) (key : String) (id : ℕ) (m : MetricState F)
      (t : IsTracked capacity m) where
    abbrev ref : StartRef
    ref = record { ref_key = key; ref_event = id }

    abbrev overwritten : MetricState F
    overwritten = record m {
      open_starts = forget (get_at m.start_order m.start_head) m.open_starts;
      start_order = set_at m.start_order m.start_head ref;
      start_head = (m.start_head + 1) % length m.start_order;
    }

    overwritten-IsTracked :
        m.start_size ≡ length m.start_order
        → IsTracked capacity overwritten × IsNamed overwritten.start_order m.start_size key id
    overwritten-IsTracked full =
        let (sized, in_range, small, unmoved, distinct, named) = t in
        (
          (
            length-set_at m.start_order m.start_head ref ∙ sized,
            subst (λ n. (m.start_head + 1) % n < capacity) (sym sized)
                (mod-lt (m.start_head + 1) (omega (arith, in_range))),
            small,
            λ room. absurd (omega (arith, room, full, sized)),
            forget-HasDistinctKeys (get_at m.start_order m.start_head) m.open_starts distinct,
            λ k v found.
                let (before, other) =
                  forgotten (get_at m.start_order m.start_head) m.open_starts k v found in
                let (i, below, here) = named k v before in
                (
                  i,
                  below,
                  get_at-set_at_other m.start_order m.start_head i ref
                        (λ same. other (ap (get_at m.start_order) same ∙ here))
                      ∙ here,
                ),
          ),
          (
            m.start_head,
            omega (arith, full, sized, in_range),
            get_at-set_at_same m.start_order m.start_head ref (omega (arith, sized, in_range)),
          ),
        )

    abbrev next_slot : ℕ
    next_slot = (m.start_head + m.start_size) % length m.start_order

    abbrev extended : MetricState F
    extended = record m {
      start_order = set_at m.start_order next_slot ref;
      start_size = m.start_size + 1;
    }

    -- A ring with room starts at 0, so the next slot is that of its size.
    next_slot_is_size : m.start_size < capacity → next_slot ≡ m.start_size
    next_slot_is_size room =
        let (sized, in_range, small, unmoved, distinct, named) = t in
        ap (λ k. k % length m.start_order) {y = m.start_size} (omega (arith, unmoved room))
        ∙ mod-eq_of_lt (omega (arith, room, sized))

    extended-IsTracked :
        m.start_size < capacity
        → IsTracked capacity extended × IsNamed extended.start_order extended.start_size key id
    extended-IsTracked room =
        let (sized, in_range, small, unmoved, distinct, named) = t in
        let slot = next_slot_is_size room in
        (
          (
            length-set_at m.start_order next_slot ref ∙ sized,
            in_range,
            omega (arith, room),
            λ more. unmoved room,
            distinct,
            λ k v found.
                let (i, below, here) = named k v found in
                (
                  i,
                  omega (arith, below),
                  get_at-set_at_other m.start_order next_slot i ref
                        (λ same. omega (arith, same, slot, below))
                      ∙ here,
                ),
          ),
          (
            next_slot,
            omega (arith, slot),
            get_at-set_at_same m.start_order next_slot ref (omega (arith, slot, room, sized)),
          ),
        )

    -- The start just remembered is named, and the others keep their names.
    pub remember_start-IsTracked :
        IsTracked capacity (remember_start key id m)
        × IsNamed (remember_start key id m).start_order (remember_start key id m).start_size key id
    unfolding remember_start
    remember_start-IsTracked =
        let (sized, in_range, small, unmoved, distinct, named) = t in
        let nonempty : nat_eq (length m.start_order) 0 ≡ false = ground (arith, sized, in_range) in
        elim (Bool-cases (nat_eq m.start_size (length m.start_order))) [
          | inl full ↦
              rw (nonempty, full)
                (overwritten-IsTracked ((nat_eq_iff m.start_size (length m.start_order)).0 full))
          | inr room ↦ rw (nonempty, room) (extended-IsTracked (ground (arith, room, sized, small)))
        ]

    pub open_start-IsTracked :
        (e : Event)
        → IsNamed m.start_order m.start_size key e.id
        → IsTracked capacity (open_start key e m)
    open_start-IsTracked e fresh =
        let (sized, in_range, small, unmoved, distinct, named) = t in
        let started : MetricStart = record { event_id = e.id; started_at = e.at } in
        (
          sized,
          in_range,
          small,
          unmoved,
          insert-HasDistinctKeys key started m.open_starts distinct,
          λ k v found. elim (Bool-cases (key == k)) [
            | inl same ↦
                let this : some started ≡ some v =
                  rw (lookup-insert key k started m.open_starts, same) at found in
                let same_id : e.id ≡ v.event_id = cc in
                subst (λ j. IsNamed m.start_order m.start_size j v.event_id) ((eq_iff key k).0 same)
                  (subst (IsNamed m.start_order m.start_size key) same_id fresh)
            | inr other ↦ named k v (rw (lookup-insert key k started m.open_starts, other) at found)
          ],
        )
