-- ===== src/Events/Stream/Since.antt =====
-- Reading a stream from a cursor, with and without the check for evicted events.
use mathlib.Core.Path.{subst}
use ouvrier.Base.{
  ◌∙◌, ℕ, ◌+◌, ◌≤◌, ◌<◌, ◌≡◌, refl, sym, ap, inl, inr, true, false, some, List, [], ◌∷◌, ◌++◌,
  arith, eq_string, eq_nat, Result, ok, err, ltb, leb, nat_eq, Bool-cases, All, filter, map, all,
}
use ouvrier.Events.{Event}
use ouvrier.Events.Redactor.{Redactor}
use ouvrier.Events.Sanitize.{sanitize_event}
use ouvrier.Events.Buffer.{each}
use ouvrier.Events.Stream.{
  EventStream, HistoryGap, recorded, since, cons_recorded, checked_from, since_checked, max_uint64,
}
use ouvrier.Events.Stream.Order.{Between, Between-bound, IsOrdered}
use ouvrier.State.Types.{uint64_mod}
use ouvrier.Base.{◌∙◌, leb→le}
use ouvrier.Base.{◌∙◌, nat_eq_iff}

recorded-map : (q : List Event) → recorded (map some q) ≡ q
recorded-map [] = refl
recorded-map (e ∷ q) = ap (λ l. e ∷ l) (recorded-map q)

-- Each id is the next one after the id before it.
abbrev pub IsConsecutive : ℕ → List Event → Type 0
IsConsecutive expected [] = Unit
IsConsecutive expected (e ∷ es) = (e.id ≡ expected) × IsConsecutive (e.id + 1) es

-- A gap before the first retained event after those expected: no event has an id from the expected
-- one up to the next retained one.
abbrev pub IsGap : (id expected : ℕ) → List Event → HistoryGap → Type 0
IsGap id expected q gap =
    (gap.after_id ≡ id)
    × (expected ≤ gap.expected_id)
    × (gap.expected_id < gap.next_retained_id)
    × ((before : List Event) × (next : Event) × (later : List Event) × (q ≡ before ++ next ∷ later)
        × (next.id ≡ gap.next_retained_id)
        × All (λ e. e.id < gap.expected_id) before)

module _ (redactor : Redactor) where
  -- The retained events after the cursor when none is missing, and otherwise the first gap.
  abbrev pub IsCheckedAnswer :
      (id expected : ℕ) → List Event → Result HistoryGap (List Event) → Type 0
  IsCheckedAnswer id expected q (ok es) =
      (es ≡ map (sanitize_event redactor) (filter (λ e. ltb id e.id) q))
      × IsConsecutive expected (filter (λ e. ltb id e.id) q)
  IsCheckedAnswer id expected q (err gap) = IsGap id expected q gap

  -- The id expected after the events up to `low`.
  abbrev IsExpected : (id low expected : ℕ) → Type 0
  IsExpected id low expected = (low ≤ id → expected ≡ id + 1) × (id < low → expected ≡ low + 1)

  -- An event below the expected id may stand before a gap.
  before-IsGap :
      (id expected later : ℕ) (e : Event) (q : List Event) (gap : HistoryGap)
      → e.id < later
      → expected ≤ later
      → IsGap id later q gap
      → IsGap id expected (e ∷ q) gap
  before-IsGap id expected later e q gap old lower
        (after, above, below, (b, n, l, split, same, all)) =
      (
        after,
        omega (arith, above, lower),
        below,
        (e ∷ b, n, l, ap (λ k. e ∷ k) split, same, (omega (arith, above, old), all)),
      )

  skipped :
      (id expected : ℕ) (e : Event) (q : List Event) (r : Result HistoryGap (List Event))
      → e.id ≤ id
      → expected ≡ id + 1
      → IsCheckedAnswer id expected q r
      → IsCheckedAnswer id expected (e ∷ q) r
  skipped id expected e q (ok es) old next h =
      let out : ltb id e.id ≡ false = ground (arith, old) in rw out h
  skipped id expected e q (err gap) old next h =
      before-IsGap id expected expected e q gap (omega (arith, old, next)) (omega arith) h

  counted :
      (id expected : ℕ) (e : Event) (q : List Event) (r : Result HistoryGap (List Event))
      → id < e.id
      → e.id ≡ expected
      → IsCheckedAnswer id (e.id + 1) q r
      → IsCheckedAnswer id expected (e ∷ q) (cons_recorded redactor e r)
  counted id expected e q (ok es) newer next h =
      let out : ltb id e.id ≡ true = ground (arith, newer) in
      rw out (ap (λ l. sanitize_event redactor e ∷ l) h.0, (next, h.1))
  counted id expected e q (err gap) newer next h =
      before-IsGap id expected (e.id + 1) e q gap (omega arith) (omega (arith, next)) h

  none_above : (high : ℕ) (q : List Event) → high < uint64_mod → Between max_uint64 high q → q ≡ []
  none_above high [] h k = refl
  none_above high (e ∷ q) h (k, r) = absurd (omega (arith, h, k, Between-bound e.id high q r))

  checked_from-IsCheckedAnswer :
      (id low high expected : ℕ) (q : List Event)
      → Between low high q
      → high < uint64_mod
      → IsExpected id low expected
      → IsCheckedAnswer id expected q (checked_from redactor id expected q)
  unfolding checked_from
  checked_from-IsCheckedAnswer id low high expected [] h k x = (refl, tt)
  checked_from-IsCheckedAnswer id low high expected (e ∷ q) (h, r) k x =
      elim (Bool-cases (leb e.id id)) [
        | inl old ↦
            let small = leb→le e.id id old in
            let next = x.0 (omega (arith, small, h)) in
            rw old (
              skipped id expected e q _ small next (
                checked_from-IsCheckedAnswer id e.id high expected q r k
                  (λ _. next, λ l. absurd (omega (arith, l, small)))))
        | inr newer ↦
            let above : id < e.id = ground (arith, newer) in
            elim (Bool-cases (nat_eq e.id expected)) [
              | inr missed ↦
                  rw (newer, missed)
                    (
                      refl,
                      omega arith,
                      ground (arith, above, missed, x, h),
                      ([], e, q, refl, refl, tt),
                    )
              | inl hit ↦
                  let next = (nat_eq_iff e.id expected).0 hit in
                  elim (Bool-cases (nat_eq e.id max_uint64)) [
                    | inl last ↦
                        rw (newer, hit, last)
                          (counted id expected e q (ok []) above next (
                            let at_max = (nat_eq_iff e.id max_uint64).0 last in
                            let empty =
                              none_above high q k (subst (λ n. Between n high q) at_max r) in
                            subst (λ l. IsCheckedAnswer id (e.id + 1) l (ok [])) (sym empty)
                              (refl, tt)))
                    | inr more ↦
                        rw (newer, hit, more)
                          (counted id expected e q _ above next (
                            checked_from-IsCheckedAnswer id e.id high (e.id + 1) q r k
                              (λ l. absurd (omega (arith, l, above)), λ _. refl)))
                  ]
            ]
      ]

  sanitized-IsConsecutive :
      (n : ℕ) (l : List Event)
      → IsConsecutive n l
      → IsConsecutive n (map (sanitize_event redactor) l)
  unfolding sanitize_event
  sanitized-IsConsecutive n [] h = tt
  sanitized-IsConsecutive n (e ∷ l) (h, r) = (h, sanitized-IsConsecutive (e.id + 1) l r)

  -- What SinceChecked answers, against Since and the retained events.
  abbrev pub IsLossless :
      {F : Type 0} → ℕ → EventStream F → List Event → Result HistoryGap (List Event) → Type 0
  IsLossless id s q (ok es) = (es ≡ since redactor id s) × IsConsecutive (id + 1) es
  IsLossless id s q (err gap) = IsGap id (id + 1) q gap

  answer-IsLossless :
      {F : Type 0} (id : ℕ) (s : EventStream F) (q : List Event)
      (r : Result HistoryGap (List Event))
      → recorded (each s.events) ≡ q
      → IsCheckedAnswer id (id + 1) q r
      → IsLossless id s q r
  unfolding since
  answer-IsLossless id s q (ok es) held (same, consecutive) = (
    same ∙ ap (λ l. map (sanitize_event redactor) (filter (λ e. ltb id e.id) l)) (sym held),
    subst (IsConsecutive (id + 1)) (sym same)
        (sanitized-IsConsecutive (id + 1) (filter (λ e. ltb id e.id) q) consecutive),
  )
  answer-IsLossless id s q (err gap) held h = h

  pub held_events :
      {F : Type 0} (s : EventStream F) (q : List Event)
      → IsOrdered s q
      → recorded (each s.events) ≡ q
  held_events s q h = ap recorded h.0.1 ∙ recorded-map q

  -- On a stream whose buffer holds the events q in the order of their ids, SinceChecked with a
  -- cursor below the greatest uint64 either answers what Since does, and the ids then run without a
  -- hole from the one after the cursor, or it answers a gap: the first retained id beyond the one
  -- expected, with every retained event before it below the expected id.
  pub since_checked-IsLossless :
      {F : Type 0} (id : ℕ) (s : EventStream F) (q : List Event)
      → IsOrdered s q
      → id < max_uint64
      → IsLossless id s q (since_checked redactor id s)
  unfolding since_checked
  since_checked-IsLossless id s q h below =
      let inside : nat_eq id max_uint64 ≡ false = ground (arith, below) in
      let held = held_events s q h in
      rw (inside, held)
        (answer-IsLossless id s q (checked_from redactor id (id + 1) q) held (
          checked_from-IsCheckedAnswer id 0 s.next_id (id + 1) q h.1 h.2
            (λ _. refl, λ l. absurd (omega (arith, l)))))

  -- The events up to the cursor are passed over.
  pub passed_over :
      (id expected low high : ℕ) (q l : List Event)
      → Between low high q
      → high ≤ id
      → checked_from redactor id expected (q ++ l) ≡ checked_from redactor id expected l
  unfolding checked_from
  passed_over id expected low high [] l h k = refl
  passed_over id expected low high (e ∷ q) l (h, r) k =
      let old : leb e.id id ≡ true = ground (arith, k, Between-bound e.id high q r) in
      rw old (passed_over id expected e.id high q l r k)
