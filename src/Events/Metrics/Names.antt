-- ===== src/Events/Metrics/Names.antt =====
-- The starts that the ring of a stream's metrics names.
use ouvrier.Base.{
  zero, suc, ℕ, ◌≤◌, ◌<◌, String, ◌≡◌, ◌≢◌, ◌⊎◌, sym, ap, inl, inr, Option, none, some, List, [],
  ◌∷◌, arith, eq_iff, eq_string, eq_nat, ◌==◌, ==-self, nat_eq, Bool-cases, Option-cases, Map,
  lookup, delete, lookup-delete, length,
}
use ouvrier.Base.{zero, suc}
use mathlib.Core.Path.{subst}
use ouvrier.Events.Metrics.{MetricStart, StartRef, forget}
use ouvrier.Base.{HasDistinctKeys, get_at, suc}
use ouvrier.Base.{delete-HasDistinctKeys, ◌∙◌}
use ouvrier.Base.{length-delete}

-- Below index n, the ring names the start of an operation.
abbrev pub IsNamed : List StartRef → ℕ → String → ℕ → Type 0
IsNamed order n key id =
    (i : ℕ) × (i < n) × (get_at order i ≡ some (record { ref_key = key; ref_event = id }))

abbrev pub AllNamed : List StartRef → ℕ → Map String MetricStart → Type 0
AllNamed order n starts =
    (key : String) (started : MetricStart)
    → lookup key starts ≡ some started
    → IsNamed order n key started.event_id

abbrev ref_key_of : Option StartRef → String
ref_key_of none = ""
ref_key_of (some r) = r.ref_key

abbrev ref_event_of : Option StartRef → ℕ
ref_event_of none = 0
ref_event_of (some r) = r.ref_event

-- A name that does not stand at the last index of the window stands below it.
narrow :
    (order : List StartRef) (n : ℕ) (key : String) (id : ℕ)
    → IsNamed order (suc n) key id
    → get_at order n ≢ some (record { ref_key = key; ref_event = id })
    → IsNamed order n key id
narrow order n key id (i, below, here) missing =
    let moved : i ≢ n = λ same. missing (ap (get_at order) (sym same) ∙ here) in
    (i, omega (arith, below, moved), here)

pub deleted :
    (k j : String) (starts : Map String MetricStart) {started : MetricStart}
    → lookup j (delete k starts) ≡ some started
    → (k ≢ j) × (lookup j starts ≡ some started)
deleted k j starts found = elim (Bool-cases (k == j)) [
  | inl same ↦ absurd (cc (rw (lookup-delete k j starts, same) at found))
  | inr other ↦ (ground (arith, eq_iff k j), rw (lookup-delete k j starts, other) at found)
]

nothing_named :
    (order : List StartRef) (l : List (String × MetricStart))
    → AllNamed order 0 (record { entries = l })
    → length l ≤ 0
unfolding lookup
nothing_named order [] h = omega arith
nothing_named order ((k, v) ∷ l) h =
    let found : lookup k (record { entries = (k, v) ∷ l }) ≡ some v = rw (==-self k) in
    absurd (omega (arith, (h k v found).1))

-- As many starts as there are names, at most.
pub named_count :
    (order : List StartRef) (n : ℕ) (starts : Map String MetricStart)
    → HasDistinctKeys starts.entries
    → AllNamed order n starts
    → length starts.entries ≤ n
named_count order zero starts distinct named = nothing_named order starts.entries named
named_count order (suc n) starts distinct named = elim (Option-cases (get_at order n)) [
  | inl empty ↦ omega (
    arith,
    named_count order n starts distinct
        (λ k v found. narrow order n k v.event_id (named k v found) (λ here. cc)),
  )
  | inr (ref, here) ↦
      let k = ref.ref_key in
      let rest =
        named_count order n (delete k starts) (delete-HasDistinctKeys k starts distinct)
          (λ j v found.
            let (other, before) = deleted k j starts found in
            narrow order n j v.event_id (named j v before)
              (λ there. other (ap ref_key_of (sym here ∙ there)))) in
      omega (arith, length-delete k starts distinct, rest)
]

-- Forgetting deletes the named start, unless a newer one has replaced it.
forget-cases :
    (ref : StartRef) (starts : Map String MetricStart)
    → (forget (some ref) starts ≡ delete ref.ref_key starts)
      ⊎ ((forget (some ref) starts ≡ starts)
          × ((v : MetricStart) → lookup ref.ref_key starts ≡ some v → v.event_id ≢ ref.ref_event))
forget-cases ref starts = elim (Option-cases (lookup ref.ref_key starts)) [
  | inl e ↦ inr (rw (forget, e), λ v found. absurd (cc))
  | inr (w, e) ↦ elim (Bool-cases (nat_eq w.event_id ref.ref_event)) [
    | inl same ↦ inl (rw (forget, e, same))
    | inr other ↦ inr (
      rw (forget, e, other),
      λ v found same.
          let w_is_v : w.event_id ≡ v.event_id = cc in ground (arith, w_is_v, same, other),
    )
  ]
]

pub forget-HasDistinctKeys :
    (ref : Option StartRef) (starts : Map String MetricStart)
    → HasDistinctKeys starts.entries
    → HasDistinctKeys (forget ref starts).entries
forget-HasDistinctKeys none starts distinct = distinct
forget-HasDistinctKeys (some ref) starts distinct = elim (forget-cases ref starts) [
  | inl e ↦
      subst (λ m. HasDistinctKeys m.entries) (sym e)
        (delete-HasDistinctKeys ref.ref_key starts distinct)
  | inr (e, _) ↦ subst (λ m. HasDistinctKeys m.entries) (sym e) distinct
]

-- What is still kept was kept before, under another name than the forgotten one.
pub forgotten :
    (ref : Option StartRef) (starts : Map String MetricStart) (key : String) (v : MetricStart)
    → lookup key (forget ref starts) ≡ some v
    → (lookup key starts ≡ some v) × (ref ≢ some (record { ref_key = key; ref_event = v.event_id }))
forgotten none starts key v found = (found, λ same. cc)
forgotten (some ref) starts key v found = elim (forget-cases ref starts) [
  | inl e ↦
      let (moved, kept) = deleted ref.ref_key key starts (ap (lookup key) (sym e) ∙ found) in
      (kept, λ same. moved (ap ref_key_of same))
  | inr (e, newer) ↦
      let kept : lookup key starts ≡ some v = ap (lookup key) (sym e) ∙ found in
      (
        kept,
        λ same.
            newer v (ap (λ k. lookup k starts) (ap ref_key_of same) ∙ kept)
              (sym (ap ref_event_of same)),
      )
]
