-- ===== src/Base/Maps.antt =====
-- Go's maps as association lists: a key stands at most once, a read takes the first entry, and an
-- insertion replaces it. Go's order of iteration is not determined; the program sorts what it lists.
use Prim.Native.Nat.{suc, ◌≤◌}
use mathlib.Core.Path.{◌≡◌, refl, ap, subst}
use mathlib.Core.Logic.{inl, inr}
use ouvrier.Base.Lists.{All, length}
use mathlib.Core.Bool.{true}
use mathlib.Core.List.{List, [], ◌∷◌, map}
use mathlib.Core.Option.{Option, none, some}
use native.Mathlib.Omega.{arith}
use ouvrier.Base.Tests.{if◌then◌else◌, Bool-cases}
use ouvrier.Base.Classes.{Comparable, ◌==◌}

pub record Map {ℓ κ} (K : Type ℓ) (V : Type κ) : Type (ℓ ⊔ κ) where
  pub entries : List (K × V)

abbrev pub empty_map {ℓ κ} : {K : Type ℓ} {V : Type κ} → Map K V
empty_map = record { entries = [] }

abbrev pub map_some {κ} : {V : Type κ} → (V → V) → Option V → Option V
map_some f none = none
map_some f (some v) = some (f v)

-- for _, v := range m
abbrev pub values {ℓ κ} : {K : Type ℓ} {V : Type κ} → Map K V → List V
values m = map (λ e. e.1) m.entries

pub ==-self {ℓ} : {K : Type ℓ} ⦃e : Comparable K⦄ (k : K) → (k == k) ≡ true
==-self ⦃e⦄ k = (e.equal_iff k k).1 refl

module _ {ℓ κ} {K : Type ℓ} {V : Type κ} ⦃e : Comparable K⦄ where
  lookup_entries : K → List (K × V) → Option V
  lookup_entries k [] = none
  lookup_entries k ((j, v) ∷ l) = if j == k then some v else lookup_entries k l

  insert_entries : K → V → List (K × V) → List (K × V)
  insert_entries k v [] = (k, v) ∷ []
  insert_entries k v ((j, w) ∷ l) = if j == k then (k, v) ∷ l else (j, w) ∷ insert_entries k v l

  delete_entries : K → List (K × V) → List (K × V)
  delete_entries k [] = []
  delete_entries k ((j, w) ∷ l) =
      let rest = delete_entries k l in if j == k then rest else (j, w) ∷ rest

  -- v, ok := m[k]
  unfoldable pub lookup : K → Map K V → Option V
  unfolding lookup_entries
  lookup k m = lookup_entries k m.entries

  -- m[k] = v
  unfoldable pub insert : K → V → Map K V → Map K V
  unfolding insert_entries
  insert k v m = record { entries = insert_entries k v m.entries }

  -- delete(m, k)
  unfoldable pub delete : K → Map K V → Map K V
  unfolding delete_entries
  delete k m = record { entries = delete_entries k m.entries }

  lookup_entries-insert_entries :
      (k j : K) (v : V) (l : List (K × V))
      → lookup_entries j (insert_entries k v l) ≡ (if k == j then some v else lookup_entries j l)
  unfolding lookup_entries insert_entries
  lookup_entries-insert_entries k j v [] = refl
  lookup_entries-insert_entries k j v ((i, w) ∷ l) = ground (
    arith,
    e.equal_iff k j,
    e.equal_iff i k,
    e.equal_iff i j,
    lookup_entries-insert_entries k j v l,
  )

  lookup_entries-delete_entries :
      (k j : K) (l : List (K × V))
      → lookup_entries j (delete_entries k l) ≡ (if k == j then none else lookup_entries j l)
  unfolding lookup_entries delete_entries
  lookup_entries-delete_entries k j [] = ground arith
  lookup_entries-delete_entries k j ((i, w) ∷ l) = ground (
    arith,
    e.equal_iff k j,
    e.equal_iff i k,
    e.equal_iff i j,
    lookup_entries-delete_entries k j l,
  )

  pub lookup-insert :
      (k j : K) (v : V) (m : Map K V)
      → lookup j (insert k v m) ≡ (if k == j then some v else lookup j m)
  unfolding lookup insert
  lookup-insert k j v m = lookup_entries-insert_entries k j v m.entries

  pub lookup-delete :
      (k j : K) (m : Map K V) → lookup j (delete k m) ≡ (if k == j then none else lookup j m)
  unfolding lookup delete
  lookup-delete k j m = lookup_entries-delete_entries k j m.entries

  pub lookup-insert_self : (k : K) (v : V) (m : Map K V) → lookup k (insert k v m) ≡ some v
  lookup-insert_self k v m = rw (lookup-insert k k v m, ==-self k)

  update_entries : (K → V → V) → List (K × V) → List (K × V)
  update_entries f [] = []
  update_entries f ((j, v) ∷ l) = (j, f j v) ∷ update_entries f l

  -- for k, v := range m { m[k] = f(k, v) }
  unfoldable pub update_all : (K → V → V) → Map K V → Map K V
  unfolding update_entries
  update_all f m = record { entries = update_entries f m.entries }

  lookup_entries-update_entries :
      (f : K → V → V) (k : K) (l : List (K × V))
      → lookup_entries k (update_entries f l) ≡ map_some (f k) (lookup_entries k l)
  unfolding lookup_entries update_entries
  lookup_entries-update_entries f k [] = refl
  lookup_entries-update_entries f k ((j, v) ∷ l) =
      ground (arith, e.equal_iff j k, lookup_entries-update_entries f k l)

  pub lookup-update_all :
      (f : K → V → V) (k : K) (m : Map K V)
      → lookup k (update_all f m) ≡ map_some (f k) (lookup k m)
  unfolding lookup update_all
  lookup-update_all f k m = lookup_entries-update_entries f k m.entries

  lookup_entries-All :
      (P : V → Type 0) (k : K) {v : V} (l : List (K × V))
      → lookup_entries k l ≡ some v
      → All (λ e. P e.1) l
      → P v
  unfolding lookup_entries
  lookup_entries-All P k [] found all = absurd (cc)
  lookup_entries-All P k ((j, w) ∷ l) found all = elim (Bool-cases (j == k)) [
    | inl hit ↦ subst P (cc (rw hit at found)) all.0
    | inr miss ↦ lookup_entries-All P k l (rw miss at found) all.1
  ]

  -- What holds of every value of a map holds of what a key finds.
  pub lookup-All :
      (P : V → Type 0) (k : K) {v : V} (m : Map K V)
      → lookup k m ≡ some v
      → All (λ e. P e.1) m.entries
      → P v
  unfolding lookup
  lookup-All P k m = lookup_entries-All P k m.entries

  -- No key stands twice.
  abbrev pub HasDistinctKeys : List (K × V) → Type κ
  HasDistinctKeys [] = Unit
  HasDistinctKeys ((k, v) ∷ l) = (lookup k (record { entries = l }) ≡ none) × HasDistinctKeys l

  insert_entries-HasDistinctKeys :
      (k : K) (v : V) (l : List (K × V))
      → HasDistinctKeys l
      → HasDistinctKeys (insert_entries k v l)
  unfolding insert_entries lookup
  insert_entries-HasDistinctKeys k v [] h = (refl, tt)
  insert_entries-HasDistinctKeys k v ((j, w) ∷ l) h = elim (Bool-cases (j == k)) [
    | inl same ↦
        rw same (subst (λ i. lookup_entries i l ≡ none) ((e.equal_iff j k).0 same) h.0, h.1)
    | inr other ↦ rw other (
      ground (arith, e.equal_iff k j, e.equal_iff j k, lookup_entries-insert_entries k j v l, h.0),
      insert_entries-HasDistinctKeys k v l h.1,
    )
  ]

  delete_entries-HasDistinctKeys :
      (k : K) (l : List (K × V)) → HasDistinctKeys l → HasDistinctKeys (delete_entries k l)
  unfolding delete_entries lookup
  delete_entries-HasDistinctKeys k [] h = tt
  delete_entries-HasDistinctKeys k ((j, w) ∷ l) h = elim (Bool-cases (j == k)) [
    | inl same ↦ rw same (delete_entries-HasDistinctKeys k l h.1)
    | inr other ↦ rw other (
      ground (arith, lookup_entries-delete_entries k j l, h.0),
      delete_entries-HasDistinctKeys k l h.1,
    )
  ]

  pub insert-HasDistinctKeys :
      (k : K) (v : V) (m : Map K V)
      → HasDistinctKeys m.entries
      → HasDistinctKeys (insert k v m).entries
  unfolding insert
  insert-HasDistinctKeys k v m = insert_entries-HasDistinctKeys k v m.entries

  pub delete-HasDistinctKeys :
      (k : K) (m : Map K V) → HasDistinctKeys m.entries → HasDistinctKeys (delete k m).entries
  unfolding delete
  delete-HasDistinctKeys k m = delete_entries-HasDistinctKeys k m.entries

  absent_delete : (k : K) (l : List (K × V)) → lookup_entries k l ≡ none → delete_entries k l ≡ l
  unfolding lookup_entries delete_entries
  absent_delete k [] h = refl
  absent_delete k ((j, w) ∷ l) h = elim (Bool-cases (j == k)) [
    | inl same ↦ absurd (cc (rw same at h))
    | inr other ↦ rw other (ap (λ r. (j, w) ∷ r) (absent_delete k l (rw other at h)))
  ]

  length-delete_entries :
      (k : K) (l : List (K × V)) → HasDistinctKeys l → length l ≤ suc (length (delete_entries k l))
  unfolding delete_entries lookup
  length-delete_entries k [] h = omega arith
  length-delete_entries k ((j, w) ∷ l) h = elim (Bool-cases (j == k)) [
    | inl same ↦ rw same (
        rw
          (absent_delete k l
            (subst (λ i. lookup_entries i l ≡ none) ((e.equal_iff j k).0 same) h.0))
          (omega arith))
    | inr other ↦ rw other (omega (arith, length-delete_entries k l h.1))
  ]

  -- Deleting a key from a map of distinct keys removes one entry at most.
  pub length-delete :
      (k : K) (m : Map K V)
      → HasDistinctKeys m.entries
      → length m.entries ≤ suc (length (delete k m).entries)
  unfolding delete
  length-delete k m = length-delete_entries k m.entries

pub ruleset map_laws = (lookup-insert, lookup-delete, lookup-update_all)
