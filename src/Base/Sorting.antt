-- ===== src/Base/Sorting.antt =====
-- Go's sort.Slice over a Boolean order, as insertion sort.
use mathlib.Core.Path.{◌≡◌}
use mathlib.Core.Bool.{Bool, true, false}
use mathlib.Core.List.{List, [], ◌∷◌, Perm}
use mathlib.Core.List.Perm
use ouvrier.Base.Tests.{if◌then◌else◌, Bool-cases}
use mathlib.Core.Logic.{inl, inr}

module _ {ℓ} {A : Type ℓ} (less : A → A → Bool) where
  insert_sorted : A → List A → List A
  insert_sorted a [] = a ∷ []
  insert_sorted a (x ∷ xs) =
      let rest = x ∷ insert_sorted a xs in if less a x then a ∷ x ∷ xs else rest

  unfoldable pub sort : List A → List A
  unfolding insert_sorted
  sort [] = []
  sort (x ∷ xs) = insert_sorted x (sort xs)

  insert_sorted-perm : (a : A) (l : List A) → Perm (insert_sorted a l) (a ∷ l)
  unfolding insert_sorted
  insert_sorted-perm a [] = Perm.refl (a ∷ [])
  insert_sorted-perm a (x ∷ xs) = elim (Bool-cases (less a x)) [
    | inl h ↦ rw h (Perm.refl (a ∷ x ∷ xs))
    | inr h ↦ rw h (Perm.trans (Perm.cons x (insert_sorted-perm a xs)) (Perm.swap a x xs))
  ]

  pub sort-perm : (l : List A) → Perm (sort l) l
  unfolding sort
  sort-perm [] = Perm.refl []
  sort-perm (x ∷ xs) = Perm.trans (insert_sorted-perm x (sort xs)) (Perm.cons x (sort-perm xs))

  -- No later element is less than an earlier one.
  abbrev AllNotLess : A → List A → Type 0
  AllNotLess a [] = Unit {0}
  AllNotLess a (x ∷ xs) = (less x a ≡ false) × AllNotLess a xs

  abbrev pub IsSorted : List A → Type 0
  IsSorted [] = Unit {0}
  IsSorted (x ∷ xs) = AllNotLess x xs × IsSorted xs

-- What sort.Slice asks of its order.
pub record StrictOrder {ℓ} {A : Type ℓ} (less : A → A → Bool) : Type ℓ where
  pub asym : (a b : A) → less a b ≡ true → less b a ≡ false
  pub neg_trans : (a b c : A) → less a b ≡ false → less b c ≡ false → less a c ≡ false

module _ {ℓ} {A : Type ℓ} (less : A → A → Bool) (o : StrictOrder less) where
  AllNotLess-insert_sorted :
      (b a : A) (l : List A)
      → less a b ≡ false
      → AllNotLess less b l
      → AllNotLess less b (insert_sorted less a l)
  unfolding insert_sorted
  AllNotLess-insert_sorted b a [] h k = (h, tt)
  AllNotLess-insert_sorted b a (x ∷ xs) h k = elim (Bool-cases (less a x)) [
    | inl e ↦ rw e (h, k)
    | inr e ↦ rw e (k.0, AllNotLess-insert_sorted b a xs h k.1)
  ]

  AllNotLess-trans :
      (a x : A) (l : List A) → less x a ≡ false → AllNotLess less x l → AllNotLess less a l
  AllNotLess-trans a x [] h k = tt
  AllNotLess-trans a x (y ∷ l) h k = (o.neg_trans y x a k.0 h, AllNotLess-trans a x l h k.1)

  insert_sorted-IsSorted :
      (a : A) (l : List A) → IsSorted less l → IsSorted less (insert_sorted less a l)
  unfolding insert_sorted
  insert_sorted-IsSorted a [] s = (tt, tt)
  insert_sorted-IsSorted a (x ∷ xs) s = elim (Bool-cases (less a x)) [
    | inl e ↦ rw e (
        let below : less x a ≡ false = o.asym a x e in
        ((below, AllNotLess-trans a x xs below s.0), s))
    | inr e ↦ rw e (AllNotLess-insert_sorted x a xs e s.0, insert_sorted-IsSorted a xs s.1)
  ]

  pub sort-IsSorted : (l : List A) → IsSorted less (sort less l)
  unfolding sort
  sort-IsSorted [] = tt
  sort-IsSorted (x ∷ xs) = insert_sorted-IsSorted x (sort less xs) (sort-IsSorted xs)
