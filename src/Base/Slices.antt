-- ===== src/Base/Slices.antt =====
-- Go's slices of a fixed length, read and written at an index.
use Prim.Native.Nat.{ℕ, zero, suc, ◌<◌}
use mathlib.Core.Path.{◌≡◌, refl, ap}
use mathlib.Core.Logic.{◌≢◌}
use mathlib.Core.List.{List, [], ◌∷◌}
use mathlib.Core.Option.{Option, none, some}
use native.Mathlib.Omega.{arith}
use ouvrier.Base.Lists.{length}

module _ {ℓ} {A : Type ℓ} where
  -- entries[i], or none where Go panics.
  abbrev pub get_at : List A → ℕ → Option A
  get_at [] i = none
  get_at (e ∷ es) zero = some e
  get_at (e ∷ es) (suc i) = get_at es i

  -- entries[i] = e
  abbrev pub set_at : List A → ℕ → A → List A
  set_at [] i e = []
  set_at (x ∷ es) zero e = e ∷ es
  set_at (x ∷ es) (suc i) e = x ∷ set_at es i e

  -- make([]A, n), with the zero value
  abbrev pub replicate : ℕ → A → List A
  replicate zero e = []
  replicate (suc n) e = e ∷ replicate n e

  pub length-replicate : (n : ℕ) (e : A) → length (replicate n e) ≡ n
  length-replicate zero e = refl
  length-replicate (suc n) e = ap suc (length-replicate n e)

  pub length-set_at : (es : List A) (i : ℕ) (e : A) → length (set_at es i e) ≡ length es
  length-set_at [] i e = refl
  length-set_at (x ∷ es) zero e = refl
  length-set_at (x ∷ es) (suc i) e = ap suc (length-set_at es i e)

  pub get_at-set_at_same :
      (es : List A) (i : ℕ) (e : A) → i < length es → get_at (set_at es i e) i ≡ some e
  get_at-set_at_same [] i e h = absurd (omega (arith, h))
  get_at-set_at_same (x ∷ es) zero e h = refl
  get_at-set_at_same (x ∷ es) (suc i) e h = get_at-set_at_same es i e (omega (arith, h))

  pub get_at-set_at_other :
      (es : List A) (i j : ℕ) (e : A) → i ≢ j → get_at (set_at es i e) j ≡ get_at es j
  get_at-set_at_other [] i j e h = refl
  get_at-set_at_other (x ∷ es) zero zero e h = absurd (h refl)
  get_at-set_at_other (x ∷ es) zero (suc j) e h = refl
  get_at-set_at_other (x ∷ es) (suc i) zero e h = refl
  get_at-set_at_other (x ∷ es) (suc i) (suc j) e h =
      get_at-set_at_other es i j e (λ same. h (ap suc same))
