-- ===== src/Base/Order.antt =====
-- The orders that the program sorts by.
use Prim.Native.Nat.{ℕ}
use Prim.Native.String.{String}
use mathlib.Core.Path.{◌≡◌, refl}
use mathlib.Core.Bool.{Bool, true, false}
use native.Mathlib.Omega.{arith}
use ouvrier.Base.Tests.{ltb, nat_eq, if◌then◌else◌}
use ouvrier.Base.Text.{str_ltb}
use ouvrier.Base.Sorting.{StrictOrder}
use ouvrier.Base.Ints.{ℤ, ltb_ℤ}

pub ltb-StrictOrder : StrictOrder ltb
ltb-StrictOrder = record { asym = λ a b h. ground arith; neg_trans = λ a b c h k. ground arith }

ltb_ℤ-asym : (a b : ℤ) → ltb_ℤ a b ≡ true → ltb_ℤ b a ≡ false
ltb_ℤ-asym a b h = ground arith

ltb_ℤ-neg_trans : (a b c : ℤ) → ltb_ℤ a b ≡ false → ltb_ℤ b c ≡ false → ltb_ℤ a c ≡ false
ltb_ℤ-neg_trans a b c h k = ground arith

pub ltb_ℤ-StrictOrder : StrictOrder ltb_ℤ
ltb_ℤ-StrictOrder = record { asym = ltb_ℤ-asym; neg_trans = ltb_ℤ-neg_trans }

str_ltb-asym : (s t : String) → str_ltb s t ≡ true → str_ltb t s ≡ false
unfolding str_ltb
str_ltb-asym String.[] String.[] h = refl
str_ltb-asym String.[] (String.◌∷◌ d t) h = refl
str_ltb-asym (String.◌∷◌ c s) String.[] h = cc
str_ltb-asym (String.◌∷◌ c s) (String.◌∷◌ d t) h = ground (arith, str_ltb-asym s t)

str_ltb-neg_trans :
    (s t u : String) → str_ltb s t ≡ false → str_ltb t u ≡ false → str_ltb s u ≡ false
unfolding str_ltb
str_ltb-neg_trans String.[] String.[] u h k = k
str_ltb-neg_trans String.[] (String.◌∷◌ d t) u h k = cc
str_ltb-neg_trans (String.◌∷◌ c s) t String.[] h k = refl
str_ltb-neg_trans (String.◌∷◌ c s) String.[] (String.◌∷◌ e u) h k = cc
str_ltb-neg_trans (String.◌∷◌ c s) (String.◌∷◌ d t) (String.◌∷◌ e u) h k =
    ground (arith, str_ltb-neg_trans s t u)

pub str_ltb-StrictOrder : StrictOrder str_ltb
str_ltb-StrictOrder = record { asym = str_ltb-asym; neg_trans = str_ltb-neg_trans }

-- By time, then by identifier.
unfoldable pub earlier : ℕ → String → ℕ → String → Bool
earlier t i u j = if nat_eq t u then str_ltb i j else ltb t u

pub earlier-asym : (t u : ℕ) (i j : String) → earlier t i u j ≡ true → earlier u j t i ≡ false
unfolding earlier
earlier-asym t u i j h = ground (arith, str_ltb-asym i j)

pub earlier-neg_trans :
    (t u v : ℕ) (i j k : String)
    → earlier t i u j ≡ false
    → earlier u j v k ≡ false
    → earlier t i v k ≡ false
unfolding earlier
earlier-neg_trans t u v i j k g h = ground (arith, str_ltb-neg_trans i j k)
