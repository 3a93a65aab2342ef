-- ===== src/Base/Classes.antt =====
-- Equality of keys as an interface, with the instances of numbers and texts.
use Prim.Native.Nat.{ℕ}
use Prim.Native.String.{String}
use mathlib.Core.Path.{◌≡◌}
use mathlib.Core.Logic.{◌↔◌}
use mathlib.Core.Bool.{Bool, true}
use text.Mathlib.Text.{◌==◌ as str_eq}
use text.Mathlib.TextEquality.{eq_iff}
use ouvrier.Base.Tests.{nat_eq, nat_eq_iff}

-- Keys that Go compares with ==, as a map's keys are.
pub record Comparable {ℓ} (K : Type ℓ) : Type ℓ where
  pub equal : K → K → Bool
  pub equal_iff : (k j : K) → (equal k j ≡ true) ↔ (k ≡ j)

instance abbrev pub eq_string : Comparable String
eq_string = record { equal = str_eq; equal_iff = eq_iff }

instance abbrev pub eq_nat : Comparable ℕ
eq_nat = record { equal = nat_eq; equal_iff = nat_eq_iff }

infix 50 ◌==◌
abbrev pub ◌==◌ {ℓ} : {K : Type ℓ} ⦃c : Comparable K⦄ → K → K → Bool
◌==◌ ⦃c⦄ = c.equal
