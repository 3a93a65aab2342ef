-- ===== src/Base/Int64.antt =====
-- The int64 of Go, and its int on 64 bits: values that do not fit wrap around.
use Prim.Native.Nat.{ℕ, zero, suc, ◌-◌, ◌+◌, ◌%◌, ◌^◌, ◌<◌, ◌≤◌}
use mathlib.Core.Path.{◌≡◌, refl, ap, ◌∙◌}
use mathlib.Core.Bool.{false}
use native.Mathlib.Omega.{arith}
use ouvrier.Base.Tests.{ltb, if◌then◌else◌, if_false}
use ouvrier.Base.Ints.{ℤ, pos, negsuc}

-- -n
abbrev pub minus : ℕ → ℤ
minus zero = pos 0
minus (suc n) = negsuc n

-- The value whose residue modulo 2 ^ 64 is m.
abbrev signed : ℕ → ℤ
signed m = if ltb m (2 ^ 63) then pos m else minus (2 ^ 64 - m)

abbrev pub int64 : ℤ → ℤ
int64 (pos n) = signed (n % 2 ^ 64)
int64 (negsuc n) = signed ((2 ^ 64 - suc n % 2 ^ 64) % 2 ^ 64)

pub int64-pos : (n : ℕ) → n < 2 ^ 63 → int64 (pos n) ≡ pos n
int64-pos n h = ground arith

pub int64-minus : (n : ℕ) → n ≤ 2 ^ 63 → int64 (minus n) ≡ minus n
int64-minus zero h = refl
int64-minus (suc n) h =
    let m = (2 ^ 64 - suc n % 2 ^ 64) % 2 ^ 64 in
    let large : ltb m (2 ^ 63) ≡ false = ground (arith, h) in
    let back : 2 ^ 64 - m ≡ suc n = omega (arith, h) in
    if_false (ltb m (2 ^ 63)) _ _ large ∙ ap minus back

abbrev neg_plus : ℕ → ℕ → ℤ
neg_plus a b = if ltb b a then minus (a - b) else pos (b - a)

-- Go's + on int.
abbrev pub add_int : ℤ → ℤ → ℤ
add_int (pos a) (pos b) = int64 (pos (a + b))
add_int (pos a) (negsuc b) = int64 (neg_plus (suc b) a)
add_int (negsuc a) (pos b) = int64 (neg_plus (suc a) b)
add_int (negsuc a) (negsuc b) = int64 (minus (suc a + suc b))
