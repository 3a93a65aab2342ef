-- ===== src/Cron/Schedule.antt =====
-- epochAlignedCronSchedule.Next: the ticks of an @every plan are the multiples of its interval since
-- the Unix epoch. Instants are nanoseconds since that epoch, as UnixNano gives them.
use mathlib.Core.Path.{subst}
use ouvrier.Base.{
  ◌^◌, minus, int64, int64-pos, int64-minus, ltb→lt, ltb_ℤ, suc_ℤ, ◌*◌, ◌∙◌, suc, zero, ℤ, pos,
  negsuc, ℕ, ◌+◌, ◌%◌, ◌≤◌, ◌<◌, ◌≡◌, refl, sym, ap, inl, inr, Bool, true, false, not, ◌&&◌, arith,
  eq_string, eq_nat, if◌then◌else◌, ltb, nat_eq, Bool-cases,
}
use native.Mathlib.Nat.{mod-lt, div-add-mod', mul-le-mul_right}
use Prim.Native.Nat.{◌/◌}

-- Go's a / b and a % b != 0, which cut towards zero, for a positive b.
abbrev pub quot : ℤ → ℕ → ℤ
quot (pos n) b = pos (n / b)
quot (negsuc n) b = minus (suc n / b)

abbrev pub has_rest : ℤ → ℕ → Bool
has_rest (pos n) b = not (nat_eq (n % b) 0)
has_rest (negsuc n) b = not (nat_eq (suc n % b) 0)

abbrev pub pred_ℤ : ℤ → ℤ
pred_ℤ (pos zero) = negsuc 0
pred_ℤ (pos (suc n)) = pos n
pred_ℤ (negsuc n) = negsuc (suc n)

abbrev pub scale : ℤ → ℕ → ℤ
scale (pos n) b = pos (n * b)
scale (negsuc n) b = minus (suc n * b)

unfoldable pub slot_of : ℕ → ℤ → ℤ
slot_of period elapsed =
    let slot = quot elapsed period in
    if ltb_ℤ elapsed (pos 0) && has_rest elapsed period then int64 (pred_ℤ slot) else slot

-- Next, of a positive interval
unfoldable pub next_tick : ℕ → ℤ → ℤ
unfolding slot_of
next_tick period after = int64 (scale (int64 (suc_ℤ (slot_of period after))) period)

-- The instant is an int64, and so is the instant one interval later.
abbrev pub HasRoom : ℕ → ℤ → Type 0
HasRoom period (pos n) = n + period < 2 ^ 63
HasRoom period (negsuc n) = suc n ≤ 2 ^ 63

ltb-minus : (a b : ℕ) → ltb_ℤ (minus a) (minus b) ≡ ltb b a
ltb-minus zero zero = refl
ltb-minus zero (suc b) = ground arith
ltb-minus (suc a) zero = ground arith
ltb-minus (suc a) (suc b) = ground arith

pos_not_below : (a b : ℕ) → ltb_ℤ (pos a) (minus b) ≡ false
pos_not_below a zero = ground arith
pos_not_below a (suc b) = refl

scale-minus : (t period : ℕ) → scale (minus t) period ≡ minus (t * period)
scale-minus zero period =
    let none_left : 0 * period ≡ 0 = omega arith in ap pos none_left ∙ sym (ap minus none_left)
scale-minus (suc t) period = refl

suc-pred : (a : ℤ) → suc_ℤ (pred_ℤ a) ≡ a
suc-pred (pos zero) = refl
suc-pred (pos (suc n)) = refl
suc-pred (negsuc n) = refl

at_most_scaled : (q period : ℕ) → 0 < period → q ≤ q * period
at_most_scaled q period positive = omega (arith, mul-le-mul_right {m = 1} {n = period} q positive)

pos-fits :
    (q period : ℕ)
    → q * period < 2 ^ 63
    → 0 < period
    → int64 (scale (int64 (pos q)) period) ≡ pos (q * period)
pos-fits q period fits positive =
    let slot = int64-pos q (omega (arith, fits, at_most_scaled q period positive)) in
    ap (λ k. int64 (scale k period)) slot ∙ int64-pos (q * period) fits

minus-fits :
    (q period : ℕ)
    → q * period ≤ 2 ^ 63
    → 0 < period
    → int64 (scale (int64 (minus q)) period) ≡ minus (q * period)
minus-fits q period fits positive =
    let slot = int64-minus q (omega (arith, fits, at_most_scaled q period positive)) in
    ap (λ k. int64 (scale k period)) slot
    ∙ ap int64 (scale-minus q period)
    ∙ int64-minus (q * period) fits

pred-minus : (q : ℕ) → pred_ℤ (minus q) ≡ minus (suc q)
pred-minus zero = refl
pred-minus (suc q) = refl

-- A multiple of the interval is later than the instant, and no earlier multiple is.
abbrev pub IsNextMultiple : (period : ℕ) → (after next : ℤ) → Type 0
IsNextMultiple period after next =
    ((k : ℤ) × (next ≡ scale k period))
    × (ltb_ℤ after next ≡ true)
    × ((j : ℤ) → ltb_ℤ after (scale j period) ≡ true → ltb_ℤ (scale j period) next ≡ false)

from_pos :
    (n q period : ℕ)
    → q * period ≤ n
    → n < suc q * period
    → IsNextMultiple period (pos n) (pos (suc q * period))
from_pos n q period low high = ((pos (suc q), refl), ground (arith, high), least)
  where
    least :
        (j : ℤ)
        → ltb_ℤ (pos n) (scale j period) ≡ true
        → ltb_ℤ (scale j period) (pos (suc q * period)) ≡ false
    least (pos m) h = elim (Bool-cases (ltb q m)) [
      | inl more ↦
          ground
            (arith, mul-le-mul_right {m = suc q} {n = m} period (omega (arith, ltb→lt q m more)))
      | inr few ↦ absurd (later few)
    ]
      where
        later : ltb q m ≡ false → ⊥
        later few = omega (
          arith,
          mul-le-mul_right {m = m} {n = q} period (ground (arith, few)),
          ltb→lt n (m * period) h,
          low,
        )
    least (negsuc m) h = absurd (cc (h, pos_not_below n (suc m * period)))

from_negative :
    (n t period : ℕ)
    → t * period < suc n
    → suc n ≤ suc t * period
    → IsNextMultiple period (negsuc n) (minus (t * period))
from_negative n t period low high = (
  (minus t, sym (scale-minus t period)),
  ltb-minus (suc n) (t * period) ∙ ground (arith, low),
  least,
)
  where
    least :
        (j : ℤ)
        → ltb_ℤ (negsuc n) (scale j period) ≡ true
        → ltb_ℤ (scale j period) (minus (t * period)) ≡ false
    least (pos m) h = pos_not_below (m * period) (t * period)
    least (negsuc k) h =
        let below : suc k * period < suc n =
          ltb→lt (suc k * period) (suc n) (sym (ltb-minus (suc n) (suc k * period)) ∙ h) in
        ltb-minus (suc k * period) (t * period) ∙ elim (Bool-cases (ltb t (suc k))) [
          | inl more ↦ absurd (
              omega (
                arith,
                mul-le-mul_right {m = suc t} {n = suc k} period
                    (omega (arith, ltb→lt t (suc k) more)),
                below,
                high,
              ))
          | inr few ↦
              ground (arith, mul-le-mul_right {m = suc k} {n = t} period (ground (arith, few)))
        ]

-- The slot before a negative instant: the quotient, less one where it leaves a rest.
from_negsuc :
    (n q r period : ℕ)
    → q * period + r ≡ suc n
    → r < period
    → suc n ≤ 2 ^ 63
    → IsNextMultiple period (negsuc n) (
        int64 (
          scale
            (int64 (suc_ℤ (if not (nat_eq r 0) then int64 (pred_ℤ (minus q)) else minus q)))
            period))
from_negsuc n zero zero period whole small room = absurd (omega (arith, whole))
from_negsuc n (suc q) zero period whole small room =
    let low : q * period < suc n = omega (arith, whole, small) in
    subst (IsNextMultiple period (negsuc n))
      (sym (minus-fits q period (omega (arith, low, room)) (omega (arith, small))))
      (from_negative n q period low (omega (arith, whole)))
from_negsuc n q (suc r) period whole small room =
    let low : q * period < suc n = omega (arith, whole) in
    let fits = minus-fits q period (omega (arith, low, room)) (omega (arith, small)) in
    let slot : int64 (pred_ℤ (minus q)) ≡ pred_ℤ (minus q) =
      ap int64 (pred-minus q)
      ∙ int64-minus (suc q)
          (omega (arith, whole, room, at_most_scaled q period (omega (arith, small))))
      ∙ sym (pred-minus q) in
    let rest : nat_eq (suc r) 0 ≡ false = ground arith in
    rw (rest, slot, suc-pred (minus q))
      (subst (IsNextMultiple period (negsuc n)) (sym fits)
        (from_negative n q period low (omega (arith, whole, small))))

-- With a positive interval, and unless the instant or the one an interval later is out of the range
-- of an int64, the next tick after an instant, before the epoch too, is the earliest multiple of the
-- interval that is later than the instant.
pub next_tick-IsNextMultiple :
    (period : ℕ) (after : ℤ)
    → 0 < period
    → HasRoom period after
    → IsNextMultiple period after (next_tick period after)
unfolding next_tick slot_of
next_tick-IsNextMultiple period (pos n) positive room =
    let whole = div-add-mod' n period in
    let rest = mod-lt n positive in
    let after_epoch : ltb n 0 ≡ false = ground arith in
    let fits = pos-fits (suc (n / period)) period (omega (arith, whole, room)) positive in
    rw after_epoch (
      subst (IsNextMultiple period (pos n)) (sym fits)
        (from_pos n (n / period) period (omega (arith, whole)) (omega (arith, whole, rest))))
next_tick-IsNextMultiple period (negsuc n) positive room =
    from_negsuc n (suc n / period) (suc n % period) period (div-add-mod' (suc n) period)
      (mod-lt (suc n) positive) room
