-- ===== src/Events/Buffer/Indices.antt =====
-- The entries and indices of the circular buffer: writes, visits and steps around the end.
use mathlib.Core.Path.{ap₂}
use ouvrier.Base.{
  get_at, ℕ, ◌+◌, ◌-◌, ◌%◌, ◌≤◌, ◌<◌, ◌≡◌, ◌≢◌, refl, ap, inl, inr, false, Option, [], ◌∷◌, ◌++◌,
  arith, eq_string, eq_nat, ltb, Bool-cases, length, zero, suc, ◌∙◌, ltb→lt,
}
use native.Mathlib.Nat.{add-mod_right, mod-add-mod, mod-eq_of_lt, mod-eq-sub-mod}
use ouvrier.Events.{Event}
use ouvrier.Events.Buffer.{EventBuffer, visit_from}

-- The entry at a logical index.
abbrev pub at_index : EventBuffer → ℕ → Option Event
at_index b i = get_at b.entries ((b.start + i) % length b.entries)

pub visit_from-snoc :
    (b : EventBuffer) (i n : ℕ)
    → visit_from b i (suc n) ≡ visit_from b i n ++ at_index b (i + n) ∷ []
unfolding visit_from
visit_from-snoc b i zero = ap (λ k. at_index b k ∷ []) (omega arith)
visit_from-snoc b i (suc n) =
    ap (λ l. at_index b i ∷ l)
      (visit_from-snoc b (suc i) n
        ∙ ap (λ k. visit_from b (suc i) n ++ at_index b k ∷ []) (omega arith))

-- Two buffers whose entries agree at shifted indices visit the same events.
pub visit_from-agree :
    (b c : EventBuffer) (i k n : ℕ)
    → ((j : ℕ) → j < n → at_index b (i + j) ≡ at_index c (k + j))
    → visit_from b i n ≡ visit_from c k n
unfolding visit_from
visit_from-agree b c i k zero same = refl
visit_from-agree b c i k (suc n) same =
    ap₂ ◌∷◌ (ap (at_index b) (omega arith) ∙ same 0 (omega arith) ∙ ap (at_index c) (omega arith)) (
      visit_from-agree b c (suc i) (suc k) n (λ j h.
        ap (at_index b) (omega arith)
        ∙ same (suc j) (omega (arith, h))
        ∙ ap (at_index c) (omega arith)))

-- Below the capacity an unmoved start leaves an index alone.
pub unmoved : (start j n : ℕ) → start ≡ 0 → j < n → (start + j) % n ≡ j
unmoved start j n zero_start h = ap (λ k. k % n) (omega (arith, zero_start)) ∙ mod-eq_of_lt h

-- One step around the buffer.
pub next_index : (start j n : ℕ) → ((start + 1) % n + (0 + j)) % n ≡ (start + (1 + j)) % n
next_index start j n = mod-add-mod (start + 1) n (0 + j) ∙ ap (λ k. k % n) (omega arith)

pub not_ltb→le : (a n : ℕ) → ltb a n ≡ false → n ≤ a
not_ltb→le a n h = ground arith

pub wrapped : (start j n : ℕ) → start < n → j < n → (start + j - n) % n ≡ start + j - n
wrapped start j n in_range h = mod-eq_of_lt (omega (arith, in_range, h))

-- The next steps, fewer than a whole round, do not come back to the start.
pub not_back : (start j n : ℕ) → start < n → 1 + j < n → start ≢ (start + (1 + j)) % n
not_back start j n in_range h = elim (Bool-cases (ltb (start + (1 + j)) n)) [
  | inl below ↦ λ e. omega (arith, e, mod-eq_of_lt (ltb→lt (start + (1 + j)) n below))
  | inr above ↦ λ e. omega (
    arith,
    e,
    h,
    in_range,
    mod-eq-sub-mod (not_ltb→le (start + (1 + j)) n above),
    wrapped start (1 + j) n in_range h,
    not_ltb→le (start + (1 + j)) n above,
  )
]

-- A whole round comes back.
pub round : (start k n : ℕ) → start < n → k ≡ n → (start + k) % n ≡ start
round start k n in_range whole =
    ap (λ x. (start + x) % n) whole ∙ add-mod_right start n ∙ mod-eq_of_lt in_range
