-- ===== src/Harness/Gate/Counting.antt =====
-- Counting the calls in flight of a provider gate: its releases that have not run.
use ouvrier.Base.{
  get_at, set_at, ◌∙◌, suc, zero, ℕ, ◌+◌, ◌≤◌, String, ◌≡◌, refl, ap, inl, inr, Bool, true, false,
  not, ◌&&◌, Option, none, some, List, [], ◌∷◌, ◌++◌, arith, eq_string, eq_nat, ◌==◌, if◌then◌else◌,
  Bool-cases, Map, lookup, insert, lookup-insert,
}
use ouvrier.Harness.Gate.{Release, ProviderGate, tokens, in_flight_of}

abbrev pub open_for : String → Option String → (done : Bool) → ℕ
open_for name none done = 0
open_for name (some p) done = if p == name && not done then 1 else 0

-- One, for a release function of this provider that has not run.
abbrev pub open_one : String → Release → ℕ
open_one name r = open_for name r.provider r.done

abbrev pub calls_in_flight : String → List Release → ℕ
calls_in_flight name [] = 0
calls_in_flight name (r ∷ rs) = open_one name r + calls_in_flight name rs

pub open_for-fresh : (name p : String) → open_for name (some p) false ≡ (if p == name then 1 else 0)
open_for-fresh name p = elim (Bool-cases (p == name)) [ inl h ↦ rw h | inr h ↦ rw h ]

pub open_for-done : (name : String) (p : Option String) → open_for name p true ≡ 0
open_for-done name none = refl
open_for-done name (some p) = elim (Bool-cases (p == name)) [ inl h ↦ rw h | inr h ↦ rw h ]

pub tokens-insert :
    (name other : String) (n : ℕ) (m : Map String ℕ)
    → tokens (lookup other (insert name n m))
      ≡ (if name == other then n else tokens (lookup other m))
tokens-insert name other n m =
    ap tokens (lookup-insert name other n m)
    ∙ elim (Bool-cases (name == other)) [ inl h ↦ rw h | inr h ↦ rw h ]

pub calls-snoc :
    (name : String) (rs : List Release) (r : Release)
    → calls_in_flight name (rs ++ r ∷ []) ≡ calls_in_flight name rs + open_one name r
calls-snoc name [] r = omega arith
calls-snoc name (x ∷ rs) r = omega (arith, calls-snoc name rs r)

pub calls-set_at :
    (name : String) (rs : List Release) (i : ℕ) (r : Release)
    → get_at rs i ≡ some r
    → r.done ≡ false
    → calls_in_flight name (set_at rs i (record r { done = true })) + open_one name r
      ≡ calls_in_flight name rs
calls-set_at name [] i r found fresh = absurd (cc)
calls-set_at name (x ∷ rs) zero r found fresh =
    let same : x ≡ r = cc in omega (arith, open_for-done name r.provider, ap (open_one name) same)
calls-set_at name (x ∷ rs) (suc i) r found fresh =
    omega (arith, calls-set_at name rs i r found fresh)

-- The tokens of each channel are its calls in flight, at most as many as the limit.
abbrev pub IsWithin : ProviderGate → Type 0
IsWithin g =
    ((name : String) → in_flight_of name g ≡ calls_in_flight name g.releases)
    × ((name : String) (limit : ℕ)
        → lookup name g.limits ≡ some limit
        → in_flight_of name g ≤ limit)
