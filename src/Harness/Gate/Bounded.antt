-- ===== src/Harness/Gate/Bounded.antt =====
-- The calls in flight of a provider are those whose release has not run, and stay within its limit.
use mathlib.Core.Path.{subst}
use ouvrier.Base.{
  if_true, if_false, ltb→lt, get_at, set_at, if_true, if_false, ◌∙◌, ℤ, ℕ, ◌+◌, ◌-◌, ◌≤◌, ◌<◌,
  String, ◌≡◌, refl, sym, ap, inl, inr, Bool, true, false, ◌&&◌, Option, none, some, List, [], ◌∷◌,
  arith, eq_iff, eq_string, eq_nat, ◌==◌, ltb, leb, Bool-cases, Option-cases, Result-cases, Map,
  empty_map, lookup, insert, trim_space,
}
use ouvrier.State.Types.{Context, check_context}
use ouvrier.Harness.Gate.{
  Release, ProviderGate, no_release, hand_out, tokens, in_flight_of, new_provider_gate,
  is_empty_map, copy_limits, select_slot, acquire, give_back, release_once, release,
}
use ouvrier.Harness.Gate.Counting.{
  open_for, open_for-fresh, tokens-insert, calls-snoc, calls-set_at, calls_in_flight, IsWithin,
}

hand_out_nothing : (g : ProviderGate) → IsWithin g → IsWithin (hand_out no_release g)
hand_out_nothing g (counted, bounded) =
    (λ name. counted name ∙ omega (arith, calls-snoc name g.releases no_release), bounded)

taken-IsWithin :
    (name : String) (limit : ℕ) (g : ProviderGate)
    → lookup name g.limits ≡ some limit
    → in_flight_of name g < limit
    → IsWithin g
    → IsWithin (
        hand_out
          (record { provider = some name; done = false })
          (record g { in_flight = insert name (in_flight_of name g + 1) g.in_flight }))
taken-IsWithin name limit g limited room (counted, bounded) = (
  λ other.
      let row = tokens-insert name other (in_flight_of name g + 1) g.in_flight in
      let one = open_for-fresh other name in
      let grown = calls-snoc other g.releases (record { provider = some name; done = false }) in
      elim (Bool-cases (name == other)) [
        | inl same ↦
            let calls = ap (λ n. calls_in_flight n g.releases) ((eq_iff name other).0 same) in
            omega (
              arith,
              row ∙ if_true (name == other) _ _ same,
              one ∙ if_true (name == other) _ _ same,
              grown,
              counted name,
              calls,
            )
        | inr away ↦ omega (
          arith,
          row ∙ if_false (name == other) _ _ away,
          one ∙ if_false (name == other) _ _ away,
          grown,
          counted other,
        )
      ],
  λ other cap capped.
      let row = tokens-insert name other (in_flight_of name g + 1) g.in_flight in
      elim (Bool-cases (name == other)) [
        | inl same ↦
            let limit_same : limit ≡ cap =
              ap tokens
                (sym limited ∙ ap (λ n. lookup n g.limits) ((eq_iff name other).0 same) ∙ capped) in
            omega (arith, row ∙ if_true (name == other) _ _ same, room, limit_same)
        | inr away ↦
            omega (arith, row ∙ if_false (name == other) _ _ away, bounded other cap capped)
      ],
)

select_slot-IsWithin :
    (slot_first : Bool) (ctx : Context) (name : String) (limit : ℕ) (g : ProviderGate)
    → lookup name g.limits ≡ some limit
    → IsWithin g
    → IsWithin (select_slot slot_first ctx name limit g).1
unfolding select_slot
select_slot-IsWithin slot_first ctx name limit g limited h =
    let n = in_flight_of name g in
    elim (Result-cases (check_context ctx)) [
      | inr (_, alive) ↦ elim (Bool-cases (ltb n limit)) [
        | inl room ↦
            rw (alive, select_slot, room)
              (taken-IsWithin name limit g limited (ltb→lt n limit room) h)
        | inr full ↦ rw (alive, select_slot, full) h
      ]
      | inl (x, over) ↦ elim (Bool-cases (ltb n limit && slot_first)) [
        | inl room ↦
            rw (over, select_slot, room)
              (taken-IsWithin name limit g limited (ground (arith, room)) h)
        | inr full ↦ rw (over, select_slot, full) (hand_out_nothing g h)
      ]
    ]

acquire-IsWithin :
    (slot_first : Bool) (ctx : Context) (name : String) (g : ProviderGate)
    → IsWithin g
    → IsWithin (acquire slot_first ctx name g).1
unfolding acquire
acquire-IsWithin slot_first ctx name g h = elim (Option-cases (lookup (trim_space name) g.limits)) [
  | inl e ↦ rw (e, acquire) (hand_out_nothing g h)
  | inr (limit, e) ↦ elim (Bool-cases (leb limit 0)) [
    | inl empty ↦ rw (e, acquire, empty) (hand_out_nothing g h)
    | inr usable ↦
        rw (e, acquire, usable) (select_slot-IsWithin slot_first ctx (trim_space name) limit g e h)
  ]
]

-- The release of a slot gives back one token, of which there is one.
given_back :
    (name : String) (p : Option String) (m : Map String ℕ)
    → open_for name p false ≤ tokens (lookup name m)
    → tokens (lookup name (give_back p m)) + open_for name p false ≡ tokens (lookup name m)
given_back name none m h = omega arith
given_back name (some p) m h =
    let row = tokens-insert p name (tokens (lookup p m) - 1) m in
    let one = open_for-fresh name p in
    elim (Bool-cases (p == name)) [
      | inl same ↦
          let there = ap (λ n. tokens (lookup n m)) ((eq_iff p name).0 same) in
          omega (
            arith,
            h,
            there,
            row ∙ if_true (p == name) _ _ same,
            one ∙ if_true (p == name) _ _ same,
          )
      | inr away ↦
          omega (arith, row ∙ if_false (p == name) _ _ away, one ∙ if_false (p == name) _ _ away)
    ]

released-IsWithin :
    (i : ℕ) (r : Release) (g : ProviderGate)
    → get_at g.releases i ≡ some r
    → r.done ≡ false
    → IsWithin g
    → IsWithin (record g {
      in_flight = give_back r.provider g.in_flight;
      releases = set_at g.releases i (record r { done = true });
    })
released-IsWithin i r g found fresh (counted, bounded) =
    let left = λ (name : String). calls-set_at name g.releases i r found fresh in
    let one = λ (name : String). ap (open_for name r.provider) fresh in
    let back = λ (name : String).
      given_back name r.provider g.in_flight (omega (arith, left name, counted name, one name)) in
    (
      λ name. omega (arith, back name, left name, counted name, one name),
      λ name limit limited. omega (arith, back name, bounded name limit limited),
    )

release-IsWithin : (i : ℕ) (g : ProviderGate) → IsWithin g → IsWithin (release i g)
unfolding release
release-IsWithin i g h = elim (Option-cases (get_at g.releases i)) [
  | inl e ↦ rw e h
  | inr (r, e) ↦ elim (Bool-cases r.done) [
    | inl over ↦ rw (e, release_once, over) h
    | inr fresh ↦ rw (e, release_once, fresh) (released-IsWithin i r g e fresh h)
  ]
]

-- A call of Acquire, or of a release function, as often as the caller likes.
pub data Call : Type 0 where
  acquires : (slot_first : Bool) → Context → (name : String) → Call
  releases : (index : ℕ) → Call

unfoldable pub run : List Call → ProviderGate → ProviderGate
run [] g = g
run (acquires slot_first ctx name ∷ calls) g = run calls (acquire slot_first ctx name g).1
run (releases index ∷ calls) g = run calls (release index g)

run-IsWithin : (calls : List Call) (g : ProviderGate) → IsWithin g → IsWithin (run calls g)
unfolding run
run-IsWithin [] g h = h
run-IsWithin (acquires slot_first ctx name ∷ calls) g h =
    run-IsWithin calls (acquire slot_first ctx name g).1 (acquire-IsWithin slot_first ctx name g h)
run-IsWithin (releases index ∷ calls) g h =
    run-IsWithin calls (release index g) (release-IsWithin index g h)

new_provider_gate-IsWithin :
    (limits : List (String × ℤ)) (g : ProviderGate) → new_provider_gate limits ≡ some g → IsWithin g
unfolding new_provider_gate lookup
new_provider_gate-IsWithin limits g made =
    let copied = copy_limits limits empty_map in
    elim (Bool-cases (is_empty_map copied)) [
      | inl empty ↦ absurd (cc (rw empty at made))
      | inr filled ↦
          let some_g = rw filled at made in
          let fresh : ProviderGate = record {
            limits = copied;
            in_flight = empty_map;
            releases = [];
          } in
          let same : fresh ≡ g = cc in
          subst IsWithin same (λ name. refl, λ name limit _. omega arith)
    ]

-- However callers interleave acquisitions and releases on a new gate, with contexts that end and
-- releases called twice, the calls in flight of a provider (the slots handed out whose release has
-- not run) are never more than its limit.
pub calls_within_limit :
    (limits : List (String × ℤ)) (g : ProviderGate) (calls : List Call) (name : String) (limit : ℕ)
    → new_provider_gate limits ≡ some g
    → lookup name (run calls g).limits ≡ some limit
    → calls_in_flight name (run calls g).releases ≤ limit
calls_within_limit limits g calls name limit made limited =
    let (counted, bounded) = run-IsWithin calls g (new_provider_gate-IsWithin limits g made) in
    omega (arith, counted name, bounded name limit limited)
