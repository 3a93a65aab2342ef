-- ===== src/Harness/Gate.antt =====
-- internal/harness/provider_gate.go: the bound on the calls in flight per provider. A channel of a
-- capacity is the number of tokens in it; a call to Acquire that has to wait is tried again.
pub mod Bounded
pub mod Counting
use ouvrier.Base.{
  get_at, set_at, suc, zero, ℤ, pos, negsuc, ℕ, ◌+◌, ◌-◌, String, Bool, true, false, ◌&&◌, Option,
  none, some, List, [], ◌∷◌, ◌++◌, eq_iff, eq_string, eq_nat, ◌==◌, ok, err, ◌>>=◌, ◌>>◌,
  if◌then◌else◌, ltb, leb, Map, empty_map, lookup, insert, length, trim_space,
}
mod Tests
use ouvrier.State.Types.{Error, Context, check_context}

-- The function that Acquire returns: of which provider it gives a slot back, if any, and whether its
-- sync.Once has run.
pub record Release : Type 0 where
  pub provider : Option String
  pub done : Bool

-- ProviderGate, with the release functions that it has handed out.
pub record ProviderGate : Type 0 where
  pub limits : Map String ℕ
  pub in_flight : Map String ℕ
  pub releases : List Release

-- The loop of NewProviderGate over the configured limits, in any order.
abbrev pub copy_limits : List (String × ℤ) → Map String ℕ → Map String ℕ
copy_limits [] copied = copied
copy_limits ((name, pos (suc limit)) ∷ limits) copied =
    copy_limits limits
      (if trim_space name == "" then copied else insert (trim_space name) (suc limit) copied)
copy_limits ((name, pos zero) ∷ limits) copied = copy_limits limits copied
copy_limits ((name, negsuc n) ∷ limits) copied = copy_limits limits copied

abbrev pub is_empty_map : Map String ℕ → Bool
is_empty_map m = elim m.entries [ [] ↦ true | _ ∷ _ ↦ false ]

-- NewProviderGate; a nil gate is none.
unfoldable pub new_provider_gate : List (String × ℤ) → Option ProviderGate
new_provider_gate limits =
    let copied = copy_limits limits empty_map in
    if is_empty_map copied
    then none
    else some (record { limits = copied; in_flight = empty_map; releases = [] })

-- An acquisition that is over, with the index of its release function, or one that waits.
pub data Acquired : Type 0 where
  acquired : (release : ℕ) → Acquired
  ended : (release : ℕ) → Error → Acquired
  waiting : Acquired

-- A release function that does nothing.
abbrev pub no_release : Release
no_release = record { provider = none; done = false }

abbrev pub hand_out : Release → ProviderGate → ProviderGate
hand_out r g = record g { releases = g.releases ++ r ∷ [] }

abbrev pub tokens : Option ℕ → ℕ
tokens none = 0
tokens (some n) = n

abbrev pub in_flight_of : String → ProviderGate → ℕ
in_flight_of name g = tokens (lookup name g.in_flight)

-- The select of Acquire on a channel of this capacity: a slot, or the end of the context; when both
-- are ready, Go takes either, as `slot_first` says.
unfoldable pub select_slot :
    (slot_first : Bool) → Context → String → ℕ → ProviderGate → Acquired × ProviderGate
unfolding check_context
select_slot slot_first ctx name limit g =
    let n = in_flight_of name g in
    let index = length g.releases in
    let taken =
      hand_out (record { provider = some name; done = false })
        (record g { in_flight = insert name (n + 1) g.in_flight }) in
    elim (check_context ctx) [
      | ok _ ↦ if ltb n limit then (acquired index, taken) else (waiting, g)
      | err e ↦
          if ltb n limit && slot_first
          then (acquired index, taken)
          else (ended index e, hand_out no_release g)
    ]

-- Acquire of a gate that is not nil, with the method `channel`.
unfoldable pub acquire :
    (slot_first : Bool) → Context → String → ProviderGate → Acquired × ProviderGate
unfolding select_slot
acquire slot_first ctx name g = elim (lookup (trim_space name) g.limits) [
  | none ↦ (acquired (length g.releases), hand_out no_release g)
  | some limit ↦
      if leb limit 0
      then (acquired (length g.releases), hand_out no_release g)
      else select_slot slot_first ctx (trim_space name) limit g
]

abbrev pub give_back : Option String → Map String ℕ → Map String ℕ
give_back none in_flight = in_flight
give_back (some name) in_flight = insert name (tokens (lookup name in_flight) - 1) in_flight

abbrev pub release_once : ℕ → Option Release → ProviderGate → ProviderGate
release_once index none g = g
release_once index (some r) g = if r.done then g else record g {
  in_flight = give_back r.provider g.in_flight;
  releases = set_at g.releases index (record r { done = true });
}

-- A call of the release function of this index. Its receive from the channel, which would wait on an
-- empty one, finds a token.
unfoldable pub release : ℕ → ProviderGate → ProviderGate
release index g = release_once index (get_at g.releases index) g
