-- ===== src/Harness/Gate/Tests.antt =====
-- A gate of one call at a time, and the theorem of this folder at a concrete input.
use ouvrier.Base.{
  pos, ◌≤◌, ◌≡◌, refl, true, some, List, [], ◌∷◌, eq_string, eq_nat, empty_map, lookup, insert,
  trim_space,
}
use ouvrier.State.Types.{live, cancelled, check_context}
use ouvrier.Harness.Gate.{ProviderGate, new_provider_gate, acquire, select_slot, release}
use ouvrier.Harness.Gate.Counting.{calls_in_flight}
use ouvrier.Harness.Gate.Bounded.{Call, acquires, releases, run, calls_within_limit}

abbrev one_call : ProviderGate
one_call = record {
  limits = record { entries = ("openai", 1) ∷ [] };
  in_flight = empty_map;
  releases = [];
}

made_one : new_provider_gate ((" openai ", pos 1) ∷ ("mistral", pos 0) ∷ []) ≡ some one_call
unfolding new_provider_gate trim_space insert
made_one = refl

abbrev twice : List Call
twice =
    acquires true live "openai"
    ∷ acquires true live "openai"
    ∷ releases 0
    ∷ releases 0
    ∷ acquires true live "openai"
    ∷ acquires true cancelled "openai"
    ∷ []

one_runs : calls_in_flight "openai" (run twice one_call).releases ≡ 1
unfolding run acquire select_slot check_context release trim_space lookup insert
one_runs = refl

calls_within_limit_example : calls_in_flight "openai" (run twice one_call).releases ≤ 1
unfolding run acquire select_slot check_context release trim_space lookup insert
calls_within_limit_example =
    calls_within_limit ((" openai ", pos 1) ∷ ("mistral", pos 0) ∷ []) one_call twice "openai" 1
      made_one refl
