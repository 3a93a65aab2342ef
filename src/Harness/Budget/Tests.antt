-- ===== src/Harness/Budget/Tests.antt =====
-- A budget of ten tokens, and the theorem of the ledger at a concrete input.
use ouvrier.Base.{
  map, arith, ℤ, pos, ℕ, ◌+◌, ◌<◌, ◌≡◌, ◌↔◌, refl, some, List, [], ◌∷◌, eq_string, eq_nat, ltb,
}
use ouvrier.State.Types.{Budget}
use ouvrier.Harness.Budget.{
  Costs, Counts, usage_of, tokens, new_budget_ledger, budget_payload, exceeded, add_each,
  add_to_ledger, sum_tokens, exceeded-add_each,
}

-- Whole cents in place of floats.
abbrev cents : Costs ℕ
cents = record { zero_cost = 0; add = λ a b. a + b; of_bits = λ n. n; above = λ a b. ltb b a }

abbrev ten : Budget
ten = record {
  max_iterations = pos 0;
  max_tokens = pos 10;
  max_cost_usd = 0;
  max_wall_clock = pos 0;
}

abbrev spent : ℕ → ℕ → Counts cents
spent a b = record { input_count = a; output_count = b; cost = 1 }

abbrev three_calls : List (Counts cents)
three_calls = spent 4 1 ∷ spent 3 2 ∷ spent 0 1 ∷ []

reports_eleven :
    exceeded cents (add_each cents (map (usage_of cents) three_calls) (new_budget_ledger cents ten))
    ≡ some (tokens (pos 11))
unfolding exceeded budget_payload add_each add_to_ledger
reports_eleven = refl

exceeded-add_each_example :
    ((n : ℤ) × (exceeded cents
          (add_each cents (map (usage_of cents) three_calls) (new_budget_ledger cents ten))
        ≡ some (tokens n)))
    ↔ (10 < sum_tokens cents three_calls)
exceeded-add_each_example = exceeded-add_each cents ten 9 three_calls refl (omega arith)
