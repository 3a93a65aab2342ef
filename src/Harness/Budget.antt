-- ===== src/Harness/Budget.antt =====
-- internal/harness/budget_ledger.go and provider.Usage: the tokens and the cost that a run has used,
-- against its budget. Token counts are ints of 64 bits, which wrap around; costs are float64, by a
-- parameter.
mod Tests
use ouvrier.Base.{
  ◌^◌, int64-pos, add_int, ltb_ℤ, map, ℤ, ltb→lt, if_true, if_false, ◌∙◌, suc, zero, ℤ, pos, negsuc,
  ℕ, ◌+◌, ◌<◌, ◌≡◌, ◌≢◌, ◌↔◌, refl, sym, ap, inl, inr, Bool, true, false, ◌&&◌, Option, none, some,
  List, [], ◌∷◌, arith, eq_iff, eq_string, eq_nat, ◌>>=◌, ◌>>◌, if◌then◌else◌, ltb, Bool-cases,
}
use mathlib.Core.Path.{ap₂}
use ouvrier.State.Types.{Budget}

-- Addition and comparison of costs; a budget's cost limit stands by its bits.
pub record Costs (F : Type 0) : Type 0 where
  pub zero_cost : F
  pub add : F → F → F
  pub of_bits : ℕ → F
  pub above : F → F → Bool

pub record Usage (F : Type 0) : Type 0 where
  pub input_tokens : ℤ
  pub output_tokens : ℤ
  pub cost_usd : F

pub record BudgetLedger (F : Type 0) : Type 0 where
  pub budget : Budget
  pub usage : Usage F

-- The field "budget" of the payload of an exceeded budget; its other fields repeat the budget and
-- the usage.
pub data Exceeded : Type 0 where
  tokens : (used : ℤ) → Exceeded
  cost_usd : (used : ℤ) → Exceeded

-- budget.MaxTokens > 0 && usedTokens > budget.MaxTokens
abbrev over_tokens : ℤ → ℤ → Bool
over_tokens limit used = ltb_ℤ (pos 0) limit && ltb_ℤ limit used

over_pos : (limit used : ℕ) → over_tokens (pos (suc limit)) (pos used) ≡ ltb (suc limit) used
over_pos limit used = let positive : ltb 0 (suc limit) ≡ true = ground arith in rw positive refl

module _ {F : Type 0} (costs : Costs F) where
  open costs use {zero_cost, add, of_bits, above}

  -- Usage.Add
  abbrev pub add_usage : Usage F → Usage F → Usage F
  add_usage u next = record {
    input_tokens = add_int u.input_tokens next.input_tokens;
    output_tokens = add_int u.output_tokens next.output_tokens;
    cost_usd = add u.cost_usd next.cost_usd;
  }

  abbrev pub new_budget_ledger : Budget → BudgetLedger F
  new_budget_ledger budget = record {
    budget = budget;
    usage = record { input_tokens = pos 0; output_tokens = pos 0; cost_usd = zero_cost };
  }

  unfoldable pub budget_payload : Budget → Usage F → Option Exceeded
  budget_payload budget usage =
      let used = add_int usage.input_tokens usage.output_tokens in
      if over_tokens budget.max_tokens used
      then some (tokens used)
      else if above (of_bits budget.max_cost_usd) zero_cost
          && above usage.cost_usd (of_bits budget.max_cost_usd)
      then some (cost_usd used)
      else none

  -- Add, of a ledger that is not nil
  unfoldable pub add_to_ledger : Usage F → BudgetLedger F → Option Exceeded × BudgetLedger F
  unfolding budget_payload
  add_to_ledger next l =
      let total = add_usage l.usage next in
      (budget_payload l.budget total, record l { usage = total })

  -- The method Exceeded
  unfoldable pub exceeded : BudgetLedger F → Option Exceeded
  unfolding budget_payload
  exceeded l = budget_payload l.budget l.usage

  -- The ledger after the usages of several calls, of one harness or of the sub-agents that share it.
  unfoldable pub add_each : List (Usage F) → BudgetLedger F → BudgetLedger F
  add_each [] l = l
  add_each (u ∷ us) l = add_each us (add_to_ledger u l).1

  -- A usage whose counts are not negative.
  pub record Counts : Type 0 where
    pub input_count : ℕ
    pub output_count : ℕ
    pub cost : F

  abbrev pub usage_of : Counts → Usage F
  usage_of c = record {
    input_tokens = pos c.input_count;
    output_tokens = pos c.output_count;
    cost_usd = c.cost;
  }

  -- The tokens of a list of usages.
  abbrev pub sum_tokens : List Counts → ℕ
  sum_tokens [] = 0
  sum_tokens (c ∷ cs) = c.input_count + c.output_count + sum_tokens cs

  -- The ledger's counts, which stay in range.
  abbrev Holds : BudgetLedger F → Budget → ℕ → ℕ → Type 0
  Holds l budget a b =
      (l.budget ≡ budget) × (l.usage.input_tokens ≡ pos a) × (l.usage.output_tokens ≡ pos b)

  add_each-Holds :
      (cs : List Counts) (l : BudgetLedger F) (budget : Budget) (a b : ℕ)
      → Holds l budget a b
      → a + b + sum_tokens cs < 2 ^ 63
      → (a' : ℕ) × ((b' : ℕ) × (Holds (add_each (map usage_of cs) l) budget a' b'
            × (a' + b' ≡ a + b + sum_tokens cs)))
  unfolding add_each add_to_ledger
  add_each-Holds [] l budget a b held room = (a, (b, (held, omega arith)))
  add_each-Holds (c ∷ cs) l budget a b (same, ins, outs) room =
      let ins' =
        ap (λ x. add_int x (pos c.input_count)) ins
        ∙ int64-pos (a + c.input_count) (omega (arith, room)) in
      let outs' =
        ap (λ x. add_int x (pos c.output_count)) outs
        ∙ int64-pos (b + c.output_count) (omega (arith, room)) in
      let (a', (b', (held, total))) =
        add_each-Holds cs (add_to_ledger (usage_of c) l).1 budget (a + c.input_count)
          (b + c.output_count) (same, ins', outs') (omega (arith, room)) in
      (a', (b', (held, omega (arith, total))))

  cost_only :
      (over : Bool) (used n : ℤ) → (if over then some (cost_usd used) else none) ≢ some (tokens n)
  cost_only true used n = λ h. cc
  cost_only false used n = λ h. cc

  payload_tokens :
      (b : Budget) (u : Usage F) (limit used : ℕ)
      → b.max_tokens ≡ pos (suc limit)
      → add_int u.input_tokens u.output_tokens ≡ pos used
      → ((n : ℤ) × (budget_payload b u ≡ some (tokens n))) ↔ (suc limit < used)
  unfolding budget_payload
  payload_tokens b u limit used limited sum =
      let both = add_int u.input_tokens u.output_tokens in
      let test : over_tokens b.max_tokens both ≡ ltb (suc limit) used =
        ap (λ m. over_tokens m both) limited
        ∙ ap (over_tokens (pos (suc limit))) sum
        ∙ over_pos limit used in
      elim (Bool-cases (ltb (suc limit) used)) [
        | inl over ↦ (λ _. ltb→lt (suc limit) used over, λ _. (both, if_true _ _ _ (test ∙ over)))
        | inr fine ↦ (
          λ (n, h). absurd (cost_only _ both n (sym (if_false _ _ _ (test ∙ fine)) ∙ h)),
          λ h. absurd (ground (arith, fine, h)),
        )
      ]

  -- With a positive token limit, and as long as the counts of the usages are not negative and all of
  -- them together fit into an int, a ledger reports the token budget exactly when the tokens of all
  -- usages added, in whatever order and by whichever of its users, are more than the limit, whatever
  -- they cost.
  pub exceeded-add_each :
      (budget : Budget) (limit : ℕ) (cs : List Counts)
      → budget.max_tokens ≡ pos (suc limit)
      → sum_tokens cs < 2 ^ 63
      → ((n : ℤ) × (exceeded (add_each (map usage_of cs) (new_budget_ledger budget))
            ≡ some (tokens n)))
        ↔ (suc limit < sum_tokens cs)
  unfolding exceeded
  exceeded-add_each budget limit cs limited room =
      let l = add_each (map usage_of cs) (new_budget_ledger budget) in
      let (a, (b, ((same, ins, outs), total))) =
        add_each-Holds cs (new_budget_ledger budget) budget 0 0 (refl, refl, refl)
          (omega (arith, room)) in
      let sum = ap₂ add_int ins outs ∙ int64-pos (a + b) (omega (arith, total, room)) in
      let (reports, reported) =
        payload_tokens l.budget l.usage limit (a + b) (ap (λ b. b.max_tokens) same ∙ limited) sum in
      (λ h. omega (arith, reports h, total), λ h. reported (omega (arith, h, total)))
