-- ===== src/Budgets/Counts.antt =====
-- src/aep/execution_budgets.py: the counts of the ledger and their limits.
use agent_engineering_platfo.Prelude.{ℕ, ◌+◌, ◌≡◌, String, true, Option, none, some, arith, leb}
use agent_engineering_platfo.Budgets.{
  BudgetField, max_model_invocations, max_input_tokens, max_output_tokens, Numbers, BudgetLimit,
  ResolvedExecutionBudget,
}
use agent_engineering_platfo.Budgets.Costs.{Decimals}
use agent_engineering_platfo.Budgets.Records.{Level, ConsumptionRecord, limits_at}
use agent_engineering_platfo.Budgets.Checks.{count_block}
use agent_engineering_platfo.Budgets.Plan.{available}
use agent_engineering_platfo.Budgets.Ledger.{Reservation}
use agent_engineering_platfo.Budgets.Fits.{Fits}

-- The counts of the ledger.
pub data Dimension : Type 0 where
  invocations inputs outputs : Dimension

abbrev pub field_of : Dimension → BudgetField
field_of invocations = max_model_invocations
field_of inputs = max_input_tokens
field_of outputs = max_output_tokens

-- `int` is the integer part of a positive number, and `<=` compares an integer with it.
pub record IsArithmetic (n : Numbers) (d : Decimals n) : Type 0 where
  pub at_most_int :
      (k : ℕ) (x : n.Num)
      → n.is_positive_finite x ≡ true
      → n.at_most (n.of_int k) x ≡ leb k (d.int x)

module _ (n : Numbers) where
  abbrev pub used : Dimension → ConsumptionRecord n → ℕ
  used invocations r = r.model_invocations
  used inputs r = r.input_tokens
  used outputs r = r.output_tokens

  abbrev pub held : Dimension → ConsumptionRecord n → ℕ
  held invocations r = r.reserved_model_invocations
  held inputs r = r.reserved_input_tokens
  held outputs r = r.reserved_output_tokens

  abbrev pub amount : Dimension → Reservation n → ℕ
  amount invocations v = v.model_invocations
  amount inputs v = v.input_tokens
  amount outputs v = v.output_tokens

  abbrev pub IsPositive : Option (BudgetLimit n) → Type 0
  IsPositive none = Unit
  IsPositive (some l) = n.is_positive_finite l.value ≡ true

  -- The limits on counts are positive numbers.
  abbrev pub IsSound : ResolvedExecutionBudget n → Type 0
  IsSound b = (level : Level) (dim : Dimension) → IsPositive (limits_at n b level (field_of dim))

  module _ (d : Decimals n) where
    abbrev pub limit_of : Option (BudgetLimit n) → Option ℕ
    limit_of none = none
    limit_of (some l) = some (d.int l.value)

    pub count_block-none :
        (level : Level) (o : Option (BudgetLimit n)) (consumed reserved required : ℕ)
        (timestamp : String)
        → IsArithmetic n d
        → IsPositive o
        → count_block n level o consumed reserved required timestamp ≡ none
        → Fits (limit_of o) (consumed + required)
    unfolding count_block
    count_block-none level none consumed reserved required timestamp laws positive h = tt
    count_block-none level (some l) consumed reserved required timestamp laws positive h =
        ground (arith, laws.at_most_int (consumed + required) l.value positive)

    pub Fits-available :
        (o : Option (BudgetLimit n)) (u x : ℕ)
        → Fits (limit_of o) (u + x)
        → Fits (available n d o u) x
    Fits-available none u x h = tt
    Fits-available (some l) u x h = omega arith

    pub within_available :
        (o : Option (BudgetLimit n)) (u x y : ℕ)
        → Fits (limit_of o) (u + x)
        → Fits (available n d o u) y
        → Fits (limit_of o) (u + y)
    within_available none u x y h k = tt
    within_available (some l) u x y h k = omega arith
