-- ===== src/Budgets/Costs.antt =====
-- The helpers of src/aep/execution_budgets.py on money. `Decimals` is Python's `decimal` and float
-- arithmetic, a parameter.
use agent_engineering_platfo.Prelude.{
  ℕ, String, Bool, true, not, ◌||◌, Option, none, some, List, [], ◌∷◌, str_eq, contains, String_eq,
  ltb, min, if◌then◌else◌,
}
use agent_engineering_platfo.Outcome.{Outcome, returned, raised, ◌>>◌, ensure}
use agent_engineering_platfo.Budgets.{Numbers}
use agent_engineering_platfo.Budgets.Declarations.{BudgetError, bad_cost, bad_cost_status}

-- `decimal x` is `Decimal(str(x))`, `quantized` rounds to the quantum and makes a float, and `floor`
-- is the integer below, 0 below 0. `int`, `add`, `subtract`, `divide`, `multiply` and `round` (to 12
-- places) are those of numbers; `exact` is `float`.
pub record Decimals (n : Numbers) : Type 1 where
  pub Decimal : Type 0
  pub decimal : n.Num → Decimal
  pub of_nat : ℕ → Decimal
  pub plus : Decimal → Decimal → Decimal
  pub minus : Decimal → Decimal → Decimal
  pub times : Decimal → Decimal → Decimal
  pub over : Decimal → Decimal → Decimal
  pub is_at_most : Decimal → Decimal → Bool
  pub quantized : Decimal → n.Num
  pub floor : Decimal → ℕ
  pub int : n.Num → ℕ
  pub add : n.Num → n.Num → n.Num
  pub subtract : n.Num → n.Num → n.Num
  pub divide : n.Num → ℕ → n.Num
  pub multiply : n.Num → ℕ → n.Num
  pub round : n.Num → n.Num
  pub exact : n.Num → n.Num

-- The two prices that `_model_pricing` has checked.
pub record Prices (n : Numbers) : Type 0 where
  pub input_per_million_tokens : n.Num
  pub output_per_million_tokens : n.Num

-- `COST_STATUSES`
abbrev pub cost_statuses : List String
cost_statuses = "EXACT" ∷ "CONFIGURED" ∷ "ESTIMATED" ∷ "UNAVAILABLE" ∷ "MIXED" ∷ []

module _ (n : Numbers) (d : Decimals n) where
  -- `_normalized_cost`
  abbrev pub normalized_cost : n.Num → n.Num
  normalized_cost x = d.quantized (d.decimal x)

  -- `_cost_total` of two values
  abbrev pub cost_total : n.Num → n.Num → n.Num
  cost_total x y = d.quantized (d.plus (d.plus (d.of_nat 0) (d.decimal x)) (d.decimal y))

  -- `_cost_exceeds`
  abbrev pub cost_exceeds : n.Num → n.Num → Bool
  cost_exceeds total limit = not (d.is_at_most (d.decimal total) (d.decimal limit))

  -- `_cost_floor_div`
  unfoldable pub cost_floor_div : n.Num → n.Num → ℕ
  cost_floor_div remaining per_attempt =
      if d.is_at_most (d.decimal per_attempt) (d.of_nat 0)
      then 0
      else d.floor (d.over (d.decimal remaining) (d.decimal per_attempt))

  -- `Decimal(tokens) * Decimal(price)`
  abbrev pub price_of : ℕ → n.Num → d.Decimal
  price_of tokens price = d.times (d.of_nat tokens) (d.decimal price)

  -- `_estimate_cost` with pricing
  unfoldable pub estimate_cost : Prices n → ℕ → ℕ → n.Num
  estimate_cost p input_tokens output_tokens = d.quantized (
      d.over
        (d.plus (price_of input_tokens p.input_per_million_tokens)
          (price_of output_tokens p.output_per_million_tokens))
        (d.of_nat 1000000))

  abbrev pub is_status : Option String → Bool
  is_status none = true
  is_status (some s) = contains cost_statuses s

  -- The end of `_cost_evidence`, for the status of an estimate.
  abbrev pub estimated_or_unavailable : String → Option (Prices n) → ℕ → ℕ → String × Option n.Num
  estimated_or_unavailable status none input_tokens output_tokens = ("UNAVAILABLE", none)
  estimated_or_unavailable status (some p) input_tokens output_tokens =
      if ltb 0 input_tokens || ltb 0 output_tokens
      then (status, some (estimate_cost p input_tokens output_tokens))
      else ("UNAVAILABLE", none)

  abbrev pub or_estimated : Option String → String
  or_estimated none = "ESTIMATED"
  or_estimated (some s) = if str_eq s "CONFIGURED" then s else "ESTIMATED"

  -- `cost_status or "EXACT"`
  abbrev pub or_exact : Option String → String
  or_exact none = "EXACT"
  or_exact (some s) = if str_eq s "" then "EXACT" else s

  abbrev pub evidence_of :
      Option n.Num
      → Option String
      → Option (Prices n)
      → ℕ
      → ℕ
      → Outcome BudgetError (String × Option n.Num)
  evidence_of (some cost) status pricing input_tokens output_tokens =
      if n.is_nonnegative_finite cost
      then returned (or_exact status, some (d.exact cost))
      else raised bad_cost
  evidence_of none status pricing input_tokens output_tokens =
      returned (estimated_or_unavailable (or_estimated status) pricing input_tokens output_tokens)

  -- `_cost_evidence`
  unfoldable pub cost_evidence :
      Option n.Num
      → Option String
      → Option (Prices n)
      → ℕ
      → ℕ
      → Outcome BudgetError (String × Option n.Num)
  cost_evidence cost status pricing input_tokens output_tokens = do
    ensure (is_status status) bad_cost_status
    evidence_of cost status pricing input_tokens output_tokens

-- `_effective_output_limit`; what remains is a number of tokens, 0 where none do.
abbrev pub effective_output_limit : Option ℕ → Option ℕ → Option ℕ
effective_output_limit configured none = configured
effective_output_limit none (some r) = if ltb r 1 then none else some r
effective_output_limit (some c) (some r) = if ltb r 1 then none else some (min c r)
