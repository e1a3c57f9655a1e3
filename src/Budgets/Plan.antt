-- ===== src/Budgets/Plan.antt =====
-- src/aep/execution_budgets.py: how much a preflight reserves. The plan is made where `_evaluate` has
-- found no scope exhausted, so that no limit is below what is consumed and reserved; the numbers of
-- tokens and attempts that remain are natural numbers, 0 where nothing does.
use agent_engineering_platfo.Prelude.{
  ℕ, zero, suc, ◌-◌, ◌*◌, ◌+◌, ◌/◌, not, ◌&&◌, Option, none, some, leb, max, min, if◌then◌else◌,
}
use agent_engineering_platfo.Budgets.{
  max_model_invocations, max_input_tokens, max_output_tokens, max_cost_usd, Numbers, BudgetLimit,
  ResolvedExecutionBudget,
}
use agent_engineering_platfo.Budgets.Costs.{
  Decimals, Prices, normalized_cost, cost_floor_div, estimate_cost, price_of,
}
use agent_engineering_platfo.Budgets.Records.{ConsumptionRecord, State}

-- What `_reservation_plan` returns.
pub record ReservationPlan (n : Numbers) : Type 0 where
  pub attempts : ℕ
  pub per_attempt_output : Option ℕ
  pub reserved_input : ℕ
  pub reserved_output : ℕ
  pub reserved_cost : n.Num

-- `min` of two values, where each may be absent.
abbrev pub least : Option ℕ → Option ℕ → Option ℕ
least none b = b
least (some a) none = some a
least (some a) (some b) = some (min a b)

-- `min(k, r)`, where there is an `r`.
abbrev pub capped : Option ℕ → ℕ → ℕ
capped none k = k
capped (some r) k = min k r

-- `x or k`
abbrev pub or_value : Option ℕ → ℕ → ℕ
or_value none k = k
or_value (some zero) k = k
or_value (some (suc x)) k = suc x

-- The number of attempts that the caller and the invocations allow.
unfoldable pub first_attempts : Option ℕ → Option ℕ → ℕ
first_attempts (some k) allowance = capped allowance (max 1 k)
first_attempts none (some a) = min a a
first_attempts none none = 1

-- `min(attempts, max(1, remaining_input // estimated))`, where a limit remains
abbrev pub input_attempts : Option ℕ → ℕ → ℕ → ℕ
input_attempts none estimated k = k
input_attempts (some r) estimated k = min k (max 1 (r / estimated))

abbrev pub output_attempts : Option ℕ → ℕ → ℕ
output_attempts none k = k
output_attempts (some r) k = min k (max 1 r)

-- `per_attempt_output` for a number of attempts.
unfoldable pub output_share : Option ℕ → Option ℕ → ℕ → Option ℕ → Option ℕ
output_share none configured k before = before
output_share (some r) configured k before =
    let cap = max 1 (r / k) in some (max 1 (min (or_value configured cap) cap))

abbrev pub total_output : Option ℕ → ℕ → Option ℕ → ℕ
total_output none k per_attempt = 0
total_output (some r) k per_attempt = or_value per_attempt 0 * k

abbrev pub priced_output : Option ℕ → ℕ → Option ℕ → ℕ
priced_output none k per_attempt = or_value per_attempt 1 * k
priced_output (some r) k per_attempt = total_output (some r) k per_attempt

module _ (n : Numbers) (d : Decimals n) where
  -- `int(limit.value) - used`, where there is a limit
  abbrev pub available : Option (BudgetLimit n) → ℕ → Option ℕ
  available none used = none
  available (some l) used = some (d.int l.value - used)

  -- `_invocation_allowance`
  unfoldable pub invocation_allowance : ResolvedExecutionBudget n → State n → Option ℕ
  invocation_allowance b s =
      least
        (least
          (available (b.workflow max_model_invocations)
            (s.workflow.model_invocations + s.workflow.reserved_model_invocations))
          (available (b.task max_model_invocations)
            (s.task.model_invocations + s.task.reserved_model_invocations)))
        (available (b.agent max_model_invocations)
          (s.agent.model_invocations + s.agent.reserved_model_invocations))

  -- `_minimum_remaining` of the input tokens
  unfoldable pub remaining_input : ResolvedExecutionBudget n → State n → Option ℕ
  remaining_input b s =
      least
        (least
          (available (b.workflow max_input_tokens)
            (s.workflow.input_tokens + s.workflow.reserved_input_tokens))
          (available (b.task max_input_tokens)
            (s.task.input_tokens + s.task.reserved_input_tokens)))
        (available (b.agent max_input_tokens)
          (s.agent.input_tokens + s.agent.reserved_input_tokens))

  -- `_minimum_remaining` of the output tokens, and `_minimum_remaining_output`
  unfoldable pub remaining_output : ResolvedExecutionBudget n → State n → Option ℕ
  remaining_output b s =
      least
        (least
          (available (b.workflow max_output_tokens)
            (s.workflow.output_tokens + s.workflow.reserved_output_tokens))
          (available (b.task max_output_tokens)
            (s.task.output_tokens + s.task.reserved_output_tokens)))
        (available (b.agent max_output_tokens)
          (s.agent.output_tokens + s.agent.reserved_output_tokens))

  abbrev pub available_cost : Option (BudgetLimit n) → ConsumptionRecord n → Option n.Num
  available_cost none r = none
  available_cost (some l) r =
      some (normalized_cost n d (d.subtract l.value (d.add r.cost_usd r.reserved_cost_usd)))

  abbrev pub least_cost : Option n.Num → Option n.Num → Option n.Num
  least_cost none b = b
  least_cost (some a) none = some a
  least_cost (some a) (some b) = some (if n.at_most a b then a else b)

  -- `_minimum_remaining` of the cost
  unfoldable pub remaining_cost : ResolvedExecutionBudget n → State n → Option n.Num
  remaining_cost b s =
      least_cost
        (least_cost (available_cost (b.workflow max_cost_usd) s.workflow)
          (available_cost (b.task max_cost_usd) s.task))
        (available_cost (b.agent max_cost_usd) s.agent)

  -- The output of an attempt that the remaining cost pays for.
  unfoldable pub affordable_output : Prices n → n.Num → ℕ → ℕ → Option ℕ
  affordable_output p remaining estimated attempts =
      let output_price = d.over (d.decimal p.output_per_million_tokens) (d.of_nat 1000000) in
      let input_cost =
        d.over (price_of n d estimated p.input_per_million_tokens) (d.of_nat 1000000) in
      let output_budget = d.minus (d.over (d.decimal remaining) (d.of_nat attempts)) input_cost in
      if not (d.is_at_most output_price (d.of_nat 0)) && d.is_at_most output_price output_budget
      then some (max 1 (d.floor (d.over output_budget output_price)))
      else none

  -- The case that the output tokens have no limit, neither of the scopes nor of the call.
  unfoldable pub with_affordable :
      Option ℕ → Option (Prices n) → Option n.Num → ℕ → ℕ → Option ℕ → Option ℕ
  with_affordable none (some p) (some cost) estimated attempts none =
      affordable_output p cost estimated attempts
  with_affordable remaining pricing cost estimated attempts per_attempt = per_attempt

  -- The loop that lowers the number of attempts until their cost fits.
  unfoldable pub lowered :
      Prices n → n.Num → Option ℕ → Option ℕ → ℕ → ℕ → ℕ → Option ℕ → ℕ × Option ℕ
  lowered p cost remaining configured estimated zero attempts per_attempt = (attempts, per_attempt)
  lowered p cost remaining configured estimated (suc rounds) attempts per_attempt =
      let minimum = estimate_cost n d p estimated (or_value per_attempt 1) in
      let affordable = cost_floor_div n d cost minimum in
      let fewer = max 1 affordable in
      let next =
        lowered p cost remaining configured estimated rounds fewer
          (output_share remaining configured fewer per_attempt) in
      if n.at_most minimum (n.of_int 0)
      then (attempts, per_attempt)
      else if leb attempts affordable
      then (attempts, per_attempt)
      else next

  unfoldable pub with_cost :
      Option (Prices n) → Option n.Num → Option ℕ → Option ℕ → ℕ → ℕ → Option ℕ → ℕ × Option ℕ
  with_cost (some p) (some cost) remaining configured estimated attempts per_attempt =
      lowered p cost remaining configured estimated 3 attempts per_attempt
  with_cost pricing cost remaining configured estimated attempts per_attempt =
      (attempts, per_attempt)

  abbrev pub plan_cost : Option (Prices n) → ℕ → ℕ → n.Num
  plan_cost none input output = n.of_int 0
  plan_cost (some p) input output = estimate_cost n d p input output

  -- The end of `_reservation_plan`.
  abbrev pub plan_of : Option (Prices n) → Option ℕ → ℕ → ℕ × Option ℕ → ReservationPlan n
  plan_of pricing remaining estimated (attempts, per_attempt) = record {
    attempts = attempts;
    per_attempt_output = per_attempt;
    reserved_input = estimated * attempts;
    reserved_output = total_output remaining attempts per_attempt;
    reserved_cost =
        plan_cost pricing (estimated * attempts) (priced_output remaining attempts per_attempt);
  }

  -- The number of attempts before the cost is looked at.
  unfoldable pub attempts_of : ResolvedExecutionBudget n → State n → ℕ → Option ℕ → ℕ
  attempts_of b s estimated configured = output_attempts (remaining_output b s) (
      input_attempts (remaining_input b s) estimated
        (first_attempts configured (invocation_allowance b s)))

  -- `_reservation_plan`
  unfoldable pub reservation_plan :
      ResolvedExecutionBudget n
      → Option (Prices n)
      → State n
      → ℕ
      → Option ℕ
      → Option ℕ
      → ReservationPlan n
  reservation_plan b pricing s estimated configured configured_attempts =
      let attempts = attempts_of b s estimated configured_attempts in
      let remaining = remaining_output b s in
      let cost = remaining_cost b s in
      plan_of pricing remaining estimated (
        with_cost pricing cost remaining configured estimated attempts (
          with_affordable remaining pricing cost estimated attempts
            (output_share remaining configured attempts configured)))
