-- ===== src/Budgets/LedgerExamples.antt =====
-- Tests of the ledger of src/aep/execution_budgets.py, with natural numbers as the numbers.
use agent_engineering_platfo.Prelude.{
  ℕ, ◌+◌, ◌-◌, ◌*◌, ◌/◌, String, ◌≡◌, ◌≢◌, refl, true, Option, none, some, [], ◌∷◌, ltb, leb,
}
use agent_engineering_platfo.Dict.{insert, lookup}
use agent_engineering_platfo.Outcome
use agent_engineering_platfo.Outcome.{Outcome, returned, raised}
use agent_engineering_platfo.Budgets.Declarations.{BudgetError}
use agent_engineering_platfo.Budgets.{
  max_model_invocations, max_cost_usd, workflow_scope, Numbers, BudgetLimit, Limits,
}
use agent_engineering_platfo.Budgets.Costs.{Decimals, Prices, cost_evidence}
use agent_engineering_platfo.Budgets.Records.{
  workflow_level, task_level, agent_level, Consumption, TaskBudget, at, load_state,
  changes_for_state,
}
use agent_engineering_platfo.Budgets.Checks.{count_block, cost_block, check_scope, evaluate}
use agent_engineering_platfo.Budgets.Plan.{
  first_attempts, output_share, invocation_allowance, remaining_input, remaining_output,
  remaining_cost, with_affordable, with_cost, attempts_of, reservation_plan,
}
use agent_engineering_platfo.Budgets.Ledger.{
  Reservation, BudgetReservation, Preflight, granted, refused, failed, reserve_in,
  reserve_or_refuse, preflight, release,
}
use agent_engineering_platfo.Budgets.Settlement.{Usage, Charge, record_usage, settled}
use agent_engineering_platfo.Budgets.Pool.{PoolStep, IsSolvent}
use agent_engineering_platfo.Budgets.Counts.{
  invocations, inputs, outputs, IsArithmetic, used, held, IsSound, limit_of,
}
use agent_engineering_platfo.Budgets.Evaluated.{IsWithin}
use agent_engineering_platfo.Budgets.Granted.{preflight-IsWithin}
use agent_engineering_platfo.Budgets.Released.{preflight-release}
use agent_engineering_platfo.Budgets.Shared.{
  Client, System, Step, grants, records, Reach, here, next, pool_of, Enforces, excess, total_excess,
}
use agent_engineering_platfo.Budgets.Refined.{Step-PoolStep}
use agent_engineering_platfo.Budgets.Interleaved.{ledger_within}
use agent_engineering_platfo.Budgets.Sticky.{unreconciled_blocks}

abbrev whole : Numbers
whole = record {
  Num = ℕ;
  of_int = λ k. k;
  at_most = leb;
  is_positive_finite = λ k. ltb 0 k;
  is_nonnegative_finite = λ k. true;
}

abbrev exactly : Decimals whole
exactly = record {
  Decimal = ℕ;
  decimal = λ x. x;
  of_nat = λ k. k;
  plus = ◌+◌;
  minus = ◌-◌;
  times = ◌*◌;
  over = ◌/◌;
  is_at_most = leb;
  quantized = λ x. x;
  floor = λ x. x;
  int = λ x. x;
  add = ◌+◌;
  subtract = ◌-◌;
  divide = ◌/◌;
  multiply = ◌*◌;
  round = λ x. x;
  exact = λ x. x;
}

whole-IsArithmetic : IsArithmetic whole exactly
whole-IsArithmetic = record { at_most_int = λ k x h. refl }

abbrev elapsed : String → String → ℕ
elapsed s t = 0

abbrev invocation_limit : Option (BudgetLimit whole)
invocation_limit = some (record {
  field = max_model_invocations;
  value = 5;
  scope = workflow_scope;
  resource_ref = none;
})

-- Five invocations, and no other limit.
abbrev limits : Limits whole
limits max_model_invocations = invocation_limit
limits _ = none

abbrev budget : TaskBudget whole
budget = record {
  task_key = "Task|build|1";
  agent_key = "Agent|coder|1";
  resolved = record {
    workflow = limits;
    task = limits;
    agent = limits;
    model_output_token_limit = none;
    model_pricing = none;
    resource_refs = [];
  };
  provider = "provider";
  model = "model";
  workflow_started_at = "0";
  task_started_at = "0";
}

budget-IsSound : IsSound whole budget.resolved
budget-IsSound workflow_level invocations = refl
budget-IsSound workflow_level inputs = tt
budget-IsSound workflow_level outputs = tt
budget-IsSound task_level invocations = refl
budget-IsSound task_level inputs = tt
budget-IsSound task_level outputs = tt
budget-IsSound agent_level invocations = refl
budget-IsSound agent_level inputs = tt
budget-IsSound agent_level outputs = tt

abbrev fresh : Consumption whole
fresh = record { workflow = none; tasks = []; agents = []; last_decision = none }

abbrev first : Preflight whole
first = preflight whole exactly elapsed budget none 100 none (some 3) "1" fresh

abbrev consumption_of : Preflight whole → Consumption whole
consumption_of (granted g v c) = c
consumption_of (refused b c) = c
consumption_of failed = fresh

abbrev held_by : Preflight whole → Reservation whole
held_by (granted g v c) = v
held_by _ = record { model_invocations = 0; input_tokens = 0; output_tokens = 0; cost_usd = 0 }

abbrev grant_of : Preflight whole → BudgetReservation whole
grant_of (granted g v c) = g
grant_of _ = record {
  effective_output_token_limit = none;
  max_provider_attempts = 0;
  estimated_input_tokens = 0;
  reserved_output_tokens = 0;
  reserved_cost_usd = 0;
}

first_granted : first ≡ granted (grant_of first) (held_by first) (consumption_of first)
unfolding preflight load_state changes_for_state lookup insert evaluate check_scope count_block
    cost_block reservation_plan attempts_of first_attempts output_share invocation_allowance
    remaining_input remaining_output remaining_cost with_affordable with_cost reserve_or_refuse
    reserve_in
first_granted = refl

three_attempts : (held_by first).model_invocations ≡ 3
unfolding preflight load_state changes_for_state lookup insert evaluate check_scope count_block
    cost_block reservation_plan attempts_of first_attempts output_share invocation_allowance
    remaining_input remaining_output remaining_cost with_affordable with_cost reserve_or_refuse
    reserve_in
three_attempts = refl

abbrev client : Client whole
client = record { budget = budget; pricing = none; reservation = none }

abbrev started : System whole
started = record { consumption = fresh; clients = client ∷ [] }

abbrev reserved : System whole
reserved = record {
  consumption = consumption_of first;
  clients = (record client { reservation = some (held_by first) }) ∷ [];
}

first-Step : Step whole exactly elapsed started reserved
first-Step =
    grants [] [] client fresh (consumption_of first) 100 none (some 3) "1" (grant_of first)
      (held_by first) first_granted

abbrev charge_or :
    Outcome BudgetError (Charge whole × Consumption whole) → Charge whole × Consumption whole
charge_or (returned x) = x
charge_or (raised e) =
    ((record { cost_usd = none; cost_status = ""; effective_output_token_limit = none }), fresh)

-- Four invocations, with output tokens, where three were reserved and none of the tokens.
abbrev long_run : Usage whole
long_run = record {
  input_tokens = 400;
  output_tokens = 20;
  cost = none;
  cost_status = none;
  invocation_count = 4;
  unreconciled_dispatched_attempts = 0;
}

abbrev overran : Outcome BudgetError (Charge whole × Consumption whole)
overran =
    record_usage whole exactly elapsed budget none (some (held_by first)) long_run "2"
      (consumption_of first)

overran_returns : overran ≡ returned (charge_or overran)
unfolding record_usage Outcome.◌>>=◌ Outcome.ensure settled cost_evidence
overran_returns = refl

abbrev charged_more : System whole
charged_more = record { consumption = (charge_or overran).1; clients = client ∷ [] }

second-Step : Step whole exactly elapsed reserved charged_more
second-Step =
    records [] [] (record client { reservation = some (held_by first) }) (consumption_of first)
      (charge_or overran).1 long_run "2" (charge_or overran).0 overran_returns

-- Another record, without a reservation.
abbrev unreserved : Outcome BudgetError (Charge whole × Consumption whole)
unreserved = record_usage whole exactly elapsed budget none none long_run "3" (charge_or overran).1

unreserved_returns : unreserved ≡ returned (charge_or unreserved)
unfolding record_usage Outcome.◌>>=◌ Outcome.ensure settled cost_evidence
unreserved_returns = refl

abbrev charged_again : System whole
charged_again = record { consumption = (charge_or unreserved).1; clients = client ∷ [] }

third-Step : Step whole exactly elapsed charged_more charged_again
third-Step =
    records [] [] client (charge_or overran).1 (charge_or unreserved).1 long_run "3"
      (charge_or unreserved).0 unreserved_returns

three_calls : Reach whole exactly elapsed started charged_again
three_calls = next (next (next here first-Step) second-Step) third-Step

client-Enforces : Enforces whole invocations invocation_limit client
client-Enforces = record { shared = refl; sound = budget-IsSound }

preflight-IsWithin_example :
    IsWithin whole exactly budget.resolved
      (load_state whole budget (consumption_of first))
      task_level
      invocations
      0
preflight-IsWithin_example =
    preflight-IsWithin whole exactly elapsed whole-IsArithmetic budget none 100 none (some 3) "1"
      fresh (grant_of first) (held_by first) (consumption_of first) budget-IsSound first_granted
      task_level invocations

preflight-release_example :
    (used whole invocations (
        at whole
          (load_state whole budget
            (release whole exactly budget (some (held_by first)) (consumption_of first)))
          task_level)
      ≡ used whole invocations (at whole (load_state whole budget fresh) task_level))
    × (held whole invocations (
          at whole
            (load_state whole budget
              (release whole exactly budget (some (held_by first)) (consumption_of first)))
            task_level)
        ≡ held whole invocations (at whole (load_state whole budget fresh) task_level))
preflight-release_example =
    preflight-release whole exactly elapsed budget none 100 none (some 3) "1" fresh (grant_of first)
      (held_by first) (consumption_of first) first_granted task_level invocations

Step-PoolStep_example :
    PoolStep
      (limit_of whole exactly invocation_limit)
      (excess whole exactly elapsed invocations second-Step)
      (pool_of whole invocations reserved)
      (pool_of whole invocations charged_more)
Step-PoolStep_example =
    Step-PoolStep whole exactly elapsed whole-IsArithmetic invocations invocation_limit
      (record { shared = refl; sound = budget-IsSound }, tt) second-Step

ledger_within_example :
    IsSolvent
      (limit_of whole exactly invocation_limit)
      (total_excess whole exactly elapsed invocations three_calls)
      (pool_of whole invocations charged_again)
ledger_within_example =
    ledger_within whole exactly elapsed whole-IsArithmetic invocations invocation_limit fresh
      (client ∷ []) refl (refl, tt) (client-Enforces, tt) three_calls

abbrev money : Limits whole
money max_cost_usd =
    some (record { field = max_cost_usd; value = 9; scope = workflow_scope; resource_ref = none })
money _ = none

abbrev paid : TaskBudget whole
paid = record budget { resolved = record budget.resolved { workflow = money } }

abbrev prices : Option (Prices whole)
prices = some (record { input_per_million_tokens = 1; output_per_million_tokens = 1 })

abbrev lost_attempt : Usage whole
lost_attempt = record {
  input_tokens = 0;
  output_tokens = 0;
  cost = none;
  cost_status = none;
  invocation_count = 1;
  unreconciled_dispatched_attempts = 1;
}

abbrev charge : Outcome BudgetError (Charge whole × Consumption whole)
charge =
    record_usage whole exactly elapsed paid prices (some (held_by first)) lost_attempt "2"
      (consumption_of first)

charge_returns : charge ≡ returned (charge_or charge)
unfolding record_usage Outcome.◌>>=◌ Outcome.ensure settled cost_evidence
charge_returns = refl

-- A record of a client without a reservation comes between.
abbrev between : Outcome BudgetError (Charge whole × Consumption whole)
between = record_usage whole exactly elapsed budget none none long_run "3" (charge_or charge).1

between_returns : between ≡ returned (charge_or between)
unfolding record_usage Outcome.◌>>=◌ Outcome.ensure settled cost_evidence
between_returns = refl

unreconciled_blocks_example :
    preflight whole exactly elapsed budget none 100 none (some 1) "4" (charge_or between).1
    ≢ granted (grant_of first) (held_by first) (consumption_of first)
unreconciled_blocks_example =
    unreconciled_blocks whole exactly elapsed paid prices (some (held_by first)) lost_attempt "2"
      (consumption_of first) (charge_or charge).0 (charge_or charge).1
      (record { field = max_cost_usd; value = 9; scope = workflow_scope; resource_ref = none })
      (client ∷ []) budget none 100 none (some 1) "4" (grant_of first) (held_by first)
      (consumption_of first) refl refl refl charge_returns
      (next here (
        records [] [] client (charge_or charge).1 (charge_or between).1 long_run "3"
          (charge_or between).0 between_returns))
