-- ===== src/Budgets/Examples.antt =====
-- Tests of the model of src/aep/execution_budgets.py, with natural numbers as the numbers.
use agent_engineering_platfo.Prelude.{
  ℕ, String, ◌≡◌, ◌↔◌, refl, true, Option, none, some, [], ◌∷◌, arith, ltb, leb, contains,
}
use agent_engineering_platfo.Outcome
use agent_engineering_platfo.Outcome.{Outcome, returned, raised}
use agent_engineering_platfo.Dict
use agent_engineering_platfo.Resources.{ResourceRef}
use agent_engineering_platfo.Json.{Json}
use agent_engineering_platfo.Budgets.{
  max_model_invocations, max_input_tokens, Numbers, missing, integer, Declaration, absent, mapping,
  BudgetLimit, ResolvedExecutionBudget,
}
use agent_engineering_platfo.Budgets.Resolution
use agent_engineering_platfo.Budgets.Declarations
use agent_engineering_platfo.Budgets.Resolution.{
  resolve_execution_budget, validate_budget_narrowing,
}
use agent_engineering_platfo.Budgets.Declarations.{BudgetError, widening}
use agent_engineering_platfo.Budgets.Least.{IsOrder}
use agent_engineering_platfo.Budgets.Limits.{
  Declared, IsEffective, IsNoWider, resolve-IsEffective, resolve-IsNoWider,
}
use agent_engineering_platfo.Budgets.Hierarchy.{Resolves, validated, resolve-validate}

abbrev naturals : Numbers
naturals = record {
  Num = ℕ;
  of_int = λ k. k;
  at_most = leb;
  is_positive_finite = λ k. ltb 0 k;
  is_nonnegative_finite = λ k. true;
}

naturals-IsOrder : IsOrder naturals
naturals-IsOrder = record {
  at_most_trans = λ x y z h g. ground arith;
  at_most_total = λ x y h. ground arith;
  at_most_refl = λ x. ground arith;
}

abbrev show_ref : Option ResourceRef → String
show_ref ref = ""

abbrev show : Json → String
show v = ""

abbrev workflow_budget : Declaration naturals
workflow_budget =
    mapping (("maxModelInvocations", integer 10) ∷ ("maxInputTokens", integer 500) ∷ [])

abbrev task_budget : Declaration naturals
task_budget = mapping (("maxModelInvocations", integer 8) ∷ [])

abbrev override : Declaration naturals
override = mapping (("maxModelInvocations", integer 6) ∷ [])

abbrev resolved : Outcome BudgetError (ResolvedExecutionBudget naturals)
resolved =
    resolve_execution_budget naturals show_ref show workflow_budget task_budget absent override none
      none none missing absent

abbrev no_budget : ResolvedExecutionBudget naturals
no_budget = record {
  workflow = λ f. none;
  task = λ f. none;
  agent = λ f. none;
  model_output_token_limit = none;
  model_pricing = none;
  resource_refs = [];
}

abbrev budget_or_none :
    Outcome BudgetError (ResolvedExecutionBudget naturals) → ResolvedExecutionBudget naturals
budget_or_none (returned b) = b
budget_or_none (raised e) = no_budget

abbrev the_budget : ResolvedExecutionBudget naturals
the_budget = budget_or_none resolved

resolved_returns : resolved ≡ returned the_budget
unfolding resolve_execution_budget Outcome.◌>>=◌ Outcome.ensure contains Dict.lookup
    Declarations.declared_limits Declarations.is_supported Declarations.declared_limit
    Declarations.value_of Declarations.positive_int Declarations.reject_widening_in
    Resolution.most_restrictive Declarations.model_pricing_of Declarations.resource_refs_of
resolved_returns = refl

abbrev value_of : Option (BudgetLimit naturals) → ℕ
value_of none = 0
value_of (some l) = l.value

task_limit : value_of (the_budget.task max_model_invocations) ≡ 6
unfolding resolve_execution_budget Outcome.◌>>=◌ Outcome.ensure contains Dict.lookup
    Declarations.declared_limits Declarations.is_supported Declarations.declared_limit
    Declarations.value_of Declarations.positive_int Declarations.reject_widening_in
    Resolution.most_restrictive Declarations.model_pricing_of Declarations.resource_refs_of
task_limit = refl

wider_task :
    validate_budget_narrowing naturals task_budget workflow_budget absent none none none
    ≡ raised widening
unfolding validate_budget_narrowing Outcome.◌>>=◌ Outcome.ensure contains Dict.lookup
    Declarations.declared_limits Declarations.is_supported Declarations.declared_limit
    Declarations.value_of Declarations.positive_int Declarations.reject_widening_in
wider_task = refl

resolve-IsEffective_example :
    (d : Declared naturals show_ref show workflow_budget task_budget absent override none none none)
    × IsEffective naturals show_ref show d.workflow d.execution d.task d.agent the_budget
resolve-IsEffective_example =
    resolve-IsEffective naturals show_ref show naturals-IsOrder workflow_budget task_budget absent
      override none none none missing absent the_budget resolved_returns

resolve-IsNoWider_example :
    IsNoWider naturals show_ref show
      (the_budget.workflow max_input_tokens)
      (the_budget.task max_input_tokens)
    × IsNoWider naturals show_ref show
        (the_budget.workflow max_input_tokens)
        (the_budget.agent max_input_tokens)
resolve-IsNoWider_example =
    resolve-IsNoWider naturals show_ref show naturals-IsOrder workflow_budget task_budget absent
      override none none none missing absent the_budget resolved_returns max_input_tokens

resolve-validate_example :
    Resolves naturals show_ref show workflow_budget task_budget absent none none none ↔ (
      validated naturals show_ref show workflow_budget task_budget absent none none none
      ≡ returned tt)
resolve-validate_example =
    resolve-validate naturals show_ref show workflow_budget task_budget absent none none none
