-- ===== src/Budgets/Resolution.antt =====
-- src/aep/execution_budgets.py: `resolve_execution_budget` and `validate_budget_narrowing`. Parameters:
-- `render` is Python's `str` on a JSON value that is no text, `render_ref` its `str` on the resource
-- reference of a limit.
use agent_engineering_platfo.Prelude.{
  String, Bool, not, ◌&&◌, ◌||◌, Option, none, some, [], ◌∷◌, String_eq, ltb, nat_eq, if◌then◌else◌,
}
use agent_engineering_platfo.Outcome.{Outcome, returned, ◌>>=◌, ◌>>◌}
use agent_engineering_platfo.Json.{Json, Fields}
use agent_engineering_platfo.Store.State.{text_lt}
use agent_engineering_platfo.Resources.{ResourceRef}
use agent_engineering_platfo.Budgets.{
  execution_scope, task_scope, agent_scope, workflow_scope, Numbers, Raw, Declaration, BudgetLimit,
  Limits, ResolvedExecutionBudget,
}
use agent_engineering_platfo.Budgets.Declarations.{
  specificity, resource_refs_of, positive_int, declared_limits, reject_widening, model_pricing_of,
  BudgetError,
}

module _ (n : Numbers) where
  -- `validate_budget_narrowing`
  unfoldable pub validate_budget_narrowing :
      Declaration n
      → Declaration n
      → Declaration n
      → Option Fields
      → Option Fields
      → Option Fields
      → Outcome BudgetError (Unit {0})
  validate_budget_narrowing workflow_budget task_budget agent_budget workflow_ref task_ref
        agent_ref =
      do
        workflow ← declared_limits n workflow_budget workflow_scope workflow_ref
        task ← declared_limits n task_budget task_scope task_ref
        agent ← declared_limits n agent_budget agent_scope agent_ref
        reject_widening n workflow task
        reject_widening n workflow agent
        reject_widening n task agent

  module _ (render_ref : Option ResourceRef → String) where
    -- The order of the keys of `min`.
    abbrev pub is_less : BudgetLimit n → BudgetLimit n → Bool
    is_less l m =
        not (n.at_most m.value l.value)
        || (n.at_most l.value m.value
            && (ltb (specificity l.scope) (specificity m.scope)
                || (nat_eq (specificity l.scope) (specificity m.scope)
                    && text_lt (render_ref l.resource_ref) (render_ref m.resource_ref))))

    -- `_most_restrictive` of two scopes, at one field: the first of the least.
    abbrev pub lesser : Option (BudgetLimit n) → Option (BudgetLimit n) → Option (BudgetLimit n)
    lesser none m = m
    lesser (some l) none = some l
    lesser (some l) (some m) = if is_less m l then some m else some l

    unfoldable pub most_restrictive : Limits n → Limits n → Limits n
    most_restrictive scope other_scope f = lesser (scope f) (other_scope f)

    module _ (render : Json → String) where
      -- `resolve_execution_budget`; the dicts of declared limits have five keys, so the tests
      -- `if execution_limits` and the others like it hold.
      unfoldable pub resolve_execution_budget :
          Declaration n
          → Declaration n
          → Declaration n
          → Declaration n
          → Option Fields
          → Option Fields
          → Option Fields
          → Raw n
          → Declaration n
          → Outcome BudgetError (ResolvedExecutionBudget n)
      resolve_execution_budget workflow_budget task_budget agent_budget execution_budget
            workflow_ref task_ref agent_ref model_token_limit model_pricing =
          do
            workflow ← declared_limits n workflow_budget workflow_scope workflow_ref
            execution ← declared_limits n execution_budget execution_scope none
            task ← declared_limits n task_budget task_scope task_ref
            agent ← declared_limits n agent_budget agent_scope agent_ref
            reject_widening n workflow execution
            reject_widening n workflow task
            reject_widening n workflow agent
            reject_widening n task agent
            let effective_workflow = most_restrictive workflow execution
            limit ← positive_int n model_token_limit
            pricing ← model_pricing_of n model_pricing
            returned (record {
              workflow = effective_workflow;
              task = most_restrictive effective_workflow task;
              agent = most_restrictive effective_workflow agent;
              model_output_token_limit = limit;
              model_pricing = pricing;
              resource_refs = resource_refs_of render (workflow_ref ∷ task_ref ∷ agent_ref ∷ []);
            })
