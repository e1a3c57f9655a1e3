-- ===== src/Budgets/Hierarchy.antt =====
-- src/aep/execution_budgets.py: `validate_budget_narrowing` against `resolve_execution_budget`.
use agent_engineering_platfo.Prelude.{
  String, ◌≡◌, ◌↔◌, refl, false, Option, none, some, List, [], ◌∷◌,
}
use agent_engineering_platfo.Outcome.{
  Outcome, returned, raised, ◌>>=◌, ensure, bind_case, Returns, Returns-returned,
}
use agent_engineering_platfo.Json.{Json, Fields}
use agent_engineering_platfo.Resources.{ResourceRef}
use agent_engineering_platfo.Budgets.{
  BudgetField, workflow_scope, task_scope, agent_scope, Numbers, missing, Declaration, absent,
  BudgetLimit, Limits, ResolvedExecutionBudget,
}
use agent_engineering_platfo.Budgets.Resolution.{
  most_restrictive, resolve_execution_budget, validate_budget_narrowing,
}
use agent_engineering_platfo.Budgets.Declarations.{
  BudgetError, declared_limits, resource_refs_of, budget_fields, widens, reject_widening_in,
  reject_widening, positive_int, model_pricing_of,
}

module _ (n : Numbers) where
  widens-none : (p : Option (BudgetLimit n)) → widens n p none ≡ false
  widens-none none = refl
  widens-none (some p) = refl

  -- No limits widen none.
  reject_widening-none :
      (parent : Limits n) (fs : List BudgetField)
      → reject_widening_in n parent (λ f. none) fs ≡ returned tt
  unfolding reject_widening_in ensure ◌>>=◌
  reject_widening-none parent [] = refl
  reject_widening-none parent (f ∷ fs) =
      rw (widens-none (parent f)) (reject_widening-none parent fs)

  module _ (render_ref : Option ResourceRef → String) (render : Json → String)
      (workflow_budget task_budget agent_budget : Declaration n)
      (workflow_ref task_ref agent_ref : Option Fields) where
    abbrev resolved : Outcome BudgetError (ResolvedExecutionBudget n)
    resolved =
        resolve_execution_budget n render_ref render workflow_budget task_budget agent_budget absent
          workflow_ref task_ref agent_ref missing absent

    abbrev pub validated : Outcome BudgetError (Unit {0})
    validated =
        validate_budget_narrowing n workflow_budget task_budget agent_budget workflow_ref task_ref
          agent_ref

    abbrev pub Resolves : Type 0
    Resolves = (b : ResolvedExecutionBudget n) × (resolved ≡ returned b)

    module _ (w t a : Limits n)
        (w_is : declared_limits n workflow_budget workflow_scope workflow_ref ≡ returned w)
        (t_is : declared_limits n task_budget task_scope task_ref ≡ returned t)
        (a_is : declared_limits n agent_budget agent_scope agent_ref ≡ returned a)
        (task_in : reject_widening n w t ≡ returned tt)
        (agent_in : reject_widening n w a ≡ returned tt)
        (agent_in_task : reject_widening n t a ≡ returned tt) where
      validated_by : validated ≡ returned tt
      unfolding validate_budget_narrowing ◌>>=◌
      validated_by = rw (w_is, t_is, a_is, task_in, agent_in) agent_in_task

      abbrev budget : ResolvedExecutionBudget n
      budget = record {
        workflow = most_restrictive n render_ref w (λ f. none);
        task = most_restrictive n render_ref (most_restrictive n render_ref w (λ f. none)) t;
        agent = most_restrictive n render_ref (most_restrictive n render_ref w (λ f. none)) a;
        model_output_token_limit = none;
        model_pricing = none;
        resource_refs = resource_refs_of render (workflow_ref ∷ task_ref ∷ agent_ref ∷ []);
      }

      resolved_by : resolved ≡ returned budget
      unfolding resolve_execution_budget ◌>>=◌ positive_int model_pricing_of declared_limits
      resolved_by =
          rw
            (
              w_is,
              t_is,
              a_is,
              reject_widening-none w budget_fields,
              task_in,
              agent_in,
              agent_in_task,
            )
            refl

    resolved-validated : Returns (λ _. validated ≡ returned tt) resolved
    unfolding resolve_execution_budget
    resolved-validated =
        bind_case Q _ _ (λ e _. tt)
          (λ w w_is.
            bind_case Q _ _ (λ e _. tt)
              (λ x x_is.
                bind_case Q _ _ (λ e _. tt)
                  (λ t t_is.
                    bind_case Q _ _ (λ e _. tt)
                      (λ a a_is.
                        bind_case Q _ _ (λ e _. tt)
                          (λ _ _.
                            bind_case Q _ _ (λ e _. tt)
                              (λ _ task_in.
                                bind_case Q _ _ (λ e _. tt)
                                  (λ _ agent_in.
                                    bind_case Q _ _ (λ e _. tt)
                                      (λ _ agent_in_task. always _ (
                                        validated_by w t a w_is t_is a_is task_in agent_in
                                          agent_in_task)))))))))
      where
        Q : Outcome BudgetError (ResolvedExecutionBudget n) → Type 0
        Q = Returns (λ _. validated ≡ returned tt)

        always :
            (o : Outcome BudgetError (ResolvedExecutionBudget n)) → validated ≡ returned tt → Q o
        always (returned b) h = h
        always (raised e) h = tt

    validated-Resolves : validated ≡ returned tt → Resolves
    unfolding validate_budget_narrowing
    validated-Resolves =
        bind_case P _ _ (λ e _ h. absurd cc)
          (λ w w_is.
            bind_case P _ _ (λ e _ h. absurd cc)
              (λ t t_is.
                bind_case P _ _ (λ e _ h. absurd cc)
                  (λ a a_is.
                    bind_case P _ _ (λ e _ h. absurd cc)
                      (λ _ task_in.
                        bind_case P _ _ (λ e _ h. absurd cc)
                          (λ _ agent_in h. (
                            budget w t a w_is t_is a_is task_in agent_in h,
                            resolved_by w t a w_is t_is a_is task_in agent_in h,
                          ))))))
      where
        P : Outcome BudgetError (Unit {0}) → Type 0
        P o = o ≡ returned tt → Resolves

    -- Without an override of the execution, and without a limit and prices of the Model, a budget can be
    -- resolved exactly where the declarations pass the validation of their narrowing.
    pub resolve-validate : Resolves ↔ (validated ≡ returned tt)
    resolve-validate =
        ((λ r. Returns-returned _ resolved r.0 resolved-validated r.1), validated-Resolves)
