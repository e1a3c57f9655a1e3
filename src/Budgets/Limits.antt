-- ===== src/Budgets/Limits.antt =====
-- src/aep/execution_budgets.py: the effective limits that `resolve_execution_budget` returns.
use agent_engineering_platfo.Prelude.{
  String, ◌≡◌, true, Option, none, some, List, [], ◌∷◌, All, Any, inl, inr,
}
use agent_engineering_platfo.Outcome.{Outcome, returned, bind_case, Returns, Returns-returned}
use agent_engineering_platfo.Json.{Json, Fields}
use agent_engineering_platfo.Resources.{ResourceRef}
use agent_engineering_platfo.Budgets.{
  BudgetField, execution_scope, task_scope, agent_scope, workflow_scope, Numbers, Raw, Declaration,
  BudgetLimit, Limits, ResolvedExecutionBudget,
}
use agent_engineering_platfo.Budgets.Resolution.{most_restrictive, lesser, resolve_execution_budget}
use agent_engineering_platfo.Budgets.Declarations.{BudgetError, declared_limits}
use agent_engineering_platfo.Budgets.Least.{IsOrder, IsLeast, IsWithin, one-IsLeast, lesser-IsLeast}

module _ (n : Numbers) (render_ref : Option ResourceRef → String) (render : Json → String) where
  -- The limits that the four declarations give.
  pub record Declared (workflow_budget task_budget agent_budget execution_budget : Declaration n)
      (workflow_ref task_ref agent_ref : Option Fields) : Type 0 where
    pub workflow : Limits n
    pub execution : Limits n
    pub task : Limits n
    pub agent : Limits n
    pub workflow_declared :
        declared_limits n workflow_budget workflow_scope workflow_ref ≡ returned workflow
    pub execution_declared :
        declared_limits n execution_budget execution_scope none ≡ returned execution
    pub task_declared : declared_limits n task_budget task_scope task_ref ≡ returned task
    pub agent_declared : declared_limits n agent_budget agent_scope agent_ref ≡ returned agent

  -- At every field, the limit of each scope is the least of the declarations that bind it.
  abbrev pub IsEffective :
      Limits n → Limits n → Limits n → Limits n → ResolvedExecutionBudget n → Type 0
  IsEffective workflow execution task agent b =
      (f : BudgetField)
      → IsLeast n (workflow f ∷ execution f ∷ []) (b.workflow f)
        × (IsLeast n (workflow f ∷ execution f ∷ task f ∷ []) (b.task f)
            × IsLeast n (workflow f ∷ execution f ∷ agent f ∷ []) (b.agent f))

  -- A limit that is there has one below it that is at most as large.
  abbrev pub IsNoWider : Option (BudgetLimit n) → Option (BudgetLimit n) → Type 0
  IsNoWider none child = Unit
  IsNoWider (some p) none = ⊥
  IsNoWider (some p) (some c) = n.at_most c.value p.value ≡ true

  module _ (order : IsOrder n)
      (workflow_budget task_budget agent_budget execution_budget : Declaration n)
      (workflow_ref task_ref agent_ref : Option Fields) (model_token_limit : Raw n)
      (model_pricing : Declaration n) where
    abbrev run : Outcome BudgetError (ResolvedExecutionBudget n)
    run =
        resolve_execution_budget n render_ref render workflow_budget task_budget agent_budget
          execution_budget workflow_ref task_ref agent_ref model_token_limit model_pricing

    abbrev Q : Outcome BudgetError (ResolvedExecutionBudget n) → Type 0
    Q = Returns (λ b.
        (d : Declared workflow_budget task_budget agent_budget execution_budget workflow_ref
          task_ref agent_ref)
        × IsEffective d.workflow d.execution d.task d.agent b)

    returned-Effective : Q run
    unfolding resolve_execution_budget most_restrictive
    returned-Effective =
        bind_case Q _ _ (λ e _. tt)
          (λ w w_is.
            bind_case Q _ _ (λ e _. tt)
              (λ x x_is.
                bind_case Q _ _ (λ e _. tt)
                  (λ t t_is.
                    bind_case Q _ _ (λ e _. tt)
                      (λ a a_is.
                        bind_case Q _ _ (λ e _. tt)
                          (λ _ _.
                            bind_case Q _ _ (λ e _. tt)
                              (λ _ _.
                                bind_case Q _ _ (λ e _. tt)
                                  (λ _ _.
                                    bind_case Q _ _ (λ e _. tt)
                                      (λ _ _.
                                        bind_case Q _ _ (λ e _. tt)
                                          (λ _ _.
                                            bind_case Q _ _ (λ e _. tt)
                                              (λ _ _. (
                                                record {
                                                  workflow = w;
                                                  execution = x;
                                                  task = t;
                                                  agent = a;
                                                  workflow_declared = w_is;
                                                  execution_declared = x_is;
                                                  task_declared = t_is;
                                                  agent_declared = a_is;
                                                },
                                                λ f. (pair w x f, (three w x t f, three w x a f)),
                                              )))))))))))
      where
        pair :
            (w x : Limits n) (f : BudgetField)
            → IsLeast n (w f ∷ x f ∷ []) (lesser n render_ref (w f) (x f))
        pair w x f =
            lesser-IsLeast n order render_ref (w f ∷ []) (x f ∷ []) (w f) (x f)
              (one-IsLeast n order render_ref (w f)) (one-IsLeast n order render_ref (x f))

        three :
            (w x t : Limits n) (f : BudgetField)
            → IsLeast n
                (w f ∷ x f ∷ t f ∷ [])
                (lesser n render_ref (lesser n render_ref (w f) (x f)) (t f))
        three w x t f =
            lesser-IsLeast n order render_ref (w f ∷ x f ∷ []) (t f ∷ [])
              (lesser n render_ref (w f) (x f)) (t f)
              (lesser-IsLeast n order render_ref (w f ∷ []) (x f ∷ []) (w f) (x f)
                (one-IsLeast n order render_ref (w f)) (one-IsLeast n order render_ref (x f)))
              (one-IsLeast n order render_ref (t f))

    -- A resolution that returns has read the four declarations, and gives each scope, at every field, the
    -- least of the limits that bind it: the Workflow's and the execution's, and for a Task or an Agent its
    -- own too; and none where none is declared.
    pub resolve-IsEffective :
        (b : ResolvedExecutionBudget n)
        → run ≡ returned b
        → (d : Declared workflow_budget task_budget agent_budget execution_budget workflow_ref
            task_ref agent_ref)
          × IsEffective d.workflow d.execution d.task d.agent b
    resolve-IsEffective b h = Returns-returned _ run b returned-Effective h

    at_most_of :
        (l m : BudgetLimit n) (cs : List (Option (BudgetLimit n)))
        → Any (λ c. c ≡ some l) cs
        → All (IsWithin n m) cs
        → n.at_most m.value l.value ≡ true
    at_most_of l m [] h g = absurd h
    at_most_of l m (c ∷ cs) (inl e) g = rw e at g.0
    at_most_of l m (c ∷ cs) (inr h) g = at_most_of l m cs h g.1

    nothing_least :
        (l : BudgetLimit n) (cs : List (Option (BudgetLimit n)))
        → Any (λ c. c ≡ some l) cs
        → All (λ c. c ≡ none) cs
        → ⊥
    nothing_least l [] h g = h
    nothing_least l (c ∷ cs) (inl e) g = absurd (cc (g.0))
    nothing_least l (c ∷ cs) (inr h) g = nothing_least l cs h g.1

    no_wider :
        (w x t W T : Option (BudgetLimit n))
        → IsLeast n (w ∷ x ∷ []) W
        → IsLeast n (w ∷ x ∷ t ∷ []) T
        → IsNoWider W T
    no_wider w x t none T h g = tt
    no_wider w x t (some l) none h g = nothing_least l (w ∷ x ∷ []) h.0 (g.0, (g.1.0, tt))
    no_wider w x t (some l) (some m) h g = at_most_of l m (w ∷ x ∷ []) h.0 (g.1.0, (g.1.1.0, tt))

    -- A resolution that returns bounds a Task and an Agent wherever it bounds the Workflow, and by no
    -- more.
    pub resolve-IsNoWider :
        (b : ResolvedExecutionBudget n)
        → run ≡ returned b
        → (f : BudgetField)
        → IsNoWider (b.workflow f) (b.task f) × IsNoWider (b.workflow f) (b.agent f)
    resolve-IsNoWider b h f =
        let (d, effective) = resolve-IsEffective b h in
        (
          no_wider (d.workflow f) (d.execution f) (d.task f) _ _ (effective f).0 (effective f).1.0,
          no_wider (d.workflow f) (d.execution f) (d.agent f) _ _ (effective f).0 (effective f).1.1,
        )
