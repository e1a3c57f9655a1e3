-- ===== src/Dag/Resolution.antt =====
-- `resolve_task_dag` (src/aep/task_dag.py) as a whole.
use mathlib.Core.Path.{subst}
use agent_engineering_platfo.Prelude.{
  ℕ, zero, suc, String, ◌<◌, ◌≡◌, ◌≢◌, true, List, [], ◌∷◌, arith, contains, length,
}
use agent_engineering_platfo.Json.{Json, Fields}
use agent_engineering_platfo.Outcome.{
  Outcome, returned, raised, bind_case, ensure_case, Returns-returned, Raises-raised,
}
use agent_engineering_platfo.Resources.{ResourceRef, Ref_eq, Resource, ResourceCollection}
use agent_engineering_platfo.Dag.Counts.{count}
use agent_engineering_platfo.Dag.Graph.{deps, declared}
use agent_engineering_platfo.Dag.Resolve.{
  DagError, cyclic, cut_off, key_error, TaskDagPlan, Declarations, task_entries, declare_all,
  resolve_task_dag,
}
use agent_engineering_platfo.Dag.Declared.{
  IsDeclared, IsClosed, declare_all-IsDeclared, check_nodes-IsClosed,
}
use agent_engineering_platfo.Dag.Faults.{
  IsFault, task_entries-Faulty, declare_all-Faulty, check_nodes-Faulty,
}
use agent_engineering_platfo.Dag.Plan.{IsPlanOf, IsBlocked, Verdict, finish-Verdict}

abbrev pub start : Declarations
start = record { dependencies = []; resolved_tasks = [] }

start-IsDeclared : IsDeclared start
unfolding declared count contains
start-IsDeclared = record { once = λ k. omega arith; resolved = λ k h. cc }

module _ (d : Declarations) (refs : List ResourceRef) (rank : ResourceRef → ℕ) where
  -- A blocked node would start an endless descent.
  none_below :
      IsBlocked d refs
      → ((k c : ResourceRef) → contains (deps d.dependencies k) c ≡ true → rank c < rank k)
      → (n : ℕ) (k : ResourceRef) → rank k < n
      → contains refs k ≡ true
      → ⊥
  none_below blocked descends zero k low there = absurd (omega (arith, low))
  none_below blocked descends (suc n) k low there =
      let (is_node, (c, needed, inside)) = blocked.blocked k there in
      none_below blocked descends n c (omega (arith, low, descends k c needed)) inside

  nothing_blocked :
      IsBlocked d refs
      → ((k c : ResourceRef) → contains (deps d.dependencies k) c ≡ true → rank c < rank k)
      → ⊥
  unfolding contains
  nothing_blocked blocked descends =
      let (r, there) = first refs blocked.some_ref in
      none_below blocked descends (suc (rank r)) r (omega arith) there
    where
      first : (rs : List ResourceRef) → 0 < length rs → (r : ResourceRef) × (contains rs r ≡ true)
      first [] some_ref = absurd (omega (arith, some_ref))
      first (r ∷ rs) some_ref = (r, ground (arith, Ref_eq.beq_iff r r))

module _ (render : Json → String) (workflow : Resource) (resources : ResourceCollection) where
  -- The Workflow's entries declare the nodes.
  pub record Declares (d : Declarations) : Type 0 where
    pub entries : List Fields
    pub found : task_entries workflow ≡ returned entries
    pub made : declare_all render resources 0 entries start ≡ returned d

  Resolution : Outcome DagError TaskDagPlan → Type 0
  Resolution (returned plan) = (d : Declarations) × Declares d × IsPlanOf d plan
  Resolution (raised (cyclic refs)) = (d : Declarations) × Declares d × IsBlocked d refs
  Resolution (raised key_error) = ⊥
  Resolution (raised cut_off) = ⊥
  Resolution (raised _) = Unit

  fault-Resolution : (e : DagError) → IsFault e → Resolution (raised e)
  unfolding Resolution
  fault-Resolution (cyclic refs) h = absurd h
  fault-Resolution key_error h = absurd h
  fault-Resolution cut_off h = absurd h
  fault-Resolution _ h = tt

  Verdict-Resolution :
      (d : Declarations) (good : IsDeclared d)
      (closed : IsClosed (declared d.dependencies) d.dependencies)
      (o : Outcome DagError TaskDagPlan)
      → Declares d
      → Verdict d good closed o
      → Resolution o
  unfolding Resolution Verdict
  Verdict-Resolution d good closed (returned plan) by h = (d, by, h)
  Verdict-Resolution d good closed (raised (cyclic refs)) by h = (d, by, h)
  Verdict-Resolution d good closed (raised _) by h = absurd h

  resolve-Resolution : Resolution (resolve_task_dag render workflow resources)
  unfolding resolve_task_dag Resolution
  resolve-Resolution =
      ensure_case Resolution _ _ _ (λ _. tt)
        λ _.
          bind_case Resolution _ _
            (λ e failed.
              fault-Resolution e (Raises-raised IsFault _ e (task_entries-Faulty workflow) failed))
            λ entries found.
              bind_case Resolution _ _
                (λ e failed. fault-Resolution e (
                  Raises-raised IsFault _ e (declare_all-Faulty render resources 0 entries start)
                    failed))
                λ d made.
                  bind_case Resolution _ _
                    (λ e failed. fault-Resolution e (
                      Raises-raised IsFault _ e
                        (check_nodes-Faulty (declared d.dependencies) d.dependencies) failed))
                    λ u checked.
                      let g = d.dependencies in
                      let good : IsDeclared d =
                        Returns-returned IsDeclared _ d
                          (declare_all-IsDeclared render resources 0 entries start start-IsDeclared)
                          made in
                      let closed : IsClosed (declared g) g =
                        Returns-returned (λ _. IsClosed (declared g) g) _ u
                          (check_nodes-IsClosed (declared g) g) checked in
                      Verdict-Resolution d good closed _
                        (record { entries = entries; found = found; made = made })
                        (finish-Verdict d good closed workflow.ref)

  -- A plan that is returned schedules the nodes that the Workflow declares: each node once; each group
  -- is exactly the set of the nodes that are not in an earlier group and whose dependencies all
  -- are; the nodes are listed in the groups' order, each with the Task, the dependencies and the
  -- dependents that were declared.
  pub resolve-plan :
      (plan : TaskDagPlan)
      → resolve_task_dag render workflow resources ≡ returned plan
      → (d : Declarations) × Declares d × IsPlanOf d plan
  unfolding Resolution
  resolve-plan plan h = subst Resolution h resolve-Resolution

  -- Where a cycle is reported, the references of the report are declared nodes, there is at least one,
  -- and each of them depends on one of them: no order of the nodes respects the dependencies.
  pub resolve-cycle :
      (refs : List ResourceRef)
      → resolve_task_dag render workflow resources ≡ raised (cyclic refs)
      → (d : Declarations) × Declares d × IsBlocked d refs
  unfolding Resolution
  resolve-cycle refs h = subst Resolution h resolve-Resolution

  -- The loop always ends within its fuel, the number of declared nodes and one more, and no lookup of
  -- a declared Task fails.
  pub resolve_settles :
      (resolve_task_dag render workflow resources ≢ raised cut_off)
      × (resolve_task_dag render workflow resources ≢ raised key_error)
  unfolding Resolution
  resolve_settles =
      (λ h. subst Resolution h resolve-Resolution, λ h. subst Resolution h resolve-Resolution)

  -- Where the dependencies of the declared nodes descend in some rank, no cycle is reported.
  pub acyclic_resolves :
      (rank : ResourceRef → ℕ) (refs : List ResourceRef)
      → ((d : Declarations)
          → Declares d
          → (k c : ResourceRef) → contains (deps d.dependencies k) c ≡ true
          → rank c < rank k)
      → resolve_task_dag render workflow resources ≢ raised (cyclic refs)
  acyclic_resolves rank refs descends h =
      let (d, by, blocked) = resolve-cycle refs h in
      nothing_blocked d refs rank blocked (descends d by)
