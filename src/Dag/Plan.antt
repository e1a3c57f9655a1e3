-- ===== src/Dag/Plan.antt =====
-- What `resolve_task_dag` (src/aep/task_dag.py) promises: a plan is a complete schedule of the declared
-- Tasks, and a cycle is reported when there is one and only then.
use mathlib.Core.Path.{ap₂}
use agent_engineering_platfo.Prelude.{
  ◌≤◌, ◌<◌, ◌≡◌, ◌≢◌, refl, Bool, true, false, ◌&&◌, some, List, [], ◌∷◌, map, All, arith, ltb,
  if◌then◌else◌, length, contains,
}
use agent_engineering_platfo.Dict.{lookup}
use agent_engineering_platfo.Outcome.{Outcome, returned, raised, ◌>>=◌, bind_case, ensure_case}
use agent_engineering_platfo.Resources.{ResourceRef, Ref_eq}
use agent_engineering_platfo.Dag.Counts.{
  count, missing, missing-pos, counts_of_length, length_of_counts,
}
use agent_engineering_platfo.Dag.Graph.{
  ℤ, pos, is_positive, deps, declared, dependents, sorted, ready_groups, flatten, filter,
  cyclic_refs,
}
use agent_engineering_platfo.Dag.Release.{count-dependents}
use agent_engineering_platfo.Dag.Groups.{due, count-sorted, count-filter}
use agent_engineering_platfo.Dag.Layers.{Staged, contains-count, ready_groups-Layered}
use agent_engineering_platfo.Dag.Resolve.{
  DagError, cyclic, TaskPlanNode, TaskDagPlan, Declarations, plan_node, plan_nodes, finish,
}
use agent_engineering_platfo.Dag.Declared.{IsDeclared, IsClosed}

-- The node's Task and relations are the declared ones.
pub record IsNodeOf (d : Declarations) (n : TaskPlanNode) : Type 0 where
  pub task : lookup n.task_ref d.resolved_tasks ≡ some n.task
  pub dependencies : n.dependencies ≡ deps d.dependencies n.task_ref
  pub dependents :
      (k : ResourceRef) → count k n.dependents ≡ count n.task_ref (deps d.dependencies k)

-- The plan schedules every declared node once, each group being the ready set after the groups
-- before it, and lists the nodes in the groups' order.
pub record IsPlanOf (d : Declarations) (plan : TaskDagPlan) : Type 0 where
  pub complete :
      (k : ResourceRef)
      → count k (flatten plan.ready_groups)
        ≡ (if contains (declared d.dependencies) k then 1 else 0)
  pub staged : Staged d.dependencies [] plan.ready_groups
  pub order : map (λ n. n.task_ref) plan.nodes ≡ flatten plan.ready_groups
  pub nodes : All (IsNodeOf d) plan.nodes

-- The references are declared nodes, there is one, and each depends on one of them.
pub record IsBlocked (d : Declarations) (refs : List ResourceRef) : Type 0 where
  pub some_ref : 0 < length refs
  pub blocked :
      (k : ResourceRef)
      → contains refs k ≡ true
      → (contains (declared d.dependencies) k ≡ true)
        × ((c : ResourceRef) × (contains (deps d.dependencies k) c ≡ true)
            × (contains refs c ≡ true))

module _ (d : Declarations) (h : IsDeclared d) where
  plan_node_returned :
      (ref : ResourceRef)
      → contains (declared d.dependencies) ref ≡ true
      → (node : TaskPlanNode) × (plan_node d ref ≡ returned node)
        × (node.task_ref ≡ ref)
        × IsNodeOf d node
  unfolding plan_node
  plan_node_returned ref within =
      let (task, found) = h.resolved ref within in
      let g = d.dependencies in
      (
        record {
          task_ref = ref;
          task = task;
          dependencies = deps g ref;
          dependents = sorted (declared g) (dependents g ref);
        },
        rw (found, plan_node) refl,
        refl,
        record {
          task = found;
          dependencies = refl;
          dependents = λ k. omega (
            arith,
            count-sorted (declared g) (dependents g ref) k,
            count-dependents g k ref h.once,
          );
        },
      )

  plan_nodes_cons :
      (ref : ResourceRef) (refs : List ResourceRef) (node : TaskPlanNode)
      (nodes : List TaskPlanNode)
      → plan_node d ref ≡ returned node
      → plan_nodes d refs ≡ returned nodes
      → plan_nodes d (ref ∷ refs) ≡ returned (node ∷ nodes)
  unfolding plan_nodes ◌>>=◌
  plan_nodes_cons ref refs node nodes first rest = rw (first, rest) refl

  plan_nodes_returned :
      (refs : List ResourceRef)
      → ((k : ResourceRef) → contains refs k ≡ true → contains (declared d.dependencies) k ≡ true)
      → (nodes : List TaskPlanNode) × (plan_nodes d refs ≡ returned nodes)
        × (map (λ n. n.task_ref) nodes ≡ refs)
        × All (IsNodeOf d) nodes
  unfolding plan_nodes contains
  plan_nodes_returned [] within = ([], refl, refl, tt)
  plan_nodes_returned (ref ∷ refs) within =
      let (node, first, named, good) =
        plan_node_returned ref (within ref (ground (arith, Ref_eq.beq_iff ref ref))) in
      let (nodes, rest, order, all_good) =
        plan_nodes_returned refs (λ k there. within k (ground (arith, there))) in
      (
        node ∷ nodes,
        plan_nodes_cons ref refs node nodes first rest,
        ap₂ ◌∷◌ named order,
        (good, all_good),
      )

  not_empty :
      (refs : List ResourceRef)
      → (((k : ResourceRef) → contains refs k ≡ false) → ⊥)
      → 0 < length refs
  unfolding contains
  not_empty [] absent = absurd (absent (λ k. refl))
  not_empty (r ∷ rs) absent = omega arith

  module _ (closed : IsClosed (declared d.dependencies) d.dependencies) where
    -- How the function ends, from the loop's outcome.
    unfoldable pub Verdict : Outcome DagError TaskDagPlan → Type 0
    Verdict (returned plan) = IsPlanOf d plan
    Verdict (raised (cyclic refs)) = IsBlocked d refs
    Verdict (raised _) = ⊥

    contains_cyclic :
        (i : ResourceRef → ℤ) (p : List ResourceRef) (k : ResourceRef)
        → i k ≡ pos (missing p (deps d.dependencies k))
        → contains (cyclic_refs d.dependencies i) k
          ≡ (contains (declared d.dependencies) k && ltb 0 (missing p (deps d.dependencies k)))
    unfolding cyclic_refs
    contains_cyclic i p k degree =
        let g = d.dependencies in
        let q : ResourceRef → Bool = λ t. is_positive (i t) in
        ground (
          arith,
          degree,
          contains-count k (cyclic_refs g i),
          contains-count k (declared g),
          count-sorted (declared g) (filter q (declared g)) k,
          count-filter q (declared g) k,
        )

    cyclic_refs-IsBlocked :
        (i : ResourceRef → ℤ) (p : List ResourceRef)
        → ((k : ResourceRef) → count k p ≡ due d.dependencies p k)
        → ((k : ResourceRef) → i k ≡ pos (missing p (deps d.dependencies k)))
        → length p ≢ length (declared d.dependencies)
        → IsBlocked d (cyclic_refs d.dependencies i)
    unfolding due IsClosed
    cyclic_refs-IsBlocked i p settled degree short =
        let g = d.dependencies in
        record {
          some_ref = not_empty (cyclic_refs g i) λ nothing. short (
              length_of_counts p (declared g) (λ a. ground (
                arith,
                contains_cyclic i p a (degree a),
                nothing a,
                settled a,
                h.once a,
                contains-count a (declared g),
              )));
          blocked = λ k there.
              let waits = contains_cyclic i p k (degree k) in
              let (c, needed, lacks) = missing-pos p (deps g k) (ground (arith, there, waits)) in
              (
                ground (arith, there, waits),
                (
                  c,
                  needed,
                  ground (
                    arith,
                    contains_cyclic i p c (degree c),
                    closed k c needed,
                    settled c,
                    lacks,
                    contains-count c p,
                  ),
                ),
              );
        }

    plan_complete :
        (p : List ResourceRef)
        → ((k : ResourceRef) → count k p ≡ due d.dependencies p k)
        → length p ≡ length (declared d.dependencies)
        → (k : ResourceRef) → count k p ≡ (if contains (declared d.dependencies) k then 1 else 0)
    unfolding due
    plan_complete p settled full k =
        let g = d.dependencies in
        let at_most : (a : ResourceRef) → count a p ≤ count a (declared g) =
          λ a. ground (arith, settled a, contains-count a (declared g)) in
        ground (
          arith,
          counts_of_length p (declared g) at_most full k,
          contains-count k (declared g),
          h.once k,
        )

    pub finish-Verdict :
        (workflow : ResourceRef) → Verdict (finish workflow d (ready_groups d.dependencies))
    unfolding finish Verdict
    finish-Verdict workflow =
        let g = d.dependencies in
        let l = ready_groups-Layered g h.once in
        let p = flatten l.groups in
        rw l.ran (
          ensure_case Verdict _ _ _
            (λ short.
              cyclic_refs-IsBlocked l.indegree p l.settled l.degree
                (λ same. ground (arith, short, same)))
            (λ full.
              let complete = plan_complete p l.settled (ground (arith, full)) in
              let (nodes, made, order, good) =
                plan_nodes_returned p
                  (λ k there. ground (arith, complete k, contains-count k p, there)) in
              bind_case Verdict (plan_nodes d p) _ (λ e failed. absurd (cc (failed, made)))
                (λ nodes' made'.
                  let same : nodes ≡ nodes' = cc (made, made') in
                  record {
                    complete = complete;
                    staged = l.staged;
                    order = rw (← same) order;
                    nodes = rw (← same) good;
                  })))
