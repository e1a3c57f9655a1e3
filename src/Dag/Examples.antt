-- ===== src/Dag/Examples.antt =====
-- The theorems about the Task graph at concrete Workflows: one of two Tasks, the second of which
-- depends on the first, and one in which they depend on each other.
use mathlib.Core.Path.{subst}
use agent_engineering_platfo.Prelude.{
  ℕ, String, ◌<◌, ◌≡◌, ◌≢◌, refl, Bool, true, false, List, [], ◌∷◌, arith, contains, str_eq, none,
  some, ◌||◌, ◌==◌, if◌then◌else◌,
}
use agent_engineering_platfo.Dict.{lookup, insert}
use agent_engineering_platfo.Json.{
  Json, str, arr, obj, Items, nil, cons, Fields, end, field, get, has,
}
use agent_engineering_platfo.Outcome.{Outcome, returned, raised, ◌>>=◌, ensure}
use agent_engineering_platfo.Resources.{
  ResourceRef, Ref_eq, Resource, ResourceCollection, get_resource, indexed, from_mapping,
}
use agent_engineering_platfo.Dag.Graph.{
  or_empty, declared, deps, dependents, appended, sorted, insert_sorted, position, release,
  release_all, complete, layers, filter, first_ready, indegrees, ready_groups, flatten, cyclic_refs,
}
use agent_engineering_platfo.Dag.Resolve.{
  DagError, cyclic, cut_off, key_error, TaskDagPlan, Declarations, resolve_task_dag, task_entries,
  entries_of, all_mappings, declare_all, declare, parse_task_ref, parse_task_refs, parse_array,
  parse_dependencies, require_task, has_duplicate, check_nodes, check_node, finish, plan_nodes,
  plan_node,
}
use agent_engineering_platfo.Dag.Plan.{IsPlanOf, IsBlocked}
use agent_engineering_platfo.Dag.Resolution.{
  Declares, resolve-plan, resolve-cycle, resolve_settles, acyclic_resolves, start,
}

abbrev render : Json → String
render _ = "None"

abbrev task_ref : String → ResourceRef
task_ref name = record { kind = "Task"; name = name; version = "1.0.0" }

abbrev ref_fields : String → Json
ref_fields name =
    obj (field "kind" (str "Task") (field "name" (str name) (field "version" (str "1.0.0") end)))

abbrev entry : String → Items → Json
entry name needs = obj (field "taskRef" (ref_fields name) (field "dependsOn" (arr needs) end))

abbrev task : String → Resource
task name = record { ref = task_ref name; path = name; fields = end; references = [] }

abbrev workflow : Items → Items → Resource
workflow first second = record {
  ref = record { kind = "Workflow"; name = "w"; version = "1.0.0" };
  path = "w";
  fields =
      field "spec"
        (obj
          (field "tasks" (arr (cons (entry "test" first) (cons (entry "build" second) nil))) end))
        end;
  references = [];
}

abbrev resources : ResourceCollection
resources = record { workspace = task "workspace"; resources = task "build" ∷ task "test" ∷ [] }

-- The tests depend on the build.
abbrev chain : Resource
chain = workflow (cons (ref_fields "build") nil) nil

abbrev loop : Resource
loop = workflow (cons (ref_fields "build") nil) (cons (ref_fields "test") nil)

abbrev plan : TaskDagPlan
plan = record {
  workflow_ref = chain.ref;
  nodes =
      record {
        task_ref = task_ref "build";
        task = task "build";
        dependencies = [];
        dependents = task_ref "test" ∷ [];
      }
      ∷ record {
        task_ref = task_ref "test";
        task = task "test";
        dependencies = task_ref "build" ∷ [];
        dependents = [];
      }
      ∷ [];
  ready_groups = (task_ref "build" ∷ []) ∷ (task_ref "test" ∷ []) ∷ [];
}

resolve-plan_example : (d : Declarations) × Declares render chain resources d × IsPlanOf d plan
unfolding resolve_task_dag task_entries entries_of all_mappings declare_all declare parse_task_ref
    parse_task_refs parse_array parse_dependencies require_task has_duplicate check_nodes check_node
    finish plan_nodes plan_node ◌>>=◌ ensure get has lookup insert get_resource indexed from_mapping
    declared deps dependents appended sorted insert_sorted position release release_all complete
    layers filter first_ready indegrees ready_groups flatten cyclic_refs contains
resolve-plan_example = resolve-plan render chain resources plan refl

resolve-cycle_example :
    (d : Declarations) × Declares render loop resources d
    × IsBlocked d (task_ref "test" ∷ task_ref "build" ∷ [])
unfolding resolve_task_dag task_entries entries_of all_mappings declare_all declare parse_task_ref
    parse_task_refs parse_array parse_dependencies require_task has_duplicate check_nodes check_node
    finish plan_nodes plan_node ◌>>=◌ ensure get has lookup insert get_resource indexed from_mapping
    declared deps dependents appended sorted insert_sorted position release release_all complete
    layers filter first_ready indegrees ready_groups flatten cyclic_refs contains
resolve-cycle_example =
    resolve-cycle render loop resources (task_ref "test" ∷ task_ref "build" ∷ []) refl

resolve_settles_example :
    (resolve_task_dag render loop resources ≢ raised cut_off)
    × (resolve_task_dag render loop resources ≢ raised key_error)
resolve_settles_example = resolve_settles render loop resources

abbrev chain_declarations : Declarations
chain_declarations = record {
  dependencies = (task_ref "test", task_ref "build" ∷ []) ∷ (task_ref "build", []) ∷ [];
  resolved_tasks = (task_ref "test", task "test") ∷ (task_ref "build", task "build") ∷ [];
}

chain-Declares : (d : Declarations) → Declares render chain resources d → d ≡ chain_declarations
unfolding resolve_task_dag task_entries entries_of all_mappings declare_all declare parse_task_ref
    parse_task_refs parse_array parse_dependencies require_task has_duplicate check_nodes check_node
    finish plan_nodes plan_node ◌>>=◌ ensure get has lookup insert get_resource indexed from_mapping
    declared deps dependents appended sorted insert_sorted position release release_all complete
    layers filter first_ready indegrees ready_groups flatten cyclic_refs contains
chain-Declares d by =
    let entries : ◌≡◌ {A = Outcome DagError (List Fields)} (task_entries chain)
        (returned by.entries) =
      by.found in
    let made : declare_all render resources 0 by.entries start ≡ returned d = by.made in
    cc (entries, made)

abbrev rank : ResourceRef → ℕ
rank r = if str_eq r.name "test" then 1 else 0

only_build :
    (c : ResourceRef) (is_test is_build : Bool)
    → let found =
        if is_test then some (task_ref "build" ∷ []) else if is_build then some [] else none in
      contains (or_empty found) c ≡ true → (is_test ≡ true) × ((task_ref "build" == c) ≡ true)
unfolding contains
only_build c true is_build h = (refl, only (task_ref "build" == c) h)
  where
    only : (b : Bool) → (b || false) ≡ true → b ≡ true
    only true h = refl
    only false h = h
only_build c false true h = cc
only_build c false false h = cc

chain_descends :
    (d : Declarations)
    → Declares render chain resources d
    → (k c : ResourceRef) → contains (deps d.dependencies k) c ≡ true
    → rank c < rank k
unfolding deps lookup contains
chain_descends d by k c needed =
    let there : contains (deps chain_declarations.dependencies k) c ≡ true =
      subst (λ x. contains (deps x.dependencies k) c ≡ true) (chain-Declares d by) needed in
    let (is_test, is_build) = only_build c (task_ref "test" == k) (task_ref "build" == k) there in
    subst (λ x. rank c < rank x) ((Ref_eq.beq_iff (task_ref "test") k).0 is_test)
      (subst (λ y. rank y < 1) ((Ref_eq.beq_iff (task_ref "build") c).0 is_build) (omega arith))

acyclic_resolves_example :
    resolve_task_dag render chain resources ≢ raised (cyclic (task_ref "test" ∷ []))
acyclic_resolves_example =
    acyclic_resolves render chain resources rank (task_ref "test" ∷ []) chain_descends
