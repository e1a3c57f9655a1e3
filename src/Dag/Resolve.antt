-- ===== src/Dag/Resolve.antt =====
-- src/aep/task_dag.py: `resolve_task_dag` and its helpers. `render` is Python's `str` on a value that
-- is no text.
use agent_engineering_platfo.Prelude.{
  ℕ, suc, String, Bool, false, not, ◌||◌, Option, none, some, List, [], ◌∷◌, str_eq, nat_eq,
  if◌then◌else◌, length, contains,
}
use agent_engineering_platfo.Dict.{Dict, lookup, insert}
use agent_engineering_platfo.Json.{Json, arr, obj, Items, nil, cons, Fields, get, has}
use agent_engineering_platfo.Outcome.{Outcome, returned, raised, ◌>>=◌, ◌>>◌, ensure}
use agent_engineering_platfo.Resources.{
  ResourceRef, Ref_eq, Resource, ResourceCollection, get_resource, from_mapping,
}
use agent_engineering_platfo.Dag.Graph.{
  ℤ, deps, declared, dependents, sorted, ready_groups, flatten, cyclic_refs, position,
}

-- The exceptions with the references of their details. `cut_off` is no exception of the code: it
-- stands for a run that the model's fuel has cut off.
pub data DagError : Type 0 where
  type_error invalid_graph key_error cut_off : DagError
  missing_task : ResourceRef → ℕ → DagError
  missing_dependency : ResourceRef → ResourceRef → DagError
  duplicate_task : ResourceRef → ℕ → ℕ → DagError
  cyclic : List ResourceRef → DagError

pub record TaskPlanNode : Type 0 where
  pub task_ref : ResourceRef
  pub task : Resource
  pub dependencies : List ResourceRef
  pub dependents : List ResourceRef

pub record TaskDagPlan : Type 0 where
  pub workflow_ref : ResourceRef
  pub nodes : List TaskPlanNode
  pub ready_groups : List (List ResourceRef)

-- The dicts that the first loop fills. `declaration_order` has the same keys, each with its position.
pub record Declarations : Type 0 where
  pub dependencies : Dict ResourceRef (List ResourceRef)
  pub resolved_tasks : Dict ResourceRef Resource

-- all(isinstance(entry, Mapping) for entry in task_values)
unfoldable pub all_mappings : Items → Option (List Fields)
all_mappings nil = some []
all_mappings (cons (obj f) vs) = elim (all_mappings vs) [ none ↦ none | some fs ↦ some (f ∷ fs) ]
all_mappings (cons _ vs) = none

abbrev pub tasks_of_spec : Json → Json
tasks_of_spec (obj spec) = get "tasks" spec
tasks_of_spec _ = Json.null

unfoldable pub entries_of : Json → Outcome DagError (List Fields)
entries_of (arr (cons v vs)) = elim (all_mappings (cons v vs)) [
  | none ↦ raised invalid_graph
  | some fs ↦ returned fs
]
entries_of _ = raised invalid_graph

-- `_task_entries`
unfoldable pub task_entries : Resource → Outcome DagError (List Fields)
task_entries workflow = entries_of (tasks_of_spec (get "spec" workflow.fields))

-- len(set(parsed_dependencies)) != len(parsed_dependencies)
unfoldable pub has_duplicate : List ResourceRef → Bool
has_duplicate [] = false
has_duplicate (r ∷ rs) = contains rs r || has_duplicate rs

unfoldable pub require_task : Option Resource → ResourceRef → ℕ → Outcome DagError Resource
require_task none ref index = raised (missing_task ref index)
require_task (some task) ref index =
    if str_eq task.ref.kind "Task" then returned task else raised (missing_task ref index)

-- The two loops that look for a dependency that is no node.
unfoldable pub check_node :
    List ResourceRef → ResourceRef → List ResourceRef → Outcome DagError (Unit {0})
check_node keys ref [] = returned tt
check_node keys ref (d ∷ ds) = do
  ensure (contains keys d) (missing_dependency ref d)
  check_node keys ref ds

unfoldable pub check_nodes :
    List ResourceRef → Dict ResourceRef (List ResourceRef) → Outcome DagError (Unit {0})
check_nodes keys [] = returned tt
check_nodes keys ((ref, ds) ∷ g) = do check_node keys ref ds; check_nodes keys g

unfoldable pub plan_node : Declarations → ResourceRef → Outcome DagError TaskPlanNode
plan_node d ref =
    let g = d.dependencies in
    elim (lookup ref d.resolved_tasks) [
      | none ↦ raised key_error
      | some task ↦ returned (record {
        task_ref = ref;
        task = task;
        dependencies = deps g ref;
        dependents = sorted (declared g) (dependents g ref);
      })
    ]

unfoldable pub plan_nodes : Declarations → List ResourceRef → Outcome DagError (List TaskPlanNode)
plan_nodes d [] = returned []
plan_nodes d (ref ∷ refs) = do
  node ← plan_node d ref
  nodes ← plan_nodes d refs
  returned (node ∷ nodes)

-- The end of the function, from the groups and the indegrees that the loop leaves.
unfoldable pub finish :
    ResourceRef
    → Declarations
    → Option (List (List ResourceRef) × (ResourceRef → ℤ))
    → Outcome DagError TaskDagPlan
finish workflow_ref d none = raised cut_off
finish workflow_ref d (some (groups, indegree)) = do
  let g = d.dependencies
  ensure (nat_eq (length (flatten groups)) (length (declared g))) (cyclic (cyclic_refs g indegree))
  nodes ← plan_nodes d (flatten groups)
  returned (record { workflow_ref = workflow_ref; nodes = nodes; ready_groups = groups })

module _ (render : Json → String) where
  -- `_parse_task_ref`
  unfoldable pub parse_task_ref : Json → Outcome DagError ResourceRef
  parse_task_ref (obj f) = elim (from_mapping render f) [
    | none ↦ raised invalid_graph
    | some ref ↦
        if not (str_eq ref.kind "Task") || str_eq ref.version "latest"
        then raised invalid_graph
        else returned ref
  ]
  parse_task_ref _ = raised invalid_graph

  unfoldable pub parse_task_refs : Items → Outcome DagError (List ResourceRef)
  parse_task_refs nil = returned []
  parse_task_refs (cons v vs) = do
    ref ← parse_task_ref v
    refs ← parse_task_refs vs
    returned (ref ∷ refs)

  unfoldable pub parse_array : Json → Outcome DagError (List ResourceRef)
  parse_array (arr vs) = parse_task_refs vs
  parse_array _ = raised invalid_graph

  -- `entry.get("dependsOn", [])`, parsed
  unfoldable pub parse_dependencies : Fields → Outcome DagError (List ResourceRef)
  parse_dependencies entry =
      if has "dependsOn" entry then parse_array (get "dependsOn" entry) else returned []

  -- One turn of the loop over the entries.
  unfoldable pub declare :
      ResourceCollection → ℕ → Fields → Declarations → Outcome DagError Declarations
  declare resources index entry d = do
    ref ← parse_task_ref (get "taskRef" entry)
    let keys = declared d.dependencies
    ensure (not (contains keys ref)) (duplicate_task ref (position keys ref) index)
    task ← require_task (get_resource resources ref) ref index
    refs ← parse_dependencies entry
    ensure (not (has_duplicate refs)) invalid_graph
    returned (record {
      dependencies = insert ref refs d.dependencies;
      resolved_tasks = insert ref task d.resolved_tasks;
    })

  unfoldable pub declare_all :
      ResourceCollection → ℕ → List Fields → Declarations → Outcome DagError Declarations
  declare_all resources index [] d = returned d
  declare_all resources index (entry ∷ entries) d = do
    d' ← declare resources index entry d
    declare_all resources (suc index) entries d'

  unfoldable pub resolve_task_dag : Resource → ResourceCollection → Outcome DagError TaskDagPlan
  resolve_task_dag workflow resources = do
    ensure (str_eq workflow.ref.kind "Workflow") type_error
    entries ← task_entries workflow
    d ← declare_all resources 0 entries (record { dependencies = []; resolved_tasks = [] })
    check_nodes (declared d.dependencies) d.dependencies
    finish workflow.ref d (ready_groups d.dependencies)
