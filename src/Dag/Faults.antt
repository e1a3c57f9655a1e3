-- ===== src/Dag/Faults.antt =====
-- The errors that the first loops of `resolve_task_dag` (src/aep/task_dag.py) raise.
use agent_engineering_platfo.Prelude.{
  ℕ, suc, String, Bool, true, false, not, ◌||◌, Option, none, some, List, [], ◌∷◌, str_eq,
  if◌then◌else◌, Option-cases, inl, inr,
}
use agent_engineering_platfo.Dict.{Dict}
use agent_engineering_platfo.Json.{Json, arr, obj, Items, nil, cons, Fields, get, has}
use agent_engineering_platfo.Outcome.{Outcome, ◌>>=◌, ensure, Raises, Raises-raised, bind_case}
use agent_engineering_platfo.Resources.{
  ResourceRef, Ref_eq, Resource, ResourceCollection, from_mapping,
}
use agent_engineering_platfo.Dag.Resolve.{
  DagError, key_error, cut_off, cyclic, Declarations, all_mappings, entries_of, task_entries,
  parse_task_ref, parse_task_refs, parse_array, parse_dependencies, require_task, declare,
  declare_all, check_node, check_nodes,
}

-- An error of the declarations: neither of a cycle, nor of a missing key, nor of the model's fuel.
abbrev pub IsFault : DagError → Type 0
IsFault (cyclic refs) = ⊥
IsFault key_error = ⊥
IsFault cut_off = ⊥
IsFault _ = Unit

abbrev pub Faulty : {A : Type 0} → Outcome DagError A → Type 0
Faulty m = Raises IsFault m

-- A fault of the first step is a fault of the sequence.
pub bind-Faulty :
    {A B : Type 0} (m : Outcome DagError A) (f : A → Outcome DagError B)
    → Faulty m
    → ((a : A) → Faulty (f a))
    → Faulty (m >>= f)
bind-Faulty m f h next =
    bind_case Faulty m f (λ e failed. Raises-raised IsFault m e h failed) (λ a _. next a)

ensure-Faulty : (b : Bool) (e : DagError) → IsFault e → Faulty (ensure b e)
unfolding ensure
ensure-Faulty true e h = tt
ensure-Faulty false e h = h

if-Faulty :
    {A : Type 0} (b : Bool) (m n : Outcome DagError A)
    → Faulty m
    → Faulty n
    → Faulty (if b then m else n)
if-Faulty true m n h k = h
if-Faulty false m n h k = k

entries_of-Faulty : (v : Json) → Faulty (entries_of v)
unfolding entries_of
entries_of-Faulty (arr nil) = tt
entries_of-Faulty (arr (cons v vs)) = elim (Option-cases (all_mappings (cons v vs))) [
  | inl e ↦ rw (e, entries_of) tt
  | inr (fs, e) ↦ rw (e, entries_of) tt
]
entries_of-Faulty _ = tt

pub task_entries-Faulty : (workflow : Resource) → Faulty (task_entries workflow)
unfolding task_entries
task_entries-Faulty workflow = entries_of-Faulty _

require_task-Faulty :
    (found : Option Resource) (ref : ResourceRef) (index : ℕ)
    → Faulty (require_task found ref index)
unfolding require_task
require_task-Faulty none ref index = tt
require_task-Faulty (some task) ref index = if-Faulty (str_eq task.ref.kind "Task") _ _ tt tt

module _ (render : Json → String) where
  parse_task_ref-Faulty : (v : Json) → Faulty (parse_task_ref render v)
  unfolding parse_task_ref
  parse_task_ref-Faulty (obj f) = elim (Option-cases (from_mapping render f)) [
    | inl e ↦ rw (e, parse_task_ref) tt
    | inr (ref, e) ↦
        rw (e, parse_task_ref)
          (if-Faulty (not (str_eq ref.kind "Task") || str_eq ref.version "latest") _ _ tt tt)
  ]
  parse_task_ref-Faulty _ = tt

  parse_task_refs-Faulty : (vs : Items) → Faulty (parse_task_refs render vs)
  unfolding parse_task_refs
  parse_task_refs-Faulty nil = tt
  parse_task_refs-Faulty (cons v vs) =
      bind-Faulty _ _ (parse_task_ref-Faulty v)
        λ ref. bind-Faulty _ _ (parse_task_refs-Faulty vs) λ refs. tt

  parse_array-Faulty : (v : Json) → Faulty (parse_array render v)
  unfolding parse_array
  parse_array-Faulty (arr vs) = parse_task_refs-Faulty vs
  parse_array-Faulty _ = tt

  parse_dependencies-Faulty : (entry : Fields) → Faulty (parse_dependencies render entry)
  unfolding parse_dependencies
  parse_dependencies-Faulty entry =
      if-Faulty (has "dependsOn" entry) _ _ (parse_array-Faulty (get "dependsOn" entry)) tt

  declare-Faulty :
      (resources : ResourceCollection) (index : ℕ) (entry : Fields) (d : Declarations)
      → Faulty (declare render resources index entry d)
  unfolding declare
  declare-Faulty resources index entry d = bind-Faulty _ _ (parse_task_ref-Faulty _) λ ref.
      bind-Faulty _ _ (ensure-Faulty _ _ tt) λ _.
        bind-Faulty _ _ (require_task-Faulty _ ref index) λ task.
          bind-Faulty _ _ (parse_dependencies-Faulty entry)
            λ refs. bind-Faulty _ _ (ensure-Faulty _ _ tt) λ _. tt

  pub declare_all-Faulty :
      (resources : ResourceCollection) (index : ℕ) (entries : List Fields) (d : Declarations)
      → Faulty (declare_all render resources index entries d)
  unfolding declare_all
  declare_all-Faulty resources index [] d = tt
  declare_all-Faulty resources index (entry ∷ entries) d =
      bind-Faulty _ _ (declare-Faulty resources index entry d)
        λ d'. declare_all-Faulty resources (suc index) entries d'

check_node-Faulty :
    (keys : List ResourceRef) (ref : ResourceRef) (ds : List ResourceRef)
    → Faulty (check_node keys ref ds)
unfolding check_node
check_node-Faulty keys ref [] = tt
check_node-Faulty keys ref (d ∷ ds) =
    bind-Faulty _ _ (ensure-Faulty _ _ tt) λ _. check_node-Faulty keys ref ds

pub check_nodes-Faulty :
    (keys : List ResourceRef) (g : Dict ResourceRef (List ResourceRef))
    → Faulty (check_nodes keys g)
unfolding check_nodes
check_nodes-Faulty keys [] = tt
check_nodes-Faulty keys ((ref, ds) ∷ g) =
    bind-Faulty _ _ (check_node-Faulty keys ref ds) λ _. check_nodes-Faulty keys g
