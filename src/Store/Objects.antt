-- ===== src/Store/Objects.antt =====
-- Creation, status changes, events and reads of `InMemoryRuntimeObjectStore`
-- (src/aep/runtime_store.py). `now` is the reading of the wall clock that a method falls back to.
use Prim.Native.String.{◌++◌ as text_append}
use agent_engineering_platfo.Prelude.{
  String, Bool, true, false, not, ◌&&◌, ◌||◌, Option, none, some, List, [], ◌∷◌, str_eq, String_eq,
  contains, if◌then◌else◌,
}
use agent_engineering_platfo.Action.{
  Result, ok, err, value_error, key_error, already_exists, immutable, status_conflict, Action, lift,
  read, guard, ◌>>=◌, ◌>>◌, pure, raise, branch,
}
use agent_engineering_platfo.Store.Snapshot.{atomic}
use agent_engineering_platfo.Dict.{lookup, insert}
use agent_engineering_platfo.Json.{
  Json, str, arr, Items, nil, cons, Fields, get, has, set, set_default, update,
}
use agent_engineering_platfo.Store.State.{
  Store, terminal_statuses, runtime_identity_fields, kind_identity_fields, kind_write_once_fields,
  status_managed_fields, is_text, is_null, in_set, text_or, copy_and_validate, index, require, save,
}

-- The insertion at the end of `create`.
unfoldable pub insert_object : String → Fields → Store → Store
insert_object key value s =
    let object_id = text_or "" (get "id" value) in
    index value (record s {
      objects = insert object_id value s.objects;
      deterministic_keys = insert key object_id s.deterministic_keys;
    })

-- `self._objects[existing_id]`
unfoldable pub stored : String → Action Store Fields
stored object_id s = elim (lookup object_id s.objects) [
  | none ↦ (err key_error, s)
  | some value ↦ (ok value, s)
]

unfoldable pub create_new : Fields → String → Action Store Fields
create_new value key s = elim (lookup (text_or "" (get "id" value)) s.objects) [
  | none ↦ (ok value, insert_object key value s)
  | some _ ↦ (err already_exists, s)
]

unfoldable pub create_at : Option String → Fields → String → Action Store Fields
create_at none value key = create_new value key
create_at (some existing_id) value key = stored existing_id

unfoldable pub create : Fields → String → Action Store Fields
create runtime_object deterministic_key = do
  value ← lift (copy_and_validate runtime_object)
  guard (not (str_eq deterministic_key "")) value_error
  s ← read
  create_at (lookup deterministic_key s.deterministic_keys) value deterministic_key

unfoldable pub append_event : Fields → Action Store Fields
append_event event = do
  value ← lift (copy_and_validate event)
  guard (is_text "ExecutionEvent" (get "kind" value)) value_error
  create value (text_append "execution-event:" (text_or "" (get "id" value)))

unfoldable pub create_with_event : Fields → Fields → String → Action Store Fields
create_with_event runtime_object event deterministic_key =
    atomic (do created ← create runtime_object deterministic_key; append_event event; pure created)

-- `field in changes` for a protected field
unfoldable pub has_any : List String → Fields → Bool
has_any [] changes = false
has_any (k ∷ ks) changes = has k changes || has_any ks changes

-- `field in value and field in changes` for a write-once field
unfoldable pub has_both : List String → Fields → Fields → Bool
has_both [] value changes = false
has_both (k ∷ ks) value changes = has k value && has k changes || has_both ks value changes

-- The changes replace no field of identity, no field that the store manages and no field that is
-- written once and is there.
unfoldable pub replaces_protected : Fields → Fields → Bool
replaces_protected value changes =
    has_any runtime_identity_fields changes
    || has_any status_managed_fields changes
    || has_any (kind_identity_fields (get "kind" value)) changes
    || has_both (kind_write_once_fields (get "kind" value)) value changes

-- `updated_at or datetime.now(…)`
abbrev pub or_now : Option String → String → String
or_now none now = now
or_now (some t) now = if str_eq t "" then now else t

unfoldable pub with_status : Fields → String → String → Fields → Fields
with_status value status time changes =
    let updated = set "updatedAt" (str time) (set "status" (str status) (update value changes)) in
    if contains terminal_statuses status
    then set_default "completedAt" (str time) updated
    else updated

-- `expected_status is None or current == expected_status`
abbrev pub as_expected : Option String → Json → Bool
as_expected none current = true
as_expected (some t) current = is_text t current

unfoldable pub update_status :
    String → String → Option String → Option String → Fields → String → Action Store Fields
update_status object_id status expected_status updated_at changes now = do
  guard (not (str_eq status "")) value_error
  value ← require object_id
  guard (not (replaces_protected value changes)) value_error
  let current = get "status" value
  guard (not (is_null current)) value_error
  guard (as_expected expected_status current) status_conflict
  terminal ← lift (in_set current terminal_statuses)
  branch terminal (branch (is_text status current) (pure value) (raise immutable))
      (save object_id (with_status value status (or_now updated_at now) changes))

-- `task_execution_id in task_execution_ids` for a list of JSON values
unfoldable pub holds : String → Items → Bool
holds t nil = false
holds t (cons v vs) = is_text t v || holds t vs

unfoldable pub push : Json → Items → Items
push v nil = cons v nil
push v (cons w ws) = cons w (push v ws)

-- The list of attempts of a workflow, to which `setdefault` has given a value.
unfoldable pub append_to : String → String → String → Fields → Json → Action Store Fields
append_to workflow_id task_id time workflow (arr ids) =
    branch (holds task_id ids) (pure workflow) (do
      terminal ← lift (in_set (get "status" workflow) terminal_statuses)
      branch terminal (raise immutable) (
          save workflow_id (
            set "updatedAt" (str time)
              (set "taskExecutionIds" (arr (push (str task_id) ids)) workflow))))
append_to workflow_id task_id time workflow _ = raise value_error

-- `setdefault("taskExecutionIds", [])` on the stored workflow, and the append.
unfoldable pub and_append : String → String → String → Fields → Action Store Fields
and_append workflow_id task_id time workflow = do
  workflow' ← save workflow_id (set_default "taskExecutionIds" (arr nil) workflow)
  append_to workflow_id task_id time workflow' (get "taskExecutionIds" workflow')

unfoldable pub append_task_execution_id :
    String → String → Option String → String → Action Store Fields
append_task_execution_id workflow_id task_id updated_at now = do
  guard (not (str_eq task_id "")) value_error
  workflow ← require workflow_id
  guard (is_text "WorkflowExecution" (get "kind" workflow)) value_error
  task ← require task_id
  guard
      (is_text "TaskExecution" (get "kind" task)
        && is_text workflow_id (get "workflowExecutionId" task))
      value_error
  and_append workflow_id task_id (or_now updated_at now) workflow

-- `get` of the store
unfoldable pub get_object : Store → String → Option Fields
get_object s object_id = lookup object_id s.objects

-- `tuple(_snapshot(self._objects[object_id]) for object_id in …)`
unfoldable pub list_objects : Store → List String → Result (List Fields)
list_objects s [] = ok []
list_objects s (i ∷ is) =
    let rest = list_objects s is in
    elim (lookup i s.objects) [
      | none ↦ err key_error
      | some v ↦ elim rest [ ok vs ↦ ok (v ∷ vs) | err e ↦ err e ]
    ]

abbrev pub ids_or_empty : Option (List String) → List String
ids_or_empty none = []
ids_or_empty (some ids) = ids

unfoldable pub list_by_workflow_execution : Store → String → Result (List Fields)
list_by_workflow_execution s workflow_id =
    list_objects s (ids_or_empty (lookup workflow_id s.workflow_index))

unfoldable pub list_by_task_execution : Store → String → Result (List Fields)
list_by_task_execution s task_id =
    list_objects s (ids_or_empty (lookup task_id s.task_execution_index))
