-- ===== src/Store/State.antt =====
-- The state of `InMemoryRuntimeObjectStore`, its constants, and the helpers at the end of
-- src/aep/runtime_store.py.
use Prim.Native.String.{compare}
use Prim.Native.Nat.{Ordering}
use agent_engineering_platfo.Prelude.{
  String, Bool, true, false, not, Option, none, some, List, [], ◌∷◌, ◌++◌, str_eq, String_eq,
  contains, if◌then◌else◌,
}
use agent_engineering_platfo.Action.{
  Result, ok, err, value_error, type_error, key_error, not_found, Action,
}
use agent_engineering_platfo.Dict.{Dict, lookup, insert}
use agent_engineering_platfo.Json.{Json, null, str, arr, obj, Fields, end, get, has}

pub record Lease : Type 0 where
  pub owner_id : String
  pub expires_at : String

pub record Store : Type 0 where
  pub objects : Dict String Fields
  pub deterministic_keys : Dict String String
  pub claims : Dict String Fields
  pub leases : Dict String Lease
  pub workflow_index : Dict String (List String)
  pub task_execution_index : Dict String (List String)

abbrev pub empty : Store
empty = record {
  objects = [];
  deterministic_keys = [];
  claims = [];
  leases = [];
  workflow_index = [];
  task_execution_index = [];
}

abbrev pub terminal_statuses : List String
terminal_statuses = "SUCCEEDED" ∷ "FAILED" ∷ "CANCELLED" ∷ "APPROVED" ∷ "REJECTED" ∷ "EXPIRED" ∷ []

abbrev pub runtime_identity_fields : List String
runtime_identity_fields = "apiVersion" ∷ "id" ∷ "kind" ∷ "traceId" ∷ "createdAt" ∷ "provenance" ∷ []

-- value == "text"
abbrev pub is_text : String → Json → Bool
is_text t (str s) = str_eq s t
is_text t _ = false

abbrev pub is_null : Json → Bool
is_null null = true
is_null _ = false

-- `KIND_IDENTITY_FIELDS.get(kind, frozenset())`
abbrev pub kind_identity_fields : Json → List String
kind_identity_fields kind =
    if is_text "TaskExecution" kind
    then "workflowExecutionId" ∷ "taskRef" ∷ "attempt" ∷ "dependencyTaskExecutionIds" ∷ []
    else []

-- `KIND_WRITE_ONCE_FIELDS.get(kind, frozenset())`
abbrev pub kind_write_once_fields : Json → List String
kind_write_once_fields kind =
    if is_text "TaskExecution" kind
    then "contextPackageId" ∷ "resolvedAgentId" ∷ "terminalEvidence" ∷ "dispatchState"
      ∷ "dispatchOwnerId" ∷ "executionBudget" ∷ []
    else if is_text "WorkflowExecution" kind
    then "resolvedTaskPlan" ∷ "executionBudget" ∷ []
    else []

abbrev pub status_managed_fields : List String
status_managed_fields = "status" ∷ "updatedAt" ∷ "completedAt" ∷ []

-- `value in {…}` for a set of texts: a list or a dict cannot be hashed.
unfoldable pub in_set : Json → List String → Result Bool
in_set (str s) texts = ok (contains texts s)
in_set (arr _) texts = err type_error
in_set (obj _) texts = err type_error
in_set _ texts = ok false

-- value[key]
abbrev pub item : String → Fields → Result Json
item k f = if has k f then ok (get k f) else err key_error

-- `later < now` of two texts, by code points
abbrev pub text_lt : String → String → Bool
text_lt a b = elim (compare a b) [ Ordering.lt ↦ true | _ ↦ false ]

-- `isinstance(value, str) and value`
abbrev pub non_empty_text : Json → Bool
non_empty_text (str s) = not (str_eq s "")
non_empty_text _ = false

abbrev pub text_or : String → Json → String
text_or d (str s) = s
text_or d _ = d

-- A dict, or the empty one where the value is no mapping.
abbrev pub mapping_or_empty : Json → Fields
mapping_or_empty (obj f) = f
mapping_or_empty _ = end

-- `_copy_and_validate`
unfoldable pub copy_and_validate : Fields → Result Fields
copy_and_validate f =
    if not (non_empty_text (get "id" f))
    then err value_error
    else if not (non_empty_text (get "kind" f))
    then err value_error
    else ok f

abbrev pub text_option : Json → Option String
text_option (str s) = some s
text_option _ = none

-- `_workflow_execution_id`
unfoldable pub workflow_execution_id : Fields → Option String
workflow_execution_id f =
    if is_text "WorkflowExecution" (get "kind" f)
    then text_option (get "id" f)
    else if is_null (get "workflowExecutionId" f)
    then text_option (get "workflowExecutionId" (mapping_or_empty (get "provenance" f)))
    else text_option (get "workflowExecutionId" f)

-- `_task_execution_id`
unfoldable pub task_execution_id : Fields → Option String
task_execution_id f =
    if is_null (get "taskExecutionId" f)
    then text_option (get "taskExecutionId" (mapping_or_empty (get "provenance" f)))
    else text_option (get "taskExecutionId" f)

-- `index.setdefault(key, []).append(object_id)`, where there is a key
unfoldable pub index_at :
    Option String → String → Dict String (List String) → Dict String (List String)
index_at none object_id index = index
index_at (some key) object_id index = elim (lookup key index) [
  | none ↦ insert key (object_id ∷ []) index
  | some ids ↦ insert key (ids ++ object_id ∷ []) index
]

-- `_index`
unfoldable pub index : Fields → Store → Store
unfolding index_at
index value s =
    let object_id = text_or "" (get "id" value) in
    record s {
      workflow_index = index_at (workflow_execution_id value) object_id s.workflow_index;
      task_execution_index = index_at (task_execution_id value) object_id s.task_execution_index;
    }

-- `_require`
unfoldable pub require : String → Action Store Fields
require object_id s = elim (lookup object_id s.objects) [
  | none ↦ (err not_found, s)
  | some value ↦ (ok value, s)
]

-- The object of an id is changed in place, and a snapshot of it is returned.
unfoldable pub save : String → Fields → Action Store Fields
save object_id value s = (ok value, record s { objects = insert object_id value s.objects })
