-- ===== src/Store/Transitions.antt =====
-- The task and approval transitions of `InMemoryRuntimeObjectStore` (src/aep/runtime_store.py), and
-- its transactions, which restore a snapshot when anything in them raises.
-- `render` is Python's `str` on a value that is no text.
use agent_engineering_platfo.Prelude.{
  String, Bool, true, false, not, ◌&&◌, Option, none, some, List, [], ◌∷◌, str_eq, String_eq,
  if◌then◌else◌,
}
use agent_engineering_platfo.Action.{
  branch, Result, value_error, status_conflict, Action, lift, guard, ◌>>=◌, ◌>>◌, pure,
}
use agent_engineering_platfo.Store.Snapshot.{atomic}
use agent_engineering_platfo.Json.{Json, str, obj, Fields, get, set, pop, to_text}
use agent_engineering_platfo.Store.State.{
  Store, is_text, is_null, in_set, item, mapping_or_empty, require, save,
}
use agent_engineering_platfo.Store.Objects.{
  create, append_event, update_status, append_task_execution_id,
}

unfoldable pub claim_task_dispatch : String → String → String → Action Store (Bool × Fields)
claim_task_dispatch task_id owner_id updated_at = do
  guard (not (str_eq owner_id "")) value_error
  value ← require task_id
  guard (is_text "TaskExecution" (get "kind" value)) value_error
  guard (is_text "RUNNING" (get "status" value)) status_conflict
  let state = get "dispatchState" value
  branch (is_text "CLAIMED" state) (pure (false, value)) (do
    guard (is_text "PENDING" state) value_error
    claimed ← save task_id (
        set "updatedAt" (str updated_at)
          (set "dispatchOwnerId" (str owner_id) (set "dispatchState" (str "CLAIMED") value)))
    pure (true, claimed))

-- The statuses from which an approved task can be woken.
abbrev pub wakeable_statuses : List String
wakeable_statuses = "AWAITING_APPROVAL" ∷ "PENDING" ∷ []

abbrev pub woken : Fields → Fields
woken task =
    if is_text "AWAITING_APPROVAL" (get "status" task)
    then set "status" (str "PENDING") task
    else task

unfoldable pub wake_approved_task : String → String → String → Action Store Fields
wake_approved_task task_id approval_id updated_at = do
  task ← require task_id
  guard (is_text "TaskExecution" (get "kind" task)) value_error
  branch (not (is_text approval_id (get "approvalId" task))) (pure task) (do
    wakeable ← lift (in_set (get "status" task) wakeable_statuses)
    branch (not wakeable) (pure task) (
        save task_id (
          set "updatedAt" (str updated_at) (
            set "approvalId" (str approval_id)
              (pop "dispatchOwnerId" (pop "dispatchState" (woken task)))))))

abbrev pub is_awaiting : Fields → Bool
is_awaiting task =
    is_text "TaskExecution" (get "kind" task) && is_text "AWAITING_APPROVAL" (get "status" task)

abbrev pub bound_to : String → String → Fields → Fields
bound_to approval_id updated_at task =
    set "updatedAt" (str updated_at) (set "approvalId" (str approval_id) task)

unfoldable pub bind_approval_request : String → String → String → Action Store Fields
bind_approval_request task_id approval_id updated_at = do
  task ← require task_id
  guard (is_awaiting task) value_error
  save task_id (bound_to approval_id updated_at task)

-- `current == expected_current_approval_id`, where both may be `None`
abbrev pub is_option : Option String → Json → Bool
is_option none v = is_null v
is_option (some t) v = is_text t v

module _ (render : Json → String) where
  unfoldable pub create_approval_request :
      Fields → String → Option String → String → Action Store Fields
  create_approval_request approval deterministic_key expected_current updated_at = atomic (do
    persisted ← create approval deterministic_key
    task_value ← lift (item "taskExecutionId" persisted)
    let task_id = to_text render task_value
    task ← require task_id
    guard (is_awaiting task) value_error
    let persisted_id = to_text render (get "id" persisted)
    branch (is_text persisted_id (get "approvalId" task)) (pure persisted) (do
      guard (is_option expected_current (get "approvalId" task)) status_conflict
      save task_id (bound_to persisted_id updated_at task)
      pure persisted))

unfoldable pub mutate_execution_budget :
    String
    → String
    → (Fields → Fields → Result (Fields × Fields))
    → String
    → String
    → Action Store (Fields × Fields)
mutate_execution_budget workflow_id task_id mutate updated_at now = atomic (do
  workflow ← require workflow_id
  task ← require task_id
  guard (is_text "WorkflowExecution" (get "kind" workflow)) value_error
  guard (is_text "RUNNING" (get "status" workflow)) value_error
  guard (is_text "TaskExecution" (get "kind" task)) value_error
  guard (is_text "RUNNING" (get "status" task)) value_error
  guard (is_text workflow_id (get "workflowExecutionId" task)) value_error
  changes ← lift (mutate workflow task)
  workflow' ← update_status workflow_id "RUNNING" (some "RUNNING") (some updated_at) changes.0 now
  task' ← update_status task_id "RUNNING" (some "RUNNING") (some updated_at) changes.1 now
  pure (workflow', task'))

unfoldable pub commit_task_execution_transition :
    String → String → String → Fields → String → String → Fields → String → Action Store Fields
commit_task_execution_transition task_id status workflow_id event expected updated_at changes now =
    atomic (do
      updated ← update_status task_id status (some expected) (some updated_at) changes now
      append_task_execution_id workflow_id task_id (some updated_at) now
      append_event event
      pure updated)

-- The event type of a workflow transition; `None` where there is none.
abbrev pub workflow_event : String → Option String
workflow_event status =
    if str_eq status "RUNNING"
    then some "WorkflowExecutionStarted"
    else if str_eq status "SUCCEEDED"
    then some "WorkflowExecutionCompleted"
    else if str_eq status "FAILED"
    then some "WorkflowExecutionFailed"
    else if str_eq status "CANCELLED"
    then some "WorkflowExecutionCancelled"
    else none

abbrev pub is_event : Option String → Json → Bool
is_event none v = false
is_event (some t) v = is_text t v

abbrev pub is_mapping : Json → Bool
is_mapping (obj _) = true
is_mapping _ = false

abbrev pub failure_classes : List String
failure_classes = "RECOVERABLE" ∷ "CONFIGURATION" ∷ "EVALUATION" ∷ "POLICY" ∷ "PERMANENT" ∷ []

-- The event's subject and provenance name the workflow.
abbrev pub belongs_to : String → Json → Json → Bool
belongs_to workflow_id (obj subject) (obj provenance) =
    is_text "WorkflowExecution" (get "kind" subject)
    && is_text workflow_id (get "id" subject)
    && is_text workflow_id (get "workflowExecutionId" provenance)
belongs_to workflow_id _ _ = false

-- `_validate_workflow_transition_event`
unfoldable pub validate_workflow_transition_event :
    String → String → Fields → Action Store (Unit {0})
validate_workflow_transition_event workflow_id status event = do
  guard (is_text "ExecutionEvent" (get "kind" event)) value_error
  guard (belongs_to workflow_id (get "subject" event) (get "provenance" event)) value_error
  let payload = mapping_or_empty (get "payload" event)
  guard
      (is_event (workflow_event status) (get "eventType" event)
        && is_mapping (get "payload" event)
        && is_text status (get "status" payload))
      value_error
  let failure_class = get "failureClass" payload
  branch (str_eq status "FAILED")
      (do valid ← lift (in_set failure_class failure_classes); guard valid value_error)
      (guard (is_null failure_class) value_error)

unfoldable pub commit_workflow_execution_transition :
    String → String → Fields → String → String → Fields → String → Action Store Fields
commit_workflow_execution_transition workflow_id status event expected updated_at changes now =
    atomic (do
      workflow ← require workflow_id
      guard (is_text "WorkflowExecution" (get "kind" workflow)) value_error
      validate_workflow_transition_event workflow_id status event
      append_event event
      update_status workflow_id status (some expected) (some updated_at) changes now)
