-- ===== src/Task/Lifecycle.antt =====
-- `TaskExecutionLifecycle` of src/aep/task_execution.py, without a lifecycle logger. Parameters:
-- `strip` and `render` are Python's `str.strip` and `str` on a value that is no text;
-- `is_task_ref` and `is_task_execution` are the JSON Schema validators; `is_timestamp` is
-- `is_rfc3339_timestamp`.
use text.Mathlib.TextBridge.{to_list, of_list}
use Prim.Native.Char.{Char}
use Prim.Native.String.{◌++◌ as text_append}
use agent_engineering_platfo.Prelude.{
  zero, suc, String, Bool, true, false, not, ◌&&◌, Option, none, some, List, [], ◌∷◌, str_eq,
  if◌then◌else◌,
}
use agent_engineering_platfo.Action.{
  Error, Result, ok, err, value_error, type_error, invalid_reference, invalid_transition,
  retry_not_allowed, Action, lift, read, guard, raise, pure, ◌>>=◌, ◌>>◌,
}
use agent_engineering_platfo.Outcome.{Outcome, returned, raised}
use agent_engineering_platfo.Json.{
  Json, bool, int, negative, str, arr, obj, Items, nil, cons, Fields, end, field, get, has, set,
  to_text,
}
use agent_engineering_platfo.Store.State.{Store, is_text, item}
use agent_engineering_platfo.Store.Objects
use agent_engineering_platfo.Task.Status.{
  TaskStatus, running, succeeded, failed, cancelled, awaiting_approval, FailureClass, status_text,
  class_text, is_recoverable, parse_status, allowed,
}
use agent_engineering_platfo.Task.Correlation.{
  CorrelationContext, Correlation, bound, make_context, from_runtime_object, bind_correlation,
}

-- The outcome of pure code, as a result.
abbrev pub to_result : {A : Type 0} → Outcome Error A → Result A
to_result (returned a) = ok a
to_result (raised e) = err e

abbrev pub status_or_error : Option TaskStatus → Result TaskStatus
status_or_error none = err value_error
status_or_error (some status) = ok status

unfoldable pub require_found : Option Fields → Action Store Fields
require_found none = raise value_error
require_found (some record_) = do
  guard (is_text "TaskExecution" (get "kind" record_)) value_error
  pure record_

-- `_require`
unfoldable pub require_task_execution : String → Action Store Fields
require_task_execution execution_id = do s ← read; require_found (Objects.get_object s execution_id)

-- `_transition`
unfoldable pub transition : String → TaskStatus → String → Fields → String → Action Store Fields
transition execution_id target timestamp changes now = do
  current_record ← require_task_execution execution_id
  value ← lift (item "status" current_record)
  current ← lift (status_or_error (parse_status value))
  guard (allowed current target) invalid_transition
  Objects.update_status execution_id (status_text target) (some (status_text current))
      (some timestamp) changes now

unfoldable pub start : String → String → String → Action Store Fields
start execution_id timestamp now =
    transition execution_id running timestamp (field "startedAt" (str timestamp) end) now

unfoldable pub succeed : String → String → String → Action Store Fields
succeed execution_id timestamp now = transition execution_id succeeded timestamp end now

unfoldable pub cancel : String → String → String → Action Store Fields
cancel execution_id timestamp now = transition execution_id cancelled timestamp end now

unfoldable pub await_approval : String → String → Fields → String → Action Store Fields
await_approval execution_id timestamp changes now =
    transition execution_id awaiting_approval timestamp changes now

unfoldable pub resume : String → String → String → Action Store Fields
resume execution_id timestamp now = transition execution_id running timestamp end now

-- The failure with `retryNotBefore`, where it is given, which only a recoverable one may have.
unfoldable pub with_retry_time :
    (String → Bool) → FailureClass → Option String → Fields → Result Fields
with_retry_time is_timestamp classification none failure = ok failure
with_retry_time is_timestamp classification (some time) failure =
    if is_recoverable classification && is_timestamp time
    then ok (set "retryNotBefore" (str time) failure)
    else err value_error

abbrev pub with_details : Option Fields → Fields → Fields
with_details none failure = failure
with_details (some details) failure = set "details" (obj details) failure

unfoldable pub fail :
    (String → Bool)
    → String
    → FailureClass
    → String
    → String
    → Option String
    → Option Fields
    → String
    → Action Store Fields
fail is_timestamp execution_id classification message timestamp retry_not_before details now = do
  guard (not (str_eq message "")) value_error
  failure ← lift (
      with_retry_time is_timestamp classification retry_not_before (
        field "class" (str (class_text classification)) (
          field "message" (str message)
            (field "retryable" (bool (is_recoverable classification)) end))))
  transition execution_id failed timestamp
      (field "failure" (obj (with_details details failure)) end) now

-- isinstance(attempt, int) and not isinstance(attempt, bool) and attempt >= 1
abbrev pub is_attempt : Json → Bool
is_attempt (int (suc n)) = true
is_attempt _ = false

-- attempt + 1, where `negative n` stands for - (n + 1)
abbrev pub next_attempt : Json → Result Json
next_attempt (int n) = ok (int (suc n))
next_attempt (negative zero) = ok (int 0)
next_attempt (negative (suc n)) = ok (negative n)
next_attempt (bool true) = ok (int 2)
next_attempt (bool false) = ok (int 1)
next_attempt _ = err type_error

-- A value that is to be a mapping, or an array.
abbrev pub mapping : Json → Result Fields
mapping (obj f) = ok f
mapping _ = err type_error

abbrev pub keys_of : Fields → Items
keys_of end = nil
keys_of (field k v f) = cons (str k) (keys_of f)

abbrev pub characters_of : List Char → Items
characters_of [] = nil
characters_of (c ∷ cs) = cons (str (of_list (c ∷ []))) (characters_of cs)

-- tuple(value): a dict gives its keys, and a text its characters.
abbrev pub tuple_of : Json → Result Items
tuple_of (arr vs) = ok vs
tuple_of (obj f) = ok (keys_of f)
tuple_of (str t) = ok (characters_of (to_list t))
tuple_of _ = err type_error

-- previous.get("dependencyTaskExecutionIds", ())
abbrev pub dependencies_of : Fields → Result Items
dependencies_of previous =
    if has "dependencyTaskExecutionIds" previous
    then tuple_of (get "dependencyTaskExecutionIds" previous)
    else ok nil

-- The previous attempt has failed, and its failure is recoverable.
abbrev pub failure_is : String → Json → Bool
failure_is t (obj failure) = is_text t (get "class" failure)
failure_is t _ = false

abbrev pub may_retry : Fields → Bool
may_retry previous =
    is_text "FAILED" (get "status" previous) && failure_is "RECOVERABLE" (get "failure" previous)

module _ (strip : String → String) (render : Json → String)
    (is_task_ref is_task_execution : Fields → Bool) where
  -- The record that `create` makes.
  unfoldable pub execution_record :
      String → Json → Fields → Json → CorrelationContext → String → Fields → Items → Fields
  execution_record execution_id workflow_id task_ref attempt context timestamp provenance
        dependencies =
      field "apiVersion" (str "aep.dev/v1alpha1") (
        field "kind" (str "TaskExecution") (
          field "id" (str execution_id) (
            field "traceId" (str context.trace_id) (
              field "createdAt" (str timestamp) (
                field "updatedAt" (str timestamp) (
                  field "provenance" (obj provenance) (
                    field "workflowExecutionId" workflow_id (
                      field "taskRef" (obj task_ref) (
                        field "attempt" attempt (
                          field "status" (str "PENDING")
                            (field "dependencyTaskExecutionIds" (arr dependencies) end)))))))))))

  -- f"task-execution:{workflow_execution_id}:{task_identity}:{attempt}"
  unfoldable pub execution_key : Json → String → String → String → Json → String
  execution_key workflow_id kind name version attempt = text_append "task-execution:" (
      text_append (to_text render workflow_id) (
        text_append ":" (
          text_append kind (
            text_append ":" (
              text_append name (
                text_append ":"
                  (text_append version (text_append ":" (to_text render attempt)))))))))

  unfoldable pub create :
      String → Json → Fields → Json → Correlation → String → Fields → Items → Action Store Fields
  create execution_id workflow_id task_ref attempt correlation timestamp provenance dependencies =
      do
        guard (is_attempt attempt) value_error
        guard (is_task_ref task_ref) invalid_reference
        context ← lift (to_result (bind_correlation strip correlation execution_id provenance))
        guard (is_text context.workflow_execution_id workflow_id) value_error
        kind ← lift (item "kind" task_ref)
        name ← lift (item "name" task_ref)
        version ← lift (item "version" task_ref)
        let value =
            execution_record execution_id workflow_id task_ref attempt context timestamp provenance
              dependencies
        guard (is_task_execution value) value_error
        Objects.create value (
            execution_key workflow_id (to_text render kind) (to_text render name)
              (to_text render version) attempt)

  unfoldable pub retry : String → String → String → Action Store Fields
  retry execution_id new_execution_id timestamp = do
    previous ← require_task_execution execution_id
    guard (may_retry previous) retry_not_allowed
    provenance_value ← lift (item "provenance" previous)
    provenance ← lift (mapping provenance_value)
    previous_context ← lift (to_result (from_runtime_object strip previous))
    workflow_id ← lift (item "workflowExecutionId" previous)
    task_ref_value ← lift (item "taskRef" previous)
    attempt_value ← lift (item "attempt" previous)
    attempt ← lift (next_attempt attempt_value)
    context ← lift (
        to_result (
          make_context strip previous_context.trace_id previous_context.workflow_execution_id
            (some new_execution_id)))
    dependencies ← lift (dependencies_of previous)
    task_ref ← lift (mapping task_ref_value)
    create new_execution_id workflow_id task_ref attempt (bound context) timestamp
        (set "parentId" (str execution_id) provenance) dependencies
