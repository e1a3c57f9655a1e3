-- ===== src/Task/Examples.antt =====
-- The theorems about the Task lifecycle at concrete attempts: one that runs and one that has failed.
use agent_engineering_platfo.Prelude.{String, refl, Bool, true, [], ◌∷◌, String_eq, contains}
use agent_engineering_platfo.Action.{◌>>=◌, pure}
use agent_engineering_platfo.Outcome
use agent_engineering_platfo.Dict.{lookup, insert}
use agent_engineering_platfo.Json.{
  Json, int, str, arr, obj, nil, Fields, end, field, get, has, set, set_default, update,
}
use agent_engineering_platfo.Store.State.{Store, empty, require, save, in_set, copy_and_validate}
use agent_engineering_platfo.Store.Objects
use agent_engineering_platfo.Task.Status.{succeeded, parse_status, allowed}
use agent_engineering_platfo.Task.Correlation.{
  present, candidates, require_text, make_context, same_texts, one_identity, task_identity,
  required_again, from_runtime_object, context_of, bind_correlation,
}
use agent_engineering_platfo.Task.Lifecycle.{
  transition, require_task_execution, require_found, execution_record, execution_key, create, retry,
}
use agent_engineering_platfo.Task.Steps.{Moved, transition-Moved}
use agent_engineering_platfo.Task.Retries.{Again, retry_once}

abbrev strip : String → String
strip s = s

abbrev render : Json → String
render _ = "1"

abbrev accepts : Fields → Bool
accepts f = true

abbrev task_ref : Fields
task_ref =
    field "kind" (str "Task") (field "name" (str "build") (field "version" (str "1.0.0") end))

abbrev provenance : Fields
provenance = field "workflowExecutionId" (str "w1") end

-- An attempt of a status, with its failure class.
abbrev attempt_of : String → Fields
attempt_of status = field "kind" (str "TaskExecution") (
    field "id" (str "t1") (
      field "traceId" (str "trace") (
        field "provenance" (obj provenance) (
          field "workflowExecutionId" (str "w1") (
            field "taskRef" (obj task_ref) (
              field "attempt" (int 1) (
                field "status" (str status)
                  (field "failure" (obj (field "class" (str "RECOVERABLE") end)) end))))))))

abbrev store_of : String → Store
store_of status = record empty { objects = ("t1", attempt_of status) ∷ [] }

abbrev finished : Fields
finished = field "kind" (str "TaskExecution") (
    field "id" (str "t1") (
      field "traceId" (str "trace") (
        field "provenance" (obj provenance) (
          field "workflowExecutionId" (str "w1") (
            field "taskRef" (obj task_ref) (
              field "attempt" (int 1) (
                field "status" (str "SUCCEEDED") (
                  field "failure" (obj (field "class" (str "RECOVERABLE") end)) (
                    field "updatedAt" (str "2026-01-02")
                      (field "completedAt" (str "2026-01-02") end))))))))))

transition-Moved_example :
    Moved "t1" succeeded finished
      (store_of "RUNNING")
      (transition "t1" succeeded "2026-01-02" end "now" (store_of "RUNNING")).1
unfolding transition require_task_execution require_found Objects.get_object ◌>>=◌ pure lookup get
    has parse_status allowed Objects.update_status require Objects.replaces_protected
    Objects.has_any Objects.has_both in_set contains Objects.with_status update set set_default save
    insert
transition-Moved_example =
    transition-Moved "t1" succeeded "2026-01-02" end "now" finished (store_of "RUNNING") refl

abbrev second_attempt : Fields
second_attempt = field "apiVersion" (str "aep.dev/v1alpha1") (
    field "kind" (str "TaskExecution") (
      field "id" (str "t2") (
        field "traceId" (str "trace") (
          field "createdAt" (str "2026-01-03") (
            field "updatedAt" (str "2026-01-03") (
              field "provenance"
                (obj (field "workflowExecutionId" (str "w1") (field "parentId" (str "t1") end)))
                (field "workflowExecutionId" (str "w1") (
                  field "taskRef" (obj task_ref) (
                    field "attempt" (int 2) (
                      field "status" (str "PENDING")
                        (field "dependencyTaskExecutionIds" (arr nil) end)))))))))))

retry_once_example :
    let s' = (retry strip render accepts accepts "t1" "t2" "2026-01-03" (store_of "FAILED")).1 in
    Again second_attempt s' (retry strip render accepts accepts "t1" "t3" "2026-01-04" s')
unfolding retry create execution_record execution_key require_task_execution require_found
    Objects.get_object ◌>>=◌ Outcome.◌>>=◌ pure lookup get has set present candidates require_text
    make_context same_texts one_identity task_identity required_again from_runtime_object context_of
    bind_correlation Outcome.ensure Objects.create copy_and_validate Objects.create_at
    Objects.create_new
retry_once_example =
    retry_once strip render accepts accepts "t1" "t2" "t3" "2026-01-03" "2026-01-04" second_attempt
      (store_of "FAILED") refl
