-- ===== src/Approval/Examples.antt =====
-- Tests of the model of src/aep/approval.py.
use agent_engineering_platfo.Prelude.{String, ◌≡◌, refl, true, false, some, [], ◌∷◌, contains}
use agent_engineering_platfo.Action
use agent_engineering_platfo.Action.{
  Error, Result, ok, err, unauthorized, approval_error, lift, guard, branch, raise, pure, read,
}
use agent_engineering_platfo.Dict.{insert, lookup}
use agent_engineering_platfo.Json.{
  str, arr, nil, cons, Fields, end, field, get, has, set, set_default, update,
}
use agent_engineering_platfo.Store.State.{
  copy_and_validate, index, index_at, workflow_execution_id, task_execution_id, Store, empty,
  require, save, in_set,
}
use agent_engineering_platfo.Store.Objects
use agent_engineering_platfo.Store.Objects.{
  append_event, create_at, create_new, insert_object, get_object, update_status, with_status,
  replaces_protected, has_any, has_both, holds,
}
use agent_engineering_platfo.Approval.Gate.{
  record_unauthorized_attempt, Instants, is_expired, decide_pending, decide,
}
use agent_engineering_platfo.Approval.Authorized.{IsAuthorized, decide-IsAuthorized}
use agent_engineering_platfo.Approval.Refused.{IsRefused, decide-IsRefused}

abbrev request_with : String → Fields → Fields
request_with status rest = field "id" (str "approval-1") (
    field "kind" (str "Approval") (
      field "traceId" (str "trace") (
        field "workflowExecutionId" (str "run-1") (
          field "taskExecutionId" (str "task-1") (
            field "status" (str status) (
              field "artifactRequestDigest" (str "sha256:1")
                (field "authorizedReviewers" (arr (cons (str "ada") nil)) rest)))))))

abbrev approval : Fields
approval = request_with "PENDING" end

abbrev held : Store
held = record empty { objects = ("approval-1", approval) ∷ [] }

-- Timestamps of which each one is a text and none is later than another.
abbrev texts : Instants
texts = record {
  Instant = String;
  parse = λ t. some t;
  has_zone = λ t. true;
  at_least = λ a b. true;
}

abbrev run : String → String → Result Fields × Store
run actor digest =
    decide (λ t. t) (λ _. "") (λ _ _. false) (λ t. t) texts "approval-1" actor "REJECTED" "now"
      (str "no tests") digest "now" held

abbrev rejected : Fields
rejected = request_with "REJECTED" (
    field "approver" (str "ada") (
      field "decidedAt" (str "now") (
        field "reason" (str "no tests")
          (field "updatedAt" (str "now") (field "completedAt" (str "now") end)))))

stale : (run "ada" "sha256:2").0 ≡ err (approval_error "APPROVAL_STALE")
unfolding decide Action.◌>>=◌ lift guard branch raise pure read get_object lookup get has holds
    is_expired decide_pending contains update_status with_status replaces_protected has_any has_both
    require save insert set update set_default in_set
stale = refl

decided :
    run "ada" "sha256:1" ≡ (ok rejected, record empty { objects = ("approval-1", rejected) ∷ [] })
unfolding decide Action.◌>>=◌ lift guard branch raise pure read get_object lookup get has holds
    is_expired decide_pending contains update_status with_status replaces_protected has_any has_both
    require save insert set update set_default in_set
decided = refl

decide-IsAuthorized_example :
    IsAuthorized
      (λ t. t)
      (λ _. "")
      (λ _ _. false)
      (λ t. t)
      texts
      held
      "approval-1"
      "ada"
      "REJECTED"
      "now"
      (str "no tests")
      "sha256:1"
decide-IsAuthorized_example =
    decide-IsAuthorized (λ t. t) (λ _. "") (λ _ _. false) (λ t. t) texts held
      (record empty { objects = ("approval-1", rejected) ∷ [] }) "approval-1" "ada" "REJECTED" "now"
      (str "no tests") "sha256:1" "now" rejected decided

stranger : (run "eve" "sha256:1").0 ≡ err unauthorized
unfolding decide Action.◌>>=◌ lift guard branch raise pure read get_object lookup get has holds
    is_expired decide_pending contains update_status with_status replaces_protected has_any has_both
    require save insert set update set_default in_set record_unauthorized_attempt append_event
    copy_and_validate Objects.create create_at create_new insert_object index index_at
    workflow_execution_id task_execution_id
stranger = refl

decide-IsRefused_example : IsRefused "approval-1" approval (run "eve" "sha256:1")
unfolding get_object lookup get has holds
decide-IsRefused_example =
    decide-IsRefused "approval-1" approval (λ _. "") (λ t. t) (λ t. t) (λ _ _. false) texts held
      "approval-1" "eve" "REJECTED" "now" (str "no tests") "sha256:1" "now" approval refl refl refl
