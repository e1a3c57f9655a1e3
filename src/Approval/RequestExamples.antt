-- ===== src/Approval/RequestExamples.antt =====
-- Tests of a request and the decision on it.
use agent_engineering_platfo.Prelude.{String, ◌≡◌, refl, true, false, none, some, [], ◌∷◌}
use agent_engineering_platfo.Action
use agent_engineering_platfo.Action.{
  Error, Result, ok, err, approval_error, lift, guard, branch, raise, pure, read,
}
use agent_engineering_platfo.Store.Snapshot.{atomic}
use agent_engineering_platfo.Dict.{insert, lookup}
use agent_engineering_platfo.Json.{
  Json, str, arr, obj, nil, cons, Fields, end, field, get, has, set,
}
use agent_engineering_platfo.Store.State.{
  copy_and_validate, index, index_at, workflow_execution_id, task_execution_id, Store, empty,
  require, save,
}
use agent_engineering_platfo.Store.Objects
use agent_engineering_platfo.Store.Objects.{create_at, create_new, insert_object, holds}
use agent_engineering_platfo.Store.Transitions.{create_approval_request}
use agent_engineering_platfo.Approval.Gate.{Instants, decide}
use agent_engineering_platfo.Approval.Request.{
  ApprovalRequest, approval_record, unique_refs, put_ref, request,
}
use agent_engineering_platfo.Approval.Rejection.{IsDecided}
use agent_engineering_platfo.Approval.Composed.{decide-request}

abbrev policy_ref : String → Json
policy_ref name =
    obj (field "kind" (str "Policy") (field "name" (str name) (field "version" (str "1.0.0") end)))

abbrev asking : Fields
asking = field "decision" (str "REQUIRE_APPROVAL") (
    field "id" (str "decision-1") (
      field "traceId" (str "trace") (
        field "provenance" (obj (field "workflowExecutionId" (str "run-1") end)) (
          field "taskExecutionId" (str "task-1") (
            field "policyRefs" (arr (cons (policy_ref "push") (cons (policy_ref "merge") nil)))
              (field "action" (str "push") end))))))

abbrev question : ApprovalRequest
question = record {
  approval_id = "approval-1";
  requester = "agent";
  timestamp = "now";
  digest = "sha256:1";
  authorized_reviewers = "ada" ∷ "bob" ∷ [];
  expires_at = none;
  target = some (field "branch" (str "main") end);
  artifact_digests = none;
  approval_policy_refs = cons (policy_ref "push") nil;
  expected_current_approval_id = none;
}

abbrev waiting : Fields
waiting =
    field "id" (str "task-1")
      (field "kind" (str "TaskExecution") (field "status" (str "AWAITING_APPROVAL") end))

abbrev before : Store
before = record empty { objects = ("task-1", waiting) ∷ [] }

abbrev made : Result Fields × Store
made = request (λ _. "") asking question before

-- The record that is stored.
abbrev asked : Fields
asked =
    approval_record (λ _. "") asking question (field "workflowExecutionId" (str "run-1") end)
      (str "trace") (str "run-1") (str "task-1") (str "decision-1")
      (cons (policy_ref "push") (cons (policy_ref "merge") nil)) (str "push")

abbrev texts : Instants
texts = record {
  Instant = String;
  parse = λ t. some t;
  has_zone = λ t. true;
  at_least = λ a b. true;
}

-- The references are in order, and once each.
in_order :
    unique_refs
      (λ _. "")
      (cons (policy_ref "push") (cons (policy_ref "merge") (cons (policy_ref "push") nil)))
      nil
    ≡ cons (policy_ref "merge") (cons (policy_ref "push") nil)
unfolding unique_refs put_ref get
in_order = refl

nobody :
    (request (λ _. "") asking (record question { authorized_reviewers = [] }) before).0
    ≡ err (approval_error "APPROVAL_REVIEWERS_MISSING")
unfolding request Action.◌>>=◌ get
nobody = refl

request_returns : made ≡ (ok asked, made.1)
unfolding request Action.◌>>=◌ get has create_approval_request atomic Objects.create
    copy_and_validate approval_record set create_at lookup create_new require insert_object index
    insert branch guard lift pure read put_ref unique_refs Objects.stored index_at save
    task_execution_id workflow_execution_id
request_returns = refl

decide-request_example : IsDecided "REJECTED" (
    decide
      (λ t. t)
      (λ _. "")
      (λ _ _. false)
      (λ t. t)
      texts
      "approval-1"
      "bob"
      "REJECTED"
      "later"
      (str "no tests")
      "sha256:1"
      "later"
      made.1)
unfolding lookup holds
decide-request_example =
    decide-request (λ _. "") asking question (λ t. t) (λ _ _. false) (λ t. t) texts asked before
      made.1 "bob" "later" "no tests" "later" (str "no tests") refl refl request_returns refl refl
