-- ===== src/Approval/Gate.antt =====
-- `ApprovalGate.decide` of src/aep/approval.py, over the store. Parameters: `strip` and `render` are
-- Python's `str.strip` and `str` on a value that is no text, `in_text` its `in` on texts, `short_hash`
-- the first 24 digits of the SHA-256 of a text; `d` reads a timestamp as `datetime.fromisoformat` does
-- and compares two. `now` is the clock that the store reads where it is given no instant.
use Prim.Native.String.{◌++◌ as text_append}
use agent_engineering_platfo.Prelude.{
  String, Bool, false, not, ◌&&◌, Option, none, some, List, [], ◌∷◌, str_eq, contains, String_eq,
  if◌then◌else◌,
}
use agent_engineering_platfo.Action.{
  Result, ok, err, type_error, approval_error, unauthorized, Action, read, lift, guard, branch,
  raise, pure, ◌>>=◌, ◌>>◌,
}
use agent_engineering_platfo.Json.{
  Json, str, int, arr, obj, nil, Fields, end, field, get, has, to_text,
}
use agent_engineering_platfo.Store.State.{Store, is_text, is_null, in_set, item}
use agent_engineering_platfo.Store.Objects.{get_object, append_event, update_status, holds}
use agent_engineering_platfo.Store.Transitions.{wake_approved_task}

-- Instants with a time zone or without one, read from a text with its `Z` replaced.
pub record Instants : Type 1 where
  pub Instant : Type 0
  pub parse : String → Option Instant
  pub has_zone : Instant → Bool
  pub at_least : Instant → Instant → Bool

-- `_timestamp`
module _ (d : Instants) where
  abbrev pub zoned : Option d.Instant → Result d.Instant
  zoned none = err (approval_error "APPROVAL_TIMESTAMP_INVALID")
  zoned (some i) = if d.has_zone i then ok i else err (approval_error "APPROVAL_TIMESTAMP_INVALID")

  unfoldable pub timestamp_of : Json → Result d.Instant
  timestamp_of (str t) = zoned (d.parse t)
  timestamp_of _ = err (approval_error "APPROVAL_TIMESTAMP_INVALID")

  abbrev pub not_before : Result d.Instant → Result d.Instant → Result Bool
  not_before (ok a) (ok b) = ok (d.at_least a b)
  not_before (ok a) (err e) = err e
  not_before (err e) _ = err e

  -- The test of a request's expiry.
  unfoldable pub is_expired : String → Fields → Result Bool
  is_expired timestamp approval =
      if is_text "PENDING" (get "status" approval) && not (is_null (get "expiresAt" approval))
      then not_before (timestamp_of (str timestamp)) (timestamp_of (get "expiresAt" approval))
      else ok false

abbrev pub request_of : Option Fields → Result Fields
request_of none = err (approval_error "APPROVAL_NOT_FOUND")
request_of (some v) =
    if is_text "Approval" (get "kind" v) then ok v else err (approval_error "APPROVAL_NOT_FOUND")

module _ (in_text : String → String → Bool) where
  -- `actor in reviewers`
  abbrev pub among : String → Json → Result Bool
  among actor (arr vs) = ok (holds actor vs)
  among actor (str t) = ok (in_text actor t)
  among actor (obj f) = ok (has actor f)
  among actor _ = err type_error

  abbrev pub is_reviewer : String → Fields → Result Bool
  is_reviewer actor approval =
      if has "authorizedReviewers" approval
      then among actor (get "authorizedReviewers" approval)
      else ok false

-- `_wake_task`
abbrev pub wake_found : String → String → String → Option Fields → Action Store (Unit {0})
wake_found task_id approval_id timestamp none = pure tt
wake_found task_id approval_id timestamp (some task) = do
  waiting ← lift (in_set (get "status" task) ("AWAITING_APPROVAL" ∷ "PENDING" ∷ []))
  branch waiting (do wake_approved_task task_id approval_id timestamp; pure tt) (pure tt)

abbrev pub wake_named : String → String → Json → Action Store (Unit {0})
wake_named approval_id timestamp (str task_id) = do
  s ← read
  wake_found task_id approval_id timestamp (get_object s task_id)
wake_named approval_id timestamp _ = pure tt

unfoldable pub wake_task : Fields → String → String → Action Store (Unit {0})
wake_task approval approval_id timestamp =
    wake_named approval_id timestamp (get "taskExecutionId" approval)

abbrev pub wake_if_approved : String → Fields → String → String → Action Store (Unit {0})
wake_if_approved decision approval approval_id timestamp =
    branch (str_eq decision "APPROVED") (wake_task approval approval_id timestamp) (pure tt)

module _ (render : Json → String) (short_hash : String → String) where
  abbrev pub attempt_key : Json → String → String → String → String
  attempt_key id actor decision timestamp = text_append (to_text render id) (
      text_append ":"
        (text_append actor (text_append ":" (text_append decision (text_append ":" timestamp)))))

  abbrev pub policy_refs : Fields → Json
  policy_refs approval =
      if has "governingPolicyRefs" approval then get "governingPolicyRefs" approval else arr nil

  -- `_record_unauthorized_attempt`
  unfoldable pub record_unauthorized_attempt :
      Fields → String → String → String → Action Store Fields
  record_unauthorized_attempt approval actor decision timestamp = do
    id ← lift (item "id" approval)
    trace_id ← lift (item "traceId" approval)
    workflow_id ← lift (item "workflowExecutionId" approval)
    task_id ← lift (item "taskExecutionId" approval)
    append_event (
        field "apiVersion" (str "aep.dev/v1alpha1") (
          field "kind" (str "ExecutionEvent") (
            field "id"
              (str (
                text_append "executionevent-"
                  (short_hash (attempt_key id actor decision timestamp))))
              (field "traceId" trace_id (
                field "createdAt" (str timestamp) (
                  field "updatedAt" (str timestamp) (
                    field "provenance"
                      (obj (
                        field "actor" (str "approval-gate") (
                          field "workflowExecutionId" workflow_id (
                            field "taskExecutionId" task_id
                              (field "resourceRefs" (policy_refs approval) end)))))
                      (field "eventType" (str "ApprovalAuthorizationDenied") (
                        field "subject" (obj (field "kind" (str "Approval") (field "id" id end))) (
                          field "sequence" (int 1) (
                            field "emittedAt" (str timestamp) (
                              field "payload"
                                (obj (
                                  field "actorIdentity" (str actor) (
                                    field "requestedDecision" (str decision)
                                      (field "reasonCode" (str "UNAUTHORIZED_REVIEWER") end))))
                                end))))))))))))

abbrev pub verdicts : List String
verdicts = "APPROVED" ∷ "REJECTED" ∷ []

module _ (strip : String → String) where
  -- `reason.strip()`, where the reason is a text that is not blank
  abbrev pub stripped : Json → Result String
  stripped (str r) =
      if str_eq (strip r) "" then err (approval_error "APPROVAL_REASON_REQUIRED") else ok (strip r)
  stripped _ = err (approval_error "APPROVAL_REASON_REQUIRED")

  -- The decision on a request that is pending.
  unfoldable pub decide_pending :
      Fields → String → String → String → String → Json → String → Action Store Fields
  decide_pending approval approval_id actor decision timestamp reason now = do
    guard (contains verdicts decision) (approval_error "APPROVAL_DECISION_INVALID")
    text ← lift (stripped reason)
    decided ←
        update_status approval_id decision (some "PENDING") (some timestamp)
          (field "approver" (str actor)
            (field "decidedAt" (str timestamp) (field "reason" (str text) end)))
          now
    wake_if_approved decision approval approval_id timestamp
    pure decided

-- The answer for a request that is not pending.
unfoldable pub decide_again : Fields → String → String → String → String → Action Store Fields
decide_again approval approval_id actor decision timestamp = do
  guard (is_text actor (get "approver" approval) && is_text decision (get "status" approval))
      (approval_error "APPROVAL_ALREADY_DECIDED")
  wake_if_approved decision approval approval_id timestamp
  pure approval

module _ (strip : String → String) (render : Json → String) (in_text : String → String → Bool)
    (short_hash : String → String) (d : Instants) where
  -- `decide`
  unfoldable pub decide :
      String → String → String → String → Json → String → String → Action Store Fields
  decide approval_id actor decision timestamp reason current_digest now = do
    s ← read
    approval ← lift (request_of (get_object s approval_id))
    reviewer ← lift (is_reviewer in_text actor approval)
    branch (not reviewer)
        (do
          record_unauthorized_attempt render short_hash approval actor decision timestamp
          raise unauthorized)
        (do
          guard (is_text current_digest (get "artifactRequestDigest" approval))
              (approval_error "APPROVAL_STALE")
          expired ← lift (is_expired d timestamp approval)
          branch expired
              (do
                update_status approval_id "EXPIRED" (some "PENDING") (some timestamp)
                    (field "decidedAt" (str timestamp)
                      (field "reason" (str "Approval request expired.") end))
                    now
                raise (approval_error "APPROVAL_EXPIRED"))
              (branch (is_text "PENDING" (get "status" approval))
                (decide_pending strip approval approval_id actor decision timestamp reason now)
                (decide_again approval approval_id actor decision timestamp)))
