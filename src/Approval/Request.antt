-- ===== src/Approval/Request.antt =====
-- `ApprovalGate.request` of src/aep/approval.py, over the store. `digest_of` is the digest of the
-- canonical JSON of a mapping, and `render` Python's `str` on a value that is no text: parameters. The
-- references of policies are mappings, and so is a provenance.
use Prim.Native.String.{◌++◌ as text_append}
use agent_engineering_platfo.Prelude.{
  String, Bool, true, false, not, ◌&&◌, ◌||◌, Option, none, some, List, [], ◌∷◌, str_eq,
  if◌then◌else◌,
}
use agent_engineering_platfo.Action.{
  Result, ok, err, type_error, approval_error, Action, lift, guard, ◌>>=◌, ◌>>◌,
}
use agent_engineering_platfo.Json.{
  Json, str, arr, obj, Items, nil, cons, Fields, end, field, get, has, set, to_text,
}
use agent_engineering_platfo.Store.State.{Store, is_text, item, text_lt}
use agent_engineering_platfo.Store.Transitions.{create_approval_request}

-- The arguments of `request`, but for the decision of the policy.
pub record ApprovalRequest : Type 0 where
  pub approval_id : String
  pub requester : String
  pub timestamp : String
  pub digest : String
  pub authorized_reviewers : List String
  pub expires_at : Option String
  pub target : Option Fields
  pub artifact_digests : Option Fields
  pub approval_policy_refs : Items
  pub expected_current_approval_id : Option String

abbrev pub provenance_of : Json → Result Fields
provenance_of (obj f) = ok f
provenance_of _ = err type_error

abbrev pub reviewer_items : List String → Items
reviewer_items [] = nil
reviewer_items (t ∷ ts) = cons (str t) (reviewer_items ts)

abbrev pub join : Items → Items → Items
join nil ws = ws
join (cons v vs) ws = cons v (join vs ws)

abbrev pub refs_of : Json → Result Items
refs_of (arr vs) = ok vs
refs_of _ = err type_error

abbrev pub is_empty : List String → Bool
is_empty [] = true
is_empty (t ∷ ts) = false

-- `policy_decision.get("repositoryRevision", provenance.get("repositoryRevision"))`
abbrev pub revision_of : Fields → Fields → Json
revision_of decision provenance =
    if has "repositoryRevision" decision
    then get "repositoryRevision" decision
    else get "repositoryRevision" provenance

abbrev pub with_expiry : Option String → Fields → Fields
with_expiry none f = f
with_expiry (some t) f = set "expiresAt" (str t) f

abbrev pub with_mapping : String → Option Fields → Fields → Fields
with_mapping key none f = f
with_mapping key (some m) f = set key (obj m) f

-- `approval_digest`
module _ (digest_of : Fields → String) where
  unfoldable pub approval_digest : String → Fields → String → Fields → String
  approval_digest action target repository_revision artifact_digests = text_append "sha256:" (
      digest_of (
        field "action" (str action) (
          field "target" (obj target) (
            field "repositoryRevision" (str repository_revision)
              (field "artifactDigests" (obj artifact_digests) end)))))

module _ (render : Json → String) where
  abbrev pub key_part : String → Json → String
  key_part key (obj f) = to_text render (get key f)
  key_part key v = to_text render v

  abbrev pub key_before : Json → Json → Bool
  key_before v w =
      text_lt (key_part "kind" v) (key_part "kind" w)
      || (str_eq (key_part "kind" v) (key_part "kind" w)
          && (text_lt (key_part "name" v) (key_part "name" w)
              || (str_eq (key_part "name" v) (key_part "name" w)
                  && text_lt (key_part "version" v) (key_part "version" w))))

  -- A dict that is read in the order of its keys: the last of equal references stays.
  unfoldable pub put_ref : Json → Items → Items
  put_ref v nil = cons v nil
  put_ref v (cons w ws) =
      let rest = put_ref v ws in
      if key_before v w
      then cons v (cons w ws)
      else if key_before w v
      then cons w rest
      else cons v ws

  -- `_unique_refs`
  unfoldable pub unique_refs : Items → Items → Items
  unique_refs nil refs = refs
  unique_refs (cons v vs) refs = unique_refs vs (put_ref v refs)

  -- The record of a request.
  unfoldable pub approval_record :
      Fields → ApprovalRequest → Fields → Json → Json → Json → Json → Items → Json → Fields
  approval_record decision q provenance trace_id workflow_id task_id decision_id refs action =
      with_mapping "artifactDigests" q.artifact_digests (
        with_mapping "target" q.target (
          with_expiry q.expires_at (
            field "apiVersion" (str "aep.dev/v1alpha1") (
              field "kind" (str "Approval") (
                field "id" (str q.approval_id) (
                  field "traceId" trace_id (
                    field "createdAt" (str q.timestamp) (
                      field "updatedAt" (str q.timestamp) (
                        field "provenance" (obj provenance) (
                          field "workflowExecutionId" workflow_id (
                            field "taskExecutionId" task_id (
                              field "policyDecisionId" decision_id (
                                field "requester" (str q.requester) (
                                  field "status" (str "PENDING") (
                                    field "requestedAt" (str q.timestamp) (
                                      field "governingPolicyRefs"
                                        (arr (unique_refs (join refs q.approval_policy_refs) nil))
                                        (field "targetAction" action (
                                          field "repositoryRevision"
                                            (revision_of decision provenance)
                                            (field "artifactRequestDigest" (str q.digest) (
                                              field "authorizedReviewers"
                                                (arr (reviewer_items q.authorized_reviewers))
                                                end))))))))))))))))))))

  abbrev pub request_key : Json → String → String
  request_key decision_id digest =
      text_append "approval:" (text_append (to_text render decision_id) (text_append ":" digest))

  -- `request`
  unfoldable pub request : Fields → ApprovalRequest → Action Store Fields
  request decision q = do
    guard (is_text "REQUIRE_APPROVAL" (get "decision" decision))
        (approval_error "APPROVAL_POLICY_INVALID")
    guard (not (is_empty q.authorized_reviewers)) (approval_error "APPROVAL_REVIEWERS_MISSING")
    trace_id ← lift (item "traceId" decision)
    provenance_value ← lift (item "provenance" decision)
    provenance ← lift (provenance_of provenance_value)
    workflow_id ← lift (item "workflowExecutionId" provenance)
    task_id ← lift (item "taskExecutionId" decision)
    decision_id ← lift (item "id" decision)
    refs_value ← lift (item "policyRefs" decision)
    refs ← lift (refs_of refs_value)
    action ← lift (item "action" decision)
    create_approval_request render
        (approval_record decision q provenance trace_id workflow_id task_id decision_id refs action)
        (request_key decision_id q.digest) q.expected_current_approval_id q.timestamp
