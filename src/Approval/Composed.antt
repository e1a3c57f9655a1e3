-- ===== src/Approval/Composed.antt =====
-- src/aep/approval.py: a request, and a decision on it.
use mathlib.Core.Path.{subst}
use agent_engineering_platfo.Prelude.{
  String, ◌≡◌, refl, sym, ap, ◌∙◌, Bool, true, false, none, some, String_eq,
}
use agent_engineering_platfo.Action.{Result, ok, guard_case, lift_case}
use agent_engineering_platfo.Dict.{lookup}
use agent_engineering_platfo.Json.{Json, Items, Fields, str, get, has}
use agent_engineering_platfo.Store.Rules.{item_value}
use agent_engineering_platfo.Store.State.{Store, is_text, text_or}
use agent_engineering_platfo.Store.Objects.{holds}
use agent_engineering_platfo.Store.Transitions.{create_approval_request}
use agent_engineering_platfo.Approval.Gate.{Instants, stripped, decide}
use agent_engineering_platfo.Approval.Request.{
  ApprovalRequest, approval_record, request_key, request, reviewer_items,
}
use agent_engineering_platfo.Approval.Requested.{get-parts, create_approval_request-stored}
use agent_engineering_platfo.Approval.Rejection.{IsOpen, IsDecided, decide-IsDecided}

module _ (render : Json → String) (decision : Fields) (q : ApprovalRequest) where
  module _ (provenance : Fields) (trace_id workflow_id task_id decision_id : Json) (refs : Items)
      (action : Json) where
    abbrev requested : Fields
    requested =
        approval_record render decision q provenance trace_id workflow_id task_id decision_id refs
          action

    requested-IsOpen :
        q.expires_at ≡ none → IsOpen (reviewer_items q.authorized_reviewers) q.digest requested
    unfolding approval_record get has
    requested-IsOpen lasting = record {
      kind_is = (get-parts "kind" q.artifact_digests q.target q.expires_at _ lasting refl refl).0;
      status_is =
          (get-parts "status" q.artifact_digests q.target q.expires_at _ lasting refl refl).0;
      lasts =
          (get-parts "expiresAt" q.artifact_digests q.target q.expires_at _ lasting refl refl).0;
      has_list =
          (get-parts "authorizedReviewers" q.artifact_digests q.target q.expires_at _ lasting refl
            refl).1;
      listed =
          (get-parts "authorizedReviewers" q.artifact_digests q.target q.expires_at _ lasting refl
            refl).0;
      bound =
          (get-parts "artifactRequestDigest" q.artifact_digests q.target q.expires_at _ lasting refl
            refl).0;
    }

    requested_id : q.expires_at ≡ none → get "id" requested ≡ str q.approval_id
    unfolding approval_record get
    requested_id lasting =
        (get-parts "id" q.artifact_digests q.target q.expires_at _ lasting refl refl).0

  -- What a request that returns leaves: its record, open for a decision, under its id.
  record IsRequested (r : Fields) (t : Store) : Type 0 where
    waits : IsOpen (reviewer_items q.authorized_reviewers) q.digest r
    found : lookup q.approval_id t.objects ≡ some r

  request-IsRequested :
      (r : Fields) (s t : Store)
      → q.expires_at ≡ none
      → lookup (request_key render (get "id" decision) q.digest) s.deterministic_keys ≡ none
      → request render decision q s ≡ (ok r, t)
      → IsRequested r t
  unfolding request
  request-IsRequested r s t lasting fresh =
      guard_case Q _ _ _ s (λ _ h. absurd (cc))
        (λ _.
          guard_case Q _ _ _ s (λ _ h. absurd (cc))
            (λ _.
              lift_case Q _ _ s (λ _ _ h. absurd (cc))
                (λ trace_id _.
                  lift_case Q _ _ s (λ _ _ h. absurd (cc))
                    (λ provenance_value _.
                      lift_case Q _ _ s (λ _ _ h. absurd (cc))
                        (λ provenance _.
                          lift_case Q _ _ s (λ _ _ h. absurd (cc))
                            (λ workflow_id _.
                              lift_case Q _ _ s (λ _ _ h. absurd (cc))
                                (λ task_id _.
                                  lift_case Q _ _ s (λ _ _ h. absurd (cc))
                                    (λ decision_id id_is.
                                      lift_case Q _ _ s (λ _ _ h. absurd (cc))
                                        (λ _ _.
                                          lift_case Q _ _ s (λ _ _ h. absurd (cc))
                                            (λ refs _.
                                              lift_case Q _ _ s (λ _ _ h. absurd (cc))
                                                (λ action _ made.
                                                  stored provenance trace_id workflow_id task_id
                                                    decision_id refs action
                                                    (item_value "id" decision decision_id id_is)
                                                    made)))))))))))
    where
      Q : Result Fields × Store → Type 0
      Q x = x ≡ (ok r, t) → IsRequested r t

      stored :
          (provenance : Fields) (trace_id workflow_id task_id decision_id : Json) (refs : Items)
          (action : Json)
          → decision_id ≡ get "id" decision
          → create_approval_request render
              (requested provenance trace_id workflow_id task_id decision_id refs action)
              (request_key render decision_id q.digest)
              q.expected_current_approval_id
              q.timestamp
              s
            ≡ (ok r, t)
          → IsRequested r t
      stored provenance trace_id workflow_id task_id decision_id refs action id_is made =
          let v = requested provenance trace_id workflow_id task_id decision_id refs action in
          let waits =
            requested-IsOpen provenance trace_id workflow_id task_id decision_id refs action
              lasting in
          let named =
            requested_id provenance trace_id workflow_id task_id decision_id refs action lasting in
          let unused =
            ap (λ x. lookup (request_key render x q.digest) s.deterministic_keys) id_is ∙ fresh in
          let other : is_text "TaskExecution" (get "kind" v) ≡ false =
            ap (λ x. is_text "TaskExecution" x) waits.kind_is in
          let (same, there) =
            create_approval_request-stored render v r (request_key render decision_id q.digest)
              q.expected_current_approval_id q.timestamp s t unused other made in
          record {
            waits =
                subst (IsOpen (reviewer_items q.authorized_reviewers) q.digest) (sym same) waits;
            found =
                sym (ap (λ x. lookup (text_or "" x) t.objects) named) ∙ there ∙ ap some (sym same);
          }

  -- Where a request returns under a deterministic key that is new and never expires, one of its
  -- reviewers can reject it: the decision with its digest and a reason that is not blank returns an
  -- object of status REJECTED.
  pub decide-request :
      (strip : String → String) (in_text : String → String → Bool) (short_hash : String → String)
      (d : Instants) (r : Fields) (s t : Store) (actor time text now : String) (reason : Json)
      → q.expires_at ≡ none
      → lookup (request_key render (get "id" decision) q.digest) s.deterministic_keys ≡ none
      → request render decision q s ≡ (ok r, t)
      → holds actor (reviewer_items q.authorized_reviewers) ≡ true
      → stripped strip reason ≡ ok text
      → IsDecided "REJECTED" (
          decide strip render in_text short_hash d q.approval_id actor "REJECTED" time reason
            q.digest now t)
  decide-request strip in_text short_hash d r s t actor time text now reason lasting fresh made
        listed given =
      let asked = request-IsRequested r s t lasting fresh made in
      decide-IsDecided strip render in_text short_hash d q.approval_id time text actor now q.digest
        reason (reviewer_items q.authorized_reviewers) r t asked.found asked.waits listed given
