-- ===== src/Approval/Authorized.antt =====
-- src/aep/approval.py: who decides, on what evidence, and how.
use agent_engineering_platfo.Prelude.{
  String, ◌≡◌, Bool, true, false, not, Option, none, some, str_eq, arith, contains, String_eq, ap,
  ◌∙◌, ◌⊎◌, inl, inr,
}
use agent_engineering_platfo.Action.{
  Result, ok, raise, read_case, guard_case, lift_case, branch_case, step_case,
}
use agent_engineering_platfo.Json.{Json, str, Fields, get}
use agent_engineering_platfo.Store.State.{Store, is_text}
use agent_engineering_platfo.Store.Objects.{get_object}
use agent_engineering_platfo.Approval.Gate.{
  Instants, request_of, is_reviewer, is_expired, verdicts, stripped, decide_pending, decide_again,
  decide,
}

request_of-some :
    (o : Option Fields) (v : Fields)
    → request_of o ≡ ok v
    → (o ≡ some v) × (is_text "Approval" (get "kind" v) ≡ true)
request_of-some none v h = absurd cc
request_of-some (some w) v h = ground arith

stripped-str :
    (strip : String → String) (reason : Json) (t : String)
    → stripped strip reason ≡ ok t
    → str_eq t "" ≡ false
stripped-str strip (str r) t h = ground arith
stripped-str strip _ t h = absurd cc

true_of : (b : Bool) → not b ≡ false → b ≡ true
true_of b h = ground arith

-- A new decision: the request is pending, the decision is one of the two and the reason is not blank.
abbrev pub IsNew : (String → String) → Fields → String → Json → Type 0
IsNew strip approval decision reason =
    (is_text "PENDING" (get "status" approval) ≡ true)
    × (contains verdicts decision ≡ true)
    × (t : String) × ((stripped strip reason ≡ ok t) × (str_eq t "" ≡ false))

-- The same decision again, by the same reviewer.
abbrev pub IsRepeated : Fields → String → String → Type 0
IsRepeated approval actor decision =
    (is_text actor (get "approver" approval) ≡ true)
    × (is_text decision (get "status" approval) ≡ true)

decide_pending-lem :
    (strip : String → String) (approval : Fields) (approval_id actor decision timestamp : String)
    (reason : Json) (now : String) (s t : Store) (r : Fields)
    → is_text "PENDING" (get "status" approval) ≡ true
    → decide_pending strip approval approval_id actor decision timestamp reason now s ≡ (ok r, t)
    → IsNew strip approval decision reason
unfolding decide_pending
decide_pending-lem strip approval approval_id actor decision timestamp reason now s t r pending =
    guard_case Q _ _ _ s (λ _ h. absurd (cc))
      (λ known.
        lift_case Q _ _ s (λ _ _ h. absurd (cc))
          (λ text text_is _.
            (pending, known, text, (text_is, stripped-str strip reason text text_is))))
  where
    Q : Result Fields × Store → Type 0
    Q x = x ≡ (ok r, t) → IsNew strip approval decision reason

decide_again-lem :
    (approval : Fields) (approval_id actor decision timestamp : String) (s t : Store) (r : Fields)
    → decide_again approval approval_id actor decision timestamp s ≡ (ok r, t)
    → IsRepeated approval actor decision
unfolding decide_again
decide_again-lem approval approval_id actor decision timestamp s t r =
    guard_case Q _ _ _ s (λ _ h. absurd (cc)) (λ same _. ground arith)
  where
    Q : Result Fields × Store → Type 0
    Q x = x ≡ (ok r, t) → IsRepeated approval actor decision

module _ (strip : String → String) (render : Json → String) (in_text : String → String → Bool)
    (short_hash : String → String) (d : Instants) where
  -- The stored request names the actor as a reviewer and binds the digest, and it has not expired.
  abbrev pub IsAuthorized : Store → String → String → String → String → Json → String → Type 0
  IsAuthorized s approval_id actor decision timestamp reason current_digest =
      (approval : Fields) × ((get_object s approval_id ≡ some approval)
        × (is_text "Approval" (get "kind" approval) ≡ true)
        × (is_reviewer in_text actor approval ≡ ok true)
        × (is_text current_digest (get "artifactRequestDigest" approval) ≡ true)
        × (is_expired d timestamp approval ≡ ok false)
        × (IsNew strip approval decision reason ⊎ IsRepeated approval actor decision))

  found_request :
      (s : Store) (approval_id actor decision timestamp : String) (reason : Json)
      (current_digest : String) (approval : Fields) (reviewer expired : Bool)
      → request_of (get_object s approval_id) ≡ ok approval
      → is_reviewer in_text actor approval ≡ ok reviewer
      → not reviewer ≡ false
      → is_text current_digest (get "artifactRequestDigest" approval) ≡ true
      → is_expired d timestamp approval ≡ ok expired
      → expired ≡ false
      → IsNew strip approval decision reason ⊎ IsRepeated approval actor decision
      → IsAuthorized s approval_id actor decision timestamp reason current_digest
  found_request s approval_id actor decision timestamp reason current_digest approval reviewer
        expired found reviewer_is named bound expired_is in_time decided =
      let (stored, kind_is) = request_of-some _ approval found in
      (
        approval,
        (
          stored,
          kind_is,
          reviewer_is ∙ ap ok (true_of reviewer named),
          bound,
          expired_is ∙ ap ok in_time,
          decided,
        ),
      )

  -- Where a decision returns, the store held the request, the actor is among its authorized
  -- reviewers, the current digest is the one the request is bound to and the request has not expired;
  -- and either it was pending, the decision is APPROVED or REJECTED and the reason is not blank, or
  -- the same reviewer had made the same decision before.
  pub decide-IsAuthorized :
      (s t : Store) (approval_id actor decision timestamp : String) (reason : Json)
      (current_digest now : String) (r : Fields)
      → decide strip render in_text short_hash d approval_id actor decision timestamp reason
          current_digest now s
        ≡ (ok r, t)
      → IsAuthorized s approval_id actor decision timestamp reason current_digest
  unfolding decide raise
  decide-IsAuthorized s t approval_id actor decision timestamp reason current_digest now r =
      read_case Q _ s (
        lift_case Q _ _ s (λ _ _ h. absurd (cc))
          (λ approval found.
            lift_case Q _ _ s (λ _ _ h. absurd (cc))
              (λ reviewer reviewer_is.
                branch_case Q _ _ _ s
                  (λ _. step_case Q _ _ s (λ _ _ _ h. absurd (cc)) (λ _ u _ h. absurd (cc)))
                  (λ named.
                    guard_case Q _ _ _ s (λ _ h. absurd (cc))
                      (λ bound.
                        lift_case Q _ _ s (λ _ _ h. absurd (cc))
                          (λ expired expired_is.
                            branch_case Q _ _ _ s
                              (λ _.
                                step_case Q _ _ s (λ _ _ _ h. absurd (cc)) (λ _ u _ h. absurd (cc)))
                              (λ in_time.
                                branch_case Q _ _ _ s
                                  (λ pending h.
                                    found_request s approval_id actor decision timestamp reason
                                      current_digest approval reviewer expired found reviewer_is
                                      named bound expired_is in_time
                                      (inl (
                                        decide_pending-lem strip approval approval_id actor decision
                                          timestamp reason now s t r pending h)))
                                  (λ _ h.
                                    found_request s approval_id actor decision timestamp reason
                                      current_digest approval reviewer expired found reviewer_is
                                      named bound expired_is in_time
                                      (inr (
                                        decide_again-lem approval approval_id actor decision
                                          timestamp s t r h))))))))))
    where
      Q : Result Fields × Store → Type 0
      Q x =
          x ≡ (ok r, t) → IsAuthorized s approval_id actor decision timestamp reason current_digest
