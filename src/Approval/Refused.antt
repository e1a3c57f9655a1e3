-- ===== src/Approval/Refused.antt =====
-- src/aep/approval.py: the answer to an actor who is no authorized reviewer.
use mathlib.Core.Path.{subst}
use agent_engineering_platfo.Prelude.{
  String, ◌≡◌, refl, sym, ap, ◌∙◌, Bool, true, false, not, some, arith, eq_iff, String_eq,
}
use agent_engineering_platfo.Action.{
  Error, Result, ok, err, unauthorized, raise, read_case, lift_case, branch_case, step_case,
  lift_rule,
}
use agent_engineering_platfo.Dict.{lookup, lookup-insert}
use agent_engineering_platfo.Json.{Json, Fields, get}
use agent_engineering_platfo.Store.State.{Store, text_or, index}
use agent_engineering_platfo.Store.Objects.{get_object, insert_object, append_event}
use agent_engineering_platfo.Store.Rules.{append_event_rule}
use agent_engineering_platfo.Approval.Gate.{
  Instants, request_of, is_reviewer, record_unauthorized_attempt, decide,
}

module _ (i : String) (v : Fields) where
  abbrev IsHeld : Store → Type 0
  IsHeld s = lookup i s.objects ≡ some v

  -- The call raised and the object stands as it stood.
  abbrev pub IsRefused : Result Fields × Store → Type 0
  IsRefused x = ((e : Error) × (x.0 ≡ err e)) × IsHeld x.1

  append_event-IsHeld : (event : Fields) (s : Store) → IsHeld s → IsHeld (append_event event s).1
  unfolding insert_object index
  append_event-IsHeld event s h =
      append_event_rule IsHeld event s h (λ key o is_event new_key new_id. ground (
        arith,
        lookup-insert (text_or "" (get "id" event)) i event s.objects,
        eq_iff (text_or "" (get "id" event)) i,
        h,
      ))

  module _ (render : Json → String) (short_hash : String → String) where
    record_unauthorized_attempt-IsHeld :
        (approval : Fields) (actor decision timestamp : String) (s : Store)
        → IsHeld s
        → IsHeld
            (record_unauthorized_attempt render short_hash approval actor decision timestamp s).1
    unfolding record_unauthorized_attempt
    record_unauthorized_attempt-IsHeld approval actor decision timestamp s h =
        lift_rule IsHeld _ _ s h (λ id _. lift_rule IsHeld _ _ s h (λ trace_id _.
          lift_rule IsHeld _ _ s h
            (λ workflow_id _. lift_rule IsHeld _ _ s h (λ task_id _. append_event-IsHeld _ s h))))

    module _ (strip : String → String) (in_text : String → String → Bool) (d : Instants) where
      -- An actor who is not among the reviewers of the stored request gets an error, and every stored
      -- object stays as it was, the request included.
      pub decide-IsRefused :
          (s : Store) (approval_id actor decision timestamp : String) (reason : Json)
          (current_digest now : String) (approval : Fields)
          → request_of (get_object s approval_id) ≡ ok approval
          → is_reviewer in_text actor approval ≡ ok false
          → lookup i s.objects ≡ some v
          → IsRefused (
              decide strip render in_text short_hash d approval_id actor decision timestamp reason
                current_digest now s)
      unfolding decide raise
      decide-IsRefused s approval_id actor decision timestamp reason current_digest now approval
            found stranger h =
          read_case IsRefused _ s (
            lift_case IsRefused _ _ s (λ e failed. absurd (cc))
              (λ a a_is.
                lift_case IsRefused _ _ s (λ e failed. ((e, refl), h))
                  (λ b b_is.
                    branch_case IsRefused _ _ _ s
                      (λ _.
                        step_case IsRefused _ _ s
                          (λ e t after. ((e, refl), held_after a t (err e) after))
                          (λ r t after. ((unauthorized, refl), held_after a t (ok r) after)))
                      (λ named. absurd (named_contradicts b a a_is b_is named)))))
        where
          held_after :
              (a : Fields) (t : Store) (r : Result Fields)
              → record_unauthorized_attempt render short_hash a actor decision timestamp s ≡ (r, t)
              → IsHeld t
          held_after a t r after =
              subst IsHeld (ap (λ x. x.1) after)
                (record_unauthorized_attempt-IsHeld a actor decision timestamp s h)

          named_contradicts :
              (b : Bool) (a : Fields)
              → request_of (get_object s approval_id) ≡ ok a
              → is_reviewer in_text actor a ≡ ok b
              → not b ≡ false
              → ⊥
          named_contradicts true a a_is b_is named =
              let same : approval ≡ a = cc (found, a_is) in
              let other : ok false ≡ ok true =
                sym (subst (λ x. is_reviewer in_text actor x ≡ ok false) same stranger) ∙ b_is in
              absurd (cc)
          named_contradicts false a a_is b_is named = absurd (cc)
