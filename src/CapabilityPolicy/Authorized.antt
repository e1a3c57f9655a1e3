-- ===== src/CapabilityPolicy/Authorized.antt =====
-- src/aep/capability_policy.py: what a decision to allow says of the policies, and what the hook of the
-- Tool Runtime says of the decisions.
use mathlib.Core.Path.{subst}
use agent_engineering_platfo.Prelude.{
  ◌↔◌, Any, ℕ, ◌≡◌, refl, sym, ap, ◌∙◌, String, Bool, true, false, ◌&&◌, none, List, [], ◌∷◌,
  str_eq, String_eq, All, Option-cases, inl, inr,
}
use agent_engineering_platfo.Action.{
  Error, Result, ok, err, pure, lift_case, guard_case, read_case, step_case, lift_ok, bind_ok,
}
use agent_engineering_platfo.Outcome.{
  Outcome, returned, bind_case, ensure_case, Returns, Returns-returned,
}
use agent_engineering_platfo.Dict.{lookup}
use agent_engineering_platfo.Json.{Json, Fields, get}
use agent_engineering_platfo.Store.State.{Store, text_or, is_text}
use agent_engineering_platfo.Store.Objects
use agent_engineering_platfo.Store.Rules.{copy_and_validate_ok}
use agent_engineering_platfo.Task.Correlation.{Correlation}
use agent_engineering_platfo.Task.Lifecycle.{to_result}
use agent_engineering_platfo.CapabilityPolicy.{
  PolicyDecision, allow, require_approval, deny, ApplicablePolicy, Policy, MatchedRule,
}
use agent_engineering_platfo.CapabilityPolicy.Policies.{validated_policies, sorted_policies}
use agent_engineering_platfo.CapabilityPolicy.Matching.{matched_rules, winning_rule, decision_of}
use agent_engineering_platfo.CapabilityPolicy.Records.{
  Request, policy_input, decision_record, decision_key, decision_text,
}
use agent_engineering_platfo.CapabilityPolicy.Verdicts.{Verdict, verdict}
use agent_engineering_platfo.CapabilityPolicy.Evaluation.{
  create_decision, or_conflict, evaluate, Boundary, ToolRequest, ask, authorize_all, authorize,
}
use agent_engineering_platfo.CapabilityPolicy.Restrictive.{decision_allow}
use agent_engineering_platfo.CapabilityPolicy.Permitted.{
  IsPermitting, IsApplicable, matched_rules-lem,
}
use agent_engineering_platfo.CapabilityPolicy.Sorted.{All-sorted_policies, Any-sorted_policies}

module _ (strip : String → String) (decimal : ℕ → String) (is_semver : String → Bool)
    (is_schema : Fields → Bool) (is_valid : Fields → Json → Bool) where
  -- Every rule that applies allows, and some rule applies.
  pub record IsPermitted (q : Request) (bindings : List ApplicablePolicy) : Type 0 where
    pub policies : List Policy
    pub validated : validated_policies is_semver bindings ≡ returned policies
    pub permitting : All (IsPermitting is_schema is_valid q.capability (policy_input q)) policies
    pub applicable : Any (IsApplicable is_schema is_valid q.capability (policy_input q)) policies

  verdict-IsPermitted :
      (q : Request) (bindings : List ApplicablePolicy) (correlation : Correlation)
      → Returns
          (λ v. decision_of (winning_rule v.matched) ≡ allow → IsPermitted q bindings)
          (verdict strip decimal is_semver is_schema is_valid q bindings correlation)
  unfolding verdict
  verdict-IsPermitted q bindings correlation =
      ensure_case Q _ _ _ (λ _. tt)
        (λ _.
          ensure_case Q _ _ _ (λ _. tt)
            (λ _.
              ensure_case Q _ _ _ (λ _. tt)
                (λ _.
                  ensure_case Q _ _ _ (λ _. tt)
                    (λ _.
                      bind_case Q _ _ (λ e _. tt)
                        (λ context _.
                          ensure_case Q _ _ _ (λ _. tt)
                            (λ _.
                              bind_case Q _ _ (λ e _. tt)
                                (λ policies validated.
                                  bind_case Q _ _ (λ e _. tt)
                                    (λ ms matched.
                                      bind_case Q _ _ (λ e _. tt)
                                        (λ reason _. finish policies validated ms matched)))))))))
    where
      Q : Outcome Error (Verdict strip decimal is_semver is_schema is_valid) → Type 0
      Q = Returns (λ v. decision_of (winning_rule v.matched) ≡ allow → IsPermitted q bindings)

      finish :
          (policies : List Policy)
          → validated_policies is_semver bindings ≡ returned policies
          → (ms : List MatchedRule)
          → matched_rules is_schema is_valid q.capability
              (policy_input q)
              (sorted_policies policies)
            ≡ returned ms
          → decision_of (winning_rule ms) ≡ allow
          → IsPermitted q bindings
      finish policies validated ms matched h =
          let (some_rule, allows) = decision_allow ms h in
          let (permitting, applicable) =
            Returns-returned _ _ ms
              (matched_rules-lem is_schema is_valid q.capability (policy_input q)
                (sorted_policies policies))
              matched in
          record {
            policies = policies;
            validated = validated;
            permitting = All-sorted_policies _ policies (permitting allows);
            applicable = Any-sorted_policies _ policies (applicable some_rule);
          }

-- A creation that returns under a new key returns what it was given.
create_fresh :
    (v r : Fields) (key : String) (s : Store)
    → lookup key s.deterministic_keys ≡ none
    → (Objects.create v key s).0 ≡ ok r
    → r ≡ v
unfolding Objects.create Objects.create_at Objects.create_new
create_fresh v r key s fresh =
    lift_case Q _ _ s (λ _ _ h. cc)
      (λ value valid.
        guard_case Q _ _ _ s (λ _ h. cc)
          (λ named. read_case Q _ s (
            rw fresh (elim (Option-cases (lookup (text_or "" (get "id" value)) s.objects)) [
              | inl e ↦
                  rw (e, Objects.create_new) (λ h. cc ((copy_and_validate_ok v value valid).0))
              | inr (w, e) ↦ rw (e, Objects.create_new) (λ h. cc)
            ]))))
  where
    Q : Result Fields × Store → Type 0
    Q x = x.0 ≡ ok r → r ≡ v

decision_text-allow : (d : PolicyDecision) → str_eq (decision_text d) "ALLOW" ≡ true → d ≡ allow
decision_text-allow allow h = refl
decision_text-allow require_approval h = absurd cc
decision_text-allow deny h = absurd cc

and_both : (a b : Bool) → (a && b) ≡ true → (a ≡ true) × (b ≡ true)
and_both true true h = (refl, refl)
and_both true false h = absurd cc
and_both false b h = absurd cc

or_conflict-ok : (x : Result Fields) (r : Fields) → or_conflict x ≡ ok r → x ≡ ok r
or_conflict-ok (ok v) r h = h
or_conflict-ok (err e) r h = absurd cc

module _ (strip : String → String) (decimal : ℕ → String) (digest : Json → String)
    (is_semver : String → Bool) (is_schema : Fields → Bool) (is_valid : Fields → Json → Bool) where
  -- An evaluation under a key that the store does not have, which returns ALLOW, was asked about
  -- policies that are valid, whose rules that apply to the request all allow, and of which at least
  -- one applies.
  pub evaluate-IsPermitted :
      (q : Request) (bindings : List ApplicablePolicy) (correlation : Correlation) (s : Store)
      (v : Verdict strip decimal is_semver is_schema is_valid) (r : Fields)
      → verdict strip decimal is_semver is_schema is_valid q bindings correlation ≡ returned v
      → lookup (decision_key digest q v.context v.policies) s.deterministic_keys ≡ none
      → (evaluate strip decimal digest is_semver is_schema is_valid q bindings correlation s).0
        ≡ ok r
      → is_text "ALLOW" (get "decision" r) ≡ true
      → IsPermitted strip decimal is_semver is_schema is_valid q bindings
  unfolding evaluate create_decision decision_record get
  evaluate-IsPermitted q bindings correlation s v r made fresh h allowed =
      Returns-returned _ _ v
        (verdict-IsPermitted strip decimal is_semver is_schema is_valid q bindings correlation) made
        (decision_text-allow (decision_of (winning_rule v.matched)) (rw same_record at allowed))
    where
      to_ok :
          (o : Outcome Error (Verdict strip decimal is_semver is_schema is_valid))
          → o ≡ returned v
          → to_result o ≡ ok v
      to_ok o e = ap to_result e

      made_record : Fields
      made_record = decision_record q v.context v.policies v.matched v.reason

      same_record : r ≡ made_record
      same_record =
          create_fresh made_record r (decision_key digest q v.context v.policies) s fresh
            (or_conflict-ok _ r (sym (ap (λ x. x.0) (lift_ok _ s _ v (to_ok _ made))) ∙ h))

  module _ (short_digest : Json → String) where
    -- The run from the first store to the second evaluates the capabilities in turn, each in the store
    -- that the one before it left, and each evaluation returns ALLOW.
    pub data Allowed (b : Boundary) (q : ToolRequest) : List String → Store → Store → Type 0 where
      none_left : (s : Store) → Allowed b q [] s s
      allowed_next :
          (c : String) (cs : List String) (s t u : Store) (r : Fields)
          → ask strip decimal digest short_digest is_semver is_schema is_valid b q c s ≡ (ok r, t)
          → is_text "ALLOW" (get "decision" r) ≡ true
          → Allowed b q cs t u
          → Allowed b q (c ∷ cs) s u

    authorize_all-Allowed :
        (b : Boundary) (q : ToolRequest) (allowed : Bool) (cs : List String) (s t : Store)
        → authorize_all strip decimal digest short_digest is_semver is_schema is_valid b q allowed
            cs s
          ≡ (ok true, t)
        → (allowed ≡ true) × Allowed b q cs s t
    unfolding authorize_all pure
    authorize_all-Allowed b q allowed [] s t h =
        (is_true (ap (λ x. x.0) h), subst (Allowed b q [] s) (ap (λ x. x.1) h) (none_left s))
      where
        is_true : ok allowed ≡ ok true → allowed ≡ true
        is_true e = cc
    authorize_all-Allowed b q allowed (c ∷ cs) s t h =
        step_case Q _ _ s (λ e u _ h. absurd (cc))
          (λ r u asked h.
            let (both, rest) =
              authorize_all-Allowed b q (allowed && is_text "ALLOW" (get "decision" r)) cs u t h in
            let (before, here) = and_both allowed (is_text "ALLOW" (get "decision" r)) both in
            (before, allowed_next c cs s u t r asked here rest))
          h
      where
        Q : Result Bool × Store → Type 0
        Q x = x ≡ (ok true, t) → (allowed ≡ true) × Allowed b q (c ∷ cs) s t

    Allowed-authorize_all :
        (b : Boundary) (q : ToolRequest) {cs : List String} {s t : Store}
        → Allowed b q cs s t
        → authorize_all strip decimal digest short_digest is_semver is_schema is_valid b q true cs s
          ≡ (ok true, t)
    unfolding authorize_all pure
    Allowed-authorize_all b q (none_left s) = refl
    Allowed-authorize_all b q (allowed_next c cs s t u r asked here rest) =
        bind_ok _ s _ r t asked
        ∙ ap
            (λ x.
              authorize_all strip decimal digest short_digest is_semver is_schema is_valid b q x cs
                t)
            here
        ∙ Allowed-authorize_all b q rest

    -- The hook lets a request through, and leaves a store, exactly where its run evaluates the
    -- capabilities of the request in turn and each of these evaluations returns ALLOW.
    pub authorize-Allowed :
        (b : Boundary) (q : ToolRequest) (s t : Store)
        → (authorize strip decimal digest short_digest is_semver is_schema is_valid b q s
            ≡ (ok true, t))
          ↔ Allowed b q q.capabilities s t
    unfolding authorize
    authorize-Allowed b q s t =
        ((λ h. (authorize_all-Allowed b q true q.capabilities s t h).1), Allowed-authorize_all b q)
