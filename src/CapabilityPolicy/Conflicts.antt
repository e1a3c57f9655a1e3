-- ===== src/CapabilityPolicy/Conflicts.antt =====
-- src/aep/capability_policy.py: a decision id that stands for other inputs.
use Prim.Native.String.{◌++◌ as text_append}
use text.Mathlib.TextLemmas.{append-eq-nil_iff}
use agent_engineering_platfo.Prelude.{
  Bool-cases, inl, inr, ℕ, ◌≡◌, refl, ap, ◌∙◌, String, Bool, true, false, not, none, some, List,
  arith, eq_iff, str_eq, String_eq,
}
use agent_engineering_platfo.Action.{
  Error, Result, err, already_exists, identity_conflict, lift_ok, lift_case, guard_case, read_case,
}
use agent_engineering_platfo.Outcome.{
  Outcome, returned, raised, ensure_case, Returns, Returns-returned,
}
use agent_engineering_platfo.Dict.{lookup}
use agent_engineering_platfo.Json.{Json, Fields, get}
use agent_engineering_platfo.Store.State.{Store, text_or}
use agent_engineering_platfo.Store.Objects
use agent_engineering_platfo.Store.Rules.{IsObject, copy_and_validate_of}
use agent_engineering_platfo.Task.Correlation.{Correlation, CorrelationContext}
use agent_engineering_platfo.Task.Lifecycle.{to_result}
use agent_engineering_platfo.CapabilityPolicy.{ApplicablePolicy, Policy}
use agent_engineering_platfo.CapabilityPolicy.Records.{Request, decision_record, decision_key}
use agent_engineering_platfo.CapabilityPolicy.Verdicts.{Verdict, verdict}
use agent_engineering_platfo.CapabilityPolicy.Evaluation.{create_decision, or_conflict, evaluate}

-- A creation under a new key of an object whose id is taken raises and changes nothing.
create_taken :
    (v w : Fields) (key : String) (s : Store)
    → IsObject v
    → str_eq key "" ≡ false
    → lookup key s.deterministic_keys ≡ none
    → lookup (text_or "" (get "id" v)) s.objects ≡ some w
    → Objects.create v key s ≡ (err already_exists, s)
unfolding Objects.create Objects.create_at Objects.create_new
create_taken v w key s valid named fresh taken =
    lift_case Q _ _ s (λ e h. absurd (cc (copy_and_validate_of v valid)))
      (λ value h.
        guard_case Q _ _ _ s (λ e. ground (arith, named))
          (λ _. read_case Q _ s (
            let same : v ≡ value = cc (copy_and_validate_of v valid) in
            rw (fresh, ← same, taken, Objects.create_new) refl)))
  where
    Q : Result Fields × Store → Type 0
    Q x = x ≡ (err already_exists, s)

no_prefix : (d : String) → text_append "pre-execution-policy:" d ≡ "" → ⊥
no_prefix d h =
    let empty = (eq_iff "pre-execution-policy:" "").1 (append-eq-nil_iff.0 h).0 in absurd (cc empty)

decision_key-named :
    (digest : Json → String) (q : Request) (context : CorrelationContext) (policies : List Policy)
    → str_eq (decision_key digest q context policies) "" ≡ false
unfolding decision_key
decision_key-named digest q context policies =
    elim (Bool-cases (str_eq (decision_key digest q context policies) "")) [
      | inl h ↦ absurd (no_prefix _ ((eq_iff _ "").0 h))
      | inr h ↦ h
    ]

module _ (strip : String → String) (decimal : ℕ → String) (digest : Json → String)
    (is_semver : String → Bool) (is_schema : Fields → Bool) (is_valid : Fields → Json → Bool) where
  verdict-named :
      (q : Request) (bindings : List ApplicablePolicy) (correlation : Correlation)
      → Returns
          (λ _. not (str_eq q.decision_id "") ≡ true)
          (verdict strip decimal is_semver is_schema is_valid q bindings correlation)
  unfolding verdict
  verdict-named q bindings correlation =
      ensure_case Q _ _ _ (λ _. tt) (λ named. any_returns named _)
    where
      any_returns :
          not (str_eq q.decision_id "") ≡ true
          → (o : Outcome Error (Verdict strip decimal is_semver is_schema is_valid))
          → Returns (λ _. not (str_eq q.decision_id "") ≡ true) o
      any_returns h (returned v) = h
      any_returns h (raised e) = tt

      Q : Outcome Error (Verdict strip decimal is_semver is_schema is_valid) → Type 0
      Q = Returns (λ _. not (str_eq q.decision_id "") ≡ true)

  -- An evaluation whose decision id stands for another object in the store, under a key that the store
  -- does not have, raises the conflict of identities and changes nothing.
  pub evaluate_conflicts :
      (q : Request) (bindings : List ApplicablePolicy) (correlation : Correlation) (s : Store)
      (v : Verdict strip decimal is_semver is_schema is_valid) (w : Fields)
      → verdict strip decimal is_semver is_schema is_valid q bindings correlation ≡ returned v
      → lookup (decision_key digest q v.context v.policies) s.deterministic_keys ≡ none
      → lookup q.decision_id s.objects ≡ some w
      → evaluate strip decimal digest is_semver is_schema is_valid q bindings correlation s
        ≡ (err identity_conflict, s)
  unfolding evaluate create_decision decision_record get
  evaluate_conflicts q bindings correlation s v w made fresh taken =
      lift_ok _ s _ v (ap to_result made)
      ∙ ap (λ x. (or_conflict x.0, x.1))
          (create_taken (decision_record q v.context v.policies v.matched v.reason) w
            (decision_key digest q v.context v.policies) s
            (record {
              id_text = Returns-returned _ _ v (verdict-named q bindings correlation) made;
              kind_text = refl;
            })
            (decision_key-named digest q v.context v.policies) fresh taken)
