-- ===== src/CapabilityPolicy/Matching.antt =====
-- src/aep/capability_policy.py: the rules that match a request, and the most restrictive of them.
-- `is_schema` is `Draft202012Validator.check_schema`, `is_valid` the validator's `is_valid`.
use agent_engineering_platfo.Prelude.{
  ℕ, zero, suc, String, Bool, true, false, Option, none, some, List, [], ◌∷◌, ◌++◌, String_eq,
  contains, ltb, if◌then◌else◌,
}
use agent_engineering_platfo.Action.{Error, value_error}
use agent_engineering_platfo.Outcome.{Outcome, returned, ◌>>=◌, ◌>>◌, ensure}
use agent_engineering_platfo.Json.{Json, Fields}
use agent_engineering_platfo.CapabilityPolicy.{
  PolicyDecision, allow, require_approval, deny, Rule, PolicyRef, Policy, MatchedRule,
}
use agent_engineering_platfo.CapabilityPolicy.Policies.{same_ref}

-- `_DECISION_PRIORITY`
abbrev pub priority : PolicyDecision → ℕ
priority allow = 0
priority require_approval = 1
priority deny = 2

module _ (is_schema : Fields → Bool) (is_valid : Fields → Json → Bool) where
  -- `conditions is not None and not _conditions_match(…)`, negated
  unfoldable pub conditions_match : Option Fields → Json → Outcome Error Bool
  conditions_match none policy_input = returned true
  conditions_match (some conditions) policy_input = do
    ensure (is_schema conditions) value_error
    returned (is_valid conditions policy_input)

  -- Whether a rule applies to the capability.
  unfoldable pub rule_applies : String → Json → Rule → Outcome Error Bool
  rule_applies capability policy_input rule =
      if contains rule.capabilities capability
      then conditions_match rule.conditions policy_input
      else returned false

  module _ (capability : String) (policy_input : Json) where
    -- The loop over the rules of one policy.
    unfoldable pub matched_of : Policy → ℕ → List Rule → Outcome Error (List MatchedRule)
    matched_of policy index [] = returned []
    matched_of policy index (rule ∷ rules) = do
      applies ← rule_applies capability policy_input rule
      rest ← matched_of policy (suc index) rules
      let matched : MatchedRule = record {
        scope = policy.scope;
        policy_ref = policy.ref;
        rule_index = index;
        effect = rule.effect;
      }
      returned (if applies then matched ∷ rest else rest)

    unfoldable pub matched_rules : List Policy → Outcome Error (List MatchedRule)
    matched_rules [] = returned []
    matched_rules (policy ∷ policies) = do
      first ← matched_of policy 0 policy.rules
      rest ← matched_rules policies
      returned (first ++ rest)

-- `max(…)`: the first rule of the highest priority.
unfoldable pub winner : MatchedRule → List MatchedRule → MatchedRule
winner best [] = best
winner best (r ∷ rs) =
    winner (if ltb (priority best.effect) (priority r.effect) then r else best) rs

abbrev pub winning_rule : List MatchedRule → Option MatchedRule
winning_rule [] = none
winning_rule (r ∷ rs) = some (winner r rs)

-- `decision`
abbrev pub decision_of : Option MatchedRule → PolicyDecision
decision_of none = deny
decision_of (some r) = r.effect

-- `next(binding for binding in policies if …)`; the winning rule's policy is one of them.
unfoldable pub policy_named : PolicyRef → List Policy → Option Policy
policy_named ref [] = none
policy_named ref (p ∷ ps) = if same_ref p.ref ref then some p else policy_named ref ps

-- rules[index]
unfoldable pub rule_at : List Rule → ℕ → Option Rule
rule_at [] index = none
rule_at (r ∷ rs) zero = some r
rule_at (r ∷ rs) (suc index) = rule_at rs index
