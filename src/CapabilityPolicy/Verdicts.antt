-- ===== src/CapabilityPolicy/Verdicts.antt =====
-- src/aep/capability_policy.py: what `evaluate` works out before it asks the store. Parameters: `strip`
-- is Python's `str.strip`; the others are as in the modules that use them.
use agent_engineering_platfo.Prelude.{ℕ, String, Bool, List}
use agent_engineering_platfo.Action.{Error}
use agent_engineering_platfo.Outcome.{Outcome, returned, ◌>>=◌, ◌>>◌}
use agent_engineering_platfo.Json.{Json, Fields, end}
use agent_engineering_platfo.Task.Correlation.{CorrelationContext, Correlation, bind_correlation}
use agent_engineering_platfo.CapabilityPolicy.{ApplicablePolicy, Policy, MatchedRule}
use agent_engineering_platfo.CapabilityPolicy.Policies.{
  require_text, validated_policies, sorted_policies,
}
use agent_engineering_platfo.CapabilityPolicy.Matching.{matched_rules, winning_rule}
use agent_engineering_platfo.CapabilityPolicy.Records.{policy_input, reason_of_winner, Request}

module _ (strip : String → String) (decimal : ℕ → String) (is_semver : String → Bool)
    (is_schema : Fields → Bool) (is_valid : Fields → Json → Bool) where
  -- What `evaluate` works out before it asks the store: the context, the policies in their order,
  -- the matched rules and the reason.
  pub record Verdict : Type 0 where
    pub context : CorrelationContext
    pub policies : List Policy
    pub matched : List MatchedRule
    pub reason : String

  unfoldable pub verdict : Request → List ApplicablePolicy → Correlation → Outcome Error Verdict
  verdict q bindings correlation = do
    require_text q.decision_id
    require_text q.task_execution_id
    require_text q.capability
    require_text q.actor
    context ← bind_correlation strip correlation q.task_execution_id end
    require_text q.timestamp
    validated ← validated_policies is_semver bindings
    let policies = sorted_policies validated
    matched ← matched_rules is_schema is_valid q.capability (policy_input q) policies
    reason ← reason_of_winner decimal q.capability policies (winning_rule matched)
    returned (record { context = context; policies = policies; matched = matched; reason = reason })
