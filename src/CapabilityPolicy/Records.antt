-- ===== src/CapabilityPolicy/Records.antt =====
-- src/aep/capability_policy.py: the record of a decision, its reason and its key. `decimal` is Python's
-- `str` on a number; `digest` is the SHA-256 digest of the canonical text that `json.dumps` gives a
-- value.
use Prim.Native.String.{◌++◌ as text_append}
use agent_engineering_platfo.Prelude.{
  ℕ, String, Bool, true, false, Option, none, some, List, [], ◌∷◌, map, str_eq, if◌then◌else◌,
}
use agent_engineering_platfo.Action.{Error, index_error}
use agent_engineering_platfo.Outcome.{Outcome, returned, raised}
use agent_engineering_platfo.Json.{
  Json, null, bool, int, str, arr, obj, Items, nil, cons, Fields, end, field, get, set,
}
use agent_engineering_platfo.Task.Correlation.{CorrelationContext}
use agent_engineering_platfo.CapabilityPolicy.{
  PolicyScope, platform, workspace, workflow, task, agent, tool, PolicyDecision, allow,
  require_approval, deny, Rule, PolicyRef, Policy, MatchedRule,
}
use agent_engineering_platfo.CapabilityPolicy.Policies.{unique_refs}
use agent_engineering_platfo.CapabilityPolicy.Matching.{
  winning_rule, decision_of, policy_named, rule_at,
}

abbrev pub scope_text : PolicyScope → String
scope_text platform = "Platform"
scope_text workspace = "Workspace"
scope_text workflow = "Workflow"
scope_text task = "Task"
scope_text agent = "Agent"
scope_text tool = "Tool"

-- `decision.value`
abbrev pub decision_text : PolicyDecision → String
decision_text allow = "ALLOW"
decision_text require_approval = "REQUIRE_APPROVAL"
decision_text deny = "DENY"

-- The key of `_EFFECT_DECISION`.
abbrev pub effect_text : PolicyDecision → String
effect_text allow = "allow"
effect_text require_approval = "require-approval"
effect_text deny = "deny"

abbrev pub items : List Json → Items
items [] = nil
items (v ∷ vs) = cons v (items vs)

abbrev pub ref_record : PolicyRef → Json
ref_record r =
    obj (
      field "kind" (str "Policy") (field "name" (str r.name) (field "version" (str r.version) end)))

abbrev pub matched_record : MatchedRule → Json
matched_record r = obj (
    field "scope" (str (scope_text r.scope)) (
      field "policyRef" (ref_record r.policy_ref)
        (field "ruleIndex" (int r.rule_index) (field "effect" (str (effect_text r.effect)) end))))

abbrev pub binding_record : Policy → Json
binding_record p =
    obj (field "scope" (str (scope_text p.scope)) (field "resource" (obj p.resource) end))

-- What `evaluate` is asked, but for the policies and the correlation.
pub record Request : Type 0 where
  pub decision_id : String
  pub task_execution_id : String
  pub capability : String
  pub actor : String
  pub resource_scope : Fields
  pub execution_context : Fields
  pub timestamp : String

-- `policy_input`
abbrev pub policy_input : Request → Json
policy_input q = obj (
    field "capability" (str q.capability) (
      field "actor" (str q.actor) (
        field "resourceScope" (obj q.resource_scope)
          (field "executionContext" (obj q.execution_context) end))))

module _ (decimal : ℕ → String) where
  -- `_default_reason`
  unfoldable pub default_reason : PolicyDecision → String → MatchedRule → String
  default_reason decision capability r = text_append (decision_text decision) (
      text_append " for " (
        text_append capability (
          text_append " by " (
            text_append (scope_text r.scope) (
              text_append " policy " (
                text_append r.policy_ref.name (
                  text_append "@" (
                    text_append r.policy_ref.version
                      (text_append " rule " (text_append (decimal r.rule_index) "."))))))))))

  -- The reason of the rule at the winner's index in the first policy of the winner's reference.
  abbrev pub stated_reason :
      PolicyDecision → String → MatchedRule → Option Rule → Outcome Error String
  stated_reason decision capability r none = raised index_error
  stated_reason decision capability r (some rule) = returned (reason_or rule.reason)
    where
      reason_or : Option String → String
      reason_or none = default_reason decision capability r
      reason_or (some t) = t

  abbrev pub rules_in : Option Policy → List Rule
  rules_in none = []
  rules_in (some p) = p.rules

  unfoldable pub reason_of_winner : String → List Policy → Option MatchedRule → Outcome Error String
  reason_of_winner capability policies none =
      returned
        (text_append "No applicable rule authorizes capability " (text_append capability "."))
  reason_of_winner capability policies (some r) =
      stated_reason r.effect capability r
        (rule_at (rules_in (policy_named r.policy_ref policies)) r.rule_index)

-- `provenance`
unfoldable pub provenance_of : Request → CorrelationContext → Json → Fields
provenance_of q context refs = with_revision (get "repositoryRevision" q.resource_scope) (
    field "actor" (str "policy-engine") (
      field "caller" (str q.actor) (
        field "workflowExecutionId" (str context.workflow_execution_id)
          (field "taskExecutionId" (str q.task_execution_id) (field "resourceRefs" refs end)))))
  where
    with_revision : Json → Fields → Fields
    with_revision (str revision) f =
        if str_eq revision "" then f else set "repositoryRevision" (str revision) f
    with_revision _ f = f

abbrev pub winner_record : Option MatchedRule → Json
winner_record none = null
winner_record (some r) = matched_record r

abbrev pub is_approval : PolicyDecision → Bool
is_approval require_approval = true
is_approval _ = false

-- `record`
unfoldable pub decision_record :
    Request → CorrelationContext → List Policy → List MatchedRule → String → Fields
decision_record q context policies matched reason =
    let refs = arr (items (map ref_record (unique_refs [] policies))) in
    let decision = decision_of (winning_rule matched) in
    field "apiVersion" (str "aep.dev/v1alpha1") (
      field "kind" (str "PolicyDecision") (
        field "id" (str q.decision_id) (
          field "traceId" (str context.trace_id) (
            field "createdAt" (str q.timestamp) (
              field "updatedAt" (str q.timestamp) (
                field "provenance" (obj (provenance_of q context refs)) (
                  field "taskExecutionId" (str q.task_execution_id) (
                    field "gate" (str "PRE_EXECUTION_CAPABILITY") (
                      field "policyRefs" refs (
                        field "action" (str q.capability) (
                          field "decision" (str (decision_text decision)) (
                            field "reason" (str reason) (
                              field "approvalRequired" (bool (is_approval decision)) (
                                field "evaluatedAt" (str q.timestamp) (
                                  field "subject" (str q.actor) (
                                    field "resourceScope" (obj q.resource_scope) (
                                      field "evaluatedRule" (winner_record (winning_rule matched)) (
                                        field "matchedRules"
                                          (arr (items (map matched_record matched)))
                                          end))))))))))))))))))

module _ (digest : Json → String) where
  -- `_decision_key`
  unfoldable pub decision_key : Request → CorrelationContext → List Policy → String
  decision_key q context policies = text_append "pre-execution-policy:" (
      digest (
        obj (
          field "decisionId" (str q.decision_id) (
            field "taskExecutionId" (str q.task_execution_id) (
              field "traceId" (str context.trace_id) (
                field "capability" (str q.capability) (
                  field "actor" (str q.actor) (
                    field "resourceScope" (obj q.resource_scope) (
                      field "executionContext" (obj q.execution_context)
                        (field "policies" (arr (items (map binding_record policies))) end))))))))))
