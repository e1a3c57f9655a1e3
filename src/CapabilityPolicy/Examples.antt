-- ===== src/CapabilityPolicy/Examples.antt =====
-- Tests of the model of src/aep/capability_policy.py. Every conditions mapping is a schema that holds,
-- and the digest of a value is replaced by a constant.
use agent_engineering_platfo.Prelude.{
  ◌↔◌, Any, ◌≡◌, ◌⊎◌, refl, String, Bool, true, none, some, List, [], ◌∷◌, All, contains,
}
use agent_engineering_platfo.Action
use agent_engineering_platfo.Action.{Error, Result, ok, err, identity_conflict}
use agent_engineering_platfo.Outcome
use agent_engineering_platfo.Outcome.{Outcome, returned, raised}
use agent_engineering_platfo.Dict
use agent_engineering_platfo.Json
use agent_engineering_platfo.Json.{Json, str, arr, obj, Items, nil, cons, Fields, end, field, get}
use agent_engineering_platfo.Store.State
use agent_engineering_platfo.Store.State.{Store, empty}
use agent_engineering_platfo.Store.Objects
use agent_engineering_platfo.Task.Correlation
use agent_engineering_platfo.Task.Correlation.{Correlation, CorrelationContext, bound}
use agent_engineering_platfo.CapabilityPolicy.{
  platform, task, allow, deny, ApplicablePolicy, MatchedRule,
}
use agent_engineering_platfo.CapabilityPolicy.Policies
use agent_engineering_platfo.CapabilityPolicy.Matching
use agent_engineering_platfo.CapabilityPolicy.Matching.{winning_rule, decision_of}
use agent_engineering_platfo.CapabilityPolicy.Records
use agent_engineering_platfo.CapabilityPolicy.Records.{Request}
use agent_engineering_platfo.CapabilityPolicy.Verdicts.{Verdict, verdict}
use agent_engineering_platfo.CapabilityPolicy.Evaluation
use agent_engineering_platfo.CapabilityPolicy.Evaluation.{
  evaluate, Boundary, ToolRequest, authorize,
}
use agent_engineering_platfo.CapabilityPolicy.Restrictive.{IsBelow, decision-IsBelow}
use agent_engineering_platfo.CapabilityPolicy.Authorized.{
  IsPermitted, evaluate-IsPermitted, Allowed, authorize-Allowed,
}
use agent_engineering_platfo.CapabilityPolicy.Conflicts.{evaluate_conflicts}

abbrev rule : String → String → Json
rule effect capability =
    obj (field "effect" (str effect) (field "capabilities" (arr (cons (str capability) nil)) end))

abbrev policy : String → Items → Fields
policy name rules = field "apiVersion" (str "aep.dev/v1alpha1") (
    field "kind" (str "Policy") (
      field "metadata" (obj (field "name" (str name) (field "version" (str "1.0.0") end))) (
        field "spec"
          (obj (field "type" (str "pre-execution-capability") (field "rules" (arr rules) end)))
          end)))

abbrev bindings : List ApplicablePolicy
bindings =
    record {
      scope = task;
      resource = policy "task" (cons (rule "allow" "git.read") (cons (rule "deny" "git.push") nil));
    }
    ∷ record {
      scope = platform;
      resource =
          policy "base" (cons (rule "allow" "git.read") (cons (rule "allow" "git.push") nil));
    }
    ∷ []

abbrev context : Correlation
context = bound (record {
  trace_id = "trace";
  workflow_execution_id = "workflow";
  task_execution_id = some "task-1";
})

abbrev request : String → Request
request capability = record {
  decision_id = "decision-1";
  task_execution_id = "task-1";
  capability = capability;
  actor = "agent:coder";
  resource_scope = end;
  execution_context = end;
  timestamp = "2026-01-01T00:00:00Z";
}

abbrev judged :
    String → Outcome Error (Verdict (λ t. t) (λ n. "0") (λ v. true) (λ f. true) (λ f v. true))
judged capability =
    verdict (λ t. t) (λ n. "0") (λ v. true) (λ f. true) (λ f v. true) (request capability) bindings
      context

abbrev evaluated : String → Store → Result Fields × Store
evaluated capability s =
    evaluate (λ t. t) (λ n. "0") (λ v. "digest") (λ v. true) (λ f. true) (λ f v. true)
      (request capability) bindings context s

abbrev record_of : Result Fields → Fields
record_of (ok f) = f
record_of (err e) = end

abbrev two_rules : List MatchedRule
two_rules =
    record {
      scope = platform;
      policy_ref = record { name = "base"; version = "1.0.0" };
      rule_index = 1;
      effect = allow;
    }
    ∷ record {
      scope = task;
      policy_ref = record { name = "task"; version = "1.0.0" };
      rule_index = 1;
      effect = deny;
    }
    ∷ []

abbrev verdict_or : {V : Type 0} → V → Outcome Error V → V
verdict_or v (returned w) = w
verdict_or v (raised e) = v

abbrev read_verdict : Verdict (λ t. t) (λ n. "0") (λ v. true) (λ f. true) (λ f v. true)
read_verdict =
    verdict_or
      (record {
        context = record { trace_id = ""; workflow_execution_id = ""; task_execution_id = none };
        policies = [];
        matched = [];
        reason = "";
      })
      (judged "git.read")

read_returns : judged "git.read" ≡ returned read_verdict
unfolding evaluate get Action.◌>>=◌ verdict Outcome.◌>>=◌ Outcome.ensure
    Correlation.bind_correlation Correlation.context_of Policies.validated_policies
    Policies.validated_policy Policies.version_of Policies.rules_of Policies.validated_rules
    Policies.validated_rule Policies.effect_of Policies.capabilities_of Policies.texts_of
    Policies.all_different Action.guard Action.lift Action.read Evaluation.create_decision
    Matching.conditions_match Matching.matched_of Matching.matched_rules Matching.policy_named
    Matching.rule_applies Matching.rule_at Matching.winner Policies.comes_before
    Policies.conditions_of Policies.insert_policy Policies.reason_of Policies.sorted_policies
    Policies.unique_refs Policies.has_ref Records.decision_record Records.decision_key
    Records.provenance_of Records.reason_of_winner Records.default_reason Objects.create
    Objects.create_at Objects.create_new Objects.stored Objects.insert_object State.index
    State.copy_and_validate Dict.lookup Dict.insert Json.set contains State.index_at
    State.task_execution_id State.workflow_execution_id
read_returns = refl

denied : get "decision" (record_of (evaluated "git.push" empty).0) ≡ str "DENY"
unfolding evaluate get Action.◌>>=◌ verdict Outcome.◌>>=◌ Outcome.ensure
    Correlation.bind_correlation Correlation.context_of Policies.validated_policies
    Policies.validated_policy Policies.version_of Policies.rules_of Policies.validated_rules
    Policies.validated_rule Policies.effect_of Policies.capabilities_of Policies.texts_of
    Policies.all_different Action.guard Action.lift Action.read Evaluation.create_decision
    Matching.conditions_match Matching.matched_of Matching.matched_rules Matching.policy_named
    Matching.rule_applies Matching.rule_at Matching.winner Policies.comes_before
    Policies.conditions_of Policies.insert_policy Policies.reason_of Policies.sorted_policies
    Policies.unique_refs Policies.has_ref Records.decision_record Records.decision_key
    Records.provenance_of Records.reason_of_winner Records.default_reason Objects.create
    Objects.create_at Objects.create_new Objects.stored Objects.insert_object State.index
    State.copy_and_validate Dict.lookup Dict.insert Json.set contains State.index_at
    State.task_execution_id State.workflow_execution_id
denied = refl

not_covered : get "decision" (record_of (evaluated "git.clone" empty).0) ≡ str "DENY"
unfolding evaluate get Action.◌>>=◌ verdict Outcome.◌>>=◌ Outcome.ensure
    Correlation.bind_correlation Correlation.context_of Policies.validated_policies
    Policies.validated_policy Policies.version_of Policies.rules_of Policies.validated_rules
    Policies.validated_rule Policies.effect_of Policies.capabilities_of Policies.texts_of
    Policies.all_different Action.guard Action.lift Action.read Evaluation.create_decision
    Matching.conditions_match Matching.matched_of Matching.matched_rules Matching.policy_named
    Matching.rule_applies Matching.rule_at Matching.winner Policies.comes_before
    Policies.conditions_of Policies.insert_policy Policies.reason_of Policies.sorted_policies
    Policies.unique_refs Policies.has_ref Records.decision_record Records.decision_key
    Records.provenance_of Records.reason_of_winner Records.default_reason Objects.create
    Objects.create_at Objects.create_new Objects.stored Objects.insert_object State.index
    State.copy_and_validate Dict.lookup Dict.insert Json.set contains State.index_at
    State.task_execution_id State.workflow_execution_id
not_covered = refl

-- A store in which the id of the decision is taken.
abbrev taken : Store
taken = record empty { objects = ("decision-1", end) ∷ [] }

decision-IsBelow_example :
    All (IsBelow (decision_of (winning_rule two_rules))) two_rules
    × ((two_rules ≡ []) × (decision_of (winning_rule two_rules) ≡ deny)
        ⊎ Any (λ r. r.effect ≡ decision_of (winning_rule two_rules)) two_rules)
decision-IsBelow_example = decision-IsBelow two_rules

evaluate-IsPermitted_example :
    IsPermitted
      (λ t. t)
      (λ n. "0")
      (λ v. true)
      (λ f. true)
      (λ f v. true)
      (request "git.read")
      bindings
unfolding evaluate get Action.◌>>=◌ verdict Outcome.◌>>=◌ Outcome.ensure
    Correlation.bind_correlation Correlation.context_of Policies.validated_policies
    Policies.validated_policy Policies.version_of Policies.rules_of Policies.validated_rules
    Policies.validated_rule Policies.effect_of Policies.capabilities_of Policies.texts_of
    Policies.all_different Action.guard Action.lift Action.read Evaluation.create_decision
    Matching.conditions_match Matching.matched_of Matching.matched_rules Matching.policy_named
    Matching.rule_applies Matching.rule_at Matching.winner Policies.comes_before
    Policies.conditions_of Policies.insert_policy Policies.reason_of Policies.sorted_policies
    Policies.unique_refs Policies.has_ref Records.decision_record Records.decision_key
    Records.provenance_of Records.reason_of_winner Records.default_reason Objects.create
    Objects.create_at Objects.create_new Objects.stored Objects.insert_object State.index
    State.copy_and_validate Dict.lookup Dict.insert Json.set contains State.index_at
    State.task_execution_id State.workflow_execution_id
evaluate-IsPermitted_example =
    evaluate-IsPermitted (λ t. t) (λ n. "0") (λ v. "digest") (λ v. true) (λ f. true) (λ f v. true)
      (request "git.read") bindings context empty read_verdict
      (record_of (evaluated "git.read" empty).0) read_returns refl refl refl

evaluate_conflicts_example : evaluated "git.read" taken ≡ (err identity_conflict, taken)
unfolding evaluate get Action.◌>>=◌ verdict Outcome.◌>>=◌ Outcome.ensure
    Correlation.bind_correlation Correlation.context_of Policies.validated_policies
    Policies.validated_policy Policies.version_of Policies.rules_of Policies.validated_rules
    Policies.validated_rule Policies.effect_of Policies.capabilities_of Policies.texts_of
    Policies.all_different Action.guard Action.lift Action.read Evaluation.create_decision
    Matching.conditions_match Matching.matched_of Matching.matched_rules Matching.policy_named
    Matching.rule_applies Matching.rule_at Matching.winner Policies.comes_before
    Policies.conditions_of Policies.insert_policy Policies.reason_of Policies.sorted_policies
    Policies.unique_refs Policies.has_ref Records.decision_record Records.decision_key
    Records.provenance_of Records.reason_of_winner Records.default_reason Objects.create
    Objects.create_at Objects.create_new Objects.stored Objects.insert_object State.index
    State.copy_and_validate Dict.lookup Dict.insert Json.set contains State.index_at
    State.task_execution_id State.workflow_execution_id
evaluate_conflicts_example =
    evaluate_conflicts (λ t. t) (λ n. "0") (λ v. "digest") (λ v. true) (λ f. true) (λ f v. true)
      (request "git.read") bindings context taken read_verdict end read_returns refl refl

abbrev boundary : Boundary
boundary = record {
  task_execution_id = "task-1";
  resource_scope = end;
  execution_context = end;
  applicable_policies = bindings;
  timestamp = "2026-01-01T00:00:00Z";
}

abbrev tool_request : ToolRequest
tool_request = record {
  tool_ref = end;
  capabilities = "git.read" ∷ [];
  caller_kind = "agent";
  caller_id = "coder";
  trace_id = "trace";
  correlation = context;
}

abbrev hook : Result Bool × Store
hook =
    authorize (λ t. t) (λ n. "0") (λ v. "digest") (λ v. "digest") (λ v. true) (λ f. true)
      (λ f v. true) boundary tool_request empty

hook_returns : hook ≡ (ok true, hook.1)
unfolding Evaluation.authorize Evaluation.authorize_all Evaluation.ask Action.pure evaluate get
    Action.◌>>=◌ verdict Outcome.◌>>=◌ Outcome.ensure Correlation.bind_correlation
    Correlation.context_of Policies.validated_policies Policies.validated_policy Policies.version_of
    Policies.rules_of Policies.validated_rules Policies.validated_rule Policies.effect_of
    Policies.capabilities_of Policies.texts_of Policies.all_different Action.guard Action.lift
    Action.read Evaluation.create_decision Matching.conditions_match Matching.matched_of
    Matching.matched_rules Matching.policy_named Matching.rule_applies Matching.rule_at
    Matching.winner Policies.comes_before Policies.conditions_of Policies.insert_policy
    Policies.reason_of Policies.sorted_policies Policies.unique_refs Policies.has_ref
    Records.decision_record Records.decision_key Records.provenance_of Records.reason_of_winner
    Records.default_reason Objects.create Objects.create_at Objects.create_new Objects.stored
    Objects.insert_object State.index State.copy_and_validate Dict.lookup Dict.insert Json.set
    contains State.index_at State.task_execution_id State.workflow_execution_id
hook_returns = refl

authorize-Allowed_example :
    (hook ≡ (ok true, hook.1))
    ↔ Allowed
        (λ t. t)
        (λ n. "0")
        (λ v. "digest")
        (λ v. true)
        (λ f. true)
        (λ f v. true)
        (λ v. "digest")
        boundary
        tool_request
        ("git.read" ∷ [])
        empty
        hook.1
authorize-Allowed_example =
    authorize-Allowed (λ t. t) (λ n. "0") (λ v. "digest") (λ v. true) (λ f. true) (λ f v. true)
      (λ v. "digest") boundary tool_request empty hook.1

git_read-Allowed :
    Allowed
      (λ t. t)
      (λ n. "0")
      (λ v. "digest")
      (λ v. true)
      (λ f. true)
      (λ f v. true)
      (λ v. "digest")
      boundary
      tool_request
      ("git.read" ∷ [])
      empty
      hook.1
git_read-Allowed = authorize-Allowed_example.0 hook_returns
