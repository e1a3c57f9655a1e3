-- ===== src/CapabilityPolicy.antt =====
-- src/aep/capability_policy.py: which privileged capabilities may be used. The scopes, the decisions,
-- and a policy as `_validated_policy` leaves it, with its fields read.
pub mod Policies
pub mod Matching
pub mod Records
pub mod Verdicts
pub mod Evaluation
pub mod Restrictive
pub mod Permitted
pub mod Sorted
pub mod Authorized
pub mod Conflicts
mod Examples
use agent_engineering_platfo.Prelude.{ℕ, String, Option, List}
use agent_engineering_platfo.Json.{Fields}

pub data PolicyScope : Type 0 where
  platform workspace workflow task agent tool : PolicyScope

pub data PolicyDecision : Type 0 where
  allow require_approval deny : PolicyDecision

-- A policy resource at a scope.
pub record ApplicablePolicy : Type 0 where
  pub scope : PolicyScope
  pub resource : Fields

-- A rule; its effect is one of the texts that `_EFFECT_DECISION` has.
pub record Rule : Type 0 where
  pub effect : PolicyDecision
  pub capabilities : List String
  pub conditions : Option Fields
  pub reason : Option String

-- `_policy_ref`
pub record PolicyRef : Type 0 where
  pub name : String
  pub version : String

pub record Policy : Type 0 where
  pub scope : PolicyScope
  pub resource : Fields
  pub ref : PolicyRef
  pub rules : List Rule

pub record MatchedRule : Type 0 where
  pub scope : PolicyScope
  pub policy_ref : PolicyRef
  pub rule_index : ℕ
  pub effect : PolicyDecision
