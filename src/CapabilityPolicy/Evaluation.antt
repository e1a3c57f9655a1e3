-- ===== src/CapabilityPolicy/Evaluation.antt =====
-- `PreExecutionCapabilityPolicy` of src/aep/capability_policy.py. Parameters: `strip` is Python's
-- `str.strip`, `decimal` its `str` on a number; `digest` is the SHA-256 digest of the canonical text
-- that `json.dumps` gives a value, `short_digest` its first twenty characters; `is_semver`,
-- `is_schema` and `is_valid` as in the modules that use them.
use Prim.Native.String.{◌++◌ as text_append}
use agent_engineering_platfo.Prelude.{ℕ, String, Bool, true, ◌&&◌, List, [], ◌∷◌, map}
use agent_engineering_platfo.Action.{
  Error, Result, ok, err, already_exists, identity_conflict, Action, lift, pure, ◌>>=◌,
}
use agent_engineering_platfo.Json.{Json, str, arr, obj, Fields, end, field, get}
use agent_engineering_platfo.Store.State.{Store, is_text}
use agent_engineering_platfo.Store.Objects
use agent_engineering_platfo.Task.Correlation.{Correlation}
use agent_engineering_platfo.Task.Lifecycle.{to_result}
use agent_engineering_platfo.CapabilityPolicy.{ApplicablePolicy}
use agent_engineering_platfo.CapabilityPolicy.Records.{
  scope_text, items, decision_record, decision_key, Request,
}
use agent_engineering_platfo.CapabilityPolicy.Verdicts.{verdict}

-- `except RuntimeObjectAlreadyExistsError`
abbrev pub conflict_of : Error → Error
conflict_of already_exists = identity_conflict
conflict_of e = e

abbrev pub or_conflict : Result Fields → Result Fields
or_conflict (ok v) = ok v
or_conflict (err e) = err (conflict_of e)

unfoldable pub create_decision : Fields → String → Action Store Fields
create_decision record_ key s = let r = Objects.create record_ key s in (or_conflict r.0, r.1)

module _ (strip : String → String) (decimal : ℕ → String) (digest : Json → String)
    (is_semver : String → Bool) (is_schema : Fields → Bool) (is_valid : Fields → Json → Bool) where
  -- `evaluate`
  unfoldable pub evaluate : Request → List ApplicablePolicy → Correlation → Action Store Fields
  evaluate q bindings correlation = do
    v ← lift (to_result (verdict strip decimal is_semver is_schema is_valid q bindings correlation))
    create_decision (decision_record q v.context v.policies v.matched v.reason)
        (decision_key digest q v.context v.policies)

-- A tool's request, as the hook reads it.
pub record ToolRequest : Type 0 where
  pub tool_ref : Fields
  pub capabilities : List String
  pub caller_kind : String
  pub caller_id : String
  pub trace_id : String
  pub correlation : Correlation

-- What `tool_authorization_boundary` is given.
pub record Boundary : Type 0 where
  pub task_execution_id : String
  pub resource_scope : Fields
  pub execution_context : Fields
  pub applicable_policies : List ApplicablePolicy
  pub timestamp : String

abbrev pub caller_of : ToolRequest → String
caller_of r = text_append r.caller_kind (text_append ":" r.caller_id)

abbrev pub applicable_record : ApplicablePolicy → Json
applicable_record p =
    obj (field "scope" (str (scope_text p.scope)) (field "resource" (obj p.resource) end))

-- `digest_input`
abbrev pub digest_input : Boundary → ToolRequest → String → Json
digest_input b r capability = obj (
    field "taskExecutionId" (str b.task_execution_id) (
      field "toolRef" (obj r.tool_ref) (
        field "capability" (str capability) (
          field "actor" (str (caller_of r)) (
            field "traceId" (str r.trace_id) (
              field "resourceScope" (obj b.resource_scope) (
                field "executionContext" (obj b.execution_context) (
                  field "policies" (arr (items (map applicable_record b.applicable_policies)))
                    end))))))))

module _ (strip : String → String) (decimal : ℕ → String) (digest short_digest : Json → String)
    (is_semver : String → Bool) (is_schema : Fields → Bool) (is_valid : Fields → Json → Bool) where
  abbrev pub request_for : Boundary → ToolRequest → String → Request
  request_for b r capability = record {
    decision_id = text_append "policydecision-" (short_digest (digest_input b r capability));
    task_execution_id = b.task_execution_id;
    capability = capability;
    actor = caller_of r;
    resource_scope = b.resource_scope;
    execution_context = b.execution_context;
    timestamp = b.timestamp;
  }

  -- One turn of the loop of `authorize`.
  unfoldable pub ask : Boundary → ToolRequest → String → Action Store Fields
  ask b r capability =
      evaluate strip decimal digest is_semver is_schema is_valid (request_for b r capability)
        b.applicable_policies r.correlation

  -- The loop of `authorize`, which goes on after a refusal.
  unfoldable pub authorize_all : Boundary → ToolRequest → Bool → List String → Action Store Bool
  authorize_all b r allowed [] = pure allowed
  authorize_all b r allowed (capability ∷ capabilities) = do
    result ← ask b r capability
    authorize_all b r (allowed && is_text "ALLOW" (get "decision" result)) capabilities

  -- `authorize`
  unfoldable pub authorize : Boundary → ToolRequest → Action Store Bool
  authorize b r = authorize_all b r true r.capabilities
