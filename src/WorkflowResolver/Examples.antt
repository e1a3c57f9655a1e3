-- ===== src/WorkflowResolver/Examples.antt =====
-- Tests of the model of src/aep/workflow_resolver.py.
use agent_engineering_platfo.Prelude.{◌≡◌, refl, Bool, true, false, [], ◌∷◌, contains}
use agent_engineering_platfo.Dict.{insert, lookup}
use agent_engineering_platfo.Outcome
use agent_engineering_platfo.Outcome.{Outcome, returned, raised, ensure}
use agent_engineering_platfo.Json.{str, arr, obj, nil, cons, Fields, end, field, get, has}
use agent_engineering_platfo.Resources.{
  ResourceRef, Resource, ResourceCollection, get_resource, indexed, by_kind, from_mapping,
}
use agent_engineering_platfo.WorkflowResolver.Resolver.{
  ResolutionError, WorkflowResolution, ambiguous_workflow_match, resolve_workflow_for_event,
  event_identity, matches, workflow_matches, check_triggers, trigger_event, event_ref_of,
}
use agent_engineering_platfo.WorkflowResolver.Subscribed.{IsResolution, resolve-subscribers}

abbrev event_ref : ResourceRef
event_ref = record { kind = "Event"; name = "issue_opened"; version = "1.0.0" }

abbrev workflow_ref : ResourceRef
workflow_ref = record { kind = "Workflow"; name = "triage"; version = "1.0.0" }

abbrev other_ref : ResourceRef
other_ref = record { kind = "Workflow"; name = "label"; version = "1.0.0" }

abbrev opened : Fields
opened = field "source" (str "github") (field "type" (str "opened") end)

abbrev issue_opened : Resource
issue_opened = record {
  ref = event_ref;
  path = "event.yaml";
  fields = field "spec" (obj opened) end;
  references = [];
}

abbrev triggers : Fields
triggers =
    field "triggers"
      (arr (
        cons
          (obj (
            field "eventRef"
              (obj (
                field "kind" (str "Event")
                  (field "name" (str "issue_opened") (field "version" (str "1.0.0") end))))
              end))
          nil))
      end

abbrev workflow : ResourceRef → Resource
workflow ref = record {
  ref = ref;
  path = "workflow.yaml";
  fields = field "spec" (obj triggers) end;
  references = event_ref ∷ [];
}

abbrev one_workflow : ResourceCollection
one_workflow = record {
  workspace = issue_opened;
  resources = issue_opened ∷ workflow workflow_ref ∷ [];
}

abbrev two_workflows : ResourceCollection
two_workflows = record {
  workspace = issue_opened;
  resources = issue_opened ∷ workflow workflow_ref ∷ workflow other_ref ∷ [];
}

abbrev run : ResourceCollection → Bool → Outcome ResolutionError WorkflowResolution
run = resolve_workflow_for_event (λ s. s) (λ _. "") opened

one : run one_workflow false ≡ returned (record { workflow_refs = workflow_ref ∷ [] })
unfolding resolve_workflow_for_event event_identity matches workflow_matches check_triggers
    trigger_event event_ref_of from_mapping get has get_resource indexed insert lookup by_kind
    Outcome.◌>>=◌ ensure contains
one = refl

two : run two_workflows false ≡ raised (ambiguous_workflow_match (workflow_ref ∷ other_ref ∷ []))
unfolding resolve_workflow_for_event event_identity matches workflow_matches check_triggers
    trigger_event event_ref_of from_mapping get has get_resource indexed insert lookup by_kind
    Outcome.◌>>=◌ ensure contains
two = refl

resolve-subscribers_example :
    IsResolution
      (λ s. s)
      (λ _. "")
      opened
      two_workflows
      true
      (record { workflow_refs = workflow_ref ∷ other_ref ∷ [] })
unfolding resolve_workflow_for_event event_identity matches workflow_matches check_triggers
    trigger_event event_ref_of from_mapping get has get_resource indexed insert lookup by_kind
    Outcome.◌>>=◌ ensure contains
resolve-subscribers_example =
    resolve-subscribers (λ s. s) (λ _. "") opened two_workflows true
      (record { workflow_refs = workflow_ref ∷ other_ref ∷ [] }) refl
