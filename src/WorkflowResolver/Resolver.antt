-- ===== src/WorkflowResolver/Resolver.antt =====
-- `resolve_workflow_for_event` of src/aep/workflow_resolver.py. Parameters: `strip` and `render` are
-- Python's `str.strip` and `str` on a value that is no text. The messages and details of the errors
-- are left out, but for the references of the Workflows that match.
use agent_engineering_platfo.Prelude.{
  String, Bool, false, not, ◌&&◌, ◌||◌, Option, none, some, List, [], ◌∷◌, str_eq, contains, length,
  leb, if◌then◌else◌,
}
use agent_engineering_platfo.Outcome.{Outcome, returned, raised, ◌>>=◌, ◌>>◌, ensure}
use agent_engineering_platfo.Json.{Json, str, arr, obj, Items, nil, cons, Fields, get}
use agent_engineering_platfo.Resources.{
  ResourceRef, Ref_eq, Resource, ResourceCollection, get_resource, by_kind, from_mapping,
}
use agent_engineering_platfo.WorkflowExecution.Creation.{field_of}

-- `WorkflowResolutionError`
pub data ResolutionError : Type 0 where
  invalid_normalized_event invalid_trigger_configuration : ResolutionError
  ambiguous_workflow_match : List ResourceRef → ResolutionError

-- `WorkflowResolution`
pub record WorkflowResolution : Type 0 where
  pub workflow_refs : List ResourceRef

abbrev pub required : {A : Type 0} → ResolutionError → Option A → Outcome ResolutionError A
required e none = raised e
required e (some a) = returned a

module _ (strip : String → String) where
  abbrev pub cleaned : Json → Outcome ResolutionError String
  cleaned (str s) =
      if str_eq (strip s) "" then raised invalid_normalized_event else returned (strip s)
  cleaned _ = raised invalid_normalized_event

  -- `_event_identity`, of a mapping
  unfoldable pub event_identity : Fields → Outcome ResolutionError (String × String)
  event_identity event = do
    source ← cleaned (get "source" event)
    event_type ← cleaned (get "type" event)
    returned (source, event_type)

module _ (render : Json → String) (resources : ResourceCollection) where
  abbrev pub ref_in : Json → Option ResourceRef
  ref_in (obj f) = from_mapping render f
  ref_in _ = none

  -- The reference of a trigger, where both are mappings.
  unfoldable pub event_ref_of : Json → Option ResourceRef
  event_ref_of trigger = ref_in (field_of "eventRef" trigger)

  abbrev pub is_event : ResourceRef → Bool
  is_event ref = str_eq ref.kind "Event" && not (str_eq ref.version "latest")

  -- A field that an Event declares, a non-empty text.
  abbrev pub declared : Json → Outcome ResolutionError String
  declared (str s) = if str_eq s "" then raised invalid_trigger_configuration else returned s
  declared _ = raised invalid_trigger_configuration

  -- What a trigger's Event declares, with the trigger's reference.
  unfoldable pub trigger_event :
      List ResourceRef → Json → Outcome ResolutionError (ResourceRef × (String × String))
  trigger_event seen trigger = do
    ref ← required invalid_trigger_configuration (event_ref_of trigger)
    ensure (is_event ref) invalid_trigger_configuration
    ensure (not (contains seen ref)) invalid_trigger_configuration
    event ← required invalid_trigger_configuration (get_resource resources ref)
    ensure (str_eq event.ref.kind "Event") invalid_trigger_configuration
    source ← declared (field_of "source" (get "spec" event.fields))
    event_type ← declared (field_of "type" (get "spec" event.fields))
    returned (ref, (source, event_type))

  module _ (source event_type : String) where
    -- The loop over the triggers.
    unfoldable pub check_triggers : List ResourceRef → Bool → Items → Outcome ResolutionError Bool
    check_triggers seen matched nil = returned matched
    check_triggers seen matched (cons trigger triggers) = do
      event ← trigger_event seen trigger
      check_triggers (event.0 ∷ seen)
          (matched || (str_eq event.1.0 source && str_eq event.1.1 event_type)) triggers

    -- `_workflow_matches`
    abbrev pub triggers_match : Json → Outcome ResolutionError Bool
    triggers_match (arr (cons trigger triggers)) = check_triggers [] false (cons trigger triggers)
    triggers_match _ = raised invalid_trigger_configuration

    unfoldable pub workflow_matches : Resource → Outcome ResolutionError Bool
    workflow_matches workflow = triggers_match (field_of "triggers" (get "spec" workflow.fields))

    -- The loop over the Workflows.
    unfoldable pub matches : List Resource → Outcome ResolutionError (List ResourceRef)
    matches [] = returned []
    matches (workflow ∷ workflows) = do
      matched ← workflow_matches workflow
      refs ← matches workflows
      returned (if matched then workflow.ref ∷ refs else refs)

module _ (strip : String → String) (render : Json → String) where
  unfoldable pub resolve_workflow_for_event :
      Fields → ResourceCollection → Bool → Outcome ResolutionError WorkflowResolution
  resolve_workflow_for_event event resources allow_fan_out = do
    identity ← event_identity strip event
    refs ← matches render resources identity.0 identity.1 (by_kind "Workflow" resources.resources)
    ensure (leb (length refs) 1 || allow_fan_out) (ambiguous_workflow_match refs)
    returned (record { workflow_refs = refs })
