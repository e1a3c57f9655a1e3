-- ===== src/WorkflowExecution/Creation.antt =====
-- `WorkflowExecutionCreator` of src/aep/workflow_execution.py, without a lifecycle logger. Parameters:
-- `strip` and `render` are Python's `str.strip` and `str` on a value that is no text, `equal` its `==`
-- on JSON values; `uuid5` is the text of `uuid5(NAMESPACE_URL, …)`; `is_execution` and `is_event` are
-- the JSON Schema validators of the two records.
use Prim.Native.String.{◌++◌ as text_append}
use agent_engineering_platfo.Prelude.{
  zero, String, Bool, true, false, not, ◌&&◌, ◌||◌, Option, none, some, List, [], ◌∷◌, str_eq,
  contains, if◌then◌else◌,
}
use agent_engineering_platfo.Action.{
  Result, ok, err, value_error, type_error, key_error, Action, lift, guard, branch, pure, ◌>>=◌,
  ◌>>◌,
}
use agent_engineering_platfo.Json.{
  Json, null, bool, int, str, arr, obj, Items, nil, cons, Fields, end, field, get, set, to_text,
}
use agent_engineering_platfo.Store.State.{Store, item}
use agent_engineering_platfo.Store.Objects
use agent_engineering_platfo.Resources.{ResourceRef, Ref_eq, Resource, from_mapping}

-- A mapping's field; nothing of a value that is no mapping.
abbrev pub field_of : String → Json → Json
field_of key (obj f) = get key f
field_of key _ = null

abbrev pub is_mapping : Json → Bool
is_mapping (obj _) = true
is_mapping _ = false

-- `_ref_record`
unfoldable pub ref_record : ResourceRef → Json
ref_record ref = obj (
    field "kind" (str ref.kind)
      (field "name" (str ref.name) (field "version" (str ref.version) end)))

-- `_ref_identity`
unfoldable pub ref_identity : ResourceRef → String
ref_identity ref =
    text_append ref.kind (text_append "/" (text_append ref.name (text_append ":" ref.version)))

-- The budget overrides, where they are given: a mapping that is not empty.
unfoldable pub with_overrides : Option Json → Fields → Result Fields
with_overrides none value = ok value
with_overrides (some (obj (field k v f))) value =
    ok (set "budgetOverrides" (obj (field k v f)) value)
with_overrides (some _) value = err value_error

module _ (strip : String → String) where
  -- `_required_value`
  unfoldable pub required_value : String → Result String
  required_value t = if str_eq (strip t) "" then err value_error else ok (strip t)

  -- `_required_string`
  unfoldable pub required_string : Json → Result String
  required_string (str t) = required_value t
  required_string _ = err value_error

module _ (render : Json → String) where
  -- The references of the triggers that are mappings with a mapping `eventRef`.
  unfoldable pub trigger_refs_of : Items → Result (List ResourceRef)
  trigger_refs_of nil = ok []
  trigger_refs_of (cons trigger triggers) =
      go (field_of "eventRef" trigger) (trigger_refs_of triggers)
    where
      and_ref : Option ResourceRef → Result (List ResourceRef) → Result (List ResourceRef)
      and_ref none rest = err key_error
      and_ref (some ref) (ok refs) = ok (ref ∷ refs)
      and_ref (some ref) (err e) = err e

      go : Json → Result (List ResourceRef) → Result (List ResourceRef)
      go (obj f) rest = and_ref (from_mapping render f) rest
      go _ rest = rest

  -- `for trigger in triggers or ()`: a text or a dict has items too, none of which is a mapping.
  unfoldable pub trigger_refs : Json → Result (List ResourceRef)
  trigger_refs (arr triggers) = trigger_refs_of triggers
  trigger_refs null = ok []
  trigger_refs (str t) = ok []
  trigger_refs (obj f) = ok []
  trigger_refs (bool false) = ok []
  trigger_refs (int zero) = ok []
  trigger_refs _ = err type_error

  module _ (equal : Json → Json → Bool) where
    -- `_validate_resource_pair`
    unfoldable pub validate_resource_pair : Fields → Resource → Resource → Action Store (Unit {0})
    validate_resource_pair event workflow event_resource = do
      guard (str_eq workflow.ref.kind "Workflow") value_error
      guard (str_eq event_resource.ref.kind "Event") value_error
      guard
          (not (str_eq workflow.ref.version "latest" || str_eq event_resource.ref.version "latest"))
          value_error
      refs ← lift (trigger_refs (field_of "triggers" (get "spec" workflow.fields)))
      guard (contains refs event_resource.ref) value_error
      let event_spec = get "spec" event_resource.fields
      guard
          (is_mapping event_spec
            && equal (get "source" event) (field_of "source" event_spec)
            && equal (get "type" event) (field_of "type" event_spec))
          value_error

abbrev pub items_of : Json → Result Items
items_of (arr vs) = ok vs
items_of _ = err type_error

abbrev pub mapping_of : Json → Result Fields
mapping_of (obj f) = ok f
mapping_of _ = err type_error

module _ (render : Json → String) (uuid5 : String → String) where
  unfoldable pub event_id_of : String → String
  event_id_of execution_id = text_append "executionevent-" (
      uuid5 (text_append "execution-event:" (text_append execution_id ":WorkflowExecutionStarted")))

  -- `_started_event`
  unfoldable pub started_event : Fields → Action Store Fields
  started_event execution = do
    id ← lift (item "id" execution)
    created ← lift (item "createdAt" execution)
    let execution_id = to_text render id
    let timestamp = str (to_text render created)
    trace_id ← lift (item "traceId" execution)
    revision ← lift (item "repositoryRevision" execution)
    graph_version ← lift (item "knowledgeGraphVersion" execution)
    provenance_value ← lift (item "provenance" execution)
    provenance ← lift (mapping_of provenance_value)
    refs_value ← lift (item "resourceRefs" provenance)
    refs ← lift (items_of refs_value)
    status ← lift (item "status" execution)
    event_id ← lift (item "eventId" execution)
    pure (
        field "apiVersion" (str "aep.dev/v1alpha1") (
          field "kind" (str "ExecutionEvent") (
            field "id" (str (event_id_of execution_id)) (
              field "traceId" trace_id (
                field "createdAt" timestamp (
                  field "updatedAt" timestamp (
                    field "provenance"
                      (obj (
                        field "actor" (str "workflow-controller") (
                          field "workflowExecutionId" (str execution_id) (
                            field "repositoryRevision" revision (
                              field "knowledgeGraphVersion" graph_version
                                (field "resourceRefs" (arr refs) end))))))
                      (field "eventType" (str "WorkflowExecutionStarted") (
                        field "subject"
                          (obj (
                            field "kind" (str "WorkflowExecution")
                              (field "id" (str execution_id) end)))
                          (field "sequence" (int 1) (
                            field "emittedAt" timestamp (
                              field "payload"
                                (obj (field "status" status (field "eventId" event_id end)))
                                end))))))))))))

-- f"{event_id}:{_ref_identity(workflow.ref)}"
unfoldable pub identity_of : String → ResourceRef → String
identity_of event_id ref = text_append event_id (text_append ":" (ref_identity ref))

-- The record that `create` makes.
unfoldable pub workflow_record :
    (String → String) → String → String → Json → Json → String → String → String → Fields
workflow_record uuid5 identity event_id workflow_ref event_ref revision graph_version created_at =
    field "apiVersion" (str "aep.dev/v1alpha1") (
      field "kind" (str "WorkflowExecution") (
        field "id"
          (str
            (text_append "workflowexecution-" (uuid5 (text_append "workflow-execution:" identity))))
          (field "traceId"
            (str (text_append "trace-" (uuid5 (text_append "workflow-trace:" identity))))
            (field "createdAt" (str created_at) (
              field "updatedAt" (str created_at) (
                field "provenance"
                  (obj (
                    field "actor" (str "workflow-controller") (
                      field "repositoryRevision" (str revision) (
                        field "knowledgeGraphVersion" (str graph_version) (
                          field "resourceRefs" (arr (cons workflow_ref (cons event_ref nil)))
                            end)))))
                  (field "workflowRef" workflow_ref (
                    field "eventRef" event_ref (
                      field "eventId" (str event_id) (
                        field "repositoryRevision" (str revision) (
                          field "knowledgeGraphVersion" (str graph_version) (
                            field "status" (str "RUNNING") (
                              field "startedAt" (str created_at)
                                (field "taskExecutionIds" (arr nil) end))))))))))))))

module _ (strip : String → String) (render : Json → String) (equal : Json → Json → Bool)
    (uuid5 : String → String) (is_execution is_event : Fields → Bool) where
  -- The event that the append is given: that of the execution that the store returned.
  unfoldable pub event_of : Fields → Fields → Fields → Action Store Fields
  event_of record_ execution creation_event =
      branch (equal (obj execution) (obj record_)) (pure creation_event) (do
        event ← started_event render uuid5 execution
        guard (is_event event) value_error
        pure event)

  unfoldable pub create :
      Fields → Resource → Resource → String → String → String → Option Json → Action Store Fields
  create event workflow event_resource repository_revision knowledge_graph_version timestamp
        overrides =
      do
        event_id ← lift (required_string strip (get "id" event))
        lift (required_string strip (get "deduplicationKey" event))
        validate_resource_pair render equal event workflow event_resource
        revision ← lift (required_value strip repository_revision)
        graph_version ← lift (required_value strip knowledge_graph_version)
        created_at ← lift (required_value strip timestamp)
        let identity = identity_of event_id workflow.ref
        record_ ← lift (
            with_overrides overrides (
              workflow_record uuid5 identity event_id (ref_record workflow.ref)
                (ref_record event_resource.ref) revision graph_version created_at))
        creation_event ← started_event render uuid5 record_
        guard (is_execution record_) value_error
        guard (is_event creation_event) value_error
        execution ← Objects.create record_ (text_append "workflow-execution:" identity)
        event' ← event_of record_ execution creation_event
        Objects.append_event event'
        pure execution
