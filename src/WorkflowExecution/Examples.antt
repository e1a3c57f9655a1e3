-- ===== src/WorkflowExecution/Examples.antt =====
-- The creation of a WorkflowExecution for a concrete event.
use agent_engineering_platfo.Prelude.{
  String, ◌≡◌, ◌∙◌, refl, ap, Bool, true, false, none, [], String_eq, str_eq, eq_iff, contains,
}
use agent_engineering_platfo.Action.{◌>>=◌, pure}
use agent_engineering_platfo.Dict.{lookup, insert}
use agent_engineering_platfo.Json.{Json, str, arr, obj, nil, cons, Fields, end, field, get, has}
use agent_engineering_platfo.Store.State.{empty, copy_and_validate, index}
use agent_engineering_platfo.Store.Objects
use agent_engineering_platfo.Resources.{ResourceRef, Ref_eq, Resource, from_mapping}
use agent_engineering_platfo.WorkflowExecution.Creation.{
  required_string, required_value, validate_resource_pair, trigger_refs, trigger_refs_of,
  identity_of, ref_identity, ref_record, with_overrides, workflow_record, started_event,
  event_id_of, event_of, create,
}
use agent_engineering_platfo.WorkflowExecution.Recorded.{Recorded, create-Recorded}

abbrev same : String → String
same s = s

abbrev render : Json → String
render _ = "None"

abbrev accepts : Fields → Bool
accepts f = true

abbrev text_equal : Json → Json → Bool
text_equal (str a) (str b) = str_eq a b
text_equal _ _ = false

-- Texts are compared as such, and objects by their ids.
abbrev equal : Json → Json → Bool
equal (obj a) (obj b) = text_equal (get "id" a) (get "id" b)
equal a b = text_equal a b

text_equal_sound : (a b : Json) → text_equal a b ≡ true → a ≡ b
text_equal_sound (str a) (str b) h = ap str ((eq_iff a b).0 h)
text_equal_sound (str a) _ h = cc
text_equal_sound _ b h = cc

equal_id :
    (a b : Fields) (t : String)
    → equal (obj a) (obj b) ≡ true
    → get "id" b ≡ str t
    → get "id" a ≡ str t
equal_id a b t h named = text_equal_sound (get "id" a) (get "id" b) h ∙ named

abbrev event_ref : ResourceRef
event_ref = record { kind = "Event"; name = "issue"; version = "1.0.0" }

abbrev event : Fields
event = field "id" (str "e1") (
    field "deduplicationKey" (str "d1")
      (field "source" (str "github") (field "type" (str "issue") end)))

abbrev workflow : Resource
workflow = record {
  ref = record { kind = "Workflow"; name = "fix"; version = "1.0.0" };
  path = "fix";
  fields =
      field "spec"
        (obj (
          field "triggers"
            (arr (
              cons
                (obj (
                  field "eventRef"
                    (obj (
                      field "kind" (str "Event")
                        (field "name" (str "issue") (field "version" (str "1.0.0") end))))
                    end))
                nil))
            end))
        end;
  references = [];
}

abbrev event_resource : Resource
event_resource = record {
  ref = event_ref;
  path = "issue";
  fields = field "spec" (obj (field "source" (str "github") (field "type" (str "issue") end))) end;
  references = [];
}

abbrev created : Fields
created =
    workflow_record same (identity_of "e1" workflow.ref) "e1" (ref_record workflow.ref)
      (ref_record event_ref) "abc" "g1" "2026-01-01"

create-Recorded_example :
    Recorded same render equal same event workflow.ref created empty
      (create same render equal same accepts accepts event workflow event_resource "abc" "g1"
        "2026-01-01" none empty).1
unfolding create required_string required_value validate_resource_pair trigger_refs trigger_refs_of
    from_mapping with_overrides workflow_record started_event event_of ◌>>=◌ pure get has contains
    Objects.create Objects.append_event copy_and_validate Objects.create_at Objects.create_new
    Objects.insert_object index insert lookup identity_of ref_identity ref_record event_id_of
create-Recorded_example =
    create-Recorded same render equal same accepts accepts equal_id event workflow event_resource
      "abc" "g1" "2026-01-01" none created empty refl
