-- ===== src/WorkflowExecution/Appended.antt =====
-- src/aep/workflow_execution.py: what the steps of a creation do to the deterministic keys of the store.
use mathlib.Core.Path.{subst}
use text.Mathlib.TextLemmas.{append_assoc, append_inj}
use Prim.Native.String.{◌++◌ as text_append}
use agent_engineering_platfo.Prelude.{
  String, ◌≡◌, ◌≢◌, refl, sym, ap, ◌∙◌, Bool, true, none, arith, eq_iff, String_eq,
}
use agent_engineering_platfo.Action.{
  Result, ok, guard_case, lift_case, guard_rule, lift_rule, guard_last_rule,
}
use agent_engineering_platfo.Dict.{lookup, lookup-insert}
use agent_engineering_platfo.Json.{Json, null, bool, int, negative, arr, str, obj, Fields, get}
use agent_engineering_platfo.Store.State.{Store, text_or, index, non_empty_text}
use agent_engineering_platfo.Store.Objects
use agent_engineering_platfo.Store.Rules.{copy_and_validate_ok, create_rule, append_event_rule}
use agent_engineering_platfo.Store.Identity.{IsCreated, create-IsCreated, created_fresh}
use agent_engineering_platfo.Resources.{Resource}
use agent_engineering_platfo.WorkflowExecution.Creation.{validate_resource_pair}

pub created_pair :
    (value made : Fields) (key : String) (s t : Store)
    → Objects.create value key s ≡ (ok made, t)
    → IsCreated key made t
created_pair value made key s t h =
    subst (λ u. IsCreated key made u) (ap (λ r. r.1) h)
      (create-IsCreated value made key s (ap (λ r. r.0) h))

-- An event that is appended leaves what was created before.
pub append_event_kept :
    (event : Fields) (key : String) (v : Fields) (s : Store)
    → IsCreated key v s
    → IsCreated key v (Objects.append_event event s).1
unfolding Objects.insert_object index
append_event_kept event key v s c =
    append_event_rule (IsCreated key v) event s c λ new is_object kind new_key new_id. record {
      named = c.named;
      id = c.id;
      bound = ground (
        arith,
        lookup-insert new key (text_or "" (get "id" event)) s.deterministic_keys,
        eq_iff new key,
        c.bound,
        new_key,
      );
      found = ground (
        arith,
        lookup-insert (text_or "" (get "id" event)) c.id event s.objects,
        eq_iff (text_or "" (get "id" event)) c.id,
        c.found,
        new_id,
      );
    }

-- The two kinds of deterministic keys have nothing in common.
pub keys_apart :
    (a b : String) → text_append "workflow-execution:" a ≢ text_append "execution-event:" b
keys_apart a b h =
    let parted : text_append "workflow-executi" (text_append "on:" a)
        ≡ text_append "execution-event:" b =
      sym (append_assoc "workflow-executi" "on:" a) ∙ h in
    let same = (eq_iff "workflow-executi" "execution-event:").1 (append_inj parted refl).0 in
    absurd (cc same)

-- A creation binds no key but its own.
pub create_keys :
    (value : Fields) (key other : String) (s : Store)
    → key ≢ other
    → lookup other (Objects.create value key s).1.deterministic_keys
      ≡ lookup other s.deterministic_keys
unfolding Objects.insert_object index
create_keys value key other s apart =
    create_rule (λ t. lookup other t.deterministic_keys ≡ lookup other s.deterministic_keys) value
      key s refl
      (λ valid new_key new_id. ground (
        arith,
        lookup-insert key other (text_or "" (get "id" value)) s.deterministic_keys,
        eq_iff key other,
        apart,
      ))

text_of_id : (j : Json) → non_empty_text j ≡ true → (t : String) × (j ≡ str t)
text_of_id (str t) h = (t, refl)
text_of_id null h = absurd (cc)
text_of_id (bool b) h = absurd (cc)
text_of_id (int k) h = absurd (cc)
text_of_id (negative k) h = absurd (cc)
text_of_id (arr vs) h = absurd (cc)
text_of_id (obj f) h = absurd (cc)

-- A creation that returns was given an object whose id is a text.
pub created_text :
    (value made : Fields) (key : String) (s t : Store)
    → Objects.create value key s ≡ (ok made, t)
    → (i : String) × (get "id" value ≡ str i)
unfolding Objects.create
created_text value made key s t =
    lift_case Q _ _ s (λ _ _ h. absurd (cc))
      (λ v valid _. text_of_id _ ((copy_and_validate_ok value v valid).1).id_text)
  where
    Q : Result Fields × Store → Type 0
    Q r = r ≡ (ok made, t) → (i : String) × (get "id" value ≡ str i)

-- `_validate_resource_pair` changes nothing.
pub validated_same :
    (render : Json → String) (equal : Json → Json → Bool) (event : Fields)
    (workflow event_resource : Resource) (s t : Store) (u : Unit {0})
    → validate_resource_pair render equal event workflow event_resource s ≡ (ok u, t)
    → t ≡ s
unfolding validate_resource_pair
validated_same render equal event workflow event_resource s t u h =
    sym (ap (λ r. r.1) h)
    ∙ guard_rule P _ _ _ s refl (λ _. guard_rule P _ _ _ s refl (λ _.
      guard_rule P _ _ _ s refl (λ _.
        lift_rule P _ _ s refl
          (λ _ _. guard_rule P _ _ _ s refl (λ _. guard_last_rule P _ _ s refl)))))
  where
    P : Store → Type 0
    P x = x ≡ s

pub append_event-IsCreated :
    (event made : Fields) (id : String) (s t : Store)
    → get "id" event ≡ str id
    → Objects.append_event event s ≡ (ok made, t)
    → IsCreated (text_append "execution-event:" id) made t
unfolding Objects.append_event
append_event-IsCreated event made id s t named =
    lift_case Q _ _ s (λ _ _ h. absurd (cc))
      λ value valid.
        guard_case Q _ _ _ s (λ _ h. absurd (cc))
          λ _ h.
            let same : value ≡ event = (copy_and_validate_ok event value valid).0 in
            subst (λ j. IsCreated (text_append "execution-event:" (text_or "" j)) made t)
              (ap (get "id") same ∙ named) (created_pair value made _ s t h)
  where
    Q : Result Fields × Store → Type 0
    Q r = r ≡ (ok made, t) → IsCreated (text_append "execution-event:" id) made t

-- An event that is appended under a new key is the one that was given.
pub append_event_fresh :
    (event made : Fields) (id : String) (s t : Store)
    → get "id" event ≡ str id
    → lookup (text_append "execution-event:" id) s.deterministic_keys ≡ none
    → Objects.append_event event s ≡ (ok made, t)
    → made ≡ event
unfolding Objects.append_event
append_event_fresh event made id s t named new =
    lift_case Q _ _ s (λ _ _ h. absurd (cc))
      (λ value valid.
        guard_case Q _ _ _ s (λ _ h. absurd (cc))
          (λ _ h.
            let same : value ≡ event = (copy_and_validate_ok event value valid).0 in
            (created_fresh value made _ s t
              (subst
                (λ j.
                  lookup (text_append "execution-event:" (text_or "" j)) s.deterministic_keys
                  ≡ none)
                (sym (ap (get "id") same ∙ named)) new)
              h).0
            ∙ same))
  where
    Q : Result Fields × Store → Type 0
    Q r = r ≡ (ok made, t) → made ≡ event
