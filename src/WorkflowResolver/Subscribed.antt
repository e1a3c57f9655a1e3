-- ===== src/WorkflowResolver/Subscribed.antt =====
-- src/aep/workflow_resolver.py: the resolution against the Workflows that subscribe to the event.
use mathlib.Core.Path.{subst}
use agent_engineering_platfo.Prelude.{
  String, ◌≤◌, ◌≡◌, refl, Bool, true, false, ◌&&◌, ◌||◌, Option, none, some, List, [], ◌∷◌, str_eq,
  arith, length, leb, ◌⊎◌, if◌then◌else◌,
}
use agent_engineering_platfo.Outcome.{returned, bind_case, ensure_case, Returns, Returns-returned}
use agent_engineering_platfo.Json.{Json, str, arr, Items, nil, cons, Fields, get}
use agent_engineering_platfo.Store.State.{is_text}
use agent_engineering_platfo.Resources.{
  ResourceRef, Resource, ResourceCollection, get_resource, by_kind,
}
use agent_engineering_platfo.WorkflowExecution.Creation.{field_of}
use agent_engineering_platfo.WorkflowResolver.Resolver.{
  ResolutionError, WorkflowResolution, required, event_identity, event_ref_of, declared,
  trigger_event, check_triggers, triggers_match, workflow_matches, matches,
  resolve_workflow_for_event,
}

required-some :
    {A : Type 0} (e : ResolutionError) (o : Option A) (a : A)
    → required e o ≡ returned a
    → o ≡ some a
required-some e none a h = absurd cc
required-some e (some b) a h = cc

or_regroup : (m a b c : Bool) → a ≡ b → ((m || b) || c) ≡ (m || (a || c))
or_regroup m a b c h = ground arith

if_cons :
    (r : ResourceRef) (b c : Bool) (xs ys : List ResourceRef)
    → b ≡ c
    → xs ≡ ys
    → (if b then r ∷ xs else xs) ≡ (if c then r ∷ ys else ys)
if_cons r b c xs ys h k = rw (h, k) refl

module _ (render : Json → String) (resources : ResourceCollection) where
  declared-is_text :
      (v : Json) (s t : String)
      → declared render resources v ≡ returned s
      → is_text t v ≡ str_eq s t
  declared-is_text (str x) s t h = ground arith
  declared-is_text _ s t h = absurd cc

  module _ (source event_type : String) where
    -- The Event declares the source and the type.
    abbrev pub announces : Option Resource → Bool
    announces none = false
    announces (some r) =
        is_text source (field_of "source" (get "spec" r.fields))
        && is_text event_type (field_of "type" (get "spec" r.fields))

    abbrev pub resource_of : Option ResourceRef → Option Resource
    resource_of none = none
    resource_of (some ref) = get_resource resources ref

    -- Some trigger names such an Event.
    unfoldable pub any_announces : Items → Bool
    any_announces nil = false
    any_announces (cons trigger triggers) =
        announces (resource_of (event_ref_of render resources trigger)) || any_announces triggers

    abbrev pub items_in : Json → Items
    items_in (arr vs) = vs
    items_in _ = nil

    abbrev pub subscribes : Resource → Bool
    subscribes w = any_announces (items_in (field_of "triggers" (get "spec" w.fields)))

    unfoldable pub subscribers : List Resource → List ResourceRef
    subscribers [] = []
    subscribers (w ∷ ws) = let rest = subscribers ws in if subscribes w then w.ref ∷ rest else rest

    announces-resource_of :
        (trigger : Json) (ref : ResourceRef) (event : Resource) (s t : String)
        → event_ref_of render resources trigger ≡ some ref
        → get_resource resources ref ≡ some event
        → declared render resources (field_of "source" (get "spec" event.fields)) ≡ returned s
        → declared render resources (field_of "type" (get "spec" event.fields)) ≡ returned t
        → announces (resource_of (event_ref_of render resources trigger))
          ≡ (str_eq s source && str_eq t event_type)
    announces-resource_of trigger ref event s t ref_is event_is s_is t_is =
        rw
          (ref_is, event_is, declared-is_text _ s source s_is, declared-is_text _ t event_type t_is)
          refl

    abbrev pub Announced : Json → ResourceRef × (String × String) → Type 0
    Announced trigger e =
        announces (resource_of (event_ref_of render resources trigger))
        ≡ (str_eq e.1.0 source && str_eq e.1.1 event_type)

    trigger_event-announces :
        (seen : List ResourceRef) (trigger : Json)
        → Returns (Announced trigger) (trigger_event render resources seen trigger)
    unfolding trigger_event
    trigger_event-announces seen trigger =
        bind_case (Returns (Announced trigger)) _ _ (λ e _. tt)
          (λ ref ref_is.
            ensure_case (Returns (Announced trigger)) _ _ _ (λ _. tt)
              (λ _.
                ensure_case (Returns (Announced trigger)) _ _ _ (λ _. tt)
                  (λ _.
                    bind_case (Returns (Announced trigger)) _ _ (λ e _. tt)
                      (λ event event_is.
                        ensure_case (Returns (Announced trigger)) _ _ _ (λ _. tt)
                          (λ _.
                            bind_case (Returns (Announced trigger)) _ _ (λ e _. tt)
                              (λ s s_is.
                                bind_case (Returns (Announced trigger)) _ _ (λ e _. tt)
                                  (λ t t_is.
                                    announces-resource_of trigger ref event s t
                                      (required-some _ _ ref ref_is)
                                      (required-some _ _ event event_is) s_is t_is)))))))

    check_triggers-lem :
        (seen : List ResourceRef) (matched : Bool) (ts : Items)
        → Returns
            (λ b. b ≡ (matched || any_announces ts))
            (check_triggers render resources source event_type seen matched ts)
    unfolding check_triggers any_announces
    check_triggers-lem seen matched nil = ground arith
    check_triggers-lem seen matched (cons t ts) =
        bind_case (Returns (λ b. b ≡ (matched || any_announces (cons t ts)))) _ _ (λ e _. tt)
          (λ e e_is.
            subst
              (λ z.
                Returns (λ b. b ≡ z)
                  (check_triggers render resources source event_type (e.0 ∷ seen)
                    (matched || (str_eq e.1.0 source && str_eq e.1.1 event_type)) ts))
              (or_regroup matched _ _ (any_announces ts)
                (Returns-returned (Announced t) _ e (trigger_event-announces seen t) e_is))
              (check_triggers-lem (e.0 ∷ seen)
                (matched || (str_eq e.1.0 source && str_eq e.1.1 event_type)) ts))

    triggers_match-lem :
        (v : Json)
        → Returns
            (λ b. b ≡ any_announces (items_in v))
            (triggers_match render resources source event_type v)
    triggers_match-lem (arr (cons t ts)) = check_triggers-lem [] false (cons t ts)
    triggers_match-lem _ = tt

    workflow_matches-subscribes :
        (w : Resource)
        → Returns (λ b. b ≡ subscribes w) (workflow_matches render resources source event_type w)
    unfolding workflow_matches
    workflow_matches-subscribes w = triggers_match-lem (field_of "triggers" (get "spec" w.fields))

    pub matches-subscribers :
        (ws : List Resource)
        → Returns (λ refs. refs ≡ subscribers ws) (matches render resources source event_type ws)
    unfolding matches subscribers
    matches-subscribers [] = refl
    matches-subscribers (w ∷ ws) =
        bind_case (Returns (λ refs. refs ≡ subscribers (w ∷ ws))) _ _ (λ e _. tt)
          (λ b b_is.
            bind_case (Returns (λ refs. refs ≡ subscribers (w ∷ ws))) _ _ (λ e _. tt)
              (λ refs refs_is.
                if_cons w.ref b _ refs _
                  (Returns-returned (λ c. c ≡ subscribes w) _ b (workflow_matches-subscribes w)
                    b_is)
                  (Returns-returned (λ rs. rs ≡ subscribers ws) _ refs (matches-subscribers ws)
                    refs_is)))

-- One Workflow at most subscribes, or the caller allows several.
abbrev pub Fans : Bool → List ResourceRef → Type 0
Fans allow_fan_out refs = (length refs ≤ 1) ⊎ (allow_fan_out ≡ true)

fans_of :
    (refs : List ResourceRef) (a : Bool)
    → (leb (length refs) 1 || a) ≡ true
    → (length refs ≤ 1) ⊎ (a ≡ true)
fans_of refs a h = ground arith

module _ (strip : String → String) (render : Json → String) where
  -- The resolution is the subscribers of the event's identity.
  abbrev pub IsResolution : Fields → ResourceCollection → Bool → WorkflowResolution → Type 0
  IsResolution event resources allow_fan_out r =
      (identity : String × String) × (event_identity strip event ≡ returned identity)
      × (r.workflow_refs
          ≡ subscribers render resources identity.0 identity.1
              (by_kind "Workflow" resources.resources))
      × Fans allow_fan_out r.workflow_refs

  resolve-lem :
      (event : Fields) (resources : ResourceCollection) (allow_fan_out : Bool)
      → Returns
          (IsResolution event resources allow_fan_out)
          (resolve_workflow_for_event strip render event resources allow_fan_out)
  unfolding resolve_workflow_for_event
  resolve-lem event resources allow_fan_out =
      bind_case (Returns (IsResolution event resources allow_fan_out)) _ _ (λ e _. tt)
        (λ identity identity_is.
          bind_case (Returns (IsResolution event resources allow_fan_out)) _ _ (λ e _. tt)
            (λ refs refs_is.
              ensure_case (Returns (IsResolution event resources allow_fan_out)) _ _ _ (λ _. tt)
                (λ few. (
                  identity,
                  identity_is,
                  Returns-returned _ _ refs
                      (matches-subscribers render resources identity.0 identity.1
                        (by_kind "Workflow" resources.resources))
                      refs_is,
                  fans_of refs allow_fan_out few,
                ))))

  -- Where a resolution is returned, it holds the references of exactly the Workflows of the
  -- collection that subscribe to the event's cleaned source and type, in the collection's order: those
  -- with a trigger whose Event declares the two. There is one of them at most, unless the caller
  -- allows several.
  pub resolve-subscribers :
      (event : Fields) (resources : ResourceCollection) (allow_fan_out : Bool)
      (r : WorkflowResolution)
      → resolve_workflow_for_event strip render event resources allow_fan_out ≡ returned r
      → IsResolution event resources allow_fan_out r
  resolve-subscribers event resources allow_fan_out r h =
      Returns-returned _ _ r (resolve-lem event resources allow_fan_out) h
