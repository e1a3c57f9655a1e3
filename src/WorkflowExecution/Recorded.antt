-- ===== src/WorkflowExecution/Recorded.antt =====
-- A creation that returns (src/aep/workflow_execution.py) leaves the execution and its first event.
use mathlib.Core.Path.{subst}
use Prim.Native.String.{◌++◌ as text_append}
use agent_engineering_platfo.Prelude.{
  String, ◌≡◌, ◌⊎◌, inl, inr, refl, sym, ap, ◌∙◌, Bool, true, Option, some, String_eq, Option-cases,
}
use agent_engineering_platfo.Action.{
  Result, ok, pure, guard_case, lift_case, branch_case, step_case,
}
use agent_engineering_platfo.Dict.{lookup}
use agent_engineering_platfo.Json.{Json, str, obj, Fields, get, to_text}
use agent_engineering_platfo.Store.State.{Store}
use agent_engineering_platfo.Store.Objects
use agent_engineering_platfo.Store.Identity.{IsCreated}
use agent_engineering_platfo.Resources.{Resource, ResourceRef}
use agent_engineering_platfo.WorkflowExecution.Creation.{
  started_event, event_id_of, event_of, create, identity_of, required_string,
}
use agent_engineering_platfo.WorkflowExecution.Started.{
  IsStartOf, started_event-IsStartOf, value_of_ok,
}
use agent_engineering_platfo.WorkflowExecution.Appended.{
  created_pair, append_event_kept, keys_apart, create_keys, created_text, validated_same,
  append_event-IsCreated, append_event_fresh,
}

module _ (strip : String → String) (render : Json → String) (equal : Json → Json → Bool)
    (uuid5 : String → String) where
  abbrev pub event_key : Fields → String
  event_key v =
      text_append "execution-event:" (event_id_of render uuid5 (to_text render (get "id" v)))

  -- The event says that `v` started, or that an execution started which `==` does not tell from `v`.
  pub record IsFirstEvent (v event : Fields) : Type 0 where
    pub source : Fields
    pub source_is : (source ≡ v) ⊎ (equal (obj v) (obj source) ≡ true)
    pub same_id : get "id" source ≡ get "id" v
    pub says : IsStartOf render uuid5 source event

  -- The execution stands under its deterministic key, and an event under the key of the execution's
  -- first event; the event is the execution's first, unless the key was bound in the store before.
  pub record Recorded (cause : Fields) (workflow : ResourceRef) (v : Fields) (before after : Store)
      : Type 0 where
    pub event_id : String
    pub caused : required_string strip (get "id" cause) ≡ ok event_id
    pub execution :
        IsCreated (text_append "workflow-execution:" (identity_of event_id workflow)) v after
    pub event : Fields
    pub started : IsCreated (event_key v) event after
    pub first :
        IsFirstEvent v event
        ⊎ ((i : String) × (lookup (event_key v) before.deterministic_keys ≡ some i))

module _ (strip : String → String) (render : Json → String) (equal : Json → Json → Bool)
    (uuid5 : String → String) (is_execution is_event : Fields → Bool)
    (equal_id : (a b : Fields) (t : String)
      → equal (obj a) (obj b) ≡ true
      → get "id" b ≡ str t
      → get "id" a ≡ str t) where
  event_of-IsFirstEvent :
      (x first creation event : Fields) (i : String) (s t : Store)
      → get "id" first ≡ str i
      → IsStartOf render uuid5 first creation
      → event_of strip render equal uuid5 is_execution is_event first x creation s ≡ (ok event, t)
      → (t ≡ s) × IsFirstEvent strip render equal uuid5 x event
  unfolding event_of pure
  event_of-IsFirstEvent x first creation event i s t named made =
      branch_case Q _ _ _ s
        (λ same h. (
          sym (ap (λ r. r.1) h),
          record {
            source = first;
            source_is = inr same;
            same_id = named ∙ sym (equal_id x first i same named);
            says = subst (IsStartOf render uuid5 first) (value_of_ok creation event s t h) made;
          },
        ))
        (λ _.
          step_case Q _ _ s (λ e u _ h. absurd (cc))
            (λ event' u first_step.
              guard_case Q _ _ _ u (λ _ h. absurd (cc))
                (λ _ h.
                  let (unchanged, says) =
                    started_event-IsStartOf render uuid5 x s event' u first_step in
                  (
                    sym (ap (λ r. r.1) h) ∙ unchanged,
                    record {
                      source = x;
                      source_is = inl refl;
                      same_id = refl;
                      says = subst (IsStartOf render uuid5 x) (value_of_ok event' event u t h) says;
                    },
                  ))))
    where
      Q : Result Fields × Store → Type 0
      Q r = r ≡ (ok event, t) → (t ≡ s) × IsFirstEvent strip render equal uuid5 x event

  first_event_id :
      (v event : Fields)
      → IsFirstEvent strip render equal uuid5 v event
      → get "id" event ≡ str (event_id_of render uuid5 (to_text render (get "id" v)))
  first_event_id v event f =
      f.says.id ∙ ap (λ j. str (event_id_of render uuid5 (to_text render j))) f.same_id

  -- The event that the last step returns.
  appended_first :
      (v event appended : Fields) (s t4 t5 : Store)
      → IsFirstEvent strip render equal uuid5 v event
      → lookup (event_key strip render equal uuid5 v) t4.deterministic_keys
        ≡ lookup (event_key strip render equal uuid5 v) s.deterministic_keys
      → Objects.append_event event t4 ≡ (ok appended, t5)
      → IsFirstEvent strip render equal uuid5 v appended
        ⊎ ((i : String) × (lookup (event_key strip render equal uuid5 v) s.deterministic_keys
              ≡ some i))
  appended_first v event appended s t4 t5 f keys recorded =
      elim (Option-cases (lookup (event_key strip render equal uuid5 v) s.deterministic_keys)) [
        | inl new ↦ inl (
            subst (IsFirstEvent strip render equal uuid5 v)
              (sym (
                append_event_fresh event appended _ t4 t5 (first_event_id v event f) (keys ∙ new)
                  recorded))
              f)
        | inr (i, old) ↦ inr (i, old)
      ]

  -- The end of a creation: what its last four steps leave.
  after_steps :
      (event : Fields) (workflow : ResourceRef) (event_id : String) (first creation : Fields)
      (execution event' appended : Fields) (s t2 t3 t4 t5 : Store)
      → required_string strip (get "id" event) ≡ ok event_id
      → started_event render uuid5 first s ≡ (ok creation, t2)
      → Objects.create first (text_append "workflow-execution:" (identity_of event_id workflow)) t2
        ≡ (ok execution, t3)
      → event_of strip render equal uuid5 is_execution is_event first execution creation t3
        ≡ (ok event', t4)
      → Objects.append_event event' t4 ≡ (ok appended, t5)
      → Recorded strip render equal uuid5 event workflow execution s t5
  after_steps event workflow event_id first creation execution event' appended s t2 t3 t4 t5 caused
        started stored chosen recorded =
      let key = text_append "workflow-execution:" (identity_of event_id workflow) in
      let (same2, made) = started_event-IsStartOf render uuid5 first s creation t2 started in
      let (i, named) = created_text first execution key t2 t3 stored in
      let (same4, f) =
        event_of-IsFirstEvent execution first creation event' i t3 t4 named made chosen in
      let before = created_pair first execution key t2 t3 stored in
      let kept =
        append_event_kept event' key execution t4
          (subst (λ u. IsCreated key execution u) (sym same4) before) in
      let after : (Objects.append_event event' t4).1 ≡ t5 = ap (λ r. r.1) recorded in
      let other = event_key strip render equal uuid5 execution in
      let keys : lookup other t4.deterministic_keys ≡ lookup other s.deterministic_keys =
        ap (λ u. lookup other u.deterministic_keys) (same4 ∙ sym (ap (λ r. r.1) stored))
        ∙ create_keys first key other t2 (keys_apart _ _)
        ∙ ap (λ u. lookup other u.deterministic_keys) same2 in
      record {
        event_id = event_id;
        caused = caused;
        execution = subst (λ u. IsCreated key execution u) after kept;
        event = appended;
        started =
            append_event-IsCreated event' appended _ t4 t5 (first_event_id execution event' f)
              recorded;
        first = appended_first execution event' appended s t4 t5 f keys recorded;
      }

  -- A creation that returns leaves the execution under its deterministic key and an event under the key
  -- of the execution's first event, also where the execution was there before and its event was not.
  -- Unless that key was bound before, the event says that the execution started (or one that `==` does
  -- not tell from it): it has type WorkflowExecutionStarted, sequence 1, the execution as its subject,
  -- its trace, its instant of creation, its status and cause as the payload, and its provenance. Of
  -- `==` it is assumed that it tells an id that is a text from any other value.
  pub create-Recorded :
      (event : Fields) (workflow event_resource : Resource)
      (revision graph_version timestamp : String) (overrides : Option Json) (v : Fields) (s : Store)
      → (create strip render equal uuid5 is_execution is_event event workflow event_resource
          revision graph_version timestamp overrides s).0
        ≡ ok v
      → Recorded strip render equal uuid5 event workflow.ref v s
          (create strip render equal uuid5 is_execution is_event event workflow event_resource
            revision graph_version timestamp overrides s).1
  unfolding create pure
  create-Recorded event workflow event_resource revision graph_version timestamp overrides v s =
      lift_case Q _ _ s (λ _ _ h. cc)
        (λ event_id caused.
          lift_case Q _ _ s (λ _ _ h. cc)
            (λ _ _.
              step_case Q _ _ s (λ e t _ h. cc)
                (λ u t1 valid.
                  lift_case Q _ _ t1 (λ _ _ h. cc)
                    (λ _ _.
                      lift_case Q _ _ t1 (λ _ _ h. cc)
                        (λ _ _.
                          lift_case Q _ _ t1 (λ _ _ h. cc)
                            (λ _ _.
                              lift_case Q _ _ t1 (λ _ _ h. cc)
                                (λ first _.
                                  step_case Q _ _ t1 (λ e t _ h. cc)
                                    (λ creation t2 started.
                                      guard_case Q _ _ _ t2 (λ _ h. cc)
                                        (λ _.
                                          guard_case Q _ _ _ t2 (λ _ h. cc)
                                            (λ _.
                                              step_case Q _ _ t2 (λ e t _ h. cc)
                                                (λ execution t3 stored.
                                                  step_case Q _ _ t3 (λ e t _ h. cc)
                                                    (λ event' t4 chosen.
                                                      step_case Q _ _ t4 (λ e t _ h. cc)
                                                        (λ appended t5 recorded h.
                                                          let same : execution ≡ v = cc in
                                                          finish t1 t5 execution
                                                            (validated_same render equal event
                                                            workflow event_resource s t1 u valid)
                                                            same
                                                            (after_steps event workflow.ref event_id
                                                            first creation execution event' appended
                                                            t1 t2 t3 t4 t5 caused started stored
                                                            chosen recorded))))))))))))))
    where
      Q : Result Fields × Store → Type 0
      Q r = r.0 ≡ ok v → Recorded strip render equal uuid5 event workflow.ref v s r.1

      finish :
          (t1 t5 : Store) (execution : Fields)
          → t1 ≡ s
          → execution ≡ v
          → Recorded strip render equal uuid5 event workflow.ref execution t1 t5
          → Recorded strip render equal uuid5 event workflow.ref v s t5
      finish t1 t5 execution there same r =
          subst (λ z. Recorded strip render equal uuid5 event workflow.ref v z t5) there
            (subst (λ z. Recorded strip render equal uuid5 event workflow.ref z t1 t5) same r)
