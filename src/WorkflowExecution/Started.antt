-- ===== src/WorkflowExecution/Started.antt =====
-- The event of the start of a WorkflowExecution (src/aep/workflow_execution.py).
use mathlib.Core.Path.{subst}
use agent_engineering_platfo.Prelude.{String, ◌≡◌, refl, sym, ap, ◌∙◌}
use agent_engineering_platfo.Action.{Result, ok, pure, lift_case}
use agent_engineering_platfo.Json.{Json, Fields, str, int, obj, end, field, get, to_text}
use agent_engineering_platfo.Store.State.{Store}
use agent_engineering_platfo.Store.Rules.{item_value}
use agent_engineering_platfo.WorkflowExecution.Creation.{started_event, event_id_of}

pub value_of_ok : (made event : Fields) (s t : Store) → pure made s ≡ (ok event, t) → made ≡ event
unfolding pure
value_of_ok made event s t h = go (ap (λ r. r.0) h)
  where
    go : ◌≡◌ {A = Result Fields} (ok made) (ok event) → made ≡ event
    go e = cc

module _ (render : Json → String) (uuid5 : String → String) where
  -- The event says that the execution `x` started: it is the first event of `x`, of its trace, was
  -- emitted when `x` was created, and tells its status and the event that caused it.
  pub record IsStartOf (x event : Fields) : Type 0 where
    pub kind : get "kind" event ≡ str "ExecutionEvent"
    pub id : get "id" event ≡ str (event_id_of render uuid5 (to_text render (get "id" x)))
    pub event_type : get "eventType" event ≡ str "WorkflowExecutionStarted"
    pub subject :
        get "subject" event
        ≡ obj (
            field "kind"
              (str "WorkflowExecution")
              (field "id" (str (to_text render (get "id" x))) end))
    pub sequence : get "sequence" event ≡ int 1
    pub trace : get "traceId" event ≡ get "traceId" x
    pub emitted : get "emittedAt" event ≡ str (to_text render (get "createdAt" x))
    pub payload :
        get "payload" event
        ≡ obj (field "status" (get "status" x) (field "eventId" (get "eventId" x) end))
    pub provenance : Fields
    pub provenance_is : get "provenance" event ≡ obj provenance
    pub actor : get "actor" provenance ≡ str "workflow-controller"
    pub execution : get "workflowExecutionId" provenance ≡ str (to_text render (get "id" x))
    pub revision : get "repositoryRevision" provenance ≡ get "repositoryRevision" x
    pub graph_version : get "knowledgeGraphVersion" provenance ≡ get "knowledgeGraphVersion" x

  -- What `_started_event` returns, and it changes nothing.
  pub started_event-IsStartOf :
      (x : Fields) (s : Store) (event : Fields) (t : Store)
      → started_event render uuid5 x s ≡ (ok event, t)
      → (t ≡ s) × IsStartOf x event
  unfolding started_event get pure
  started_event-IsStartOf x s event t =
      lift_case Q _ _ s (λ _ _ h. absurd (cc))
        (λ id id_is.
          lift_case Q _ _ s (λ _ _ h. absurd (cc))
            (λ created created_is.
              lift_case Q _ _ s (λ _ _ h. absurd (cc))
                (λ trace trace_is.
                  lift_case Q _ _ s (λ _ _ h. absurd (cc))
                    (λ revision revision_is.
                      lift_case Q _ _ s (λ _ _ h. absurd (cc))
                        (λ graph graph_is.
                          lift_case Q _ _ s (λ _ _ h. absurd (cc))
                            (λ _ _.
                              lift_case Q _ _ s (λ _ _ h. absurd (cc))
                                (λ _ _.
                                  lift_case Q _ _ s (λ _ _ h. absurd (cc))
                                    (λ _ _.
                                      lift_case Q _ _ s (λ _ _ h. absurd (cc))
                                        (λ _ _.
                                          lift_case Q _ _ s (λ _ _ h. absurd (cc))
                                            (λ status status_is.
                                              lift_case Q _ _ s (λ _ _ h. absurd (cc))
                                                (λ cause cause_is h. (
                                                  same_store _ h,
                                                  subst (IsStartOf x) (value_of_ok _ event s t h)
                                                      (record {
                                                        kind = refl;
                                                        id =
                                                            ap
                                                            (λ j. str (
                                                            event_id_of render uuid5
                                                            (to_text render j)))
                                                            (item_value "id" x id id_is);
                                                        event_type = refl;
                                                        subject =
                                                            ap (λ j. subject_of (to_text render j))
                                                            (item_value "id" x id id_is);
                                                        sequence = refl;
                                                        trace =
                                                            item_value "traceId" x trace trace_is;
                                                        emitted =
                                                            ap (λ j. str (to_text render j))
                                                            (item_value "createdAt" x created
                                                            created_is);
                                                        payload =
                                                            ap
                                                            (λ j. obj (
                                                            field "status" j
                                                            (field "eventId" cause end)))
                                                            (item_value "status" x status status_is)
                                                            ∙ ap
                                                            (λ j. obj (
                                                            field "status" (get "status" x)
                                                            (field "eventId" j end)))
                                                            (item_value "eventId" x cause cause_is);
                                                        provenance = _;
                                                        provenance_is = refl;
                                                        actor = refl;
                                                        execution =
                                                            ap (λ j. str (to_text render j))
                                                            (item_value "id" x id id_is);
                                                        revision =
                                                            item_value "repositoryRevision" x
                                                            revision revision_is;
                                                        graph_version =
                                                            item_value "knowledgeGraphVersion" x
                                                            graph graph_is;
                                                      }),
                                                ))))))))))))
    where
      Q : Result Fields × Store → Type 0
      Q r = r ≡ (ok event, t) → (t ≡ s) × IsStartOf x event

      subject_of : String → Json
      subject_of id = obj (field "kind" (str "WorkflowExecution") (field "id" (str id) end))

      same_store : (made : Fields) → pure made s ≡ (ok event, t) → t ≡ s
      same_store made h = sym (ap (λ r. r.1) h)
