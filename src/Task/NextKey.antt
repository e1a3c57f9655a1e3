-- ===== src/Task/NextKey.antt =====
-- src/aep/task_execution.py: what `TaskExecutionManager.create` and `retry` come to, and the key under
-- which they create.
use agent_engineering_platfo.Prelude.{String, Bool, ◌≡◌, refl, true, some, String_eq}
use agent_engineering_platfo.Action.{Error, Result, ok, err, guard_case, lift_case}
use agent_engineering_platfo.Dict.{lookup}
use agent_engineering_platfo.Json.{Json, Fields, Items, to_text}
use agent_engineering_platfo.Store.State.{Store, item}
use agent_engineering_platfo.Store.Objects
use agent_engineering_platfo.Task.Correlation.{Correlation}
use agent_engineering_platfo.Task.Lifecycle.{
  mapping, next_attempt, may_retry, execution_key, create, retry,
}
use agent_engineering_platfo.Task.Cases.{require_task_execution_case}

module _ (strip : String → String) (render : Json → String)
    (is_task_ref is_task_execution : Fields → Bool) where
  -- The deterministic key of an attempt at a task.
  pub record KeyOf (workflow_id : Json) (task_ref : Fields) (attempt : Json) (key : String)
      : Type 0 where
    kind : Json
    kind_of : item "kind" task_ref ≡ ok kind
    name : Json
    name_of : item "name" task_ref ≡ ok name
    version : Json
    version_of : item "version" task_ref ≡ ok version
    key_is :
        execution_key strip render is_task_ref is_task_execution workflow_id
          (to_text render kind)
          (to_text render name)
          (to_text render version)
          attempt
        ≡ key

  -- The key under which the next attempt after `previous` is created.
  pub record NextKey (previous : Fields) (key : String) : Type 0 where
    workflow_id : Json
    workflow_of : item "workflowExecutionId" previous ≡ ok workflow_id
    ref_value : Json
    ref_of : item "taskRef" previous ≡ ok ref_value
    task_ref : Fields
    fields_of : mapping ref_value ≡ ok task_ref
    attempt_value : Json
    attempt_of : item "attempt" previous ≡ ok attempt_value
    attempt : Json
    next_of : next_attempt attempt_value ≡ ok attempt
    key_of : KeyOf workflow_id task_ref attempt key

  -- The key depends on the previous attempt only.
  pub same_key :
      {previous : Fields} {key key' : String}
      → NextKey previous key
      → NextKey previous key'
      → key ≡ key'
  same_key a b =
      let workflow : a.workflow_id ≡ b.workflow_id = cc (a.workflow_of, b.workflow_of) in
      let value : a.ref_value ≡ b.ref_value = cc (a.ref_of, b.ref_of) in
      let task_ref : a.task_ref ≡ b.task_ref = cc (a.fields_of, b.fields_of, value) in
      let attempt_value : a.attempt_value ≡ b.attempt_value = cc (a.attempt_of, b.attempt_of) in
      let attempt : a.attempt ≡ b.attempt = cc (a.next_of, b.next_of, attempt_value) in
      let j = a.key_of in
      let k = b.key_of in
      let kind : j.kind ≡ k.kind = cc (j.kind_of, k.kind_of, task_ref) in
      let name : j.name ≡ k.name = cc (j.name_of, k.name_of, task_ref) in
      let version : j.version ≡ k.version = cc (j.version_of, k.version_of, task_ref) in
      cc (j.key_is, k.key_is, workflow, attempt, kind, name, version)

  module _ {κ} (Q : Result Fields × Store → Type κ) (s : Store)
      (refused : (e : Error) → Q (err e, s)) where
    -- `create` raises before it writes, or creates an object under the key.
    create_case :
        (id : String) (workflow_id : Json) (task_ref : Fields) (attempt : Json) (c : Correlation)
        (timestamp : String) (provenance : Fields) (dependencies : Items)
        → ((key : String) (value : Fields)
            → KeyOf workflow_id task_ref attempt key
            → Q (Objects.create value key s))
        → Q (
            create strip render is_task_ref is_task_execution id workflow_id task_ref attempt c
              timestamp provenance dependencies s)
    unfolding create
    create_case id workflow_id task_ref attempt c timestamp provenance dependencies next =
        guard_case Q _ _ _ s (λ _. refused _)
          (λ _.
            guard_case Q _ _ _ s (λ _. refused _)
              (λ _.
                lift_case Q _ _ s (λ e _. refused e)
                  (λ _ _.
                    guard_case Q _ _ _ s (λ _. refused _)
                      (λ _.
                        lift_case Q _ _ s (λ e _. refused e)
                          (λ kind kind_of.
                            lift_case Q _ _ s (λ e _. refused e)
                              (λ name name_of.
                                lift_case Q _ _ s (λ e _. refused e)
                                  (λ version version_of.
                                    guard_case Q _ _ _ s (λ _. refused _)
                                      (λ _. next _ _ (record {
                                        kind = kind;
                                        kind_of = kind_of;
                                        name = name;
                                        name_of = name_of;
                                        version = version;
                                        version_of = version_of;
                                        key_is = refl;
                                      })))))))))

    -- `retry` raises before it writes, or creates an object under the next key.
    pub retry_case :
        (i new_id timestamp : String)
        → ((previous : Fields) (key : String) (value : Fields)
            → lookup i s.objects ≡ some previous
            → may_retry previous ≡ true
            → NextKey previous key
            → Q (Objects.create value key s))
        → Q (retry strip render is_task_ref is_task_execution i new_id timestamp s)
    unfolding retry
    retry_case i new_id timestamp next =
        require_task_execution_case Q _ s i refused (λ previous found _.
          guard_case Q _ _ _ s (λ _. refused _)
            (λ retryable.
              lift_case Q _ _ s (λ e _. refused e)
                (λ _ _.
                  lift_case Q _ _ s (λ e _. refused e)
                    (λ _ _.
                      lift_case Q _ _ s (λ e _. refused e)
                        (λ _ _.
                          lift_case Q _ _ s (λ e _. refused e)
                            (λ workflow_id workflow_of.
                              lift_case Q _ _ s (λ e _. refused e)
                                (λ ref_value ref_of.
                                  lift_case Q _ _ s (λ e _. refused e)
                                    (λ attempt_value attempt_of.
                                      lift_case Q _ _ s (λ e _. refused e)
                                        (λ attempt next_of.
                                          lift_case Q _ _ s (λ e _. refused e)
                                            (λ _ _.
                                              lift_case Q _ _ s (λ e _. refused e)
                                                (λ _ _.
                                                  lift_case Q _ _ s (λ e _. refused e)
                                                    (λ task_ref fields_of.
                                                      create_case _ _ _ _ _ _ _ _
                                                        (λ key value key_of.
                                                          next previous key value found retryable
                                                            (record {
                                                            workflow_id = workflow_id;
                                                            workflow_of = workflow_of;
                                                            ref_value = ref_value;
                                                            ref_of = ref_of;
                                                            task_ref = task_ref;
                                                            fields_of = fields_of;
                                                            attempt_value = attempt_value;
                                                            attempt_of = attempt_of;
                                                            attempt = attempt;
                                                            next_of = next_of;
                                                            key_of = key_of;
                                                            }))))))))))))))
