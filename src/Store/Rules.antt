-- ===== src/Store/Rules.antt =====
-- Induction rules for the operations of the store: what holds of the store after each, whether it
-- returns or raises.
use agent_engineering_platfo.Prelude.{
  String, ◌≡◌, refl, true, false, not, Option, none, some, Option-cases, inl, inr, ◌&&◌, arith,
  String_eq,
}
use agent_engineering_platfo.Action.{
  Result, ok, err, not_found, Action, ◌>>=◌, guard_rule, lift_rule, branch_rule, read_rule,
  raise_rule, pure_rule,
}
use agent_engineering_platfo.Dict.{lookup}
use agent_engineering_platfo.Json.{Json, arr, Items, Fields, get, str, set}
use agent_engineering_platfo.Store.State.{
  Store, in_set, is_text, non_empty_text, text_or, require, save, copy_and_validate, item,
  terminal_statuses,
}
use agent_engineering_platfo.Store.Objects.{
  update_status, replaces_protected, with_status, or_now, and_append, as_expected, create,
  create_at, create_new, insert_object, stored, append_event, append_to, append_task_execution_id,
  push,
}

-- What `_copy_and_validate` accepts.
pub record IsObject (f : Fields) : Type 0 where
  pub id_text : non_empty_text (get "id" f) ≡ true
  pub kind_text : non_empty_text (get "kind" f) ≡ true

pub copy_and_validate_ok : (f v : Fields) → copy_and_validate f ≡ ok v → (v ≡ f) × IsObject f
unfolding copy_and_validate
copy_and_validate_ok f v h = ground arith

pub copy_and_validate_of : (f : Fields) → IsObject f → copy_and_validate f ≡ ok f
unfolding copy_and_validate
copy_and_validate_of f o = ground arith

pub item_value : (k : String) (f : Fields) (v : Json) → item k f ≡ ok v → v ≡ get k f
item_value k f v h = ground arith

-- The outcomes of `_require` and of a save.
module _ {κ} {B : Type 0} (Q : Result B × Store → Type κ) where
  pub require_case :
      (i : String) (f : Fields → Action Store B) (s : Store)
      → (lookup i s.objects ≡ none → Q (err not_found, s))
      → ((v : Fields) → lookup i s.objects ≡ some v → Q (f v s))
      → Q ((require i >>= f) s)
  unfolding require ◌>>=◌
  require_case i f s missing next = elim (Option-cases (lookup i s.objects)) [
    | inl e ↦ rw (e, require) (missing e)
    | inr (v, e) ↦ rw (e, require) (next v e)
  ]

  pub save_case :
      (i : String) (v : Fields) (f : Fields → Action Store B) (s : Store)
      → Q (f v (save i v s).1)
      → Q ((save i v >>= f) s)
  unfolding save ◌>>=◌
  save_case i v f s next = next

module _ {κ} (P : Store → Type κ) where
  -- `_require` changes nothing, and goes on with the object that is stored.
  pub require_rule :
      {B : Type 0} (i : String) (f : Fields → Action Store B) (s : Store)
      → P s
      → ((v : Fields) → lookup i s.objects ≡ some v → P (f v s).1)
      → P ((require i >>= f) s).1
  unfolding require ◌>>=◌
  require_rule i f s here next = elim (Option-cases (lookup i s.objects)) [
    | inl e ↦ rw (e, require) here
    | inr (v, e) ↦ rw (e, require) (next v e)
  ]

  pub save_rule :
      {B : Type 0} (i : String) (v : Fields) (f : Fields → Action Store B) (s : Store)
      → P (f v (save i v s).1).1
      → P ((save i v >>= f) s).1
  unfolding save ◌>>=◌
  save_rule i v f s next = next

  -- A status change leaves the store as it was, or saves the changed object of a status that is not
  -- terminal, and the changes replace no protected field.
  pub update_status_rule :
      (i status : String) (expected updated_at : Option String) (changes : Fields) (now : String)
      (s : Store)
      → P s
      → ((v : Fields)
          → lookup i s.objects ≡ some v
          → not (replaces_protected v changes) ≡ true
          → as_expected expected (get "status" v) ≡ true
          → in_set (get "status" v) terminal_statuses ≡ ok false
          → P (save i (with_status v status (or_now updated_at now) changes) s).1)
      → P (update_status i status expected updated_at changes now s).1
  unfolding update_status
  update_status_rule i status expected updated_at changes now s here change =
      guard_rule P _ _ _ s here λ _. require_rule i _ s here λ v found.
        guard_rule P _ _ _ s here λ free. guard_rule P _ _ _ s here λ _.
          guard_rule P _ _ _ s here λ current. lift_rule P _ _ s here λ terminal t.
            branch_rule P terminal _ _ s
              (λ _.
                branch_rule P _ _ _ s (λ _. pure_rule P v s here) (λ _. raise_rule P _ _ s here))
              (λ open'. change v found free current (rw open' at t))

  -- A creation leaves the store as it was, or inserts a valid object of a new key and a new id.
  pub create_rule :
      (value : Fields) (key : String) (s : Store)
      → P s
      → (IsObject value
          → lookup key s.deterministic_keys ≡ none
          → lookup (text_or "" (get "id" value)) s.objects ≡ none
          → P (insert_object key value s))
      → P (create value key s).1
  unfolding create create_at create_new stored
  create_rule value key s here insertion = lift_rule P _ _ s here λ v valid.
      let (same, is_object) = copy_and_validate_ok value v valid in
      guard_rule P _ _ _ s here λ _. read_rule P _ s (
        rw same (elim (Option-cases (lookup key s.deterministic_keys)) [
          | inl new_key ↦
              rw new_key (elim (Option-cases (lookup (text_or "" (get "id" value)) s.objects)) [
                | inl new_id ↦ rw (new_id, create_new) (insertion is_object new_key new_id)
                | inr (w, old) ↦ rw (old, create_new) here
              ])
          | inr (i, old) ↦ rw old (elim (Option-cases (lookup i s.objects)) [
            | inl e ↦ rw (e, stored) here
            | inr (w, e) ↦ rw (e, stored) here
          ])
        ]))

  pub append_event_rule :
      (event : Fields) (s : Store)
      → P s
      → ((key : String)
          → IsObject event
          → is_text "ExecutionEvent" (get "kind" event) ≡ true
          → lookup key s.deterministic_keys ≡ none
          → lookup (text_or "" (get "id" event)) s.objects ≡ none
          → P (insert_object key event s))
      → P (append_event event s).1
  unfolding append_event
  append_event_rule event s here insertion = lift_rule P _ _ s here λ v valid.
      let (same, is_object) = copy_and_validate_ok event v valid in
      guard_rule P _ _ _ s here λ is_event.
        rw same (create_rule event _ s here λ _. insertion _ is_object (rw same at is_event))

  pub append_to_rule :
      (workflow_id task_id time : String) (workflow : Fields) (ids : Json) (s : Store)
      → P s
      → ((items : Items)
          → ids ≡ arr items
          → in_set (get "status" workflow) terminal_statuses ≡ ok false
          → P
              (save workflow_id
                (set "updatedAt"
                  (str time)
                  (set "taskExecutionIds" (arr (push (str task_id) items)) workflow))
                s).1)
      → P (append_to workflow_id task_id time workflow ids s).1
  unfolding append_to
  append_to_rule w t time workflow (arr items) s here change =
      branch_rule P _ _ _ s (λ _. pure_rule P workflow s here)
        λ _. lift_rule P _ _ s here λ terminal e.
          branch_rule P terminal _ _ s (λ _. raise_rule P _ _ s here)
            (λ open'. change items refl (rw open' at e))
  append_to_rule w t time workflow _ s here change = raise_rule P _ _ s here

  pub append_task_execution_id_rule :
      (workflow_id task_id : String) (updated_at : Option String) (now : String) (s : Store)
      → P s
      → ((workflow task : Fields)
          → lookup workflow_id s.objects ≡ some workflow
          → is_text "WorkflowExecution" (get "kind" workflow) ≡ true
          → lookup task_id s.objects ≡ some task
          → (is_text "TaskExecution" (get "kind" task)
              && is_text workflow_id (get "workflowExecutionId" task))
            ≡ true
          → P (and_append workflow_id task_id (or_now updated_at now) workflow s).1)
      → P (append_task_execution_id workflow_id task_id updated_at now s).1
  unfolding append_task_execution_id and_append
  append_task_execution_id_rule w t updated_at now s here change = guard_rule P _ _ _ s here λ _.
      require_rule w _ s here λ workflow found. guard_rule P _ _ _ s here λ is_workflow.
        require_rule t _ s here λ task found_task.
          guard_rule P _ _ _ s here λ owned. change workflow task found is_workflow found_task owned
