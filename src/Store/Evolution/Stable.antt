-- ===== src/Store/Evolution/Stable.antt =====
-- A statement about the store that holds after each insertion of a new object and each write that an
-- object may undergo holds after every operation.
use agent_engineering_platfo.Prelude.{
  String, ◌≡◌, Bool, true, false, Option, none, some, arith, String_eq, Option-cases, inl, inr,
  if◌then◌else◌,
}
use agent_engineering_platfo.Action.{
  Result, guard_rule, guard_last_rule, lift_rule, branch_rule, pure_rule, then_rule, read_rule,
}
use agent_engineering_platfo.Store.Snapshot.{atomic_rule}
use agent_engineering_platfo.Dict.{Dict, lookup, lookup-insert_self}
use agent_engineering_platfo.Json.{Json, arr, nil, Fields, get, set_default}
use agent_engineering_platfo.Store.State.{Store, Lease, save, text_or}
use agent_engineering_platfo.Store.Objects.{
  create, insert_object, append_event, create_with_event, update_status, or_now, and_append,
  append_task_execution_id,
}
use agent_engineering_platfo.Store.Leases.{
  claim, claim_at, acquire_lease, renew_lease, release_lease, update_status_with_lease,
}
use agent_engineering_platfo.Store.Transitions.{
  claim_task_dispatch, wake_approved_task, bind_approval_request, create_approval_request,
  mutate_execution_budget, commit_task_execution_transition, commit_workflow_execution_transition,
  validate_workflow_transition_event,
}
use agent_engineering_platfo.Store.Rules.{
  IsObject, require_rule, save_rule, create_rule, append_event_rule, update_status_rule,
  append_to_rule, append_task_execution_id_rule,
}
use agent_engineering_platfo.Store.Evolution.{Evolves}
use agent_engineering_platfo.Store.Evolution.Writes.{
  with_status-Evolves, running-IsOpen, awaiting-IsOpen, wakeable-IsOpen, claimed-Evolves,
  bound_to-Evolves, woken-Evolves, attached-Evolves, extended-Evolves,
}

pub record Stable (P : Store → Type 0) : Type 0 where
  pub inserted :
      (key : String) (v : Fields) (s : Store)
      → IsObject v
      → lookup key s.deterministic_keys ≡ none
      → lookup (text_or "" (get "id" v)) s.objects ≡ none
      → P s
      → P (insert_object key v s)
  pub saved :
      (i : String) (v w : Fields) (s : Store)
      → lookup i s.objects ≡ some v
      → Evolves v w
      → P s
      → P (save i w s).1
  pub leased : (leases : Dict String Lease) (s : Store) → P s → P (record s { leases = leases })
  pub claimed : (claims : Dict String Fields) (s : Store) → P s → P (record s { claims = claims })

pub lookup-save_self :
    (i : String) (v : Fields) (s : Store) → lookup i (save i v s).1.objects ≡ some v
unfolding save
lookup-save_self i v s = lookup-insert_self i v s.objects

module _ (P : Store → Type 0) (stable : Stable P) where
  pub create_stable : (value : Fields) (key : String) (s : Store) → P s → P (create value key s).1
  create_stable value key s h =
      create_rule P value key s h λ o new_key new_id. stable.inserted key value s o new_key new_id h

  pub append_event_stable : (event : Fields) (s : Store) → P s → P (append_event event s).1
  append_event_stable event s h =
      append_event_rule P event s h
        λ key o _ new_key new_id. stable.inserted key event s o new_key new_id h

  pub create_with_event_stable :
      (value event : Fields) (key : String) (s : Store)
      → P s
      → P (create_with_event value event key s).1
  unfolding create_with_event
  create_with_event_stable value event key s h =
      let created = create_stable value key s h in
      let appended = append_event_stable event _ created in
      atomic_rule P _ s h
        (then_rule P _ _ s created λ v. then_rule P _ _ _ appended λ _. pure_rule P v _ appended)

  pub update_status_stable :
      (i status : String) (expected updated_at : Option String) (changes : Fields) (now : String)
      (s : Store)
      → P s
      → P (update_status i status expected updated_at changes now s).1
  update_status_stable i status expected updated_at changes now s h =
      update_status_rule P i status expected updated_at changes now s h λ v found free _ still.
        stable.saved i v _ s found (with_status-Evolves v changes status _ free still) h

  and_append_stable :
      (w t time : String) (workflow : Fields) (s : Store)
      → P s
      → lookup w s.objects ≡ some workflow
      → P (and_append w t time workflow s).1
  unfolding and_append
  and_append_stable w t time workflow s h found =
      let attached = set_default "taskExecutionIds" (arr nil) workflow in
      let s' = (save w attached s).1 in
      let h' = stable.saved w workflow attached s found (attached-Evolves workflow) h in
      save_rule P w attached _ s (
        append_to_rule P w t time attached (get "taskExecutionIds" attached) s' h' λ items _ still.
          stable.saved w attached _ s' (lookup-save_self w attached s)
            (extended-Evolves attached _ time still) h')

  pub append_task_execution_id_stable :
      (w t : String) (updated_at : Option String) (now : String) (s : Store)
      → P s
      → P (append_task_execution_id w t updated_at now s).1
  append_task_execution_id_stable w t updated_at now s h =
      append_task_execution_id_rule P w t updated_at now s h
        λ workflow _ found _ _ _. and_append_stable w t (or_now updated_at now) workflow s h found

  pub claim_task_dispatch_stable :
      (task owner time : String) (s : Store) → P s → P (claim_task_dispatch task owner time s).1
  unfolding claim_task_dispatch
  claim_task_dispatch_stable task owner time s h = guard_rule P _ _ _ s h λ _.
      require_rule P task _ s h λ v found. guard_rule P _ _ _ s h λ _.
        guard_rule P _ _ _ s h λ running.
          branch_rule P _ _ _ s (λ _. pure_rule P _ s h)
            λ _. guard_rule P _ _ _ s h λ _. save_rule P task _ _ s (
              pure_rule P _ _ (
                stable.saved task v _ s found
                  (claimed-Evolves v owner time (running-IsOpen v running)) h))

  pub wake_approved_task_stable :
      (task approval time : String) (s : Store)
      → P s
      → P (wake_approved_task task approval time s).1
  unfolding wake_approved_task
  wake_approved_task_stable task approval time s h = require_rule P task _ s h λ v found.
      guard_rule P _ _ _ s h λ _.
        branch_rule P _ _ _ s (λ _. pure_rule P _ s h)
          λ _. lift_rule P _ _ s h λ wakeable e.
            branch_rule P _ _ _ s (λ _. pure_rule P _ s h)
              λ open'.
                stable.saved task v _ s found
                  (woken-Evolves v approval time (wakeable-IsOpen v (ground arith))) h

  pub bind_approval_request_stable :
      (task approval time : String) (s : Store)
      → P s
      → P (bind_approval_request task approval time s).1
  unfolding bind_approval_request
  bind_approval_request_stable task approval time s h = require_rule P task _ s h λ v found.
      guard_rule P _ _ _ s h λ awaiting.
        stable.saved task v _ s found
          (bound_to-Evolves v approval time (awaiting-IsOpen v awaiting)) h

  pub create_approval_request_stable :
      (render : Json → String) (approval : Fields) (key : String) (expected : Option String)
      (time : String) (s : Store)
      → P s
      → P (create_approval_request render approval key expected time s).1
  unfolding create_approval_request
  create_approval_request_stable render approval key expected time s h =
      let created = create_stable approval key s h in
      atomic_rule P _ s h (
        then_rule P _ _ s created λ persisted. lift_rule P _ _ _ created λ _ _.
          require_rule P _ _ _ created λ task found. guard_rule P _ _ _ _ created λ awaiting.
            branch_rule P _ _ _ _ (λ _. pure_rule P _ _ created)
              λ _. guard_rule P _ _ _ _ created λ _. save_rule P _ _ _ _ (
                pure_rule P _ _ (
                  stable.saved _ task _ _ found
                    (bound_to-Evolves task _ time (awaiting-IsOpen task awaiting)) created)))

  pub mutate_execution_budget_stable :
      (workflow task : String) (mutate : Fields → Fields → Result (Fields × Fields))
      (time now : String) (s : Store)
      → P s
      → P (mutate_execution_budget workflow task mutate time now s).1
  unfolding mutate_execution_budget
  mutate_execution_budget_stable workflow task mutate time now s h = atomic_rule P _ s h (
      require_rule P _ _ s h λ w _. require_rule P _ _ s h λ t _. guard_rule P _ _ _ s h λ _.
        guard_rule P _ _ _ s h λ _. guard_rule P _ _ _ s h λ _. guard_rule P _ _ _ s h λ _.
          guard_rule P _ _ _ s h λ _. lift_rule P _ _ s h λ changes _.
            let h' =
              update_status_stable workflow "RUNNING" (some "RUNNING") (some time) changes.0 now s
                h in
            then_rule P _ _ s h' λ _.
              let h'' =
                update_status_stable task "RUNNING" (some "RUNNING") (some time) changes.1 now _
                  h' in
              then_rule P _ _ _ h'' λ _. pure_rule P _ _ h'')

  pub commit_task_execution_transition_stable :
      (task status workflow : String) (event : Fields) (expected time : String) (changes : Fields)
      (now : String) (s : Store)
      → P s
      → P
          (commit_task_execution_transition task status workflow event expected time changes now
            s).1
  unfolding commit_task_execution_transition
  commit_task_execution_transition_stable task status workflow event expected time changes now s h =
      let moved = update_status_stable task status (some expected) (some time) changes now s h in
      let linked = append_task_execution_id_stable workflow task (some time) now _ moved in
      let audited = append_event_stable event _ linked in
      atomic_rule P _ s h (
        then_rule P _ _ s moved λ updated.
          then_rule P _ _ _ linked
            λ _. then_rule P _ _ _ audited λ _. pure_rule P updated _ audited)

  -- Validation reads nothing and writes nothing.
  validate_stable :
      (workflow status : String) (event : Fields) (s : Store)
      → P s
      → P (validate_workflow_transition_event workflow status event s).1
  unfolding validate_workflow_transition_event
  validate_stable workflow status event s h = guard_rule P _ _ _ s h λ _.
      guard_rule P _ _ _ s h λ _. guard_rule P _ _ _ s h λ _.
        branch_rule P _ _ _ s (λ _. lift_rule P _ _ s h λ valid _. guard_last_rule P valid _ s h)
          (λ _. guard_last_rule P _ _ s h)

  pub commit_workflow_execution_transition_stable :
      (workflow status : String) (event : Fields) (expected time : String) (changes : Fields)
      (now : String) (s : Store)
      → P s
      → P (commit_workflow_execution_transition workflow status event expected time changes now s).1
  unfolding commit_workflow_execution_transition
  commit_workflow_execution_transition_stable workflow status event expected time changes now s h =
      let checked = validate_stable workflow status event s h in
      let audited = append_event_stable event _ checked in
      atomic_rule P _ s h (
        require_rule P _ _ s h λ _ _. guard_rule P _ _ _ s h λ _. then_rule P _ _ s checked λ _.
          then_rule P _ _ _ audited λ _.
            update_status_stable workflow status (some expected) (some time) changes now _ audited)

  pub claim_stable : (key : String) (value : Fields) (s : Store) → P s → P (claim key value s).1
  unfolding claim claim_at
  claim_stable key value s h = guard_rule P _ _ _ s h λ _.
      read_rule P _ s (elim (Option-cases (lookup key s.claims)) [
        | inl e ↦ rw (e, claim_at) (stable.claimed _ s h)
        | inr (v, e) ↦ rw (e, claim_at) h
      ])

  if_stable : (b : Bool) (x y : Bool × Store) → P x.1 → P y.1 → P (if b then x else y).1
  if_stable true x y hx hy = hx
  if_stable false x y hx hy = hy

  pub acquire_lease_stable :
      (key owner now expires : String) (s : Store)
      → P s
      → P (acquire_lease key owner now expires s).1
  unfolding acquire_lease
  acquire_lease_stable key owner now expires s h = if_stable _ _ _ h (stable.leased _ s h)

  pub renew_lease_stable :
      (key owner now expires : String) (s : Store) → P s → P (renew_lease key owner now expires s).1
  unfolding renew_lease
  renew_lease_stable key owner now expires s h = if_stable _ _ _ (stable.leased _ s h) h

  pub release_lease_stable :
      (key owner : String) (s : Store) → P s → P (release_lease key owner s).1
  unfolding release_lease
  release_lease_stable key owner s h = if_stable _ _ _ (stable.leased _ s h) h

  pub update_status_with_lease_stable :
      (i status lease owner time : String) (expected updated_at : Option String) (changes : Fields)
      (now : String) (s : Store)
      → P s
      → P (update_status_with_lease i status lease owner time expected updated_at changes now s).1
  unfolding update_status_with_lease
  update_status_with_lease_stable i status lease owner time expected updated_at changes now s h =
      read_rule P _ s (
        guard_rule P _ _ _ s h
          λ _. update_status_stable i status expected updated_at changes now s h)
