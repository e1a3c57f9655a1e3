-- ===== src/Store/Calls.antt =====
-- Sequences of calls of the store's methods, by any number of clients, and the induction over them.
-- `render` is Python's `str` on a value that is no text.
use agent_engineering_platfo.Prelude.{String, Option, List, [], ◌∷◌}
use agent_engineering_platfo.Action.{Result}
use agent_engineering_platfo.Json.{Json, Fields}
use agent_engineering_platfo.Store.State.{Store}
use agent_engineering_platfo.Store.Objects
use agent_engineering_platfo.Store.Leases
use agent_engineering_platfo.Store.Transitions
use agent_engineering_platfo.Store.Evolution.Stable.{
  Stable, create_stable, append_event_stable, create_with_event_stable, update_status_stable,
  append_task_execution_id_stable, claim_task_dispatch_stable, wake_approved_task_stable,
  bind_approval_request_stable, create_approval_request_stable, mutate_execution_budget_stable,
  commit_task_execution_transition_stable, commit_workflow_execution_transition_stable,
  claim_stable, acquire_lease_stable, renew_lease_stable, release_lease_stable,
  update_status_with_lease_stable,
}

-- One constructor for each method that writes, with its arguments in the method's order.
pub data Call : Type 0 where
  create : Fields → String → Call
  append_event : Fields → Call
  create_with_event : Fields → Fields → String → Call
  update_status : String → String → Option String → Option String → Fields → String → Call
  append_task_execution_id : String → String → Option String → String → Call
  claim : String → Fields → Call
  acquire_lease renew_lease : String → String → String → String → Call
  release_lease : String → String → Call
  update_status_with_lease :
      String
      → String
      → String
      → String
      → String
      → Option String
      → Option String
      → Fields
      → String
      → Call
  claim_task_dispatch wake_approved_task bind_approval_request : String → String → String → Call
  create_approval_request : Fields → String → Option String → String → Call
  mutate_execution_budget :
      String → String → (Fields → Fields → Result (Fields × Fields)) → String → String → Call
  commit_task_execution_transition :
      String → String → String → Fields → String → String → Fields → String → Call
  commit_workflow_execution_transition :
      String → String → Fields → String → String → Fields → String → Call

module _ (render : Json → String) where
  -- The store after a call, whether it returns or raises.
  unfoldable pub perform : Call → Store → Store
  perform (create v k) s = (Objects.create v k s).1
  perform (append_event e) s = (Objects.append_event e s).1
  perform (create_with_event v e k) s = (Objects.create_with_event v e k s).1
  perform (update_status i st x u c n) s = (Objects.update_status i st x u c n s).1
  perform (append_task_execution_id w t u n) s = (Objects.append_task_execution_id w t u n s).1
  perform (claim k v) s = (Leases.claim k v s).1
  perform (acquire_lease k o n x) s = (Leases.acquire_lease k o n x s).1
  perform (renew_lease k o n x) s = (Leases.renew_lease k o n x s).1
  perform (release_lease k o) s = (Leases.release_lease k o s).1
  perform (update_status_with_lease i st l o t x u c n) s =
      (Leases.update_status_with_lease i st l o t x u c n s).1
  perform (claim_task_dispatch t o u) s = (Transitions.claim_task_dispatch t o u s).1
  perform (wake_approved_task t a u) s = (Transitions.wake_approved_task t a u s).1
  perform (bind_approval_request t a u) s = (Transitions.bind_approval_request t a u s).1
  perform (create_approval_request a k x u) s =
      (Transitions.create_approval_request render a k x u s).1
  perform (mutate_execution_budget w t m u n) s =
      (Transitions.mutate_execution_budget w t m u n s).1
  perform (commit_task_execution_transition t st w e x u c n) s =
      (Transitions.commit_task_execution_transition t st w e x u c n s).1
  perform (commit_workflow_execution_transition w st e x u c n) s =
      (Transitions.commit_workflow_execution_transition w st e x u c n s).1

  unfoldable pub run : List Call → Store → Store
  run [] s = s
  run (c ∷ cs) s = run cs (perform c s)

  module _ (P : Store → Type 0) (stable : Stable P) where
    pub perform_stable : (c : Call) (s : Store) → P s → P (perform c s)
    unfolding perform
    perform_stable (create v k) s h = create_stable P stable v k s h
    perform_stable (append_event e) s h = append_event_stable P stable e s h
    perform_stable (create_with_event v e k) s h = create_with_event_stable P stable v e k s h
    perform_stable (update_status i st x u c n) s h = update_status_stable P stable i st x u c n s h
    perform_stable (append_task_execution_id w t u n) s h =
        append_task_execution_id_stable P stable w t u n s h
    perform_stable (claim k v) s h = claim_stable P stable k v s h
    perform_stable (acquire_lease k o n x) s h = acquire_lease_stable P stable k o n x s h
    perform_stable (renew_lease k o n x) s h = renew_lease_stable P stable k o n x s h
    perform_stable (release_lease k o) s h = release_lease_stable P stable k o s h
    perform_stable (update_status_with_lease i st l o t x u c n) s h =
        update_status_with_lease_stable P stable i st l o t x u c n s h
    perform_stable (claim_task_dispatch t o u) s h = claim_task_dispatch_stable P stable t o u s h
    perform_stable (wake_approved_task t a u) s h = wake_approved_task_stable P stable t a u s h
    perform_stable (bind_approval_request t a u) s h =
        bind_approval_request_stable P stable t a u s h
    perform_stable (create_approval_request a k x u) s h =
        create_approval_request_stable P stable render a k x u s h
    perform_stable (mutate_execution_budget w t m u n) s h =
        mutate_execution_budget_stable P stable w t m u n s h
    perform_stable (commit_task_execution_transition t st w e x u c n) s h =
        commit_task_execution_transition_stable P stable t st w e x u c n s h
    perform_stable (commit_workflow_execution_transition w st e x u c n) s h =
        commit_workflow_execution_transition_stable P stable w st e x u c n s h

    pub run_stable : (cs : List Call) (s : Store) → P s → P (run cs s)
    unfolding run
    run_stable [] s h = h
    run_stable (c ∷ cs) s h = run_stable cs (perform c s) (perform_stable c s h)
