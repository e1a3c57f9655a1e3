-- ===== src/Store/Transactions.antt =====
-- The methods that run as one transaction: they take a snapshot of the whole store, and restore it
-- when anything in them raises.
use agent_engineering_platfo.Prelude.{String, ◌≡◌, Option, none, some}
use agent_engineering_platfo.Action.{Error, Result, ok, err, Action}
use agent_engineering_platfo.Store.Snapshot.{memory_snapshot, rollback, atomic, restore-snapshot}
use agent_engineering_platfo.Json.{Json, Fields}
use agent_engineering_platfo.Store.State.{Store}
use agent_engineering_platfo.Store.Objects
use agent_engineering_platfo.Store.Transitions

-- A call of one of these methods.
pub data Transaction : Type 0 where
  create_with_event : Fields → Fields → String → Transaction
  create_approval_request : Fields → String → Option String → String → Transaction
  mutate_execution_budget :
      String → String → (Fields → Fields → Result (Fields × Fields)) → String → String → Transaction
  commit_task_execution_transition :
      String → String → String → Fields → String → String → Fields → String → Transaction
  commit_workflow_execution_transition :
      String → String → Fields → String → String → Fields → String → Transaction

-- What a call raises, if anything, and the store after it.
abbrev pub raised : {A : Type 0} → Result A × Store → Option Error × Store
raised (ok a, s) = (none, s)
raised (err e, s) = (some e, s)

module _ (render : Json → String) where
  unfoldable pub transact : Transaction → Store → Option Error × Store
  transact (create_with_event v e k) s = raised (Objects.create_with_event v e k s)
  transact (create_approval_request a k x u) s =
      raised (Transitions.create_approval_request render a k x u s)
  transact (mutate_execution_budget w t m u n) s =
      raised (Transitions.mutate_execution_budget w t m u n s)
  transact (commit_task_execution_transition t st w e x u c n) s =
      raised (Transitions.commit_task_execution_transition t st w e x u c n s)
  transact (commit_workflow_execution_transition w st e x u c n) s =
      raised (Transitions.commit_workflow_execution_transition w st e x u c n s)

  raised_unchanged :
      {A : Type 0} (m : Action Store A) (s : Store) (e : Error)
      → (raised (atomic m s)).0 ≡ some e
      → (raised (atomic m s)).1 ≡ s
  unfolding atomic
  raised_unchanged {A = A} m s e = go (m s)
    where
      go :
          (r : Result A × Store)
          → (raised (rollback (memory_snapshot s) r)).0 ≡ some e
          → (raised (rollback (memory_snapshot s) r)).1 ≡ s
      go (ok a, t) h = absurd (cc)
      go (err x, t) h = restore-snapshot s t

  -- A creation with an event, an approval request, a budget mutation and both lifecycle transitions
  -- are transactions: where one of them raises, also after it has written, the restored snapshot leaves
  -- every dict of the store as it was before.
  pub transactions_atomic :
      (t : Transaction) (s : Store) (e : Error) → (transact t s).0 ≡ some e → (transact t s).1 ≡ s
  unfolding transact Objects.create_with_event Transitions.create_approval_request
      Transitions.mutate_execution_budget Transitions.commit_task_execution_transition
      Transitions.commit_workflow_execution_transition
  transactions_atomic (create_with_event v w k) s e h = raised_unchanged _ s e h
  transactions_atomic (create_approval_request a k x u) s e h = raised_unchanged _ s e h
  transactions_atomic (mutate_execution_budget w t m u n) s e h = raised_unchanged _ s e h
  transactions_atomic (commit_task_execution_transition t st w v x u c n) s e h =
      raised_unchanged _ s e h
  transactions_atomic (commit_workflow_execution_transition w st v x u c n) s e h =
      raised_unchanged _ s e h
