-- ===== src/Store/Examples.antt =====
-- The theorems about the store at concrete objects: a workflow that runs, a task of it that waits to
-- be dispatched, and an event.
use agent_engineering_platfo.Prelude.{
  String, ◌≡◌, refl, false, none, some, List, [], ◌∷◌, map, String_eq, eq_iff, arith, contains,
}
use agent_engineering_platfo.Action.{Error, ok, err, value_error, status_conflict, ◌>>=◌, pure}
use agent_engineering_platfo.Store.Snapshot.{atomic, restore_memory_snapshot, memory_snapshot}
use agent_engineering_platfo.Dict.{lookup, insert}
use agent_engineering_platfo.Json.{
  Json, str, Fields, end, field, has, get, set, set_default, update,
}
use agent_engineering_platfo.Store.State.{
  Store, empty, copy_and_validate, index, in_set, require, save,
}
use agent_engineering_platfo.Store.Objects
use agent_engineering_platfo.Store.Leases
use agent_engineering_platfo.Store.Transitions
use agent_engineering_platfo.Store.Rules.{IsObject}
use agent_engineering_platfo.Store.Calls.{
  Call, create, update_status, claim_task_dispatch, append_task_execution_id, run, perform,
}
use agent_engineering_platfo.Store.WellFormed.{WellFormed}
use agent_engineering_platfo.Store.WellFormed.Reached.{run-WellFormed, listings_total}
use agent_engineering_platfo.Store.History.{Kept, run-Kept}
use agent_engineering_platfo.Store.Identity.{IsSameCreation, created_once}
use agent_engineering_platfo.Store.Contracts.{lease_excludes, dispatch_once, stale_update_fails}
use agent_engineering_platfo.Store.Transactions.{create_with_event, transact, transactions_atomic}

-- `str` of a value that is no text, on the values met here.
abbrev render : Json → String
render _ = "None"

abbrev workflow : Fields
workflow =
    field "id" (str "w1")
      (field "kind" (str "WorkflowExecution") (field "status" (str "RUNNING") end))

abbrev task : Fields
task = field "id" (str "t1") (
    field "kind" (str "TaskExecution") (
      field "status" (str "RUNNING")
        (field "workflowExecutionId" (str "w1") (field "dispatchState" (str "PENDING") end))))

abbrev calls : List Call
calls =
    create workflow "workflow:1"
    ∷ create task "task:1"
    ∷ append_task_execution_id "w1" "t1" none "2026-01-01"
    ∷ update_status "w1" "SUCCEEDED" (some "RUNNING") (some "2026-01-02") end "2026-01-02"
    ∷ claim_task_dispatch "t1" "worker" "2026-01-03"
    ∷ []

abbrev started : Store
started = run render (create workflow "workflow:1" ∷ create task "task:1" ∷ []) empty

run-WellFormed_example : WellFormed (run render calls empty)
run-WellFormed_example = run-WellFormed render calls

listings_total_example :
    let s = run render calls empty in
    ((vs : List Fields) × (Objects.list_by_workflow_execution s "w1" ≡ ok vs)
      × (map (get "id") vs ≡ map str (Objects.ids_or_empty (lookup "w1" s.workflow_index))))
    × ((vs : List Fields) × (Objects.list_by_task_execution s "w1" ≡ ok vs)
        × (map (get "id") vs ≡ map str (Objects.ids_or_empty (lookup "w1" s.task_execution_index))))
listings_total_example = listings_total render calls "w1"

run-Kept_example : Kept "w1" workflow (run render calls started)
unfolding run perform ◌>>=◌ Objects.create copy_and_validate get Objects.create_at
    Objects.create_new Objects.insert_object index insert lookup
run-Kept_example = run-Kept render calls started "w1" workflow refl

IsObject_example : IsObject workflow
unfolding get
IsObject_example = record { id_text = refl; kind_text = refl }

created_once_example :
    let t = run render calls (Objects.create workflow "workflow:1" empty).1 in
    IsSameCreation "workflow:1" workflow
      (Objects.create workflow "workflow:1" empty).1
      t
      (Objects.create workflow "workflow:1" t)
unfolding ◌>>=◌ Objects.create copy_and_validate get Objects.create_at Objects.create_new lookup
created_once_example =
    created_once render calls workflow workflow workflow "workflow:1" empty refl IsObject_example

other_owner : ¬ ◌≡◌ {A = String} "first" "second"
other_owner e = ground (arith, eq_iff "first" "second", e)

lease_excludes_example :
    let s' = (Leases.acquire_lease "w1" "first" "2026-01-01" "2026-01-09" started).1 in
    (Leases.acquire_lease "w1" "second" "2026-01-02" "2026-02-01" s' ≡ (false, s'))
    × (Leases.renew_lease "w1" "second" "2026-01-02" "2026-02-01" s' ≡ (false, s'))
    × (Leases.release_lease "w1" "second" s' ≡ (false, s'))
    × (Leases.update_status_with_lease "w1" "FAILED" "w1" "second" "2026-01-02" none none end
          "2026-01-02" s'
        ≡ (err status_conflict, s'))
unfolding Leases.acquire_lease run perform ◌>>=◌ Objects.create copy_and_validate get
    Objects.create_at Objects.create_new Objects.insert_object index insert lookup
lease_excludes_example =
    lease_excludes "w1" "first" "second" "2026-01-01" "2026-01-09" "2026-01-02" "2026-02-01" started
      "w1" "FAILED" none none end "2026-01-02" refl other_owner refl

abbrev claimed : Fields
claimed = field "id" (str "t1") (
    field "kind" (str "TaskExecution") (
      field "status" (str "RUNNING") (
        field "workflowExecutionId" (str "w1") (
          field "dispatchState" (str "CLAIMED")
            (field "dispatchOwnerId" (str "first") (field "updatedAt" (str "2026-01-02") end))))))

named : ¬ ◌≡◌ {A = String} "second" ""
named e = ground (arith, eq_iff "second" "", e)

dispatch_once_example :
    let s' = (Transitions.claim_task_dispatch "t1" "first" "2026-01-02" started).1 in
    Transitions.claim_task_dispatch "t1" "second" "2026-01-03" s' ≡ (ok (false, claimed), s')
unfolding Transitions.claim_task_dispatch require set save pure run perform ◌>>=◌ Objects.create
    copy_and_validate get Objects.create_at Objects.create_new Objects.insert_object index insert
    lookup
dispatch_once_example =
    dispatch_once "t1" "first" "second" "2026-01-02" "2026-01-03" claimed started
      (Transitions.claim_task_dispatch "t1" "first" "2026-01-02" started).1 refl refl named

-- The workflow is created, and then its event is refused: the creation is undone.
transactions_atomic_example :
    (transact render (create_with_event workflow task "workflow:1") empty).1 ≡ empty
unfolding transact atomic memory_snapshot restore_memory_snapshot ◌>>=◌ Objects.create_with_event
    Objects.create copy_and_validate get Objects.create_at Objects.create_new Objects.insert_object
    index insert lookup Objects.append_event
transactions_atomic_example =
    transactions_atomic render (create_with_event workflow task "workflow:1") empty value_error refl

abbrev finished : Fields
finished = field "id" (str "w1") (
    field "kind" (str "WorkflowExecution") (
      field "status" (str "SUCCEEDED")
        (field "updatedAt" (str "2026-01-02") (field "completedAt" (str "2026-01-02") end))))

stale_update_fails_example :
    let s' =
      (Objects.update_status "w1" "SUCCEEDED"
        (some "RUNNING")
        (some "2026-01-02")
        end
        ""
        started).1 in
    (e : Error) × (Objects.update_status "w1" "FAILED"
        (some "RUNNING")
        (some "2026-01-03")
        end
        ""
        s'
      ≡ (err e, s'))
unfolding Objects.update_status ◌>>=◌ require lookup run perform Objects.create copy_and_validate
    get Objects.create_at Objects.create_new Objects.insert_object index insert
    Objects.replaces_protected Objects.has_any has Objects.has_both in_set contains
    Objects.with_status update set set_default save
stale_update_fails_example =
    stale_update_fails "w1" "SUCCEEDED" "FAILED" "RUNNING" (some "2026-01-02") (some "2026-01-03")
      end end finished "" "" started refl refl
