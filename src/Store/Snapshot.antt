-- ===== src/Store/Snapshot.antt =====
-- The transactions of `InMemoryRuntimeObjectStore` (src/aep/runtime_store.py): a method takes a copy of
-- each of the six dicts of the store, and assigns them back when anything in it raises.
use mathlib.Core.Path.{subst}
use agent_engineering_platfo.Prelude.{String, ◌≡◌, refl, sym, List}
use agent_engineering_platfo.Action.{Result, ok, err, Action}
use agent_engineering_platfo.Dict.{Dict}
use agent_engineering_platfo.Json.{Fields}
use agent_engineering_platfo.Store.State.{Store, Lease}

-- The tuple of the copies, in the order of the tuple.
abbrev pub Snapshot : Type 0
Snapshot =
    Dict String Fields
    × (Dict String String
        × (Dict String Fields
            × (Dict String Lease × (Dict String (List String) × Dict String (List String)))))

-- `_memory_snapshot`
unfoldable pub memory_snapshot : Store → Snapshot
memory_snapshot s = (
  s.objects,
  (s.deterministic_keys, (s.claims, (s.leases, (s.workflow_index, s.task_execution_index)))),
)

-- `_restore_memory_snapshot`: each dict of the store is assigned.
unfoldable pub restore_memory_snapshot : Snapshot → Store → Store
restore_memory_snapshot (objects, (keys, (claims, (leases, (workflows, tasks))))) s = record s {
  objects = objects;
  deterministic_keys = keys;
  claims = claims;
  leases = leases;
  workflow_index = workflows;
  task_execution_index = tasks;
}

module _ {A : Type 0} where
  -- `try: … except Exception: self._restore_memory_snapshot(snapshot); raise`
  abbrev pub rollback : Snapshot → Result A × Store → Result A × Store
  rollback copy (ok a, s) = (ok a, s)
  rollback copy (err e, s) = (err e, restore_memory_snapshot copy s)

  unfoldable pub atomic : Action Store A → Action Store A
  atomic m s = rollback (memory_snapshot s) (m s)

-- Whatever a method did to the dicts, the snapshot brings back what it was taken of.
pub restore-snapshot : (s t : Store) → restore_memory_snapshot (memory_snapshot s) t ≡ s
unfolding memory_snapshot restore_memory_snapshot
restore-snapshot s t = refl

-- A transaction ends where its body does, or where it began.
pub atomic_rule {κ} :
    {A : Type 0} (P : Store → Type κ) (m : Action Store A) (s : Store)
    → P s
    → P (m s).1
    → P (atomic m s).1
unfolding atomic
atomic_rule {A = A} P m s here next = go (m s) next
  where
    go : (r : Result A × Store) → P r.1 → P (rollback (memory_snapshot s) r).1
    go (ok a, t) h = h
    go (err e, t) h = subst P (sym (restore-snapshot s t)) here
