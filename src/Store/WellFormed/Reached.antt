-- ===== src/Store/WellFormed/Reached.antt =====
-- The stores that calls reach are well formed, so a listing never meets a dangling id.
use mathlib.Core.Path.{ap₂}
use agent_engineering_platfo.Prelude.{
  String, ◌≡◌, refl, true, List, [], ◌∷◌, map, arith, String_eq, contains, All, Option-cases, inl,
  inr,
}
use agent_engineering_platfo.Action.{ok}
use agent_engineering_platfo.Dict.{Dict, lookup}
use agent_engineering_platfo.Json.{Json, str, Fields, get}
use agent_engineering_platfo.Store.State.{Store, empty}
use agent_engineering_platfo.Store.Objects.{
  list_objects, list_by_workflow_execution, list_by_task_execution, ids_or_empty,
}
use agent_engineering_platfo.Store.Evolution.Stable.{Stable}
use agent_engineering_platfo.Store.Calls.{Call, run, run_stable}
use agent_engineering_platfo.Store.WellFormed.{
  WellFormed, WellFormed-empty, IsBound, present, save-WellFormed,
}
use agent_engineering_platfo.Store.WellFormed.Creation.{insert_object-WellFormed}

WellFormed-Stable : Stable WellFormed
unfolding contains
WellFormed-Stable = record {
  inserted = λ key v s o _ _ h. insert_object-WellFormed key v s o h;
  saved = λ i v w s found change h.
      save-WellFormed i v w h found (change.identity "id" refl) (change.identity "kind" refl);
  leased = λ leases s h. record {
    ids_match = h.ids_match;
    kinds_text = h.kinds_text;
    keys_bound = h.keys_bound;
    workflow_bound = record { at_key = h.workflow_bound.at_key };
    task_bound = record { at_key = h.task_bound.at_key };
  };
  claimed = λ claims s h. record {
    ids_match = h.ids_match;
    kinds_text = h.kinds_text;
    keys_bound = h.keys_bound;
    workflow_bound = record { at_key = h.workflow_bound.at_key };
    task_bound = record { at_key = h.task_bound.at_key };
  };
}

-- Every store that any sequence of calls makes of the empty one, whether the calls return or raise,
-- is well formed: an object stands under its own id and has a kind; each deterministic key is bound
-- to a stored object; and both indexes list stored objects only.
pub run-WellFormed :
    (render : Json → String) (calls : List Call) → WellFormed (run render calls empty)
run-WellFormed render calls =
    run_stable render WellFormed WellFormed-Stable calls empty WellFormed-empty

list_objects_total :
    (s : Store) (ids : List String)
    → WellFormed s
    → All (λ i. present s i ≡ true) ids
    → (vs : List Fields) × (list_objects s ids ≡ ok vs) × (map (get "id") vs ≡ map str ids)
unfolding list_objects
list_objects_total s [] w h = ([], refl, refl)
list_objects_total s (i ∷ is) w h =
    let (vs, listed, named) = list_objects_total s is w h.1 in
    elim (Option-cases (lookup i s.objects)) [
      | inl e ↦ absurd (ground (arith, h.0))
      | inr (v, e) ↦ (v ∷ vs, ground arith, ap₂ ◌∷◌ (w.ids_match i v e) named)
    ]

index_total :
    (s : Store) (k : String) (index : Dict String (List String))
    → IsBound s index
    → All (λ i. present s i ≡ true) (ids_or_empty (lookup k index))
index_total s k index b = elim (Option-cases (lookup k index)) [
  | inl e ↦ rw e tt
  | inr (ids, e) ↦ rw e (b.at_key k ids e)
]

-- In a store that calls reach from the empty one, both listings return for every id asked: the
-- objects whose ids the index holds, in the index's order, each under its own id.
pub listings_total :
    (render : Json → String) (calls : List Call) (k : String)
    → let s = run render calls empty in
      ((vs : List Fields) × (list_by_workflow_execution s k ≡ ok vs)
        × (map (get "id") vs ≡ map str (ids_or_empty (lookup k s.workflow_index))))
      × ((vs : List Fields) × (list_by_task_execution s k ≡ ok vs)
          × (map (get "id") vs ≡ map str (ids_or_empty (lookup k s.task_execution_index))))
unfolding list_by_workflow_execution list_by_task_execution
listings_total render calls k =
    let s = run render calls empty in
    let w = run-WellFormed render calls in
    (
      list_objects_total s _ w (index_total s k s.workflow_index w.workflow_bound),
      list_objects_total s _ w (index_total s k s.task_execution_index w.task_bound),
    )
