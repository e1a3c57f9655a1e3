-- ===== src/Store/WellFormed.antt =====
-- The invariant of the store: what is indexed or keyed is stored, and an object stands under its id.
pub mod Creation
pub mod Reached
use agent_engineering_platfo.Prelude.{
  String, ◌≡◌, refl, Bool, true, false, Option, none, some, List, [], ◌∷◌, ◌++◌, arith, eq_iff, All,
  All-append, All-map, String_eq, Option-cases, inl, inr,
}
use agent_engineering_platfo.Dict.{Dict, lookup, insert, lookup-insert, lookup-insert_self}
use agent_engineering_platfo.Json.{Json, str, Fields, get}
use agent_engineering_platfo.Store.State.{Store, empty, non_empty_text, save, index_at}

abbrev pub is_some {ℓ} : {A : Type ℓ} → Option A → Bool
is_some none = false
is_some (some _) = true

-- There is an object of this id.
abbrev pub present : Store → String → Bool
present s i = is_some (lookup i s.objects)

-- An index lists ids of stored objects.
pub record IsBound (s : Store) (index : Dict String (List String)) : Type 0 where
  pub at_key :
      (k : String) (ids : List String)
      → lookup k index ≡ some ids
      → All (λ i. present s i ≡ true) ids

pub record WellFormed (s : Store) : Type 0 where
  pub ids_match : (i : String) (v : Fields) → lookup i s.objects ≡ some v → get "id" v ≡ str i
  pub kinds_text :
      (i : String) (v : Fields) → lookup i s.objects ≡ some v → non_empty_text (get "kind" v) ≡ true
  pub keys_bound : (k i : String) → lookup k s.deterministic_keys ≡ some i → present s i ≡ true
  pub workflow_bound : IsBound s s.workflow_index
  pub task_bound : IsBound s s.task_execution_index

pub WellFormed-empty : WellFormed empty
unfolding lookup
WellFormed-empty = record {
  ids_match = λ i v h. cc;
  kinds_text = λ i v h. cc;
  keys_bound = λ k i h. cc;
  workflow_bound = record { at_key = λ k ids h. cc };
  task_bound = record { at_key = λ k ids h. cc };
}

-- No object of `s` is missing from `t`.
abbrev pub Extends : Store → Store → Type 0
Extends s t = (i : String) → present s i ≡ true → present t i ≡ true

pub IsBound-Extends :
    {s t : Store} (index : Dict String (List String))
    → Extends s t
    → IsBound s index
    → IsBound t index
IsBound-Extends index grows b = record { at_key = λ k ids h. All-map grows ids (b.at_key k ids h) }

pub present-insert :
    (i j : String) (v : Fields) (objects : Dict String Fields)
    → is_some (lookup j objects) ≡ true
    → is_some (lookup j (insert i v objects)) ≡ true
present-insert i j v objects h = ground (arith, lookup-insert i j v objects)

pub present-insert_self :
    (i : String) (v : Fields) (objects : Dict String Fields)
    → is_some (lookup i (insert i v objects)) ≡ true
present-insert_self i v objects = ground (arith, lookup-insert i i v objects, eq_iff i i)

pub lookup-save_self :
    (i : String) (v : Fields) (s : Store) → lookup i (save i v s).1.objects ≡ some v
unfolding save
lookup-save_self i v s = lookup-insert_self i v s.objects

-- A change in place that keeps the id and the kind keeps the invariant.
pub save-WellFormed :
    {s : Store} (i : String) (v w : Fields)
    → WellFormed s
    → lookup i s.objects ≡ some v
    → get "id" w ≡ get "id" v
    → get "kind" w ≡ get "kind" v
    → WellFormed (save i w s).1
unfolding save
save-WellFormed {s} i v w h found same_id same_kind = record {
  ids_match = λ j x e.
      ground (arith, lookup-insert i j w s.objects, eq_iff i j, h.ids_match j x, h.ids_match i v);
  kinds_text = λ j x e.
      ground (arith, lookup-insert i j w s.objects, eq_iff i j, h.kinds_text j x, h.kinds_text i v);
  keys_bound = λ k j e. present-insert i j w s.objects (h.keys_bound k j e);
  workflow_bound =
      IsBound-Extends s.workflow_index (λ j. present-insert i j w s.objects) h.workflow_bound;
  task_bound =
      IsBound-Extends s.task_execution_index (λ j. present-insert i j w s.objects) h.task_bound;
}
