-- ===== src/Store/WellFormed/Creation.antt =====
-- A creation keeps the invariant: the new object is stored under its id before it is indexed.
use mathlib.Core.Path.{subst}
use agent_engineering_platfo.Prelude.{
  String, ◌≡◌, true, Option, none, some, List, [], ◌∷◌, ◌++◌, arith, eq_iff, String_eq,
  Option-cases, Bool-cases, str_eq, inl, inr, All, All-append,
}
use agent_engineering_platfo.Dict.{Dict, lookup, insert, lookup-insert}
use agent_engineering_platfo.Json.{str, Fields, get}
use agent_engineering_platfo.Store.State.{
  Store, text_or, index_at, index, workflow_execution_id, task_execution_id,
}
use agent_engineering_platfo.Store.Objects.{insert_object}
use agent_engineering_platfo.Store.Rules.{IsObject}
use agent_engineering_platfo.Store.WellFormed.{
  WellFormed, IsBound, IsBound-Extends, present, present-insert, present-insert_self,
}

insert-IsBound :
    (s : Store) (k : String) (is : List String) (bound : Dict String (List String))
    → All (λ i. present s i ≡ true) is
    → IsBound s bound
    → IsBound s (insert k is bound)
insert-IsBound s k is bound there b = record {
  at_key = λ j js h. elim (Bool-cases (str_eq k j)) [
    | inl same ↦
        let e : is ≡ js = ground (arith, lookup-insert k j is bound) in
        subst (All (λ i. present s i ≡ true)) e there
    | inr other ↦ b.at_key j js (rw (lookup-insert k j is bound, other) at h)
  ];
}

index_at-IsBound :
    (s : Store) (key : Option String) (i : String) (ids : Dict String (List String))
    → present s i ≡ true
    → IsBound s ids
    → IsBound s (index_at key i ids)
unfolding index_at
index_at-IsBound s none i ids here b = b
index_at-IsBound s (some k) i ids here b = elim (Option-cases (lookup k ids)) [
  | inl e ↦ rw (e, index_at) (insert-IsBound s k (i ∷ []) ids (here, tt) b)
  | inr (old, e) ↦
      rw (e, index_at)
        (insert-IsBound s k (old ++ i ∷ []) ids
          (All-append _ old (i ∷ []) (b.at_key k old e) (here, tt)) b)
]

id_of-IsObject : (v : Fields) → IsObject v → get "id" v ≡ str (text_or "" (get "id" v))
id_of-IsObject v o = ground (arith, o.id_text)

pub insert_object-WellFormed :
    (key : String) (v : Fields) (s : Store)
    → IsObject v
    → WellFormed s
    → WellFormed (insert_object key v s)
unfolding insert_object index
insert_object-WellFormed key v s o h = record {
  ids_match = λ j x e.
      ground
        (arith, lookup-insert i j v s.objects, eq_iff i j, h.ids_match j x, id_of-IsObject v o);
  kinds_text = λ j x e.
      ground (arith, lookup-insert i j v s.objects, eq_iff i j, h.kinds_text j x, o.kind_text);
  keys_bound = λ k j e. ground (
    arith,
    lookup-insert key k i s.deterministic_keys,
    h.keys_bound k j,
    present-insert i j v s.objects,
    present-insert_self i v s.objects,
  );
  workflow_bound =
      index_at-IsBound t (workflow_execution_id v) i s.workflow_index
        (present-insert_self i v s.objects)
        (IsBound-Extends s.workflow_index (λ j. present-insert i j v s.objects) h.workflow_bound);
  task_bound =
      index_at-IsBound t (task_execution_id v) i s.task_execution_index
        (present-insert_self i v s.objects)
        (IsBound-Extends s.task_execution_index (λ j. present-insert i j v s.objects) h.task_bound);
}
  where
    i : String
    i = text_or "" (get "id" v)

    t : Store
    t = insert_object key v s
