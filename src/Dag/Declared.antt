-- ===== src/Dag/Declared.antt =====
-- The first loops of `resolve_task_dag` (src/aep/task_dag.py): a node is declared once, its Task is
-- found, and its dependencies are nodes.
use agent_engineering_platfo.Prelude.{
  ℕ, suc, String, ◌≤◌, ◌≡◌, refl, true, false, some, List, [], ◌∷◌, arith, Eq, ◌==◌, if◌then◌else◌,
  contains, Bool-cases, inl, inr,
}
use agent_engineering_platfo.Dict.{Dict, lookup, insert, lookup-insert}
use agent_engineering_platfo.Json.{Json, Fields}
use agent_engineering_platfo.Outcome
use agent_engineering_platfo.Outcome.{
  Outcome, returned, raised, ◌>>=◌, ensure, Returns, bind_case, ensure_case,
}
use agent_engineering_platfo.Resources.{ResourceRef, Ref_eq, Resource, ResourceCollection}
use agent_engineering_platfo.Dag.Counts.{count}
use agent_engineering_platfo.Dag.Graph.{deps, declared}
use agent_engineering_platfo.Dag.Resolve.{
  Declarations, declare, declare_all, check_node, check_nodes,
}

module _ {K : Type 0} ⦃e : Eq K⦄ where
  contains-declared-insert :
      (t k : K) (ds : List K) (g : Dict K (List K))
      → contains (declared (insert t ds g)) k ≡ (if t == k then true else contains (declared g) k)
  unfolding declared contains insert
  contains-declared-insert t k ds [] = ground arith
  contains-declared-insert t k ds ((j, w) ∷ g) =
      ground (arith, contains-declared-insert t k ds g, e.beq_iff j t, e.beq_iff j k, e.beq_iff t k)

  count-declared-insert :
      (t k : K) (ds : List K) (g : Dict K (List K))
      → contains (declared g) t ≡ false
      → count k (declared (insert t ds g))
        ≡ (if t == k then suc (count k (declared g)) else count k (declared g))
  unfolding declared contains insert count
  count-declared-insert t k ds [] fresh = ground arith
  count-declared-insert t k ds ((j, w) ∷ g) fresh = ground (arith, count-declared-insert t k ds g)

  count_of_fresh : (t : K) (xs : List K) → contains xs t ≡ false → count t xs ≡ 0
  unfolding contains count
  count_of_fresh t [] h = refl
  count_of_fresh t (x ∷ xs) h = ground (arith, count_of_fresh t xs)

-- What the loop over the entries keeps.
pub record IsDeclared (d : Declarations) : Type 0 where
  pub once : (k : ResourceRef) → count k (declared d.dependencies) ≤ 1
  pub resolved :
      (k : ResourceRef)
      → contains (declared d.dependencies) k ≡ true
      → (task : Resource) × (lookup k d.resolved_tasks ≡ some task)

insert-IsDeclared :
    (ref : ResourceRef) (refs : List ResourceRef) (task : Resource) (d : Declarations)
    → contains (declared d.dependencies) ref ≡ false
    → IsDeclared d
    → IsDeclared (record {
      dependencies = insert ref refs d.dependencies;
      resolved_tasks = insert ref task d.resolved_tasks;
    })
insert-IsDeclared ref refs task d fresh h = record {
  once = λ k. ground (
    arith,
    h.once k,
    count-declared-insert ref k refs d.dependencies fresh,
    count_of_fresh ref (declared d.dependencies) fresh,
    Ref_eq.beq_iff ref k,
  );
  resolved = λ k there. elim (Bool-cases (ref == k)) [
    | inl same ↦ (task, rw (lookup-insert ref k task d.resolved_tasks, same) refl)
    | inr other ↦
        let (found, at_k) =
          h.resolved k (ground (arith, contains-declared-insert ref k refs d.dependencies)) in
        (found, rw (lookup-insert ref k task d.resolved_tasks, other) at_k)
  ];
}

module _ (render : Json → String) (resources : ResourceCollection) where
  declare-IsDeclared :
      (index : ℕ) (entry : Fields) (d : Declarations)
      → IsDeclared d
      → Returns IsDeclared (declare render resources index entry d)
  unfolding declare
  declare-IsDeclared index entry d h =
      bind_case (Returns IsDeclared) _ _ (λ e _. tt)
        λ ref _.
          ensure_case (Returns IsDeclared) _ _ _ (λ _. tt)
            λ fresh.
              bind_case (Returns IsDeclared) _ _ (λ e _. tt)
                λ task _.
                  bind_case (Returns IsDeclared) _ _ (λ e _. tt)
                    λ refs _.
                      ensure_case (Returns IsDeclared) _ _ _ (λ _. tt)
                        λ _. insert-IsDeclared ref refs task d (ground (arith, fresh)) h

  pub declare_all-IsDeclared :
      (index : ℕ) (entries : List Fields) (d : Declarations)
      → IsDeclared d
      → Returns IsDeclared (declare_all render resources index entries d)
  unfolding declare_all
  declare_all-IsDeclared index [] d h = h
  declare_all-IsDeclared index (entry ∷ entries) d h =
      bind_case (Returns IsDeclared) _ _ (λ e _. tt)
        λ d' made.
          declare_all-IsDeclared (suc index) entries d'
            (Outcome.Returns-returned IsDeclared _ d' (declare-IsDeclared index entry d h) made)

-- Every dependency of a node is one of the keys.
unfoldable pub IsClosed : List ResourceRef → Dict ResourceRef (List ResourceRef) → Type 0
IsClosed keys g = (k c : ResourceRef) → contains (deps g k) c ≡ true → contains keys c ≡ true

check_node-contains :
    (keys : List ResourceRef) (ref : ResourceRef) (ds : List ResourceRef)
    → Returns
        (λ _. (c : ResourceRef) → contains ds c ≡ true → contains keys c ≡ true)
        (check_node keys ref ds)
unfolding check_node contains
check_node-contains keys ref [] = λ c h. cc
check_node-contains keys ref (d ∷ ds) =
    ensure_case (Returns _) _ _ _ (λ _. tt)
      λ here.
        Outcome.Returns-imp Contained _ (check_node keys ref ds)
          (λ u rest c h. ground (arith, here, rest c, Ref_eq.beq_iff d c))
          (check_node-contains keys ref ds)
  where
    Contained : Unit {0} → Type 0
    Contained u = (c : ResourceRef) → contains ds c ≡ true → contains keys c ≡ true

pub check_nodes-IsClosed :
    (keys : List ResourceRef) (g : Dict ResourceRef (List ResourceRef))
    → Returns (λ _. IsClosed keys g) (check_nodes keys g)
unfolding check_nodes contains deps lookup IsClosed
check_nodes-IsClosed keys [] = λ k c h. cc
check_nodes-IsClosed keys ((ref, ds) ∷ g) =
    bind_case (Returns _) _ _ (λ e _. tt)
      λ u checked.
        Outcome.Returns-imp (λ _. IsClosed keys g) _ (check_nodes keys g)
          (λ v rest k c h. ground (
            arith,
            rest k c,
            Outcome.Returns-returned
                (λ _. (x : ResourceRef) → contains ds x ≡ true → contains keys x ≡ true) _ u
                (check_node-contains keys ref ds) checked c,
            Ref_eq.beq_iff ref k,
          ))
          (check_nodes-IsClosed keys g)
