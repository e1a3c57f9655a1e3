-- ===== src/Dag/Graph.antt =====
-- src/aep/task_dag.py, the second half of `resolve_task_dag`: dependents, indegrees and the loop that
-- releases group after group. A graph is the dict of dependencies, in declaration order.
use agent_engineering_platfo.Prelude.{
  ℕ, zero, suc, Bool, true, false, Option, none, some, List, [], ◌∷◌, ◌++◌, Eq, ◌==◌, if◌then◌else◌,
  length, leb,
}
use agent_engineering_platfo.Dict.{Dict, lookup}

-- The indegrees are Python integers.
pub data ℤ : Type 0 where
  pos : ℕ → ℤ
  negsuc : ℕ → ℤ

abbrev pub pred : ℤ → ℤ
pred (pos zero) = negsuc zero
pred (pos (suc n)) = pos n
pred (negsuc n) = negsuc (suc n)

abbrev pub is_zero : ℤ → Bool
is_zero (pos zero) = true
is_zero _ = false

abbrev pub is_positive : ℤ → Bool
is_positive (pos (suc n)) = true
is_positive _ = false

-- The loop's state while it completes a group.
pub record Progress (K : Type 0) : Type 0 where
  pub indegree : K → ℤ
  pub next_ready : List K

module _ {K : Type 0} ⦃e : Eq K⦄ where
  abbrev pub or_empty : Option (List K) → List K
  or_empty none = []
  or_empty (some ds) = ds

  -- dependencies[task_ref]
  unfoldable pub deps : Dict K (List K) → K → List K
  deps g t = or_empty (lookup t g)

  -- The references of the nodes, in declaration order.
  unfoldable pub declared : Dict K (List K) → List K
  declared [] = []
  declared ((t, ds) ∷ g) = t ∷ declared g

  -- What a node appends to the list of `dependents[d]`, once for each of its dependencies that is d.
  unfoldable pub appended : K → List K → K → List K
  appended t [] d = []
  appended t (x ∷ ds) d = let rest = appended t ds d in if x == d then t ∷ rest else rest

  -- dependents[d]
  unfoldable pub dependents : Dict K (List K) → K → List K
  dependents [] d = []
  dependents ((t, ds) ∷ g) d = appended t ds d ++ dependents g d

  -- declaration_order[t]
  unfoldable pub position : List K → K → ℕ
  position [] t = 0
  position (x ∷ xs) t = if x == t then 0 else suc (position xs t)

  -- `sorted(…, key=declaration_order.__getitem__)`, which is stable
  unfoldable pub insert_sorted : List K → K → List K → List K
  insert_sorted order t [] = t ∷ []
  insert_sorted order t (x ∷ xs) =
      let rest = insert_sorted order t xs in
      if leb (position order t) (position order x) then t ∷ x ∷ xs else x ∷ rest

  unfoldable pub sorted : List K → List K → List K
  sorted order [] = []
  sorted order (x ∷ xs) = insert_sorted order x (sorted order xs)

  -- One dependent of a completed node.
  unfoldable pub release : K → Progress K → Progress K
  release d s =
      let i = pred (s.indegree d) in
      record {
        indegree = λ k. if d == k then i else s.indegree k;
        next_ready = if is_zero i then s.next_ready ++ d ∷ [] else s.next_ready;
      }

  unfoldable pub release_all : List K → Progress K → Progress K
  release_all [] s = s
  release_all (d ∷ ds) s = release_all ds (release d s)

  -- The two loops over a group.
  unfoldable pub complete : Dict K (List K) → List K → Progress K → Progress K
  complete g [] s = s
  complete g (c ∷ cs) s = complete g cs (release_all (dependents g c) s)

  -- `while ready:`, with the groups that it appends and the indegrees that it leaves; `none` stands
  -- for a run that fuel has cut off.
  unfoldable pub layers : Dict K (List K) → ℕ → List K → (K → ℤ) → Option (List (List K) × (K → ℤ))
  layers g zero ready indegree = none
  layers g (suc n) [] indegree = some ([], indegree)
  layers g (suc n) (r ∷ rs) indegree =
      let s = complete g (r ∷ rs) (record { indegree = indegree; next_ready = [] }) in
      let rest = layers g n (sorted (declared g) s.next_ready) s.indegree in
      elim rest [ none ↦ none | some (groups, i) ↦ some ((r ∷ rs) ∷ groups, i) ]

  -- indegree = {task_ref: len(dependencies[task_ref]) for …}
  unfoldable pub indegrees : Dict K (List K) → K → ℤ
  indegrees g t = pos (length (deps g t))

  unfoldable pub filter : (K → Bool) → List K → List K
  filter p [] = []
  filter p (x ∷ xs) = let rest = filter p xs in if p x then x ∷ rest else rest

  unfoldable pub first_ready : Dict K (List K) → List K
  first_ready g = sorted (declared g) (filter (λ t. is_zero (indegrees g t)) (declared g))

  -- The groups that the loop makes of a graph, and the indegrees that it leaves.
  unfoldable pub ready_groups : Dict K (List K) → Option (List (List K) × (K → ℤ))
  ready_groups g = layers g (suc (length (declared g))) (first_ready g) (indegrees g)

  unfoldable pub flatten : List (List K) → List K
  flatten [] = []
  flatten (x ∷ xs) = x ++ flatten xs

  -- The nodes whose indegree is positive, in declaration order.
  unfoldable pub cyclic_refs : Dict K (List K) → (K → ℤ) → List K
  cyclic_refs g i = sorted (declared g) (filter (λ t. is_positive (i t)) (declared g))
