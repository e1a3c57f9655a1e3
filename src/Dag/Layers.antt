-- ===== src/Dag/Layers.antt =====
-- The loop `while ready:` of src/aep/task_dag.py: it ends, its groups are the ready sets, and what it
-- leaves is blocked.
use mathlib.Core.List.{append-nil, append_assoc}
use agent_engineering_platfo.Prelude.{
  ℕ, zero, suc, ◌+◌, ◌≤◌, ◌<◌, ◌≡◌, refl, sym, ap, Bool, true, not, ◌&&◌, List, [], ◌∷◌, ◌++◌,
  Option, some, arith, Eq, length, length-append, contains, nat_eq, ltb,
}
use agent_engineering_platfo.Dict.{Dict}
use agent_engineering_platfo.Dag.Counts.{
  count, missing, count-pos_of_contains, contains_of_count-pos, missing-nil, difference,
}
use agent_engineering_platfo.Dag.Graph.{
  ℤ, pos, is_zero, Progress, deps, declared, complete, sorted, layers, filter, flatten, first_ready,
  indegrees, ready_groups,
}
use agent_engineering_platfo.Dag.Groups.{due, place_all, count-sorted, count-filter}

module _ {K : Type 0} ⦃e : Eq K⦄ where
  -- Every element is in the list `p`.
  unfoldable pub covered : List K → List K → Bool
  covered p [] = true
  covered p (d ∷ ds) = contains p d && covered p ds

  pub covered-missing : (p ds : List K) → covered p ds ≡ nat_eq (missing p ds) 0
  unfolding covered missing
  covered-missing p [] = ground arith
  covered-missing p (d ∷ ds) = ground (arith, covered-missing p ds)

  pub contains-count : (k : K) (xs : List K) → contains xs k ≡ ltb 0 (count k xs)
  contains-count k xs = ground (arith, count-pos_of_contains k xs, contains_of_count-pos k xs)

  module _ (g : Dict K (List K)) where
    -- The group is the set of the nodes that are not placed and whose dependencies all are.
    pub IsReadyGroup : List K → List K → Type 0
    IsReadyGroup p group =
        (k : K)
        → contains group k ≡ (contains (declared g) k && not (contains p k) && covered p (deps g k))

    -- Each group is the ready set after the groups before it.
    pub Staged : List K → List (List K) → Type 0
    Staged p [] = Unit
    Staged p (group ∷ groups) = IsReadyGroup p group × Staged (p ++ group) groups

    ready-IsReadyGroup :
        (p ready : List K)
        → ((k : K) → count k p + count k ready ≡ due g p k)
        → IsReadyGroup p ready
    unfolding due IsReadyGroup
    ready-IsReadyGroup p ready counts k =
        ground (
          arith,
          counts k,
          contains-count k p,
          contains-count k ready,
          covered-missing p (deps g k),
        )

    -- What the loop has done when it ends.
    pub record Layered (p : List K) (outcome : Option (List (List K) × (K → ℤ))) : Type 0 where
      pub groups : List (List K)
      pub indegree : K → ℤ
      pub ran : outcome ≡ some (groups, indegree)
      pub staged : Staged p groups
      pub settled : (k : K) → count k (p ++ flatten groups) ≡ due g (p ++ flatten groups) k
      pub degree : (k : K) → indegree k ≡ pos (missing (p ++ flatten groups) (deps g k))

    length_placed :
        (p : List K) → ((k : K) → count k p ≤ due g p k) → length p ≤ length (declared g)
    unfolding due
    length_placed p counts =
        let d =
          difference p (declared g)
            (λ k. ground (arith, counts k, count-pos_of_contains k (declared g))) in
        omega (arith, d.lengths)

    module _ (once : (k : K) → count k (declared g) ≤ 1) where
      pub layers-Layered :
          (n : ℕ) (p ready : List K) (ind : K → ℤ)
          → ((k : K) → ind k ≡ pos (missing p (deps g k)))
          → ((k : K) → count k p + count k ready ≡ due g p k)
          → length (declared g) < n + length p
          → Layered p (layers g n ready ind)
      unfolding layers flatten count Staged
      layers-Layered zero p ready ind degree counts fuel =
          absurd (omega (arith, fuel, length_placed p (λ k. omega (arith, counts k))))
      layers-Layered (suc n) p [] ind degree counts fuel = record {
        groups = [];
        indegree = ind;
        ran = refl;
        staged = tt;
        settled = λ k. rw append-nil (omega (arith, counts k));
        degree = λ k. rw append-nil (degree k);
      }
      layers-Layered (suc n) p (r ∷ rs) ind degree counts fuel =
          let start : Progress K = record { indegree = ind; next_ready = [] } in
          let (next, h) =
            place_all g once (r ∷ rs) p (λ k. 0) start
              (record {
                holds = record { degree = degree; next = λ k. refl };
                counts = λ k. omega (arith, counts k);
              }) in
          let after = complete g (r ∷ rs) start in
          let rest =
            layers-Layered n (p ++ r ∷ rs) (sorted (declared g) after.next_ready) after.indegree
              h.holds.degree
              (λ k.
                omega
                  (arith, count-sorted (declared g) after.next_ready k, h.holds.next k, h.counts k))
              (omega (arith, fuel, length-append p (r ∷ rs))) in
          record {
            groups = (r ∷ rs) ∷ rest.groups;
            indegree = rest.indegree;
            ran = rw rest.ran refl;
            staged = (ready-IsReadyGroup p (r ∷ rs) counts, rest.staged);
            settled = λ k. rw (← append_assoc) (rest.settled k);
            degree = λ k. rw (← append_assoc) (rest.degree k);
          }

      pub ready_groups-Layered : Layered [] (ready_groups g)
      unfolding ready_groups first_ready indegrees due count
      ready_groups-Layered =
          layers-Layered (suc (length (declared g))) [] (first_ready g) (indegrees g)
            (λ k. ap pos (sym (missing-nil (deps g k))))
            (λ k. ground (
              arith,
              count-sorted (declared g) (filter (λ t. is_zero (indegrees g t)) (declared g)) k,
              count-filter (λ t. is_zero (indegrees g t)) (declared g) k,
              missing-nil (deps g k),
              once k,
              contains-count k (declared g),
            ))
            (omega arith)
