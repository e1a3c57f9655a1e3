-- ===== src/Dag/Groups.antt =====
-- The groups of the loop in src/aep/task_dag.py, and the nodes that it never reaches.
use mathlib.Core.Path.{subst}
use mathlib.Core.List.{append-nil}
use agent_engineering_platfo.Prelude.{
  ℕ, suc, ◌+◌, ◌≤◌, ◌<◌, ◌≡◌, refl, sym, ap, Bool, true, false, ◌&&◌, List, [], ◌∷◌, ◌++◌, arith,
  Eq, ◌==◌, if◌then◌else◌, contains, nat_eq,
}
use agent_engineering_platfo.Dict.{Dict, lookup}
use agent_engineering_platfo.Dag.Counts.{
  count, missing, count-append, count-pos_of_contains, missing-snoc,
}
use agent_engineering_platfo.Dag.Graph.{
  Progress, deps, declared, dependents, release_all, complete, insert_sorted, sorted, filter,
}
use agent_engineering_platfo.Dag.Release.{Holds, count-dependents, release_all-Holds}

module _ {K : Type 0} ⦃e : Eq K⦄ where
  append_snoc : (p cs : List K) (c : K) → (p ++ c ∷ []) ++ cs ≡ p ++ c ∷ cs
  append_snoc [] cs c = refl
  append_snoc (x ∷ p) cs c = ap (λ l. x ∷ l) (append_snoc p cs c)

  pub count-sorted : (order xs : List K) (k : K) → count k (sorted order xs) ≡ count k xs
  unfolding sorted count insert_sorted
  count-sorted order [] k = refl
  count-sorted order (x ∷ xs) k =
      ground (arith, count_insert x (sorted order xs), count-sorted order xs k)
    where
      count_insert :
          (t : K) (ys : List K)
          → count k (insert_sorted order t ys) ≡ (if t == k then suc (count k ys) else count k ys)
      count_insert t [] = refl
      count_insert t (y ∷ ys) = ground (arith, count_insert t ys)

  pub count-filter :
      (q : K → Bool) (xs : List K) (k : K) → count k (filter q xs) ≡ (if q k then count k xs else 0)
  unfolding filter count
  count-filter q [] k = ground arith
  count-filter q (x ∷ xs) k = ground (arith, count-filter q xs k, e.beq_iff x k)

  module _ (g : Dict K (List K)) where
    -- A declared node whose dependencies are all placed counts once, any other not at all.
    unfoldable pub due : List K → K → ℕ
    due p k = if contains (declared g) k && nat_eq (missing p (deps g k)) 0 then 1 else 0

    declared_of_deps : (k c : K) → 0 < count c (deps g k) → contains (declared g) k ≡ true
    unfolding deps declared contains lookup count
    declared_of_deps k c = within g
      where
        within : (h : Dict K (List K)) → 0 < count c (deps h k) → contains (declared h) k ≡ true
        within [] some_dep = absurd (omega arith)
        within ((t, ds) ∷ h) some_dep = ground (arith, within h)

    -- The nodes of `p` are placed, and `n` counts those that have become ready since.
    pub record Placed (p cs : List K) (n : K → ℕ) (s : Progress K) : Type 0 where
      pub holds : Holds (λ k. missing p (deps g k)) n s
      pub counts : (k : K) → count k p + count k cs + n k ≡ due p k

    module _ (once : (k : K) → count k (declared g) ≤ 1) where
      place :
          (p cs : List K) (c : K) (n : K → ℕ) (s : Progress K)
          → Placed p (c ∷ cs) n s
          → (n' : K → ℕ) × Placed (p ++ c ∷ []) cs n' (release_all (dependents g c) s)
      unfolding count due
      place p cs c n s h =
          let fresh : contains p c ≡ false =
            ground (arith, h.counts c, count-pos_of_contains c p, e.beq_iff c c) in
          let less : (k : K)
              → missing (p ++ c ∷ []) (deps g k) + count c (deps g k) ≡ missing p (deps g k) =
            λ k. missing-snoc p (deps g k) c fresh in
          let same : (k : K) → count k (dependents g c) ≡ count c (deps g k) =
            λ k. count-dependents g k c once in
          let r =
            release_all-Holds (dependents g c) _ n s (λ k. omega (arith, less k, same k)) h.holds in
          (
            _,
            record {
              holds = record {
                degree = λ k. ground (arith, r.degree k, less k, same k);
                next = λ k. r.next k;
              };
              counts = λ k. ground (
                arith,
                h.counts k,
                less k,
                same k,
                declared_of_deps k c,
                count-append k p (c ∷ []),
                e.beq_iff c k,
              );
            },
          )

      pub place_all :
          (cs p : List K) (n : K → ℕ) (s : Progress K)
          → Placed p cs n s
          → (n' : K → ℕ) × Placed (p ++ cs) [] n' (complete g cs s)
      unfolding complete
      place_all [] p n s h = (n, subst (λ q. Placed q [] n s) (sym (append-nil p)) h)
      place_all (c ∷ cs) p n s h =
          let (n', h') = place p cs c n s h in
          let (n'', h'') = place_all cs (p ++ c ∷ []) n' _ h' in
          (
            n'',
            subst (λ q. Placed q [] n'' (complete g cs (release_all (dependents g c) s)))
                (append_snoc p cs c) h'',
          )
