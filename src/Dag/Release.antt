-- ===== src/Dag/Release.antt =====
-- One group of the loop in src/aep/task_dag.py: the indegree of a node is the number of its
-- dependencies that are not placed yet, and a node becomes ready when the last of them is placed.
use agent_engineering_platfo.Prelude.{
  ℕ, suc, ◌-◌, ◌≤◌, ◌<◌, ◌≡◌, refl, ◌&&◌, List, [], ◌∷◌, arith, Eq, ◌==◌, if◌then◌else◌, nat_eq,
  ltb,
}
use agent_engineering_platfo.Dict.{Dict, lookup}
use agent_engineering_platfo.Dag.Counts.{count, count-append}
use agent_engineering_platfo.Dag.Graph.{
  pos, Progress, deps, declared, appended, dependents, release, release_all,
}

module _ {K : Type 0} ⦃e : Eq K⦄ where
  count-appended :
      (k t d : K) (ds : List K) → count k (appended t ds d) ≡ (if t == k then count d ds else 0)
  unfolding count appended
  count-appended k t d [] = ground arith
  count-appended k t d (x ∷ ds) = ground (arith, count-appended k t d ds)

  count_dependents_other :
      (g : Dict K (List K)) (k d : K) → count k (declared g) ≡ 0 → count k (dependents g d) ≡ 0
  unfolding count declared dependents
  count_dependents_other [] k d h = refl
  count_dependents_other ((t, ds) ∷ g) k d h = ground (
    arith,
    count_dependents_other g k d,
    count-appended k t d ds,
    count-append k (appended t ds d) (dependents g d),
  )

  -- A node is a dependent as often as it depends.
  pub count-dependents :
      (g : Dict K (List K)) (k d : K)
      → ((t : K) → count t (declared g) ≤ 1)
      → count k (dependents g d) ≡ count d (deps g k)
  unfolding count declared dependents deps lookup
  count-dependents [] k d h = refl
  count-dependents ((t, ds) ∷ g) k d h =
      let above : (u : K) → count u (declared g) ≤ 1 = λ u. ground (arith, h u) in
      ground (
        arith,
        count-dependents g k d above,
        count_dependents_other g k d,
        count-appended k t d ds,
        count-append k (appended t ds d) (dependents g d),
        h k,
      )

  -- The indegrees are the numbers `m`, and each node is among the next ones as often as `n` says.
  pub record Holds (m n : K → ℕ) (s : Progress K) : Type 0 where
    pub degree : (k : K) → s.indegree k ≡ pos (m k)
    pub next : (k : K) → count k s.next_ready ≡ n k

  release-Holds :
      (d : K) (m n : K → ℕ) (s : Progress K)
      → 0 < m d
      → Holds m n s
      → Holds
          (λ k. if d == k then m k - 1 else m k)
          (λ k. if d == k && nat_eq (m d) 1 then suc (n k) else n k)
          (release d s)
  unfolding release count
  release-Holds d m n s some_left h = record {
    degree = λ k. ground (arith, h.degree d, h.degree k, e.beq_iff d k);
    next = λ k.
        ground (arith, h.degree d, h.next k, e.beq_iff d k, count-append k s.next_ready (d ∷ []));
  }

  pub release_all-Holds :
      (ds : List K) (m n : K → ℕ) (s : Progress K)
      → ((k : K) → count k ds ≤ m k)
      → Holds m n s
      → Holds
          (λ k. m k - count k ds)
          (λ k. if ltb 0 (count k ds) && nat_eq (m k) (count k ds) then suc (n k) else n k)
          (release_all ds s)
  unfolding release_all count
  release_all-Holds [] m n s enough h = record {
    degree = λ k. ground (arith, h.degree k);
    next = λ k. ground (arith, h.next k);
  }
  release_all-Holds (d ∷ ds) m n s enough h =
      let first = release-Holds d m n s (ground (arith, enough d, e.beq_iff d d)) h in
      let rest = release_all-Holds ds _ _ _ (λ k. ground (arith, enough k, e.beq_iff d k)) first in
      record {
        degree = λ k. ground (arith, rest.degree k, enough k, e.beq_iff d k);
        next = λ k. ground (arith, rest.next k, enough k, enough d, e.beq_iff d k);
      }
