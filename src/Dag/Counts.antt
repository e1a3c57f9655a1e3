-- ===== src/Dag/Counts.antt =====
-- Counting the elements of a list, the measure of the graph algorithm.
use agent_engineering_platfo.Prelude.{
  ℕ, suc, ◌+◌, ◌≤◌, ◌<◌, ◌≡◌, refl, ap, true, false, List, [], ◌∷◌, ◌++◌, arith, Eq, ◌==◌,
  if◌then◌else◌, length, contains, Bool-cases, inl, inr,
}

module _ {K : Type 0} ⦃e : Eq K⦄ where
  unfoldable pub count : K → List K → ℕ
  count a [] = 0
  count a (x ∷ xs) = if x == a then suc (count a xs) else count a xs

  -- The number of elements of a list that another lacks.
  unfoldable pub missing : List K → List K → ℕ
  missing placed [] = 0
  missing placed (d ∷ ds) = if contains placed d then missing placed ds else suc (missing placed ds)

  pub count-append : (a : K) (xs ys : List K) → count a (xs ++ ys) ≡ count a xs + count a ys
  unfolding count
  count-append a [] ys = omega arith
  count-append a (x ∷ xs) ys = ground (arith, count-append a xs ys)

  pub contains-append :
      (a : K) (xs ys : List K) → contains xs a ≡ true → contains (xs ++ ys) a ≡ true
  unfolding contains
  contains-append a [] ys h = cc
  contains-append a (x ∷ xs) ys h = ground (arith, contains-append a xs ys)

  pub count-pos_of_contains : (a : K) (xs : List K) → contains xs a ≡ true → 0 < count a xs
  unfolding contains count
  count-pos_of_contains a [] h = cc
  count-pos_of_contains a (x ∷ xs) h = ground (arith, count-pos_of_contains a xs)

  pub contains_of_count-pos : (a : K) (xs : List K) → 0 < count a xs → contains xs a ≡ true
  unfolding contains count
  contains_of_count-pos a [] h = absurd (omega arith)
  contains_of_count-pos a (x ∷ xs) h = ground (arith, contains_of_count-pos a xs)

  contains_snoc :
      (placed : List K) (c d : K)
      → contains (placed ++ c ∷ []) d ≡ (if contains placed d then true else (c == d))
  unfolding contains
  contains_snoc [] c d = ground arith
  contains_snoc (x ∷ placed) c d = ground (arith, contains_snoc placed c d)

  -- One more placed element makes fewer elements missing, by as many as it occurs.
  pub missing-snoc :
      (placed ds : List K) (c : K)
      → contains placed c ≡ false
      → missing (placed ++ c ∷ []) ds + count c ds ≡ missing placed ds
  unfolding missing count
  missing-snoc placed [] c h = omega arith
  missing-snoc placed (d ∷ ds) c h =
      ground
        (arith, contains_snoc placed c d, missing-snoc placed ds c, e.beq_iff c d, e.beq_iff d c)

  pub missing-nil : (ds : List K) → missing [] ds ≡ length ds
  unfolding missing contains
  missing-nil [] = refl
  missing-nil (d ∷ ds) = ap suc (missing-nil ds)

  erase : K → List K → List K
  erase a [] = []
  erase a (x ∷ xs) = let rest = erase a xs in if x == a then xs else x ∷ rest

  count-erase :
      (a b : K) (xs : List K)
      → 0 < count a xs
      → count b xs ≡ (if a == b then suc (count b (erase a xs)) else count b (erase a xs))
  unfolding count erase
  count-erase a b [] h = absurd (omega arith)
  count-erase a b (x ∷ xs) h =
      ground (arith, count-erase a b xs, e.beq_iff x a, e.beq_iff x b, e.beq_iff a b)

  length-erase : (a : K) (xs : List K) → 0 < count a xs → length xs ≡ suc (length (erase a xs))
  unfolding count erase
  length-erase a [] h = absurd (omega arith)
  length-erase a (x ∷ xs) h = ground (arith, length-erase a xs)

  -- A list that holds no element more often than another is no longer; and if it is as long, it holds
  -- every element as often.
  pub record Difference (l m : List K) : Type 0 where
    pub rest : List K
    pub counts : (a : K) → count a m ≡ count a l + count a rest
    pub lengths : length m ≡ length l + length rest

  pub difference : (l m : List K) → ((a : K) → count a l ≤ count a m) → Difference l m
  unfolding count
  difference [] m h = record { rest = m; counts = λ a. omega arith; lengths = omega arith }
  difference (x ∷ l) m h =
      let here : 0 < count x m = ground (arith, h x, e.beq_iff x x) in
      let d = difference l (erase x m) (λ a. ground (arith, h a, count-erase x a m here)) in
      record {
        rest = d.rest;
        counts = λ a. ground (arith, d.counts a, count-erase x a m here);
        lengths = omega (arith, d.lengths, length-erase x m here);
      }

  pub counts_of_length :
      (l m : List K)
      → ((a : K) → count a l ≤ count a m)
      → length l ≡ length m
      → (a : K) → count a l ≡ count a m
  unfolding count
  counts_of_length l m h same a =
      let d = difference l m h in nothing d.rest (omega (arith, d.lengths)) (d.counts a)
    where
      nothing :
          (r : List K) → length r ≡ 0 → count a m ≡ count a l + count a r → count a l ≡ count a m
      nothing [] z c = omega arith
      nothing (x ∷ r) z c = absurd (omega arith)

  pub length_of_counts : (l m : List K) → ((a : K) → count a l ≡ count a m) → length l ≡ length m
  unfolding count
  length_of_counts l m same =
      let d = difference l m (λ a. omega (arith, same a)) in
      let left : length d.rest ≡ 0 = nothing d.rest (λ a. omega (arith, same a, d.counts a)) in
      omega (arith, d.lengths, left)
    where
      nothing : (r : List K) → ((a : K) → count a r ≡ 0) → length r ≡ 0
      nothing [] z = refl
      nothing (x ∷ r) z = absurd (ground (arith, z x, e.beq_iff x x))

  pub missing-pos :
      (placed ds : List K)
      → 0 < missing placed ds
      → (c : K) × (contains ds c ≡ true) × (contains placed c ≡ false)
  unfolding missing contains
  missing-pos placed [] h = absurd (omega arith)
  missing-pos placed (d ∷ ds) h = elim (Bool-cases (contains placed d)) [
    | inl old ↦
        let (c, here, lacks) = missing-pos placed ds (ground (arith, old)) in
        (c, ground (arith, here), lacks)
    | inr new ↦ (d, ground (arith, e.beq_iff d d), new)
  ]
