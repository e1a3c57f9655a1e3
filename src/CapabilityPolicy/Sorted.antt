-- ===== src/CapabilityPolicy/Sorted.antt =====
-- src/aep/capability_policy.py: sorting the policies drops none and invents none.
use agent_engineering_platfo.Prelude.{
  Any, Bool, true, false, List, [], ◌∷◌, All, ◌⊎◌, inl, inr, if◌then◌else◌,
}
use agent_engineering_platfo.CapabilityPolicy.{Policy}
use agent_engineering_platfo.CapabilityPolicy.Policies.{
  comes_before, insert_policy, sorted_policies,
}

module _ (P : Policy → Type 0) where
  All-insert_policy : (p : Policy) (qs : List Policy) → All P (insert_policy p qs) → P p × All P qs
  unfolding insert_policy
  All-insert_policy p [] h = h
  All-insert_policy p (q ∷ qs) h = go (comes_before q p) (All-insert_policy p qs) h
    where
      go :
          (b : Bool)
          → (All P (insert_policy p qs) → P p × All P qs)
          → All P (if b then q ∷ insert_policy p qs else p ∷ q ∷ qs)
          → P p × All P (q ∷ qs)
      go true next h = let (here, rest) = next h.1 in (here, (h.0, rest))
      go false next h = h

  -- Sorting drops no policy.
  pub All-sorted_policies : (ps : List Policy) → All P (sorted_policies ps) → All P ps
  unfolding sorted_policies
  All-sorted_policies [] h = tt
  All-sorted_policies (p ∷ ps) h =
      let (here, rest) = All-insert_policy p (sorted_policies ps) h in
      (here, All-sorted_policies ps rest)

  Any-insert_policy : (p : Policy) (qs : List Policy) → Any P (insert_policy p qs) → P p ⊎ Any P qs
  unfolding insert_policy
  Any-insert_policy p [] h = h
  Any-insert_policy p (q ∷ qs) h = go (comes_before q p) (Any-insert_policy p qs) h
    where
      later : P p ⊎ Any P qs → P p ⊎ Any P (q ∷ qs)
      later (inl a) = inl a
      later (inr a) = inr (inr a)

      go :
          (b : Bool)
          → (Any P (insert_policy p qs) → P p ⊎ Any P qs)
          → Any P (if b then q ∷ insert_policy p qs else p ∷ q ∷ qs)
          → P p ⊎ Any P (q ∷ qs)
      go true next (inl a) = inr (inl a)
      go true next (inr a) = later (next a)
      go false next h = h

  -- Sorting invents no policy.
  pub Any-sorted_policies : (ps : List Policy) → Any P (sorted_policies ps) → Any P ps
  unfolding sorted_policies
  Any-sorted_policies [] h = h
  Any-sorted_policies (p ∷ ps) h = elim (Any-insert_policy p (sorted_policies ps) h) [
    | inl a ↦ inl a
    | inr a ↦ inr (Any-sorted_policies ps a)
  ]
