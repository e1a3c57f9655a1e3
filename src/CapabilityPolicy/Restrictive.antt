-- ===== src/CapabilityPolicy/Restrictive.antt =====
-- src/aep/capability_policy.py: the decision against the rules that match.
use agent_engineering_platfo.Prelude.{
  ◌≤◌, ◌<◌, ◌≡◌, refl, Bool, true, false, List, [], ◌∷◌, arith, ltb, length, All, Any, ◌⊎◌, inl,
  inr, if◌then◌else◌,
}
use agent_engineering_platfo.CapabilityPolicy.{
  PolicyDecision, allow, require_approval, deny, MatchedRule,
}
use agent_engineering_platfo.CapabilityPolicy.Matching.{priority, winner, winning_rule, decision_of}

-- No rule is above the decision.
abbrev pub IsBelow : PolicyDecision → MatchedRule → Type 0
IsBelow d r = priority r.effect ≤ priority d

winner-IsBelow :
    (best : MatchedRule) (rs : List MatchedRule)
    → IsBelow (winner best rs).effect best × All (IsBelow (winner best rs).effect) rs
unfolding winner
winner-IsBelow best [] = (omega arith, tt)
winner-IsBelow best (r ∷ rs) =
    go (ltb (priority best.effect) (priority r.effect)) refl (winner-IsBelow r rs)
      (winner-IsBelow best rs)
  where
    go :
        (b : Bool)
        → ltb (priority best.effect) (priority r.effect) ≡ b
        → IsBelow (winner r rs).effect r × All (IsBelow (winner r rs).effect) rs
        → IsBelow (winner best rs).effect best × All (IsBelow (winner best rs).effect) rs
        → IsBelow (winner (if b then r else best) rs).effect best
          × All (IsBelow (winner (if b then r else best) rs).effect) (r ∷ rs)
    go true h (first, rest) other =
        let lower : priority best.effect ≤ priority r.effect = ground arith in
        (omega (arith, lower, first), (first, rest))
    go false h other (first, rest) =
        let lower : priority r.effect ≤ priority best.effect = ground arith in
        (first, (omega (arith, lower, first), rest))

winner_attained :
    (best : MatchedRule) (rs : List MatchedRule)
    → (best.effect ≡ (winner best rs).effect) ⊎ Any (λ r. r.effect ≡ (winner best rs).effect) rs
unfolding winner
winner_attained best [] = inl refl
winner_attained best (r ∷ rs) =
    go (ltb (priority best.effect) (priority r.effect)) (winner_attained r rs)
      (winner_attained best rs)
  where
    go :
        (b : Bool)
        → (r.effect ≡ (winner r rs).effect) ⊎ Any (λ q. q.effect ≡ (winner r rs).effect) rs
        → (best.effect ≡ (winner best rs).effect) ⊎ Any (λ q. q.effect ≡ (winner best rs).effect) rs
        → (best.effect ≡ (winner (if b then r else best) rs).effect)
          ⊎ Any (λ q. q.effect ≡ (winner (if b then r else best) rs).effect) (r ∷ rs)
    go true next other = inr next
    go false other (inl h) = inl h
    go false other (inr h) = inr (inr h)

-- The decision is at least as restrictive as every rule that matches, and the effect of one of them; it
-- is a denial where none matches.
pub decision-IsBelow :
    (matched : List MatchedRule)
    → All (IsBelow (decision_of (winning_rule matched))) matched
      × ((matched ≡ []) × (decision_of (winning_rule matched) ≡ deny)
          ⊎ Any (λ r. r.effect ≡ decision_of (winning_rule matched)) matched)
decision-IsBelow [] = (tt, inl (refl, refl))
decision-IsBelow (r ∷ rs) = (winner-IsBelow r rs, inr (winner_attained r rs))

abbrev pub IsAllow : MatchedRule → Type 0
IsAllow r = r.effect ≡ allow

below_allow : (d : PolicyDecision) → priority d ≤ 0 → d ≡ allow
below_allow allow h = refl
below_allow require_approval h = absurd (omega arith)
below_allow deny h = absurd (omega arith)

All-IsAllow :
    (d : PolicyDecision) (rs : List MatchedRule) → d ≡ allow → All (IsBelow d) rs → All IsAllow rs
All-IsAllow d [] h below = tt
All-IsAllow d (r ∷ rs) h below =
    (below_allow r.effect (rw h at below.0), All-IsAllow d rs h below.1)

-- What a decision to allow says of the rules that match.
pub decision_allow :
    (matched : List MatchedRule)
    → decision_of (winning_rule matched) ≡ allow
    → (0 < length matched) × All IsAllow matched
decision_allow [] h = absurd cc
decision_allow (r ∷ rs) h = (
  omega arith,
  All-IsAllow (decision_of (winning_rule (r ∷ rs))) (r ∷ rs) h (decision-IsBelow (r ∷ rs)).0,
)
