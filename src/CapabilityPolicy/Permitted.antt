-- ===== src/CapabilityPolicy/Permitted.antt =====
-- src/aep/capability_policy.py: the rules of the policies against the rules that match.
use agent_engineering_platfo.Prelude.{
  Any, ℕ, zero, suc, ◌+◌, ◌<◌, ◌≡◌, String, Bool, true, false, List, [], ◌∷◌, ◌++◌, arith, length,
  length-append, All, inl, inr, if◌then◌else◌,
}
use agent_engineering_platfo.Action.{Error}
use agent_engineering_platfo.Outcome.{Outcome, returned, bind_case, Returns, Returns-returned}
use agent_engineering_platfo.Json.{Json, Fields}
use agent_engineering_platfo.CapabilityPolicy.{allow, Rule, Policy, MatchedRule}
use agent_engineering_platfo.CapabilityPolicy.Matching.{rule_applies, matched_of, matched_rules}
use agent_engineering_platfo.CapabilityPolicy.Restrictive.{IsAllow}

module _ {A : Type 0} (P : A → Type 0) where
  All-append_left : (xs ys : List A) → All P (xs ++ ys) → All P xs
  All-append_left [] ys h = tt
  All-append_left (x ∷ xs) ys h = (h.0, All-append_left xs ys h.1)

  All-append_right : (xs ys : List A) → All P (xs ++ ys) → All P ys
  All-append_right [] ys h = h
  All-append_right (x ∷ xs) ys h = All-append_right xs ys h.1

module _ (is_schema : Fields → Bool) (is_valid : Fields → Json → Bool) (capability : String)
    (policy_input : Json) where
  -- The rule applies to the request.
  abbrev pub IsApplied : Rule → Type 0
  IsApplied rule = rule_applies is_schema is_valid capability policy_input rule ≡ returned true

  -- The rules of the policy that apply allow.
  abbrev pub IsPermitting : Policy → Type 0
  IsPermitting p = All (λ rule. IsApplied rule → rule.effect ≡ allow) p.rules

  -- Some rule of the policy applies.
  abbrev pub IsApplicable : Policy → Type 0
  IsApplicable p = Any IsApplied p.rules

  matched_of-lem :
      (policy : Policy) (index : ℕ) (rules : List Rule)
      → Returns
          (λ ms.
            (All IsAllow ms → All (λ rule. IsApplied rule → rule.effect ≡ allow) rules)
            × (0 < length ms → Any IsApplied rules))
          (matched_of is_schema is_valid capability policy_input policy index rules)
  unfolding matched_of
  matched_of-lem policy index [] = ((λ h. tt), λ h. omega arith)
  matched_of-lem policy index (rule ∷ rules) =
      bind_case Q _ _ (λ e _. tt)
        (λ applies asked.
          bind_case Q _ _ (λ e _. tt)
            (λ rest found.
              go applies asked rest
                (Returns-returned _ _ rest (matched_of-lem policy (suc index) rules) found)))
    where
      Q : Outcome Error (List MatchedRule) → Type 0
      Q = Returns (λ ms.
          (All IsAllow ms → All (λ r. IsApplied r → r.effect ≡ allow) (rule ∷ rules))
          × (0 < length ms → Any IsApplied (rule ∷ rules)))

      go :
          (b : Bool)
          → rule_applies is_schema is_valid capability policy_input rule ≡ returned b
          → (rest : List MatchedRule)
          → (All IsAllow rest → All (λ r. IsApplied r → r.effect ≡ allow) rules)
            × (0 < length rest → Any IsApplied rules)
          → Q (
              returned (
                if b
                then record {
                  scope = policy.scope;
                  policy_ref = policy.ref;
                  rule_index = index;
                  effect = rule.effect;
                }
                  ∷ rest
                else rest))
      go true asked rest ih = ((λ h. ((λ _. h.0), ih.0 h.1)), λ _. inl asked)
      go false asked rest ih = ((λ h. ((λ e. absurd (cc)), ih.0 h)), λ h. inr (ih.1 h))

  pub matched_rules-lem :
      (policies : List Policy)
      → Returns
          (λ ms.
            (All IsAllow ms → All IsPermitting policies)
            × (0 < length ms → Any IsApplicable policies))
          (matched_rules is_schema is_valid capability policy_input policies)
  unfolding matched_rules
  matched_rules-lem [] = ((λ h. tt), λ h. omega arith)
  matched_rules-lem (p ∷ ps) =
      bind_case Q _ _ (λ e _. tt)
        (λ first made.
          bind_case Q _ _ (λ e _. tt)
            (λ rest found.
              let here = Returns-returned _ _ first (matched_of-lem p 0 p.rules) made in
              let there = Returns-returned _ _ rest (matched_rules-lem ps) found in
              (
                (λ h. (
                  here.0 (All-append_left IsAllow first rest h),
                  there.0 (All-append_right IsAllow first rest h),
                )),
                (λ h. some_part here.1 there.1 (omega (arith, h, length-append first rest))),
              )))
    where
      Q : Outcome Error (List MatchedRule) → Type 0
      Q = Returns (λ ms.
          (All IsAllow ms → All IsPermitting (p ∷ ps))
          × (0 < length ms → Any IsApplicable (p ∷ ps)))

      some_part :
          {m n : ℕ}
          → (0 < m → IsApplicable p)
          → (0 < n → Any IsApplicable ps)
          → 0 < m + n
          → Any IsApplicable (p ∷ ps)
      some_part {m = zero} f g h = inr (g (omega (arith, h)))
      some_part {m = suc m} f g h = inl (f (omega arith))
