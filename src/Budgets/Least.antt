-- ===== src/Budgets/Least.antt =====
-- src/aep/execution_budgets.py: the order of limits, and what it is to be the least of some.
use agent_engineering_platfo.Prelude.{
  String, ◌≡◌, refl, Bool, true, false, Option, none, some, List, [], ◌∷◌, ◌++◌, arith, All, Any,
  All-append, Any-append_left, Any-append_right, inl, inr, Bool-cases, if◌then◌else◌,
}
use agent_engineering_platfo.Resources.{ResourceRef}
use agent_engineering_platfo.Budgets.{Numbers, BudgetLimit}
use agent_engineering_platfo.Budgets.Resolution.{lesser, is_less}

-- `<=` orders the numbers of the declarations, which are finite.
pub record IsOrder (n : Numbers) : Type 0 where
  pub at_most_trans :
      (x y z : n.Num) → n.at_most x y ≡ true → n.at_most y z ≡ true → n.at_most x z ≡ true
  pub at_most_total : (x y : n.Num) → n.at_most x y ≡ false → n.at_most y x ≡ true
  pub at_most_refl : (x : n.Num) → n.at_most x x ≡ true

module _ (n : Numbers) where
  -- The limit is at most the other one, where there is one.
  abbrev pub IsWithin : BudgetLimit n → Option (BudgetLimit n) → Type 0
  IsWithin l none = Unit
  IsWithin l (some m) = n.at_most l.value m.value ≡ true

  -- The least of the limits that are there, and none where none is.
  abbrev pub IsLeast : List (Option (BudgetLimit n)) → Option (BudgetLimit n) → Type 0
  IsLeast cs none = All (λ c. c ≡ none) cs
  IsLeast cs (some l) = Any (λ c. c ≡ some l) cs × All (IsWithin l) cs

  module _ (order : IsOrder n) (render_ref : Option ResourceRef → String) where
    pub one-IsLeast : (c : Option (BudgetLimit n)) → IsLeast (c ∷ []) c
    one-IsLeast none = (refl, tt)
    one-IsLeast (some l) = (inl refl, (order.at_most_refl l.value, tt))

    below :
        (l m : BudgetLimit n) (cs : List (Option (BudgetLimit n)))
        → n.at_most l.value m.value ≡ true
        → All (IsWithin m) cs
        → All (IsWithin l) cs
    below l m [] h all = tt
    below l m (none ∷ cs) h all = (tt, below l m cs h all.1)
    below l m (some c ∷ cs) h all =
        (order.at_most_trans l.value m.value c.value h all.0, below l m cs h all.1)

    below_none :
        (l : BudgetLimit n) (cs : List (Option (BudgetLimit n)))
        → All (λ c. c ≡ none) cs
        → All (IsWithin l) cs
    below_none l [] h = tt
    below_none l (none ∷ cs) h = (tt, below_none l cs h.1)
    below_none l (some c ∷ cs) h = absurd (cc (h.0))

    is_less-at_most :
        (l m : BudgetLimit n) → is_less n render_ref m l ≡ true → n.at_most m.value l.value ≡ true
    is_less-at_most l m h = elim (Bool-cases (n.at_most l.value m.value)) [
      | inl e ↦ ground arith
      | inr e ↦ order.at_most_total l.value m.value e
    ]

    not_less-at_most :
        (l m : BudgetLimit n) → is_less n render_ref m l ≡ false → n.at_most l.value m.value ≡ true
    not_less-at_most l m h = ground arith

    -- The lesser of two least limits is the least of all.
    pub lesser-IsLeast :
        (xs ys : List (Option (BudgetLimit n))) (a b : Option (BudgetLimit n))
        → IsLeast xs a
        → IsLeast ys b
        → IsLeast (xs ++ ys) (lesser n render_ref a b)
    lesser-IsLeast xs ys none none h g = All-append _ xs ys h g
    lesser-IsLeast xs ys none (some m) h g =
        (Any-append_right _ xs ys g.0, All-append _ xs ys (below_none m xs h) g.1)
    lesser-IsLeast xs ys (some l) none h g =
        (Any-append_left _ xs ys h.0, All-append _ xs ys h.1 (below_none l ys g))
    lesser-IsLeast xs ys (some l) (some m) h g = go (is_less n render_ref m l) refl
      where
        go :
            (b : Bool)
            → is_less n render_ref m l ≡ b
            → IsLeast (xs ++ ys) (if b then some m else some l)
        go true e = (
          Any-append_right _ xs ys g.0,
          All-append _ xs ys (below m l xs (is_less-at_most l m e) h.1) g.1,
        )
        go false e = (
          Any-append_left _ xs ys h.0,
          All-append _ xs ys h.1 (below l m ys (not_less-at_most l m e) g.1),
        )
