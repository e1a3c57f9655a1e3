-- ===== src/LocalizedPatch/Ordered.antt =====
-- src/aep/localized_patch.py: edits that pass the test of their order.
use agent_engineering_platfo.Prelude.{ℕ, ◌≤◌, max, ◌≡◌, List, [], ◌∷◌, arith, All}
use agent_engineering_platfo.Outcome.{Outcome, ensure_case, Returns, Returns-imp}
use agent_engineering_platfo.LocalizedPatch.{PatchError, Edit}
use agent_engineering_platfo.LocalizedPatch.Apply.{check_order}
use agent_engineering_platfo.LocalizedPatch.InPlace.{IsInPlace}

-- The edits stand one after the other from a cursor, in a text of the size.
abbrev pub IsOrdered : ℕ → ℕ → List Edit → Type 0
IsOrdered size cursor [] = cursor ≤ size
IsOrdered size cursor (e ∷ es) =
    (cursor ≤ e.start) × ((e.start ≤ e.stop) × IsOrdered size e.stop es)

pub check_order-IsOrdered :
    (size : ℕ) (region : ℕ × ℕ) (prior_start prior_end : ℕ) (es : List Edit)
    → All (IsInPlace size region) es
    → prior_end ≤ size
    → Returns (λ _. IsOrdered size prior_end es) (check_order prior_start prior_end es)
unfolding check_order
check_order-IsOrdered size region ps pe [] all g = g
check_order-IsOrdered size region ps pe (e ∷ es) all g =
    ensure_case Q _ _ _ (λ _. tt)
      (λ ordered.
        ensure_case Q _ _ _ (λ _. tt)
          (λ apart.
            let later : pe ≤ e.start = ground arith in
            let last : max pe e.stop ≡ e.stop = omega (arith, later, all.0.in_order) in
            rw last (
              Returns-imp _ _ (check_order e.start e.stop es)
                (λ _ rest. (later, (all.0.in_order, rest)))
                (check_order-IsOrdered size region e.start e.stop es all.1 all.0.in_text))))
  where
    Q : Outcome PatchError (Unit {0}) → Type 0
    Q = Returns (λ _. IsOrdered size pe (e ∷ es))
