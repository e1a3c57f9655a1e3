-- ===== src/Budgets/Interleaved.antt =====
-- src/aep/execution_budgets.py: how far an interleaving of calls takes a ledger.
use mathlib.Core.Path.{subst}
use agent_engineering_platfo.Prelude.{
  ℕ, ◌≡◌, refl, sym, ap, String, Option, none, some, List, [], ◌∷◌, All,
}
use agent_engineering_platfo.Budgets.{Numbers, BudgetLimit}
use agent_engineering_platfo.Budgets.Costs.{Decimals}
use agent_engineering_platfo.Budgets.Records.{Consumption}
use agent_engineering_platfo.Budgets.Pool.{
  IsSolvent, IsBalanced, IsBalanced-IsSolvent, PoolStep-IsBalanced, idle-IsBalanced,
}
use agent_engineering_platfo.Budgets.Counts.{Dimension, IsArithmetic, limit_of}
use agent_engineering_platfo.Budgets.Shared.{
  Client, System, Step, grants, refuses, records, releases, Reach, here, next, used_of, held_of,
  claim_of, claims_of, pool_of, Enforces, excess, total_excess,
}
use agent_engineering_platfo.Budgets.Refined.{All-put, pool_eq, Step-PoolStep}

module _ (n : Numbers) (d : Decimals n) (elapsed_ms : String → String → ℕ)
    (laws : IsArithmetic n d) where
  Step-Enforces :
      (dim : Dimension) (limit : Option (BudgetLimit n)) {s t : System n}
      → Step n d elapsed_ms s t
      → All (Enforces n dim limit) s.clients
      → All (Enforces n dim limit) t.clients
  Step-Enforces dim limit (grants xs ys k c c' e o a w g v h) enforced =
      All-put (Enforces n dim limit) xs ys k (record k { reservation = some v })
        (λ f. record { shared = f.shared; sound = f.sound }) enforced
  Step-Enforces dim limit (refuses clients k c c' e o a w decision h) enforced = enforced
  Step-Enforces dim limit (records xs ys k c c' u w charge h) enforced =
      All-put (Enforces n dim limit) xs ys k (record k { reservation = none })
        (λ f. record { shared = f.shared; sound = f.sound }) enforced
  Step-Enforces dim limit (releases xs ys k c) enforced =
      All-put (Enforces n dim limit) xs ys k (record k { reservation = none })
        (λ f. record { shared = f.shared; sound = f.sound }) enforced

  Reach-Enforces :
      (dim : Dimension) (limit : Option (BudgetLimit n)) {s t : System n}
      → Reach n d elapsed_ms s t
      → All (Enforces n dim limit) s.clients
      → All (Enforces n dim limit) t.clients
  Reach-Enforces dim limit here enforced = enforced
  Reach-Enforces dim limit (next r step) enforced =
      Step-Enforces dim limit step (Reach-Enforces dim limit r enforced)

  Reach-IsBalanced :
      (dim : Dimension) (limit : Option (BudgetLimit n)) {s t : System n}
      → (r : Reach n d elapsed_ms s t) → All (Enforces n dim limit) s.clients
      → IsBalanced (limit_of n d limit) 0 (pool_of n dim s)
      → IsBalanced (limit_of n d limit) (total_excess n d elapsed_ms dim r) (pool_of n dim t)
  unfolding total_excess
  Reach-IsBalanced dim limit here enforced h = h
  Reach-IsBalanced dim limit (next r step) enforced h =
      PoolStep-IsBalanced (limit_of n d limit) (total_excess n d elapsed_ms dim r)
        (excess n d elapsed_ms dim step)
        (Step-PoolStep n d elapsed_ms laws dim limit (Reach-Enforces dim limit r enforced) step)
        (Reach-IsBalanced dim limit r enforced h)

  claims_of-idle :
      (dim : Dimension) (ks : List (Client n))
      → All (λ k. k.reservation ≡ none) ks
      → All (λ x. x ≡ 0) (claims_of n dim ks)
  claims_of-idle dim [] h = tt
  claims_of-idle dim (k ∷ ks) h = (ap (claim_of n dim) h.0, claims_of-idle dim ks h.1)

  -- From a ledger without a record of the workflow and clients without reservations, whatever
  -- preflights, records and releases the clients make in whatever order, with whatever usage: what is
  -- used and reserved of each count of the workflow passes its limit by no more than what the records
  -- charged in excess of their reservations, so by nothing where there was no excess; and the
  -- reservations of the clients are held, but for at most that excess. A record without a reservation
  -- counts as an excess of its usage, and of the one invocation that it takes off what is reserved.
  -- The clients enforce one limit of the workflow on the count, and sound limits.
  pub ledger_within :
      (dim : Dimension) (limit : Option (BudgetLimit n)) (c : Consumption n)
      (clients : List (Client n)) {t : System n}
      → c.workflow ≡ none
      → All (λ k. k.reservation ≡ none) clients
      → All (Enforces n dim limit) clients
      → (r : Reach n d elapsed_ms (record { consumption = c; clients = clients }) t)
      → IsSolvent (limit_of n d limit) (total_excess n d elapsed_ms dim r) (pool_of n dim t)
  ledger_within dim limit c clients fresh idle enforced r =
      IsBalanced-IsSolvent (limit_of n d limit) (total_excess n d elapsed_ms dim r) _ (
        Reach-IsBalanced dim limit r enforced (
          subst (IsBalanced (limit_of n d limit) 0)
            (pool_eq _ _ _ _ _ _ (sym (ap (used_of n dim) fresh)) (sym (ap (held_of n dim) fresh))
              refl)
            (idle-IsBalanced (limit_of n d limit) (claims_of n dim clients)
              (claims_of-idle dim clients idle))))
