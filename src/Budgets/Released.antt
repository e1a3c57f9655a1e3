-- ===== src/Budgets/Released.antt =====
-- src/aep/execution_budgets.py: a reservation that is released without use leaves no trace in the counts.
use agent_engineering_platfo.Prelude.{
  ap, ℕ, ◌+◌, ◌-◌, ◌≡◌, refl, String, Option, none, some, arith, max,
}
use agent_engineering_platfo.Budgets.{Numbers}
use agent_engineering_platfo.Budgets.Costs.{Decimals, Prices}
use agent_engineering_platfo.Budgets.Records.{
  Level, ConsumptionRecord, Consumption, TaskBudget, at, each, load_state,
}
use agent_engineering_platfo.Budgets.Ledger.{
  Reservation, BudgetReservation, granted, release_in, release, preflight,
}
use agent_engineering_platfo.Budgets.Counts.{
  Dimension, invocations, inputs, outputs, used, held, amount,
}
use agent_engineering_platfo.Budgets.Granted.{
  preflight-IsGranted, at-granted, load-changes, used-reserve, at-each,
}

module _ (n : Numbers) (d : Decimals n) where
  pub used-release :
      (v : Reservation n) (r : ConsumptionRecord n) (dim : Dimension)
      → (used n dim (release_in n d v r) ≡ used n dim r)
        × (held n dim (release_in n d v r) ≡ held n dim r - amount n dim v)
  unfolding release_in
  used-release v r invocations = (refl, refl)
  used-release v r inputs = (refl, refl)
  used-release v r outputs = (refl, refl)

  pub at-release :
      (b : TaskBudget n) (v : Reservation n) (c : Consumption n) (level : Level)
      → at n (load_state n b (release n d b (some v) c)) level
        ≡ release_in n d v (at n (load_state n b c) level)
  unfolding release
  at-release b v c level =
      rw (load-changes n d b c (each n (λ _ r. release_in n d v r) (load_state n b c)) none)
        (at-each n d (λ _ r. release_in n d v r) (load_state n b c) level)

  module _ (elapsed_ms : String → String → ℕ) where
    pub at-preflight :
        (b : TaskBudget n) (pricing : Option (Prices n)) (estimated : ℕ)
        (configured configured_attempts : Option ℕ) (timestamp : String) (c : Consumption n)
        (g : BudgetReservation n) (v : Reservation n) (c' : Consumption n)
        → preflight n d elapsed_ms b pricing estimated configured configured_attempts timestamp c
          ≡ granted g v c'
        → (level : Level) (dim : Dimension)
        → (used n dim (at n (load_state n b c') level) ≡ used n dim (at n (load_state n b c) level))
          × (held n dim (at n (load_state n b c') level)
              ≡ held n dim (at n (load_state n b c) level) + amount n dim v)
    at-preflight b pricing estimated configured configured_attempts timestamp c g v c' h level dim =
        let k =
          preflight-IsGranted n d elapsed_ms b pricing estimated configured configured_attempts
            timestamp c g v c' h in
        let now =
          at-granted n d elapsed_ms b pricing estimated configured configured_attempts timestamp c v
            c' k level in
        let (same, more) =
          used-reserve n d k.plan (max 1 estimated) timestamp (at n (load_state n b c) level) dim in
        (
          omega (arith, ap (used n dim) now, same),
          omega (arith, ap (held n dim) now, more, ap (amount n dim) k.reserved),
        )

    -- A preflight that is granted and then released leaves the counts of every scope as they were:
    -- what is used and what is reserved of model invocations, input tokens and output tokens.
    pub preflight-release :
        (b : TaskBudget n) (pricing : Option (Prices n)) (estimated : ℕ)
        (configured configured_attempts : Option ℕ) (timestamp : String) (c : Consumption n)
        (g : BudgetReservation n) (v : Reservation n) (c' : Consumption n)
        → preflight n d elapsed_ms b pricing estimated configured configured_attempts timestamp c
          ≡ granted g v c'
        → (level : Level) (dim : Dimension)
        → (used n dim (at n (load_state n b (release n d b (some v) c')) level)
            ≡ used n dim (at n (load_state n b c) level))
          × (held n dim (at n (load_state n b (release n d b (some v) c')) level)
              ≡ held n dim (at n (load_state n b c) level))
    preflight-release b pricing estimated configured configured_attempts timestamp c g v c' h level
          dim =
        let (same, more) =
          at-preflight b pricing estimated configured configured_attempts timestamp c g v c' h level
            dim in
        let (same', less) = used-release v (at n (load_state n b c') level) dim in
        rw (at-release b v c' level, same', less, same, more) (refl, omega arith)
