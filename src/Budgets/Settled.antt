-- ===== src/Budgets/Settled.antt =====
-- src/aep/execution_budgets.py: what `record` and a refused preflight do to the counts.
use agent_engineering_platfo.Prelude.{
  ℕ, ◌+◌, ◌-◌, ◌≡◌, refl, ap, ◌∙◌, String, Option, none, some, max, Bool-cases, Option-cases, inl,
  inr,
}
use agent_engineering_platfo.Outcome.{Outcome, returned, bind_case}
use agent_engineering_platfo.Budgets.Declarations.{BudgetError}
use agent_engineering_platfo.Budgets.{Numbers}
use agent_engineering_platfo.Budgets.Costs.{Decimals, Prices}
use agent_engineering_platfo.Budgets.Records.{
  workflow_level, BlockedDecision, ConsumptionRecord, Consumption, State, TaskBudget, limits_at,
  load_state, changes_for_state,
}
use agent_engineering_platfo.Budgets.Checks.{apply_block_decision, first_shortfall}
use agent_engineering_platfo.Budgets.Plan.{ReservationPlan, remaining_cost}
use agent_engineering_platfo.Budgets.Ledger.{
  Reservation, refused, cost_fits, refuse_or, reserve_or_refuse, preflight,
}
use agent_engineering_platfo.Budgets.Settlement.{
  Usage, Charge, settle_in, apply_overrun, settled, evidence, reservation_or, record_usage,
}
use agent_engineering_platfo.Budgets.Counts.{Dimension, used, held, amount}
use agent_engineering_platfo.Budgets.Granted.{load-changes}
use agent_engineering_platfo.Budgets.Shared.{usage_of, retained}
use agent_engineering_platfo.Budgets.SameCounts.{
  SameCounts, apply_block_decision-SameCounts, settle_in-SameCounts, used-settle_counts,
}

module _ (n : Numbers) (d : Decimals n) (elapsed_ms : String → String → ℕ) where
  -- The counts of the workflow after a charge.
  pub at-record_usage :
      (b : TaskBudget n) (pricing : Option (Prices n)) (v : Reservation n) (u : Usage n)
      (timestamp : String) (c : Consumption n) (charge : Charge n) (c' : Consumption n)
      → record_usage n d elapsed_ms b pricing (some v) u timestamp c ≡ returned (charge, c')
      → (dim : Dimension)
      → (used n dim (load_state n b c').workflow
          ≡ used n dim (load_state n b c).workflow + usage_of n dim u)
        × (held n dim (load_state n b c').workflow
            ≡ held n dim (load_state n b c).workflow - amount n dim v + retained n d dim v u)
  unfolding record_usage settled
  at-record_usage b pricing v u timestamp c charge c' =
      bind_case Q (evidence n d elapsed_ms b pricing u) _ (λ e _ h. absurd (cc))
        (λ x _ h dim.
          let s = settled n d elapsed_ms b v u x.0 x.1 timestamp c in
          let read : load_state n b c' ≡ s =
            ap (load_state n b) (cc h) ∙ load-changes n d b c s none in
          let (same, same') =
            settle_in-SameCounts n d elapsed_ms b v u x.0 x.1 timestamp workflow_level
              (load_state n b c).workflow dim in
          let (more, less) =
            used-settle_counts n d elapsed_ms b v u timestamp (load_state n b c).workflow dim in
          (
            ap (λ t. used n dim t.workflow) read ∙ at_workflow (used n dim) x.0 x.1 ∙ same ∙ more,
            ap (λ t. held n dim t.workflow) read ∙ at_workflow (held n dim) x.0 x.1 ∙ same' ∙ less,
          ))
    where
      Q : Outcome BudgetError (Charge n × Consumption n) → Type 0
      Q x =
          x ≡ returned (charge, c')
          → (dim : Dimension)
          → (used n dim (load_state n b c').workflow
              ≡ used n dim (load_state n b c).workflow + usage_of n dim u)
            × (held n dim (load_state n b c').workflow
                ≡ held n dim (load_state n b c).workflow - amount n dim v + retained n d dim v u)

      at_workflow :
          (f : ConsumptionRecord n → ℕ) (status : String) (cost : Option n.Num)
          → f (settled n d elapsed_ms b v u status cost timestamp c).workflow
            ≡ f (
                apply_overrun n d elapsed_ms (limits_at n b.resolved workflow_level) (
                  settle_in n d elapsed_ms b v u status cost timestamp workflow_level
                    (load_state n b c).workflow))
      at_workflow f status cost = refl

  -- Without a reservation a charge settles the default one.
  pub record_usage_or :
      (b : TaskBudget n) (pricing : Option (Prices n)) (o : Option (Reservation n)) (u : Usage n)
      (timestamp : String) (c : Consumption n)
      → record_usage n d elapsed_ms b pricing (some (reservation_or n d o)) u timestamp c
        ≡ record_usage n d elapsed_ms b pricing o u timestamp c
  unfolding record_usage
  record_usage_or b pricing o u timestamp c = refl

  refused_parts :
      (b : TaskBudget n) (c : Consumption n) (s : State n) (p : ReservationPlan n) (estimated : ℕ)
      (timestamp : String) (o : Option (BlockedDecision n)) (decision : BlockedDecision n)
      (c' : Consumption n)
      → refuse_or n d b c s (reserve_or_refuse n d b c s p estimated timestamp) o
        ≡ refused decision c'
      → c' ≡ changes_for_state n b c (apply_block_decision n s decision) (some decision)
  unfolding reserve_or_refuse
  refused_parts b c s p estimated timestamp (some block) decision c' h = cc
  refused_parts b c s p estimated timestamp none decision c' h =
      elim (Bool-cases (cost_fits n d p.reserved_cost (remaining_cost n d b.resolved s))) [
        | inl fits ↦ absurd (cc (rw fits at h))
        | inr short ↦
            elim (Option-cases (first_shortfall n d b.resolved s p.reserved_cost timestamp)) [
              | inl nowhere ↦ absurd (cc (rw (short, nowhere) at h))
              | inr (block, found) ↦ cc (rw (short, found) at h)
            ]
      ]

  pub preflight-refused :
      (b : TaskBudget n) (pricing : Option (Prices n)) (estimated : ℕ)
      (configured configured_attempts : Option ℕ) (timestamp : String) (c : Consumption n)
      (decision : BlockedDecision n) (c' : Consumption n)
      → preflight n d elapsed_ms b pricing estimated configured configured_attempts timestamp c
        ≡ refused decision c'
      → c'
        ≡ changes_for_state n b c
            (apply_block_decision n (load_state n b c) decision)
            (some decision)
  unfolding preflight
  preflight-refused b pricing estimated configured configured_attempts timestamp c decision c' h =
      refused_parts b c (load_state n b c) _ (max 1 estimated) timestamp _ decision c' h

  -- A refused preflight leaves the counts of the workflow as they were.
  pub at-refused :
      (b : TaskBudget n) (pricing : Option (Prices n)) (estimated : ℕ)
      (configured configured_attempts : Option ℕ) (timestamp : String) (c : Consumption n)
      (decision : BlockedDecision n) (c' : Consumption n)
      → preflight n d elapsed_ms b pricing estimated configured configured_attempts timestamp c
        ≡ refused decision c'
      → SameCounts n (load_state n b c).workflow (load_state n b c').workflow
  at-refused b pricing estimated configured configured_attempts timestamp c decision c' h dim =
      let read : load_state n b c' ≡ apply_block_decision n (load_state n b c) decision =
        ap (load_state n b) (
          preflight-refused b pricing estimated configured configured_attempts timestamp c decision
            c' h)
        ∙ load-changes n d b c _ (some decision) in
      let (same, same') = apply_block_decision-SameCounts n (load_state n b c) decision dim in
      (ap (λ t. used n dim t.workflow) read ∙ same, ap (λ t. held n dim t.workflow) read ∙ same')
