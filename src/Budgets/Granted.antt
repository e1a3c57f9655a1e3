-- ===== src/Budgets/Granted.antt =====
-- src/aep/execution_budgets.py: a preflight that is granted keeps every count within its limits.
use mathlib.Core.Path.{subst}
use native.Mathlib.Nat.{le-max_left}
use agent_engineering_platfo.Prelude.{
  ap, ◌∙◌, ℕ, ◌+◌, ◌≡◌, refl, String, Option, none, some, arith, max, Bool-cases, Option-cases, inl,
  inr,
}
use agent_engineering_platfo.Dict.{lookup-insert_self}
use agent_engineering_platfo.Budgets.{Numbers}
use agent_engineering_platfo.Budgets.Costs.{Decimals, Prices}
use agent_engineering_platfo.Budgets.Records.{
  Level, workflow_level, task_level, agent_level, BlockedDecision, ConsumptionRecord, Consumption,
  State, TaskBudget, at, limits_at, each, load_state, changes_for_state,
}
use agent_engineering_platfo.Budgets.Checks.{evaluate, first_shortfall}
use agent_engineering_platfo.Budgets.Plan.{ReservationPlan, remaining_cost, reservation_plan}
use agent_engineering_platfo.Budgets.Ledger.{
  Reservation, BudgetReservation, granted, reserve_in, reservation_of, cost_fits, refuse_or,
  reserve_or_refuse, preflight,
}
use agent_engineering_platfo.Budgets.Fits.{Fits}
use agent_engineering_platfo.Budgets.Counts.{
  Dimension, invocations, inputs, outputs, field_of, IsArithmetic, used, held, amount, IsSound,
  limit_of,
}
use agent_engineering_platfo.Budgets.Evaluated.{IsWithin, plan-IsWithin}

module _ (n : Numbers) (d : Decimals n) where
  module _ (elapsed_ms : String → String → ℕ) where
    -- What a granted preflight comes to.
    pub record IsGranted (b : TaskBudget n) (pricing : Option (Prices n)) (estimated : ℕ)
        (configured configured_attempts : Option ℕ) (timestamp : String) (c : Consumption n)
        (v : Reservation n) (c' : Consumption n) : Type 0 where
      pub plan : ReservationPlan n
      pub planned :
          plan
          ≡ reservation_plan n d b.resolved pricing
              (load_state n b c)
              (max 1 estimated)
              configured
              configured_attempts
      pub clear :
          evaluate n d elapsed_ms b.resolved pricing (load_state n b c) (max 1 estimated) timestamp
          ≡ none
      pub reserved : v ≡ reservation_of n d plan
      pub written :
          c'
          ≡ changes_for_state n b c
              (each n (λ _ r. reserve_in n d plan (max 1 estimated) timestamp r) (load_state n b c))
              none

    granted_parts :
        (b : TaskBudget n) (c : Consumption n) (s : State n) (p : ReservationPlan n) (estimated : ℕ)
        (timestamp : String) (o : Option (BlockedDecision n)) (g : BudgetReservation n)
        (v : Reservation n) (c' : Consumption n)
        → refuse_or n d b c s (reserve_or_refuse n d b c s p estimated timestamp) o ≡ granted g v c'
        → (o ≡ none)
          × (v ≡ reservation_of n d p)
          × (c'
              ≡ changes_for_state n b c
                  (each n (λ _ r. reserve_in n d p estimated timestamp r) s)
                  none)
    unfolding reserve_or_refuse
    granted_parts b c s p estimated timestamp (some block) g v c' h = absurd (cc)
    granted_parts b c s p estimated timestamp none g v c' h =
        elim (Bool-cases (cost_fits n d p.reserved_cost (remaining_cost n d b.resolved s))) [
          | inl fits ↦ (refl, cc (rw fits at h), cc (rw fits at h))
          | inr short ↦
              elim (Option-cases (first_shortfall n d b.resolved s p.reserved_cost timestamp)) [
                | inl nowhere ↦ absurd (cc (rw (short, nowhere) at h))
                | inr (block, found) ↦ absurd (cc (rw (short, found) at h))
              ]
        ]

    pub preflight-IsGranted :
        (b : TaskBudget n) (pricing : Option (Prices n)) (estimated : ℕ)
        (configured configured_attempts : Option ℕ) (timestamp : String) (c : Consumption n)
        (g : BudgetReservation n) (v : Reservation n) (c' : Consumption n)
        → preflight n d elapsed_ms b pricing estimated configured configured_attempts timestamp c
          ≡ granted g v c'
        → IsGranted b pricing estimated configured configured_attempts timestamp c v c'
    unfolding preflight
    preflight-IsGranted b pricing estimated configured configured_attempts timestamp c g v c' h =
        let (clear, reserved, written) =
          granted_parts b c (load_state n b c) _ (max 1 estimated) timestamp _ g v c' h in
        record { plan = _; planned = refl; clear = clear; reserved = reserved; written = written }

  -- The state that was written is the state that is read.
  pub load-changes :
      (b : TaskBudget n) (c : Consumption n) (s : State n) (decision : Option (BlockedDecision n))
      → load_state n b (changes_for_state n b c s decision) ≡ s
  unfolding load_state changes_for_state
  load-changes b c s decision =
      rw
        (
          lookup-insert_self b.task_key s.task c.tasks,
          lookup-insert_self b.agent_key s.agent c.agents,
        )
        refl

  pub used-reserve :
      (p : ReservationPlan n) (estimated : ℕ) (timestamp : String) (r : ConsumptionRecord n)
      (dim : Dimension)
      → (used n dim (reserve_in n d p estimated timestamp r) ≡ used n dim r)
        × (held n dim (reserve_in n d p estimated timestamp r)
            ≡ held n dim r + amount n dim (reservation_of n d p))
  unfolding reserve_in
  used-reserve p estimated timestamp r invocations = (refl, refl)
  used-reserve p estimated timestamp r inputs = (refl, refl)
  used-reserve p estimated timestamp r outputs = (refl, refl)

  pub at-each :
      (f : Level → ConsumptionRecord n → ConsumptionRecord n) (s : State n) (level : Level)
      → at n (each n f s) level ≡ f level (at n s level)
  at-each f s workflow_level = refl
  at-each f s task_level = refl
  at-each f s agent_level = refl

  module _ (elapsed_ms : String → String → ℕ) where
    -- A record after the preflight holds what the plan reserves.
    pub at-granted :
        (b : TaskBudget n) (pricing : Option (Prices n)) (estimated : ℕ)
        (configured configured_attempts : Option ℕ) (timestamp : String) (c : Consumption n)
        (v : Reservation n) (c' : Consumption n)
        (k : IsGranted elapsed_ms b pricing estimated configured configured_attempts timestamp c v
          c')
        (level : Level)
        → at n (load_state n b c') level
          ≡ reserve_in n d k.plan (max 1 estimated) timestamp (at n (load_state n b c) level)
    at-granted b pricing estimated configured configured_attempts timestamp c v c' k level =
        ap (λ s. at n (load_state n b s) level) k.written
        ∙ ap (λ s. at n s level)
            (load-changes b c
              (each n (λ _ r. reserve_in n d k.plan (max 1 estimated) timestamp r)
                (load_state n b c))
              none)
        ∙ at-each (λ _ r. reserve_in n d k.plan (max 1 estimated) timestamp r) (load_state n b c)
            level

  module _ (elapsed_ms : String → String → ℕ) (laws : IsArithmetic n d) where
    -- Where the limits on counts are positive, a granted preflight leaves every scope of the ledger
    -- (the workflow, the task and the agent) such that what is used and reserved of each count (model
    -- invocations, input tokens and output tokens) is within the scope's limit.
    pub preflight-IsWithin :
        (b : TaskBudget n) (pricing : Option (Prices n)) (estimated : ℕ)
        (configured configured_attempts : Option ℕ) (timestamp : String) (c : Consumption n)
        (g : BudgetReservation n) (v : Reservation n) (c' : Consumption n)
        → IsSound n b.resolved
        → preflight n d elapsed_ms b pricing estimated configured configured_attempts timestamp c
          ≡ granted g v c'
        → (level : Level) (dim : Dimension)
        → IsWithin n d b.resolved (load_state n b c') level dim 0
    preflight-IsWithin b pricing estimated configured configured_attempts timestamp c g v c' sound h
          level dim =
        let k =
          preflight-IsGranted elapsed_ms b pricing estimated configured configured_attempts
            timestamp c g v c' h in
        let within =
          plan-IsWithin n d elapsed_ms laws b.resolved pricing (load_state n b c) (max 1 estimated)
            configured configured_attempts timestamp (le-max_left 1 estimated) sound k.clear level
            dim in
        let counts =
          used-reserve k.plan (max 1 estimated) timestamp (at n (load_state n b c) level) dim in
        rw
          (
            at-granted elapsed_ms b pricing estimated configured configured_attempts timestamp c v
                c' k level,
            counts.0,
            counts.1,
            k.planned,
          )
          (subst (Fits (limit_of n d (limits_at n b.resolved level (field_of dim)))) (omega arith)
            within)
