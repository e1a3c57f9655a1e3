-- ===== src/Budgets/Ledger.antt =====
-- src/aep/execution_budgets.py: the methods of `TaskBudget` as changes of the ledger. The store's
-- transaction around them, `mutate_execution_budget`, is that of Store/Transitions; the changes of the
-- TaskExecution and the summaries of what remains are left out.
use agent_engineering_platfo.Prelude.{
  ℕ, ◌-◌, ◌+◌, String, Bool, true, not, Option, none, some, String_eq, max, if◌then◌else◌,
}
use agent_engineering_platfo.Budgets.{Numbers}
use agent_engineering_platfo.Budgets.Costs.{Decimals, Prices, cost_exceeds}
use agent_engineering_platfo.Budgets.Records.{
  BlockedDecision, ConsumptionRecord, Consumption, State, TaskBudget, each, load_state,
  changes_for_state, allowed,
}
use agent_engineering_platfo.Budgets.Checks.{evaluate, first_shortfall, apply_block_decision}
use agent_engineering_platfo.Budgets.Plan.{ReservationPlan, remaining_cost, reservation_plan}

module _ (n : Numbers) where
  -- The value of `_reservation`.
  pub record Reservation : Type 0 where
    pub model_invocations : ℕ
    pub input_tokens : ℕ
    pub output_tokens : ℕ
    pub cost_usd : n.Num

  -- `BudgetReservation`
  pub record BudgetReservation : Type 0 where
    pub effective_output_token_limit : Option ℕ
    pub max_provider_attempts : ℕ
    pub estimated_input_tokens : ℕ
    pub reserved_output_tokens : ℕ
    pub reserved_cost_usd : n.Num

  -- The end of a preflight. `failed` is the failure of its assertion, which nothing is written before.
  pub data Preflight : Type 0 where
    granted : BudgetReservation → Reservation → Consumption n → Preflight
    refused : BlockedDecision n → Consumption n → Preflight
    failed : Preflight

  module _ (d : Decimals n) where
    -- What a reservation adds to a record.
    unfoldable pub reserve_in :
        ReservationPlan n → ℕ → String → ConsumptionRecord n → ConsumptionRecord n
    reserve_in p estimated timestamp r = record r {
      reserved_model_invocations = r.reserved_model_invocations + p.attempts;
      reserved_input_tokens = r.reserved_input_tokens + p.reserved_input;
      reserved_output_tokens = r.reserved_output_tokens + p.reserved_output;
      reserved_cost_usd = d.add r.reserved_cost_usd p.reserved_cost;
      updated_at = timestamp;
      last_decision = some (allowed p.per_attempt_output estimated timestamp);
    }

    abbrev pub reservation_of : ReservationPlan n → Reservation
    reservation_of p = record {
      model_invocations = p.attempts;
      input_tokens = p.reserved_input;
      output_tokens = p.reserved_output;
      cost_usd = p.reserved_cost;
    }

    abbrev pub refuse : TaskBudget n → Consumption n → State n → BlockedDecision n → Preflight
    refuse b c s decision =
        refused decision
          (changes_for_state n b c (apply_block_decision n s decision) (some decision))

    abbrev pub grant :
        TaskBudget n → Consumption n → State n → ReservationPlan n → ℕ → String → Preflight
    grant b c s p estimated timestamp =
        granted
          (record {
            effective_output_token_limit = p.per_attempt_output;
            max_provider_attempts = p.attempts;
            estimated_input_tokens = estimated;
            reserved_output_tokens = p.reserved_output;
            reserved_cost_usd = p.reserved_cost;
          })
          (reservation_of p)
          (changes_for_state n b c (each n (λ _ r. reserve_in p estimated timestamp r) s) none)

    abbrev pub refuse_shortfall :
        TaskBudget n → Consumption n → State n → Option (BlockedDecision n) → Preflight
    refuse_shortfall b c s none = failed
    refuse_shortfall b c s (some decision) = refuse b c s decision

    abbrev pub cost_fits : n.Num → Option n.Num → Bool
    cost_fits cost none = true
    cost_fits cost (some remaining) = not (cost_exceeds n d cost remaining)

    -- The part of a preflight after the evaluation.
    unfoldable pub reserve_or_refuse :
        TaskBudget n → Consumption n → State n → ReservationPlan n → ℕ → String → Preflight
    reserve_or_refuse b c s p estimated timestamp =
        if cost_fits p.reserved_cost (remaining_cost n d b.resolved s)
        then grant b c s p estimated timestamp
        else refuse_shortfall b c s (first_shortfall n d b.resolved s p.reserved_cost timestamp)

    abbrev pub refuse_or :
        TaskBudget n → Consumption n → State n → Preflight → Option (BlockedDecision n) → Preflight
    refuse_or b c s next none = next
    refuse_or b c s next (some decision) = refuse b c s decision

    -- `max(0.0, x)`
    abbrev pub max_zero : n.Num → n.Num
    max_zero x = if n.at_most x (n.of_int 0) then n.of_int 0 else x

    -- A reservation taken back from a record.
    unfoldable pub release_in : Reservation → ConsumptionRecord n → ConsumptionRecord n
    release_in v r = record r {
      reserved_model_invocations = r.reserved_model_invocations - v.model_invocations;
      reserved_input_tokens = r.reserved_input_tokens - v.input_tokens;
      reserved_output_tokens = r.reserved_output_tokens - v.output_tokens;
      reserved_cost_usd = max_zero (d.subtract r.reserved_cost_usd v.cost_usd);
    }

    -- `release`
    unfoldable pub release : TaskBudget n → Option Reservation → Consumption n → Consumption n
    release b none c = c
    release b (some v) c =
        changes_for_state n b c (each n (λ _ r. release_in v r) (load_state n b c)) none

    module _ (elapsed_ms : String → String → ℕ) where
      -- `preflight`
      unfoldable pub preflight :
          TaskBudget n
          → Option (Prices n)
          → ℕ
          → Option ℕ
          → Option ℕ
          → String
          → Consumption n
          → Preflight
      preflight b pricing estimated configured configured_attempts timestamp c =
          let estimated' = max 1 estimated in
          let s = load_state n b c in
          refuse_or b c s
            (reserve_or_refuse b c s
              (reservation_plan n d b.resolved pricing s estimated' configured configured_attempts)
              estimated' timestamp)
            (evaluate n d elapsed_ms b.resolved pricing s estimated' timestamp)
