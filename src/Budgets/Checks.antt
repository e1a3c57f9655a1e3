-- ===== src/Budgets/Checks.antt =====
-- src/aep/execution_budgets.py: the checks before a dispatch. `elapsed_ms` is the number of
-- milliseconds between two timestamps, a parameter.
use agent_engineering_platfo.Prelude.{
  ℕ, ◌+◌, String, Bool, false, not, Option, none, some, max, if◌then◌else◌,
}
use agent_engineering_platfo.Budgets.{
  max_model_invocations, max_input_tokens, max_output_tokens, max_elapsed_ms, max_cost_usd, Numbers,
  BudgetLimit, Limits, ResolvedExecutionBudget,
}
use agent_engineering_platfo.Budgets.Costs.{
  Decimals, Prices, cost_total, cost_exceeds, estimate_cost, normalized_cost,
}
use agent_engineering_platfo.Budgets.Records.{
  Level, workflow_level, task_level, agent_level, BlockReason, budget_exhausted,
  budget_cost_unavailable, BlockedDecision, ConsumptionRecord, State, put, blocked,
}

-- The first decision of two checks.
abbrev pub or_else {ℓ} : {A : Type ℓ} → Option A → Option A → Option A
or_else none b = b
or_else (some a) b = some a

module _ (n : Numbers) where
  abbrev pub decide_block :
      Level
      → BudgetLimit n
      → BlockReason
      → n.Num
      → n.Num
      → n.Num
      → Bool
      → String
      → BlockedDecision n
  decide_block level l reason consumed reserved required sticky timestamp = record {
    reason = reason;
    dimension = l.field;
    scope = l.scope;
    internal_scope = level;
    resource_ref = l.resource_ref;
    limit = l.value;
    consumed = consumed;
    reserved = reserved;
    required = required;
    sticky = sticky;
    decided_at = timestamp;
  }

  -- A block that lasts.
  abbrev pub sticky_block : Option (BlockedDecision n) → Option (BlockedDecision n)
  sticky_block none = none
  sticky_block (some b) = if b.sticky then some b else none

  -- `consumed + required > limit.value`, for a limit that is there
  abbrev pub passes : BudgetLimit n → ℕ → ℕ → Bool
  passes l consumed required = not (n.at_most (n.of_int (consumed + required)) l.value)

  unfoldable pub count_block :
      Level → Option (BudgetLimit n) → ℕ → ℕ → ℕ → String → Option (BlockedDecision n)
  count_block level none consumed reserved required timestamp = none
  count_block level (some l) consumed reserved required timestamp =
      if passes l consumed required
      then some (
          decide_block level l budget_exhausted (n.of_int consumed) (n.of_int reserved)
            (n.of_int required) false timestamp)
      else none

  module _ (d : Decimals n) where
    unfoldable pub cost_block :
        Level
        → Option (BudgetLimit n)
        → Option (Prices n)
        → ConsumptionRecord n
        → ℕ
        → String
        → Option (BlockedDecision n)
    cost_block level none pricing r estimated timestamp = none
    cost_block level (some l) none r estimated timestamp = some (
        decide_block level l budget_cost_unavailable (d.add r.cost_usd r.reserved_cost_usd)
          r.reserved_cost_usd (n.of_int 0) false timestamp)
    cost_block level (some l) (some p) r estimated timestamp =
        let minimum = estimate_cost n d p estimated 1 in
        let consumed = cost_total n d r.cost_usd r.reserved_cost_usd in
        if cost_exceeds n d (cost_total n d consumed minimum) l.value
        then some (
            decide_block level l budget_exhausted consumed r.reserved_cost_usd minimum false
              timestamp)
        else none

    module _ (elapsed_ms : String → String → ℕ) where
      -- `_check_scope`
      unfoldable pub check_scope :
          Level
          → Limits n
          → ConsumptionRecord n
          → ℕ
          → String
          → Option (Prices n)
          → Option (BlockedDecision n)
      check_scope level limits r estimated timestamp pricing =
          let elapsed = max r.elapsed_ms (elapsed_ms r.started_at timestamp) in
          or_else (sticky_block r.blocked_decision) (
            or_else
              (count_block level (limits max_model_invocations)
                (r.model_invocations + r.reserved_model_invocations) r.reserved_model_invocations 1
                timestamp)
              (or_else
                (count_block level (limits max_input_tokens)
                  (r.input_tokens + r.reserved_input_tokens) r.reserved_input_tokens estimated
                  timestamp)
                (or_else
                  (count_block level (limits max_output_tokens)
                    (r.output_tokens + r.reserved_output_tokens) r.reserved_output_tokens 1
                    timestamp)
                  (or_else (count_block level (limits max_elapsed_ms) elapsed 0 1 timestamp)
                    (cost_block level (limits max_cost_usd) pricing r estimated timestamp)))))

      -- `_evaluate`, the decision
      unfoldable pub evaluate :
          ResolvedExecutionBudget n
          → Option (Prices n)
          → State n
          → ℕ
          → String
          → Option (BlockedDecision n)
      evaluate b pricing s estimated timestamp =
          or_else (check_scope workflow_level b.workflow s.workflow estimated timestamp pricing) (
            or_else (check_scope task_level b.task s.task estimated timestamp pricing)
              (check_scope agent_level b.agent s.agent estimated timestamp pricing))

    -- A scope that the cost of a reservation does not fit, with the limit of its cost.
    unfoldable pub shortfall :
        Level
        → Option (BudgetLimit n)
        → ConsumptionRecord n
        → n.Num
        → String
        → Option (BlockedDecision n)
    shortfall level none r cost timestamp = none
    shortfall level (some l) r cost timestamp =
        let consumed = cost_total n d r.cost_usd r.reserved_cost_usd in
        if cost_exceeds n d cost (normalized_cost n d (d.subtract (d.exact l.value) consumed))
        then some (
            decide_block level l budget_exhausted consumed r.reserved_cost_usd cost false timestamp)
        else none

    -- The loop over the scopes in `preflight`.
    unfoldable pub first_shortfall :
        ResolvedExecutionBudget n → State n → n.Num → String → Option (BlockedDecision n)
    first_shortfall b s cost timestamp =
        or_else (shortfall workflow_level (b.workflow max_cost_usd) s.workflow cost timestamp) (
          or_else (shortfall task_level (b.task max_cost_usd) s.task cost timestamp)
            (shortfall agent_level (b.agent max_cost_usd) s.agent cost timestamp))

  -- `_apply_block_decision`
  abbrev pub block_record : BlockedDecision n → ConsumptionRecord n → ConsumptionRecord n
  block_record b r =
      let r' : ConsumptionRecord n = record r {
        last_decision = some (blocked b);
        updated_at = b.decided_at;
      } in
      if b.sticky
      then record r' { blocked_reason = some b.reason; blocked_decision = some b }
      else r'

  unfoldable pub apply_block_decision : State n → BlockedDecision n → State n
  apply_block_decision s b = put n b.internal_scope (block_record b) s
