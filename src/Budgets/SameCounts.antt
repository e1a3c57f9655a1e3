-- ===== src/Budgets/SameCounts.antt =====
-- src/aep/execution_budgets.py: what leaves the counts of a record as they were.
use agent_engineering_platfo.Prelude.{
  ℕ, ◌+◌, ◌-◌, ◌≡◌, refl, ◌∙◌, String, ltb, Bool, true, false, Option, none, some, arith,
  if◌then◌else◌,
}
use agent_engineering_platfo.Budgets.{Numbers, BudgetLimit, Limits, max_cost_usd}
use agent_engineering_platfo.Budgets.Costs.{Decimals}
use agent_engineering_platfo.Budgets.Records.{
  Level, workflow_level, task_level, agent_level, BlockedDecision, ConsumptionRecord, State,
  TaskBudget, limits_at, put, blocked, recorded,
}
use agent_engineering_platfo.Budgets.Checks.{block_record, apply_block_decision}
use agent_engineering_platfo.Budgets.Ledger.{Reservation, release_in}
use agent_engineering_platfo.Budgets.Settlement.{
  Usage, count_cost, block_cost, is_unreconciled, settle_counts, settle_in, apply_overrun,
}
use agent_engineering_platfo.Budgets.Counts.{
  Dimension, invocations, inputs, outputs, used, held, amount,
}
use agent_engineering_platfo.Budgets.Shared.{usage_of, retained}

module _ (n : Numbers) where
  -- The counts of a record are those of another.
  abbrev pub SameCounts : ConsumptionRecord n → ConsumptionRecord n → Type 0
  SameCounts r r' =
      (dim : Dimension) → (used n dim r' ≡ used n dim r) × (held n dim r' ≡ held n dim r)

  SameCounts-trans :
      (r s t : ConsumptionRecord n) → SameCounts r s → SameCounts s t → SameCounts r t
  SameCounts-trans r s t h k dim = ((k dim).0 ∙ (h dim).0, (k dim).1 ∙ (h dim).1)

  SameCounts-if :
      (b : Bool) (r s t : ConsumptionRecord n)
      → SameCounts r s
      → SameCounts r t
      → SameCounts r (if b then s else t)
  SameCounts-if true r s t h k = h
  SameCounts-if false r s t h k = k

  marked-SameCounts :
      (b : BlockedDecision n) (r : ConsumptionRecord n)
      → SameCounts r (record r { last_decision = some (blocked b); updated_at = b.decided_at })
  marked-SameCounts b r invocations = (refl, refl)
  marked-SameCounts b r inputs = (refl, refl)
  marked-SameCounts b r outputs = (refl, refl)

  stuck-SameCounts :
      (b : BlockedDecision n) (r : ConsumptionRecord n)
      → SameCounts r (record r {
        last_decision = some (blocked b);
        updated_at = b.decided_at;
        blocked_reason = some b.reason;
        blocked_decision = some b;
      })
  stuck-SameCounts b r invocations = (refl, refl)
  stuck-SameCounts b r inputs = (refl, refl)
  stuck-SameCounts b r outputs = (refl, refl)

  block_record-SameCounts :
      (b : BlockedDecision n) (r : ConsumptionRecord n) → SameCounts r (block_record n b r)
  block_record-SameCounts b r =
      SameCounts-if b.sticky r _ _ (stuck-SameCounts b r) (marked-SameCounts b r)

  pub apply_block_decision-SameCounts :
      (s : State n) (b : BlockedDecision n)
      → SameCounts s.workflow (apply_block_decision n s b).workflow
  unfolding apply_block_decision
  apply_block_decision-SameCounts s b = go b.internal_scope
    where
      go : (level : Level) → SameCounts s.workflow (put n level (block_record n b) s).workflow
      go workflow_level = block_record-SameCounts b s.workflow
      go task_level = λ dim. (refl, refl)
      go agent_level = λ dim. (refl, refl)

  module _ (d : Decimals n) where
    count_cost-SameCounts :
        (dispatched : Bool) (status : String) (cost : Option n.Num) (r : ConsumptionRecord n)
        → SameCounts r (count_cost n d dispatched status cost r)
    count_cost-SameCounts true status cost r invocations = (refl, refl)
    count_cost-SameCounts true status cost r inputs = (refl, refl)
    count_cost-SameCounts true status cost r outputs = (refl, refl)
    count_cost-SameCounts false status cost r dim = (refl, refl)

    block_cost-SameCounts :
        (unreconciled : Bool) (level : Level) (o : Option (BudgetLimit n)) (timestamp : String)
        (r : ConsumptionRecord n)
        → SameCounts r (block_cost n d unreconciled level o timestamp r)
    block_cost-SameCounts unreconciled level none timestamp r dim = (refl, refl)
    block_cost-SameCounts false level (some l) timestamp r dim = (refl, refl)
    block_cost-SameCounts true level (some l) timestamp r invocations = (refl, refl)
    block_cost-SameCounts true level (some l) timestamp r inputs = (refl, refl)
    block_cost-SameCounts true level (some l) timestamp r outputs = (refl, refl)

    overrun-SameCounts : (r : ConsumptionRecord n) → SameCounts r (record r { overrun = true })
    overrun-SameCounts r invocations = (refl, refl)
    overrun-SameCounts r inputs = (refl, refl)
    overrun-SameCounts r outputs = (refl, refl)

    recorded-SameCounts :
        (timestamp : String) (r : ConsumptionRecord n)
        → SameCounts r (record r { last_decision = some (recorded timestamp) })
    recorded-SameCounts timestamp r invocations = (refl, refl)
    recorded-SameCounts timestamp r inputs = (refl, refl)
    recorded-SameCounts timestamp r outputs = (refl, refl)

    module _ (elapsed_ms : String → String → ℕ) where
      apply_overrun-SameCounts :
          (limits : Limits n) (r : ConsumptionRecord n)
          → SameCounts r (apply_overrun n d elapsed_ms limits r)
      unfolding apply_overrun
      apply_overrun-SameCounts limits r =
          SameCounts-if _ r _ _ (overrun-SameCounts r) (λ dim. (refl, refl))

      pub used-settle_counts :
          (b : TaskBudget n) (v : Reservation n) (u : Usage n) (timestamp : String)
          (r : ConsumptionRecord n) (dim : Dimension)
          → (used n dim (settle_counts n d elapsed_ms b v u timestamp r)
              ≡ used n dim r + usage_of n dim u)
            × (held n dim (settle_counts n d elapsed_ms b v u timestamp r)
                ≡ held n dim r - amount n dim v + retained n d dim v u)
      unfolding settle_counts release_in
      used-settle_counts b v u timestamp r invocations = (refl, omega arith)
      used-settle_counts b v u timestamp r inputs = (refl, refl)
      used-settle_counts b v u timestamp r outputs = (refl, refl)

      pub settle_in-SameCounts :
          (b : TaskBudget n) (v : Reservation n) (u : Usage n) (status : String)
          (cost : Option n.Num) (timestamp : String) (level : Level) (r : ConsumptionRecord n)
          → SameCounts (settle_counts n d elapsed_ms b v u timestamp r) (
              apply_overrun n d elapsed_ms
                (limits_at n b.resolved level)
                (settle_in n d elapsed_ms b v u status cost timestamp level r))
      unfolding settle_in
      settle_in-SameCounts b v u status cost timestamp level r =
          SameCounts-trans settled _ _
            (SameCounts-trans settled counted _ (count_cost-SameCounts _ status cost settled) (
              SameCounts-trans counted blocked' _
                (block_cost-SameCounts (is_unreconciled n d status u) level
                  (limits_at n b.resolved level max_cost_usd) timestamp counted)
                (recorded-SameCounts timestamp blocked')))
            (apply_overrun-SameCounts (limits_at n b.resolved level) _)
        where
          settled : ConsumptionRecord n
          settled = settle_counts n d elapsed_ms b v u timestamp r

          counted : ConsumptionRecord n
          counted = count_cost n d (ltb 0 u.invocation_count) status cost settled

          blocked' : ConsumptionRecord n
          blocked' =
              block_cost n d (is_unreconciled n d status u) level
                (limits_at n b.resolved level max_cost_usd) timestamp counted
