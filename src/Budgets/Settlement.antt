-- ===== src/Budgets/Settlement.antt =====
-- src/aep/execution_budgets.py: `record`, which charges an invocation to the ledger.
use agent_engineering_platfo.Prelude.{
  ℕ, ◌*◌, ◌+◌, ◌/◌, String, Bool, true, false, not, ◌&&◌, ◌||◌, Option, none, some, [], ◌∷◌, str_eq,
  String_eq, ltb, max, min, if◌then◌else◌,
}
use agent_engineering_platfo.Outcome.{Outcome, returned, ◌>>=◌}
use agent_engineering_platfo.Dict.{Dict, lookup, insert}
use agent_engineering_platfo.Budgets.{
  max_model_invocations, max_input_tokens, max_output_tokens, max_cost_usd, Numbers, BudgetLimit,
  Limits,
}
use agent_engineering_platfo.Budgets.Declarations.{BudgetError}
use agent_engineering_platfo.Budgets.Costs.{
  Decimals, Prices, cost_total, cost_exceeds, cost_evidence, effective_output_limit,
}
use agent_engineering_platfo.Budgets.Records.{
  Level, budget_cost_unavailable, ConsumptionRecord, Consumption, State, TaskBudget, limits_at,
  each, load_state, changes_for_state, recorded,
}
use agent_engineering_platfo.Budgets.Checks.{decide_block}
use agent_engineering_platfo.Budgets.Plan.{remaining_output}
use agent_engineering_platfo.Budgets.Ledger.{Reservation, release_in}

module _ (n : Numbers) where
  -- The arguments of `record`, the actual usage. Its counts are natural numbers: a negative one raises.
  pub record Usage : Type 0 where
    pub input_tokens : ℕ
    pub output_tokens : ℕ
    pub cost : Option n.Num
    pub cost_status : Option String
    pub invocation_count : ℕ
    pub unreconciled_dispatched_attempts : ℕ

  -- The charge that `record` returns, without the usage it was given.
  pub record Charge : Type 0 where
    pub cost_usd : Option n.Num
    pub cost_status : String
    pub effective_output_token_limit : Option ℕ

  module _ (d : Decimals n) where
    abbrev pub granted_attempts : Reservation n → ℕ
    granted_attempts v = max 1 v.model_invocations

    abbrev pub retained_attempts : Reservation n → Usage → ℕ
    retained_attempts v u = min u.unreconciled_dispatched_attempts (granted_attempts v)

    -- What the unreconciled attempts keep of a reservation.
    abbrev pub retained_input : Reservation n → Usage → ℕ
    retained_input v u = v.input_tokens / granted_attempts v * retained_attempts v u

    abbrev pub retained_output : Reservation n → Usage → ℕ
    retained_output v u = v.output_tokens / granted_attempts v * retained_attempts v u

    abbrev pub with_retained_cost : Reservation n → Usage → n.Num → n.Num
    with_retained_cost v u x =
        if ltb 0 (retained_attempts v u)
        then d.add x (
            d.round (
              d.multiply (d.divide (d.exact v.cost_usd) (granted_attempts v))
                (retained_attempts v u)))
        else x

    abbrev pub charged : Option n.Num → n.Num → n.Num
    charged none x = x
    charged (some cost) x = cost_total n d x cost

    abbrev pub counted : Option ℕ → ℕ
    counted none = 1
    counted (some k) = k + 1

    abbrev pub status_of : Dict String ℕ → String
    status_of ((s, k) ∷ []) = s
    status_of _ = "MIXED"

    -- The counts and the cost of a dispatched invocation.
    abbrev pub count_cost : Bool → String → Option n.Num → ConsumptionRecord n → ConsumptionRecord n
    count_cost dispatched status cost r =
        let counts =
          insert status (counted (lookup status r.cost_status_counts)) r.cost_status_counts in
        if dispatched
        then record r {
          cost_usd = charged cost r.cost_usd;
          cost_status_counts = counts;
          cost_status = status_of counts;
        }
        else r

    -- The lasting block of a scope with a limit on money.
    abbrev pub block_cost :
        Bool → Level → Option (BudgetLimit n) → String → ConsumptionRecord n → ConsumptionRecord n
    block_cost unreconciled level none timestamp r = r
    block_cost unreconciled level (some l) timestamp r =
        if unreconciled
        then record r {
          blocked_reason = some budget_cost_unavailable;
          blocked_decision = some (
              decide_block n level l budget_cost_unavailable
                (cost_total n d r.cost_usd r.reserved_cost_usd) r.reserved_cost_usd (n.of_int 0)
                true timestamp);
        }
        else r

    abbrev pub is_unreconciled : String → Usage → Bool
    is_unreconciled status u =
        ltb 0 u.invocation_count
        && (str_eq status "UNAVAILABLE" || ltb 0 u.unreconciled_dispatched_attempts)

    -- `self._reservation or {…}`
    abbrev pub reservation_or : Option (Reservation n) → Reservation n
    reservation_or (some v) = v
    reservation_or none = record {
      model_invocations = 1;
      input_tokens = 0;
      output_tokens = 0;
      cost_usd = n.of_int 0;
    }

    module _ (elapsed_ms : String → String → ℕ) where
      -- The counters of a record after an invocation.
      unfoldable pub settle_counts :
          TaskBudget n → Reservation n → Usage → String → ConsumptionRecord n → ConsumptionRecord n
      settle_counts b v u timestamp r =
          let r' = release_in n d v r in
          record r' {
            reserved_input_tokens = r'.reserved_input_tokens + retained_input v u;
            reserved_output_tokens = r'.reserved_output_tokens + retained_output v u;
            reserved_cost_usd = with_retained_cost v u r'.reserved_cost_usd;
            model_invocations = r.model_invocations + u.invocation_count;
            input_tokens = r.input_tokens + u.input_tokens;
            output_tokens = r.output_tokens + u.output_tokens;
            elapsed_ms = max r.elapsed_ms (elapsed_ms r.started_at timestamp);
            updated_at = timestamp;
            last_provider = b.provider;
            last_model = b.model;
          }

      -- One turn of the loop of `record`.
      unfoldable pub settle_in :
          TaskBudget n
          → Reservation n
          → Usage
          → String
          → Option n.Num
          → String
          → Level
          → ConsumptionRecord n
          → ConsumptionRecord n
      settle_in b v u status cost timestamp level r =
          record (block_cost (is_unreconciled status u) level
            (limits_at n b.resolved level max_cost_usd) timestamp
            (count_cost (ltb 0 u.invocation_count) status cost (settle_counts b v u timestamp r))) {
              last_decision = some (recorded timestamp);
            }

      -- `combined > limit.value` for a count
      abbrev pub count_overruns : Option (BudgetLimit n) → ℕ → ℕ → Bool
      count_overruns none used held = false
      count_overruns (some l) used held =
          not (n.at_most (cost_total n d (n.of_int used) (n.of_int held)) l.value)

      abbrev pub cost_overruns : Option (BudgetLimit n) → ConsumptionRecord n → Bool
      cost_overruns none r = false
      cost_overruns (some l) r =
          cost_exceeds n d (cost_total n d r.cost_usd r.reserved_cost_usd) l.value

      -- `_apply_overruns`, at one scope
      unfoldable pub apply_overrun : Limits n → ConsumptionRecord n → ConsumptionRecord n
      apply_overrun limits r =
          if count_overruns (limits max_model_invocations) r.model_invocations
              r.reserved_model_invocations
            || count_overruns (limits max_input_tokens) r.input_tokens r.reserved_input_tokens
            || count_overruns (limits max_output_tokens) r.output_tokens r.reserved_output_tokens
            || cost_overruns (limits max_cost_usd) r
          then record r { overrun = true }
          else r

      abbrev pub evidence :
          TaskBudget n → Option (Prices n) → Usage → Outcome BudgetError (String × Option n.Num)
      evidence b pricing u =
          if ltb 0 u.invocation_count
          then cost_evidence n d u.cost u.cost_status pricing u.input_tokens u.output_tokens
          else returned ("UNAVAILABLE", none)

      unfoldable pub settled :
          TaskBudget n
          → Reservation n
          → Usage
          → String
          → Option n.Num
          → String
          → Consumption n
          → State n
      settled b v u status cost timestamp c =
          each n
            (λ level r.
              apply_overrun (limits_at n b.resolved level)
                (settle_in b v u status cost timestamp level r))
            (load_state n b c)

      -- `record`
      unfoldable pub record_usage :
          TaskBudget n
          → Option (Prices n)
          → Option (Reservation n)
          → Usage
          → String
          → Consumption n
          → Outcome BudgetError (Charge × Consumption n)
      record_usage b pricing reservation u timestamp c = do
        charge ← evidence b pricing u
        let s = settled b (reservation_or reservation) u charge.0 charge.1 timestamp c
        returned (
          (record {
            cost_usd = charge.1;
            cost_status = charge.0;
            effective_output_token_limit =
                effective_output_limit b.resolved.model_output_token_limit
                  (remaining_output n d b.resolved s);
          }),
          changes_for_state n b c s none,
        )
