-- ===== src/Budgets/Evaluated.antt =====
-- src/aep/execution_budgets.py: where no scope is exhausted, what is planned is within the limits.
use agent_engineering_platfo.Prelude.{ℕ, ◌+◌, ◌≤◌, ◌≡◌, refl, String, Option, none, some}
use agent_engineering_platfo.Budgets.{
  max_model_invocations, max_input_tokens, max_output_tokens, Numbers, ResolvedExecutionBudget,
}
use agent_engineering_platfo.Budgets.Costs.{Decimals, Prices}
use agent_engineering_platfo.Budgets.Records.{
  Level, workflow_level, task_level, agent_level, ConsumptionRecord, State, at, limits_at,
}
use agent_engineering_platfo.Budgets.Checks.{or_else, count_block, check_scope, evaluate}
use agent_engineering_platfo.Budgets.Plan.{
  ReservationPlan, available, least, invocation_allowance, remaining_input, remaining_output,
  reservation_plan,
}
use agent_engineering_platfo.Budgets.Ledger.{reservation_of}
use agent_engineering_platfo.Budgets.Fits.{Fits, Fits-least, Fits-both}
use agent_engineering_platfo.Budgets.Planned.{IsFitting, reservation_plan-IsFitting}
use agent_engineering_platfo.Budgets.Counts.{
  Dimension, invocations, inputs, outputs, field_of, IsArithmetic, used, held, amount, IsSound,
  limit_of, count_block-none, Fits-available, within_available,
}

or_else-none : {A : Type 0} (a b : Option A) → or_else a b ≡ none → (a ≡ none) × (b ≡ none)
or_else-none none b h = (refl, h)
or_else-none (some a) b h = absurd (cc)

Fits-three :
    (a b c : Option ℕ) (x : ℕ) → Fits (least (least a b) c) x → Fits a x × Fits b x × Fits c x
Fits-three a b c x h =
    let (left, third) = Fits-both (least a b) c x h in
    let (first, second) = Fits-both a b x left in (first, second, third)

-- What a check requires of a count.
abbrev needed : Dimension → ℕ → ℕ
needed invocations estimated = 1
needed inputs estimated = estimated
needed outputs estimated = 1

module _ (n : Numbers) (d : Decimals n) where
  -- What remains of a count.
  abbrev remaining : Dimension → ResolvedExecutionBudget n → State n → Option ℕ
  remaining invocations b s = invocation_allowance n d b s
  remaining inputs b s = remaining_input n d b s
  remaining outputs b s = remaining_output n d b s

  -- What is used and held at a scope, with an amount more, is within the limit.
  abbrev pub IsWithin : ResolvedExecutionBudget n → State n → Level → Dimension → ℕ → Type 0
  IsWithin b s level dim x =
      Fits (limit_of n d (limits_at n b level (field_of dim)))
        (used n dim (at n s level) + held n dim (at n s level) + x)

  abbrev available_at : ResolvedExecutionBudget n → State n → Level → Dimension → Option ℕ
  available_at b s level dim =
      available n d (limits_at n b level (field_of dim))
        (used n dim (at n s level) + held n dim (at n s level))

  remaining_lem :
      (b : ResolvedExecutionBudget n) (s : State n) (dim : Dimension)
      → remaining dim b s
        ≡ least
            (least (available_at b s workflow_level dim) (available_at b s task_level dim))
            (available_at b s agent_level dim)
  unfolding invocation_allowance remaining_input remaining_output
  remaining_lem b s invocations = refl
  remaining_lem b s inputs = refl
  remaining_lem b s outputs = refl

  module _ (elapsed_ms : String → String → ℕ) (laws : IsArithmetic n d) where
    scope_counts :
        (b : ResolvedExecutionBudget n) (level : Level) (r : ConsumptionRecord n) (estimated : ℕ)
        (timestamp : String) (pricing : Option (Prices n))
        → check_scope n d elapsed_ms level (limits_at n b level) r estimated timestamp pricing
          ≡ none
        → (count_block n level
              (limits_at n b level max_model_invocations)
              (r.model_invocations + r.reserved_model_invocations)
              r.reserved_model_invocations
              1
              timestamp
            ≡ none)
          × (count_block n level
                (limits_at n b level max_input_tokens)
                (r.input_tokens + r.reserved_input_tokens)
                r.reserved_input_tokens
                estimated
                timestamp
              ≡ none)
          × (count_block n level
                (limits_at n b level max_output_tokens)
                (r.output_tokens + r.reserved_output_tokens)
                r.reserved_output_tokens
                1
                timestamp
              ≡ none)
    unfolding check_scope
    scope_counts b level r estimated timestamp pricing h =
        let (_, h₁) = or_else-none _ _ h in
        let (i, h₂) = or_else-none _ _ h₁ in
        let (j, h₃) = or_else-none _ _ h₂ in (i, j, (or_else-none _ _ h₃).0)

    check_scope-none :
        (b : ResolvedExecutionBudget n) (level : Level) (r : ConsumptionRecord n) (estimated : ℕ)
        (timestamp : String) (pricing : Option (Prices n))
        → IsSound n b
        → check_scope n d elapsed_ms level (limits_at n b level) r estimated timestamp pricing
          ≡ none
        → (dim : Dimension)
        → Fits
            (limit_of n d (limits_at n b level (field_of dim)))
            (used n dim r + held n dim r + needed dim estimated)
    unfolding check_scope
    check_scope-none b level r estimated timestamp pricing sound h invocations =
        count_block-none n d level _ _ r.reserved_model_invocations 1 timestamp laws
          (sound level invocations) (scope_counts b level r estimated timestamp pricing h).0
    check_scope-none b level r estimated timestamp pricing sound h inputs =
        count_block-none n d level _ _ r.reserved_input_tokens estimated timestamp laws
          (sound level inputs) (scope_counts b level r estimated timestamp pricing h).1
    check_scope-none b level r estimated timestamp pricing sound h outputs =
        count_block-none n d level _ _ r.reserved_output_tokens 1 timestamp laws
          (sound level outputs) (scope_counts b level r estimated timestamp pricing h).2

    evaluate-IsWithin :
        (b : ResolvedExecutionBudget n) (pricing : Option (Prices n)) (s : State n) (estimated : ℕ)
        (timestamp : String)
        → IsSound n b
        → evaluate n d elapsed_ms b pricing s estimated timestamp ≡ none
        → (level : Level) (dim : Dimension) → IsWithin b s level dim (needed dim estimated)
    unfolding evaluate
    evaluate-IsWithin b pricing s estimated timestamp sound h workflow_level =
        check_scope-none b workflow_level s.workflow estimated timestamp pricing sound
          (or_else-none _ _ h).0
    evaluate-IsWithin b pricing s estimated timestamp sound h task_level =
        check_scope-none b task_level s.task estimated timestamp pricing sound
          (or_else-none _ _ (or_else-none _ _ h).1).0
    evaluate-IsWithin b pricing s estimated timestamp sound h agent_level =
        check_scope-none b agent_level s.agent estimated timestamp pricing sound
          (or_else-none _ _ (or_else-none _ _ h).1).1

    evaluate-Fits :
        (b : ResolvedExecutionBudget n) (pricing : Option (Prices n)) (s : State n) (estimated : ℕ)
        (timestamp : String)
        → IsSound n b
        → evaluate n d elapsed_ms b pricing s estimated timestamp ≡ none
        → (dim : Dimension) → Fits (remaining dim b s) (needed dim estimated)
    evaluate-Fits b pricing s estimated timestamp sound h dim =
        let within = evaluate-IsWithin b pricing s estimated timestamp sound h in
        rw (remaining_lem b s dim) (
          Fits-least _ _ _
            (Fits-least _ _ _
              (Fits-available n d (limits_at n b workflow_level (field_of dim)) _ _
                (within workflow_level dim))
              (Fits-available n d (limits_at n b task_level (field_of dim)) _ _
                (within task_level dim)))
            (Fits-available n d (limits_at n b agent_level (field_of dim)) _ _
              (within agent_level dim)))

    plan-Fits :
        (b : ResolvedExecutionBudget n) (s : State n) (p : ReservationPlan n)
        → IsFitting n d (remaining invocations b s) (remaining inputs b s) (remaining outputs b s) p
        → (dim : Dimension) → Fits (remaining dim b s) (amount n dim (reservation_of n d p))
    plan-Fits b s p h invocations = h.invocations
    plan-Fits b s p h inputs = h.inputs
    plan-Fits b s p h outputs = h.outputs

    Fits-available_at :
        (b : ResolvedExecutionBudget n) (s : State n) (x : ℕ) (dim : Dimension)
        → Fits (remaining dim b s) x
        → (level : Level) → Fits (available_at b s level dim) x
    Fits-available_at b s x dim h level = at_level level
      where
        three :
            Fits (available_at b s workflow_level dim) x
            × Fits (available_at b s task_level dim) x
            × Fits (available_at b s agent_level dim) x
        three =
            Fits-three (available_at b s workflow_level dim) (available_at b s task_level dim)
              (available_at b s agent_level dim) x (rw (remaining_lem b s dim) at h)

        at_level : (level : Level) → Fits (available_at b s level dim) x
        at_level workflow_level = three.0
        at_level task_level = three.1
        at_level agent_level = three.2

    -- What a plan reserves is within the limits of every scope.
    pub plan-IsWithin :
        (b : ResolvedExecutionBudget n) (pricing : Option (Prices n)) (s : State n) (estimated : ℕ)
        (configured configured_attempts : Option ℕ) (timestamp : String)
        → 1 ≤ estimated
        → IsSound n b
        → evaluate n d elapsed_ms b pricing s estimated timestamp ≡ none
        → (level : Level) (dim : Dimension)
        → IsWithin b s level dim (
            amount n dim (
              reservation_of n d
                (reservation_plan n d b pricing s estimated configured configured_attempts)))
    plan-IsWithin b pricing s estimated configured configured_attempts timestamp one sound h level
          dim =
        let fits = evaluate-Fits b pricing s estimated timestamp sound h in
        let fitting =
          reservation_plan-IsFitting n d b pricing s estimated configured configured_attempts one
            (fits invocations) (fits inputs) (fits outputs) in
        within_available n d (limits_at n b level (field_of dim)) _ _ _
          (evaluate-IsWithin b pricing s estimated timestamp sound h level dim)
          (Fits-available_at b s _ dim (plan-Fits b s _ fitting dim) level)
