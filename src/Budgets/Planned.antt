-- ===== src/Budgets/Planned.antt =====
-- src/aep/execution_budgets.py: the plan of a reservation fits what remains.
use native.Mathlib.Nat.{le-max_left, mul-le-mul_left}
use agent_engineering_platfo.Prelude.{
  ℕ, zero, suc, ◌≤◌, Option, none, some, arith, leb, max, Bool-cases, inl, inr,
}
use agent_engineering_platfo.Budgets.{Numbers, ResolvedExecutionBudget}
use agent_engineering_platfo.Budgets.Costs.{Decimals, Prices, cost_floor_div, estimate_cost}
use agent_engineering_platfo.Budgets.Records.{State}
use agent_engineering_platfo.Budgets.Plan.{
  ReservationPlan, or_value, output_share, total_output, lowered, with_cost, with_affordable,
  attempts_of, invocation_allowance, remaining_input, remaining_output, remaining_cost,
  reservation_plan,
}
use agent_engineering_platfo.Budgets.Fits.{
  Fits, IsAllowed, first_attempts-lem, output_share-Fits, input_attempts-lem, output_attempts-lem,
  fewer-IsAllowed, fewer_le, Fits-less,
}

module _ (n : Numbers) (d : Decimals n) where
  attempts_of-IsAllowed :
      (b : ResolvedExecutionBudget n) (s : State n) (estimated : ℕ) (configured : Option ℕ)
      → 1 ≤ estimated
      → Fits (invocation_allowance n d b s) 1
      → Fits (remaining_input n d b s) estimated
      → Fits (remaining_output n d b s) 1
      → IsAllowed
          (invocation_allowance n d b s)
          (remaining_input n d b s)
          (remaining_output n d b s)
          estimated
          (attempts_of n d b s estimated configured)
  unfolding attempts_of
  attempts_of-IsAllowed b s estimated configured e p q r =
      let (one, allowed) = first_attempts-lem configured (invocation_allowance n d b s) p in
      let (one', less, inputs) = input_attempts-lem (remaining_input n d b s) estimated _ e one q in
      let (one'', less', outputs) = output_attempts-lem (remaining_output n d b s) _ one' r in
      record {
        positive = one'';
        invocations = Fits-less _ _ _ (omega arith) allowed;
        inputs = Fits-less _ _ _ (mul-le-mul_left estimated less') inputs;
        outputs = outputs;
      }

  -- A number of attempts with an output for each that the remaining output allows.
  abbrev IsPlanned : Option ℕ → Option ℕ → Option ℕ → ℕ → ℕ × Option ℕ → Type 0
  IsPlanned allowance input output estimated x =
      IsAllowed allowance input output estimated x.0 × Fits output (total_output output x.0 x.1)

  lowered-IsPlanned :
      (p : Prices n) (cost : n.Num) (allowance input output configured : Option ℕ)
      (estimated rounds k : ℕ) (share : Option ℕ)
      → IsPlanned allowance input output estimated (k, share)
      → IsPlanned allowance input output estimated
          (lowered n d p cost output configured estimated rounds k share)
  unfolding lowered
  lowered-IsPlanned p cost allowance input output configured estimated zero k share h = h
  lowered-IsPlanned p cost allowance input output configured estimated (suc rounds) k share h =
      let minimum = estimate_cost n d p estimated (or_value share 1) in
      let affordable = cost_floor_div n d cost minimum in
      elim (Bool-cases (n.at_most minimum (n.of_int 0))) [
        | inl free ↦ rw free h
        | inr priced ↦ elim (Bool-cases (leb k affordable)) [
          | inl enough ↦ rw (priced, enough) h
          | inr less ↦
              let fewer =
                fewer-IsAllowed allowance input output estimated (max 1 affordable) k
                  (le-max_left 1 affordable) (fewer_le affordable k h.0.positive less) h.0 in
              rw (priced, less)
                (lowered-IsPlanned p cost allowance input output configured estimated rounds
                  (max 1 affordable) _
                  (
                    fewer,
                    output_share-Fits output configured share (max 1 affordable) fewer.positive
                        fewer.outputs,
                  ))
        ]
      ]

  with_cost-IsPlanned :
      (pricing : Option (Prices n)) (cost : Option n.Num)
      (allowance input output configured : Option ℕ) (estimated k : ℕ) (share : Option ℕ)
      → IsPlanned allowance input output estimated (k, share)
      → IsPlanned allowance input output estimated
          (with_cost n d pricing cost output configured estimated k share)
  unfolding with_cost
  with_cost-IsPlanned (some p) (some cost) allowance input output configured estimated k share h =
      lowered-IsPlanned p cost allowance input output configured estimated 3 k share h
  with_cost-IsPlanned none cost allowance input output configured estimated k share h = h
  with_cost-IsPlanned (some p) none allowance input output configured estimated k share h = h

  with_affordable-Fits :
      (output : Option ℕ) (pricing : Option (Prices n)) (cost : Option n.Num) (estimated k : ℕ)
      (share : Option ℕ)
      → Fits output (total_output output k share)
      → Fits output
          (total_output output k (with_affordable n d output pricing cost estimated k share))
  unfolding with_affordable
  with_affordable-Fits none pricing cost estimated k share h = tt
  with_affordable-Fits (some r) pricing cost estimated k share h = h

  -- What a plan reserves fits what remains.
  pub record IsFitting (allowance input output : Option ℕ) (p : ReservationPlan n) : Type 0 where
    pub positive : 1 ≤ p.attempts
    pub invocations : Fits allowance p.attempts
    pub inputs : Fits input p.reserved_input
    pub outputs : Fits output p.reserved_output

  pub reservation_plan-IsFitting :
      (b : ResolvedExecutionBudget n) (pricing : Option (Prices n)) (s : State n) (estimated : ℕ)
      (configured configured_attempts : Option ℕ)
      → 1 ≤ estimated
      → Fits (invocation_allowance n d b s) 1
      → Fits (remaining_input n d b s) estimated
      → Fits (remaining_output n d b s) 1
      → IsFitting
          (invocation_allowance n d b s)
          (remaining_input n d b s)
          (remaining_output n d b s)
          (reservation_plan n d b pricing s estimated configured configured_attempts)
  unfolding reservation_plan
  reservation_plan-IsFitting b pricing s estimated configured configured_attempts e p q r =
      let first = attempts_of-IsAllowed b s estimated configured_attempts e p q r in
      let (allowed, outputs) =
        with_cost-IsPlanned pricing (remaining_cost n d b s) (invocation_allowance n d b s)
          (remaining_input n d b s) (remaining_output n d b s) configured estimated
          (attempts_of n d b s estimated configured_attempts)
          (with_affordable n d (remaining_output n d b s) pricing (remaining_cost n d b s) estimated
            (attempts_of n d b s estimated configured_attempts)
            (output_share (remaining_output n d b s) configured
              (attempts_of n d b s estimated configured_attempts) configured))
          (
            first,
            with_affordable-Fits (remaining_output n d b s) pricing (remaining_cost n d b s)
                estimated (attempts_of n d b s estimated configured_attempts) _
                (output_share-Fits (remaining_output n d b s) configured configured
                  (attempts_of n d b s estimated configured_attempts) first.positive first.outputs),
          ) in
      record {
        positive = allowed.positive;
        invocations = allowed.invocations;
        inputs = allowed.inputs;
        outputs = outputs;
      }
