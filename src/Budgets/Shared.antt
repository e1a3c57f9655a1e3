-- ===== src/Budgets/Shared.antt =====
-- src/aep/execution_budgets.py: the Tasks of a WorkflowExecution share its ledger.
use agent_engineering_platfo.Prelude.{
  ℕ, ◌+◌, ◌-◌, ◌≡◌, String, Option, none, some, List, ◌∷◌, ◌++◌, map,
}
use agent_engineering_platfo.Outcome.{returned}
use agent_engineering_platfo.Budgets.{Numbers, BudgetLimit}
use agent_engineering_platfo.Budgets.Costs.{Decimals, Prices}
use agent_engineering_platfo.Budgets.Records.{
  BlockedDecision, ConsumptionRecord, Consumption, TaskBudget,
}
use agent_engineering_platfo.Budgets.Ledger.{
  Reservation, BudgetReservation, granted, refused, release, preflight,
}
use agent_engineering_platfo.Budgets.Settlement.{
  Usage, Charge, retained_input, retained_output, reservation_or, record_usage,
}
use agent_engineering_platfo.Budgets.Pool.{Pool}
use agent_engineering_platfo.Budgets.Counts.{
  Dimension, invocations, inputs, outputs, field_of, used, held, amount, IsSound,
}

module _ (n : Numbers) where
  -- A `TaskBudget` with its `_reservation`.
  pub record Client : Type 0 where
    pub budget : TaskBudget n
    pub pricing : Option (Prices n)
    pub reservation : Option (Reservation n)

  -- The ledger and the clients of it.
  pub record System : Type 0 where
    pub consumption : Consumption n
    pub clients : List Client

  -- What an invocation kept and used of a count.
  abbrev pub usage_of : Dimension → Usage n → ℕ
  usage_of invocations u = u.invocation_count
  usage_of inputs u = u.input_tokens
  usage_of outputs u = u.output_tokens

  -- The counts of the workflow's record, of a ledger that may have none yet.
  abbrev pub used_of : Dimension → Option (ConsumptionRecord n) → ℕ
  used_of dim none = 0
  used_of dim (some r) = used n dim r

  abbrev pub held_of : Dimension → Option (ConsumptionRecord n) → ℕ
  held_of dim none = 0
  held_of dim (some r) = held n dim r

  abbrev pub claim_of : Dimension → Option (Reservation n) → ℕ
  claim_of dim none = 0
  claim_of dim (some v) = amount n dim v

  abbrev pub claims_of : Dimension → List Client → List ℕ
  claims_of dim ks = map (λ k. claim_of dim k.reservation) ks

  -- The pool that a system is, for one of the counts.
  abbrev pub pool_of : Dimension → System → Pool
  pool_of dim s = record {
    spent = used_of dim s.consumption.workflow;
    held = held_of dim s.consumption.workflow;
    claims = claims_of dim s.clients;
  }

  -- The client enforces a limit of the workflow, which is sound.
  pub record Enforces (dim : Dimension) (limit : Option (BudgetLimit n)) (k : Client) : Type 0 where
    pub shared : k.budget.resolved.workflow (field_of dim) ≡ limit
    pub sound : IsSound n k.budget.resolved

  module _ (d : Decimals n) where
    abbrev pub retained : Dimension → Reservation n → Usage n → ℕ
    retained invocations v u = 0
    retained inputs v u = retained_input n d v u
    retained outputs v u = retained_output n d v u

    -- What a charge spends and keeps, of one count, in excess of the reservation it settles. Without a
    -- reservation it is the whole usage, with the default reservation that is taken off.
    abbrev pub overrun : Dimension → Option (Reservation n) → Usage n → ℕ
    overrun dim none u = usage_of dim u + amount n dim (reservation_or n d none)
    overrun dim (some v) u = usage_of dim u + retained dim v u - amount n dim v

    module _ (elapsed_ms : String → String → ℕ) where
      -- A call of one of the clients, whose transaction the store commits.
      pub data Step : System → System → Type 0 where
        grants :
            (xs ys : List Client) (k : Client) (c c' : Consumption n) (estimated : ℕ)
            (configured configured_attempts : Option ℕ) (timestamp : String)
            (g : BudgetReservation n) (v : Reservation n)
            → preflight n d elapsed_ms k.budget k.pricing estimated configured configured_attempts
                timestamp c
              ≡ granted g v c'
            → Step
                (record { consumption = c; clients = xs ++ (k ∷ ys) })
                (record {
                  consumption = c';
                  clients = xs ++ ((record k { reservation = some v }) ∷ ys);
                })
        refuses :
            (clients : List Client) (k : Client) (c c' : Consumption n) (estimated : ℕ)
            (configured configured_attempts : Option ℕ) (timestamp : String)
            (decision : BlockedDecision n)
            → preflight n d elapsed_ms k.budget k.pricing estimated configured configured_attempts
                timestamp c
              ≡ refused decision c'
            → Step
                (record { consumption = c; clients = clients })
                (record { consumption = c'; clients = clients })
        records :
            (xs ys : List Client) (k : Client) (c c' : Consumption n) (u : Usage n)
            (timestamp : String) (charge : Charge n)
            → record_usage n d elapsed_ms k.budget k.pricing k.reservation u timestamp c
              ≡ returned (charge, c')
            → Step
                (record { consumption = c; clients = xs ++ (k ∷ ys) })
                (record {
                  consumption = c';
                  clients = xs ++ ((record k { reservation = none }) ∷ ys);
                })
        releases :
            (xs ys : List Client) (k : Client) (c : Consumption n)
            → Step
                (record { consumption = c; clients = xs ++ (k ∷ ys) })
                (record {
                  consumption = release n d k.budget k.reservation c;
                  clients = xs ++ ((record k { reservation = none }) ∷ ys);
                })

      -- What a call charges in excess of a reservation, of one count.
      unfoldable pub excess : Dimension → {s t : System} → Step s t → ℕ
      excess dim (grants xs ys k c c' e o a w g v h) = 0
      excess dim (refuses clients k c c' e o a w decision h) = 0
      excess dim (records xs ys k c c' u w charge h) = overrun dim k.reservation u
      excess dim (releases xs ys k c) = 0

      -- Calls of the clients, in any order.
      pub data Reach (s : System) : System → Type 0 where
        here : Reach s s
        next : {t u : System} → Reach s t → Step t u → Reach s u

      unfoldable pub total_excess : Dimension → {s t : System} → Reach s t → ℕ
      total_excess dim here = 0
      total_excess dim (next r step) = total_excess dim r + excess dim step
