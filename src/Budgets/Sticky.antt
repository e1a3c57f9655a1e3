-- ===== src/Budgets/Sticky.antt =====
-- src/aep/execution_budgets.py: spend that could not be reconciled blocks the workflow for good.
use mathlib.Core.Path.{subst}
use agent_engineering_platfo.Prelude.{
  ℕ, ltb, ◌≡◌, ◌≢◌, refl, sym, String, Bool, true, false, ◌&&◌, ◌||◌, Option, none, some, List,
  arith, max, if◌then◌else◌,
}
use agent_engineering_platfo.Outcome.{Outcome, returned, bind_case}
use agent_engineering_platfo.Budgets.{
  Numbers, BudgetLimit, Limits, ResolvedExecutionBudget, max_cost_usd,
}
use agent_engineering_platfo.Budgets.Declarations.{BudgetError}
use agent_engineering_platfo.Budgets.Costs.{Decimals, Prices}
use agent_engineering_platfo.Budgets.Records.{
  Level, workflow_level, task_level, agent_level, BlockedDecision, ConsumptionRecord, Consumption,
  State, TaskBudget, limits_at, put, consumption_record, load_state, changes_for_state,
}
use agent_engineering_platfo.Budgets.Checks.{
  or_else, sticky_block, check_scope, evaluate, block_record, apply_block_decision,
}
use agent_engineering_platfo.Budgets.Ledger.{
  Reservation, BudgetReservation, granted, release_in, release, preflight,
}
use agent_engineering_platfo.Budgets.Settlement.{
  Usage, Charge, count_cost, block_cost, is_unreconciled, settle_counts, settle_in, apply_overrun,
  settled, evidence, reservation_or, record_usage,
}
use agent_engineering_platfo.Budgets.Granted.{preflight-IsGranted}
use agent_engineering_platfo.Budgets.Settled.{preflight-refused}
use agent_engineering_platfo.Budgets.Shared.{
  Client, System, Step, grants, refuses, records, releases, Reach, here, next,
}

and_or : (a b c : Bool) → a ≡ true → c ≡ true → (a && (b || c)) ≡ true
and_or a b c h k = ground arith

module _ (n : Numbers) where
  abbrev Lasts : Option (BlockedDecision n) → Type 0
  Lasts none = ⊥
  Lasts (some b) = b.sticky ≡ true

  abbrev IsStuck : ConsumptionRecord n → Type 0
  IsStuck r = Lasts r.blocked_decision

  abbrev StuckIn : Option (ConsumptionRecord n) → Type 0
  StuckIn none = ⊥
  StuckIn (some r) = IsStuck r

  -- The record of the workflow has a block that lasts.
  abbrev pub IsBlocked : Consumption n → Type 0
  IsBlocked c = StuckIn c.workflow

  load-IsStuck :
      (b : TaskBudget n) (c : Consumption n) → IsBlocked c → IsStuck (load_state n b c).workflow
  unfolding load_state
  load-IsStuck b c = go c.workflow
    where
      go :
          (o : Option (ConsumptionRecord n))
          → StuckIn o
          → IsStuck (consumption_record n o b.workflow_started_at b.provider b.model)
      go (some r) h = h
      go none h = absurd h

  sticky_if :
      (b : Bool) (r s t : ConsumptionRecord n)
      → (b ≡ true → IsStuck s)
      → IsStuck t
      → IsStuck (if b then s else t)
  sticky_if true r s t h k = h refl
  sticky_if false r s t h k = k

  block_record-IsStuck :
      (b : BlockedDecision n) (r : ConsumptionRecord n) → IsStuck r → IsStuck (block_record n b r)
  block_record-IsStuck b r h = sticky_if b.sticky r _ _ (λ e. e) h

  apply_block_decision-IsStuck :
      (s : State n) (b : BlockedDecision n)
      → IsStuck s.workflow
      → IsStuck (apply_block_decision n s b).workflow
  unfolding apply_block_decision
  apply_block_decision-IsStuck s b h = go b.internal_scope
    where
      go : (level : Level) → IsStuck (put n level (block_record n b) s).workflow
      go workflow_level = block_record-IsStuck b s.workflow h
      go task_level = h
      go agent_level = h

  lasting-ne-none :
      (o : Option (BlockedDecision n)) (x y : Option (BlockedDecision n))
      → Lasts o
      → or_else (or_else (sticky_block n o) x) y ≢ none
  lasting-ne-none none x y h e = absurd h
  lasting-ne-none (some b) x y h e = cc (rw h at e)

  module _ (d : Decimals n) where
    count_cost-IsStuck :
        (dispatched : Bool) (status : String) (cost : Option n.Num) (r : ConsumptionRecord n)
        → IsStuck r
        → IsStuck (count_cost n d dispatched status cost r)
    count_cost-IsStuck true status cost r h = h
    count_cost-IsStuck false status cost r h = h

    block_cost-IsStuck :
        (unreconciled : Bool) (level : Level) (o : Option (BudgetLimit n)) (timestamp : String)
        (r : ConsumptionRecord n)
        → IsStuck r
        → IsStuck (block_cost n d unreconciled level o timestamp r)
    block_cost-IsStuck unreconciled level none timestamp r h = h
    block_cost-IsStuck true level (some l) timestamp r h = refl
    block_cost-IsStuck false level (some l) timestamp r h = h

    unreconciled_block :
        (unreconciled : Bool) (level : Level) (o : Option (BudgetLimit n)) (l : BudgetLimit n)
        (timestamp : String) (r : ConsumptionRecord n)
        → o ≡ some l
        → unreconciled ≡ true
        → IsStuck (block_cost n d unreconciled level o timestamp r)
    unreconciled_block unreconciled level none l timestamp r e h = absurd (cc)
    unreconciled_block true level (some m) l timestamp r e h = refl
    unreconciled_block false level (some m) l timestamp r e h = absurd (cc)

    module _ (elapsed_ms : String → String → ℕ) where
      apply_overrun-IsStuck :
          (limits : Limits n) (r : ConsumptionRecord n)
          → IsStuck r
          → IsStuck (apply_overrun n d elapsed_ms limits r)
      unfolding apply_overrun
      apply_overrun-IsStuck limits r h = sticky_if _ r _ r (λ _. h) h

      settle_in-IsStuck :
          (b : TaskBudget n) (v : Reservation n) (u : Usage n) (status : String)
          (cost : Option n.Num) (timestamp : String) (level : Level) (r : ConsumptionRecord n)
          → IsStuck r
          → IsStuck (settle_in n d elapsed_ms b v u status cost timestamp level r)
      unfolding settle_in settle_counts release_in
      settle_in-IsStuck b v u status cost timestamp level r h =
          block_cost-IsStuck _ level (limits_at n b.resolved level max_cost_usd) timestamp _
            (count_cost-IsStuck (ltb 0 u.invocation_count) status cost _ h)

      -- A scope with a block that lasts is refused.
      evaluate-ne-none :
          (b : ResolvedExecutionBudget n) (pricing : Option (Prices n)) (s : State n)
          (estimated : ℕ) (timestamp : String)
          → IsStuck s.workflow
          → evaluate n d elapsed_ms b pricing s estimated timestamp ≢ none
      unfolding evaluate check_scope
      evaluate-ne-none b pricing s estimated timestamp h =
          lasting-ne-none s.workflow.blocked_decision _ _ h

      changed-IsBlocked :
          (b : TaskBudget n) (c c' : Consumption n) (s : State n)
          (decision : Option (BlockedDecision n))
          → c' ≡ changes_for_state n b c s decision
          → IsStuck s.workflow
          → IsBlocked c'
      unfolding changes_for_state
      changed-IsBlocked b c c' s decision e h = subst IsBlocked (sym e) h

      record_usage-IsBlocked :
          (b : TaskBudget n) (pricing : Option (Prices n)) (o : Option (Reservation n))
          (u : Usage n) (timestamp : String) (c : Consumption n) (charge : Charge n)
          (c' : Consumption n)
          → IsBlocked c
          → record_usage n d elapsed_ms b pricing o u timestamp c ≡ returned (charge, c')
          → IsBlocked c'
      unfolding record_usage settled
      record_usage-IsBlocked b pricing o u timestamp c charge c' stuck =
          bind_case Q (evidence n d elapsed_ms b pricing u) _ (λ e _ h. absurd (cc))
            (λ x _ h.
              changed-IsBlocked b c c'
                (settled n d elapsed_ms b (reservation_or n d o) u x.0 x.1 timestamp c) none (cc h)
                (apply_overrun-IsStuck (limits_at n b.resolved workflow_level) _ (
                  settle_in-IsStuck b (reservation_or n d o) u x.0 x.1 timestamp workflow_level
                    (load_state n b c).workflow (load-IsStuck b c stuck))))
        where
          Q : Outcome BudgetError (Charge n × Consumption n) → Type 0
          Q x = x ≡ returned (charge, c') → IsBlocked c'

      release-IsBlocked :
          (b : TaskBudget n) (o : Option (Reservation n)) (c : Consumption n)
          → IsBlocked c
          → IsBlocked (release n d b o c)
      unfolding release release_in changes_for_state
      release-IsBlocked b none c h = h
      release-IsBlocked b (some v) c h = load-IsStuck b c h

      Step-IsBlocked :
          {s t : System n}
          → Step n d elapsed_ms s t
          → IsBlocked s.consumption
          → IsBlocked t.consumption
      Step-IsBlocked (grants xs ys k c c' estimated o a w g v h) stuck =
          let granted =
            preflight-IsGranted n d elapsed_ms k.budget k.pricing estimated o a w c g v c' h in
          absurd (
            evaluate-ne-none k.budget.resolved k.pricing (load_state n k.budget c) (max 1 estimated)
              w (load-IsStuck k.budget c stuck) granted.clear)
      Step-IsBlocked (refuses clients k c c' estimated o a w decision h) stuck =
          changed-IsBlocked k.budget c c' _ (some decision)
            (preflight-refused n d elapsed_ms k.budget k.pricing estimated o a w c decision c' h)
            (apply_block_decision-IsStuck (load_state n k.budget c) decision
              (load-IsStuck k.budget c stuck))
      Step-IsBlocked (records xs ys k c c' u w charge h) stuck =
          record_usage-IsBlocked k.budget k.pricing k.reservation u w c charge c' stuck h
      Step-IsBlocked (releases xs ys k c) stuck = release-IsBlocked k.budget k.reservation c stuck

      Reach-IsBlocked :
          {s t : System n}
          → Reach n d elapsed_ms s t
          → IsBlocked s.consumption
          → IsBlocked t.consumption
      Reach-IsBlocked here h = h
      Reach-IsBlocked (next r step) h = Step-IsBlocked step (Reach-IsBlocked r h)

      -- A charge for an attempt that was dispatched and not reconciled, under a limit on the money of
      -- the workflow, leaves a block that lasts.
      unreconciled-IsBlocked :
          (b : TaskBudget n) (pricing : Option (Prices n)) (o : Option (Reservation n))
          (u : Usage n) (timestamp : String) (c : Consumption n) (charge : Charge n)
          (c' : Consumption n) (l : BudgetLimit n)
          → b.resolved.workflow max_cost_usd ≡ some l
          → ltb 0 u.invocation_count ≡ true
          → ltb 0 u.unreconciled_dispatched_attempts ≡ true
          → record_usage n d elapsed_ms b pricing o u timestamp c ≡ returned (charge, c')
          → IsBlocked c'
      unfolding record_usage settled settle_in
      unreconciled-IsBlocked b pricing o u timestamp c charge c' l limited dispatched unreconciled =
          bind_case Q (evidence n d elapsed_ms b pricing u) _ (λ e _ h. absurd (cc))
            (λ x _ h.
              changed-IsBlocked b c c'
                (settled n d elapsed_ms b (reservation_or n d o) u x.0 x.1 timestamp c) none (cc h)
                (apply_overrun-IsStuck (limits_at n b.resolved workflow_level) _ (
                  unreconciled_block (is_unreconciled n d x.0 u) workflow_level
                    (limits_at n b.resolved workflow_level max_cost_usd) l timestamp _ limited
                    (and_or _ _ _ dispatched unreconciled))))
        where
          Q : Outcome BudgetError (Charge n × Consumption n) → Type 0
          Q x = x ≡ returned (charge, c') → IsBlocked c'

      -- Where a record charged an attempt that was dispatched and not reconciled, with or without a
      -- reservation, and the workflow has a limit on money, a preflight is never granted again by the
      -- ledger, for whatever client, whatever preflights, records of any usage and releases of whatever
      -- clients come between the record and the preflight.
      pub unreconciled_blocks :
          (b : TaskBudget n) (pricing : Option (Prices n)) (o : Option (Reservation n))
          (u : Usage n) (timestamp : String) (c : Consumption n) (charge : Charge n)
          (c' : Consumption n) (l : BudgetLimit n) (clients : List (Client n)) {t : System n}
          (b' : TaskBudget n) (pricing' : Option (Prices n)) (estimated : ℕ)
          (configured configured_attempts : Option ℕ) (timestamp' : String)
          (g : BudgetReservation n) (v' : Reservation n) (c'' : Consumption n)
          → b.resolved.workflow max_cost_usd ≡ some l
          → ltb 0 u.invocation_count ≡ true
          → ltb 0 u.unreconciled_dispatched_attempts ≡ true
          → record_usage n d elapsed_ms b pricing o u timestamp c ≡ returned (charge, c')
          → Reach n d elapsed_ms (record { consumption = c'; clients = clients }) t
          → preflight n d elapsed_ms b' pricing' estimated configured configured_attempts timestamp'
              t.consumption
            ≢ granted g v' c''
      unreconciled_blocks b pricing o u timestamp c charge c' l clients {t} b' pricing' estimated
            configured configured_attempts timestamp' g v' c'' limited dispatched unreconciled h
            reach again =
          let stuck = Reach-IsBlocked reach (
            unreconciled-IsBlocked b pricing o u timestamp c charge c' l limited dispatched
              unreconciled h) in
          let granted =
            preflight-IsGranted n d elapsed_ms b' pricing' estimated configured configured_attempts
              timestamp' t.consumption g v' c'' again in
          evaluate-ne-none b'.resolved pricing' (load_state n b' t.consumption) (max 1 estimated)
            timestamp' (load-IsStuck b' t.consumption stuck) granted.clear
