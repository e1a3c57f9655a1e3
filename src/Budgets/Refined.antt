-- ===== src/Budgets/Refined.antt =====
-- src/aep/execution_budgets.py: the shared ledger is a pool for each of its counts.
use mathlib.Core.Path.{subst}
use mathlib.Core.List.{map-append}
use native.Mathlib.Nat.{div-mul-le_self, mul-le-mul_left, min-le_right, le_trans}
use agent_engineering_platfo.Prelude.{
  ℕ, ◌+◌, ◌-◌, ◌*◌, ◌/◌, max, min, ◌≤◌, ◌≡◌, refl, sym, ap, ◌∙◌, String, Option, none, some, List,
  [], ◌∷◌, ◌++◌, All, arith,
}
use agent_engineering_platfo.Budgets.{Numbers, BudgetLimit}
use agent_engineering_platfo.Budgets.Costs.{Decimals}
use agent_engineering_platfo.Budgets.Records.{
  workflow_level, ConsumptionRecord, Consumption, TaskBudget, consumption_record, load_state,
}
use agent_engineering_platfo.Budgets.Ledger.{Reservation, release}
use agent_engineering_platfo.Budgets.Settlement.{Usage, reservation_or}
use agent_engineering_platfo.Budgets.Fits.{Fits}
use agent_engineering_platfo.Budgets.Pool.{Pool, PoolStep, stay, claim, settle, charge}
use agent_engineering_platfo.Budgets.Counts.{
  Dimension, invocations, inputs, outputs, IsArithmetic, used, held, amount, limit_of,
}
use agent_engineering_platfo.Budgets.Granted.{preflight-IsWithin}
use agent_engineering_platfo.Budgets.Released.{at-preflight, at-release, used-release}
use agent_engineering_platfo.Budgets.Settled.{at-record_usage, record_usage_or, at-refused}
use agent_engineering_platfo.Budgets.Shared.{
  Client, System, Step, grants, refuses, records, releases, used_of, held_of, claim_of, claims_of,
  pool_of, usage_of, retained, overrun, excess, Enforces,
}

All_at : {A : Type 0} (P : A → Type 0) (xs ys : List A) (a : A) → All P (xs ++ (a ∷ ys)) → P a
All_at P [] ys a h = h.0
All_at P (x ∷ xs) ys a h = All_at P xs ys a h.1

pub All-put :
    {A : Type 0} (P : A → Type 0) (xs ys : List A) (a b : A)
    → (P a → P b)
    → All P (xs ++ (a ∷ ys))
    → All P (xs ++ (b ∷ ys))
All-put P [] ys a b f h = (f h.0, h.1)
All-put P (x ∷ xs) ys a b f h = (h.0, All-put P xs ys a b f h.1)

part_le : (x g k : ℕ) → x / g * min k g ≤ x
part_le x g k = le_trans (mul-le-mul_left (x / g) (min-le_right k g)) (div-mul-le_self x g)

-- Pools with the same parts.
pub pool_eq :
    (a a' b b' : ℕ) (c c' : List ℕ)
    → a ≡ a'
    → b ≡ b'
    → c ≡ c'
    → ◌≡◌ {A = Pool}
        (record { spent = a; held = b; claims = c })
        (record { spent = a'; held = b'; claims = c' })
pool_eq a a' b b' c c' p q r = rw (p, q, r) refl

step_between :
    (limit : Option ℕ) (e e' : ℕ) (p p' q q' : Pool)
    → e ≡ e'
    → p ≡ p'
    → q ≡ q'
    → PoolStep limit e' p' q'
    → PoolStep limit e p q
step_between limit e e' p p' q q' a f g h = rw (a, f, g) h

module _ (n : Numbers) where
  used_of-load :
      (b : TaskBudget n) (c : Consumption n) (dim : Dimension)
      → used_of n dim c.workflow ≡ used n dim (load_state n b c).workflow
  unfolding load_state
  used_of-load b c dim = go c.workflow dim
    where
      go :
          (o : Option (ConsumptionRecord n)) (dim : Dimension)
          → used_of n dim o
            ≡ used n dim (consumption_record n o b.workflow_started_at b.provider b.model)
      go (some r) dim = refl
      go none invocations = refl
      go none inputs = refl
      go none outputs = refl

  held_of-load :
      (b : TaskBudget n) (c : Consumption n) (dim : Dimension)
      → held_of n dim c.workflow ≡ held n dim (load_state n b c).workflow
  unfolding load_state
  held_of-load b c dim = go c.workflow dim
    where
      go :
          (o : Option (ConsumptionRecord n)) (dim : Dimension)
          → held_of n dim o
            ≡ held n dim (consumption_record n o b.workflow_started_at b.provider b.model)
      go (some r) dim = refl
      go none invocations = refl
      go none inputs = refl
      go none outputs = refl

  claims_at :
      (dim : Dimension) (xs ys : List (Client n)) (k : Client n)
      → claims_of n dim (xs ++ (k ∷ ys))
        ≡ (claims_of n dim xs ++ (claim_of n dim k.reservation ∷ claims_of n dim ys))
  claims_at dim xs ys k = map-append (λ j. claim_of n dim j.reservation) xs (k ∷ ys)

  module _ (d : Decimals n) (elapsed_ms : String → String → ℕ) (laws : IsArithmetic n d) where
    -- The counts of the ledger, where those of the state that a client reads are known.
    used_from :
        (b : TaskBudget n) (c c' : Consumption n) (dim : Dimension) (x : ℕ)
        → used n dim (load_state n b c').workflow ≡ used n dim (load_state n b c).workflow + x
        → used_of n dim c'.workflow ≡ used_of n dim c.workflow + x
    used_from b c c' dim x h = rw (used_of-load b c dim, used_of-load b c' dim) h

    held_from :
        (b : TaskBudget n) (c c' : Consumption n) (dim : Dimension) (x y : ℕ)
        → held n dim (load_state n b c').workflow ≡ held n dim (load_state n b c).workflow - x + y
        → held_of n dim c'.workflow ≡ held_of n dim c.workflow - x + y
    held_from b c c' dim x y h = rw (held_of-load b c dim, held_of-load b c' dim) h

    claim_step :
        (dim : Dimension) (limit : Option ℕ) (xs ys : List (Client n)) (k k' : Client n)
        (c c' : Consumption n) (x : ℕ)
        → used_of n dim c'.workflow ≡ used_of n dim c.workflow + 0
        → held_of n dim c'.workflow ≡ held_of n dim c.workflow - 0 + x
        → claim_of n dim k'.reservation ≡ x
        → Fits limit (used_of n dim c'.workflow + held_of n dim c'.workflow + 0)
        → PoolStep limit 0
            (pool_of n dim (record { consumption = c; clients = xs ++ (k ∷ ys) }))
            (pool_of n dim (record { consumption = c'; clients = xs ++ (k' ∷ ys) }))
    claim_step dim limit xs ys k k' c c' x same more claims fits =
        step_between limit 0 0 _ _ _ _ refl (pool_eq _ _ _ _ _ _ refl refl (claims_at dim xs ys k))
          (pool_eq _ _ _ _ _ _ (omega (arith, same)) (omega (arith, more)) (
            claims_at dim xs ys k'
            ∙ ap (λ y. claims_of n dim xs ++ (y ∷ claims_of n dim ys)) claims))
          (claim (used_of n dim c.workflow) (held_of n dim c.workflow)
            (claim_of n dim k.reservation) x (claims_of n dim xs) (claims_of n dim ys)
            (subst (Fits limit) (omega (arith, same, more)) fits))

    settle_step :
        (dim : Dimension) (limit : Option ℕ) (xs ys : List (Client n)) (k k' : Client n)
        (c c' : Consumption n) (x u y : ℕ)
        → used_of n dim c'.workflow ≡ used_of n dim c.workflow + u
        → held_of n dim c'.workflow ≡ held_of n dim c.workflow - x + y
        → claim_of n dim k.reservation ≡ x
        → claim_of n dim k'.reservation ≡ 0
        → y ≤ x
        → PoolStep limit
            (u + y - x)
            (pool_of n dim (record { consumption = c; clients = xs ++ (k ∷ ys) }))
            (pool_of n dim (record { consumption = c'; clients = xs ++ (k' ∷ ys) }))
    settle_step dim limit xs ys k k' c c' x u y more less claims none_left covered =
        step_between limit _ _ _ _ _ _ refl
          (pool_eq _ _ _ _ _ _ refl refl (
            claims_at dim xs ys k
            ∙ ap (λ z. claims_of n dim xs ++ (z ∷ claims_of n dim ys)) claims))
          (pool_eq _ _ _ _ _ _ more less (
            claims_at dim xs ys k'
            ∙ ap (λ z. claims_of n dim xs ++ (z ∷ claims_of n dim ys)) none_left))
          (settle (used_of n dim c.workflow) (held_of n dim c.workflow) x u y (claims_of n dim xs)
            (claims_of n dim ys) covered)

    charge_step :
        (dim : Dimension) (limit : Option ℕ) (xs ys : List (Client n)) (k k' : Client n)
        (c c' : Consumption n) (x u y : ℕ)
        → used_of n dim c'.workflow ≡ used_of n dim c.workflow + u
        → held_of n dim c'.workflow ≡ held_of n dim c.workflow - x + y
        → claim_of n dim k.reservation ≡ 0
        → claim_of n dim k'.reservation ≡ 0
        → y ≡ 0
        → PoolStep limit
            (u + x)
            (pool_of n dim (record { consumption = c; clients = xs ++ (k ∷ ys) }))
            (pool_of n dim (record { consumption = c'; clients = xs ++ (k' ∷ ys) }))
    charge_step dim limit xs ys k k' c c' x u y more less claims none_left nothing =
        step_between limit _ _ _ _ _ _ refl
          (pool_eq _ _ _ _ _ _ refl refl (
            claims_at dim xs ys k
            ∙ ap (λ z. claims_of n dim xs ++ (z ∷ claims_of n dim ys)) claims))
          (pool_eq _ _ _ _ _ _ more (omega (arith, less, nothing)) (
            claims_at dim xs ys k'
            ∙ ap (λ z. claims_of n dim xs ++ (z ∷ claims_of n dim ys)) none_left))
          (charge (used_of n dim c.workflow) (held_of n dim c.workflow) x u (claims_of n dim xs)
            (claims_of n dim ys))

    -- What is retained is a part of the reservation.
    retained_bound :
        (dim : Dimension) (v : Reservation n) (u : Usage n) → retained n d dim v u ≤ amount n dim v
    retained_bound invocations v u = omega arith
    retained_bound inputs v u =
        part_le v.input_tokens (max 1 v.model_invocations) u.unreconciled_dispatched_attempts
    retained_bound outputs v u =
        part_le v.output_tokens (max 1 v.model_invocations) u.unreconciled_dispatched_attempts

    -- The default reservation has no tokens to retain.
    retained-default :
        (dim : Dimension) (u : Usage n) → retained n d dim (reservation_or n d none) u ≡ 0
    retained-default invocations u = refl
    retained-default inputs u = omega (arith, retained_bound inputs (reservation_or n d none) u)
    retained-default outputs u = omega (arith, retained_bound outputs (reservation_or n d none) u)

    record_step :
        (dim : Dimension) (limit : Option ℕ) (xs ys : List (Client n)) (k : Client n)
        (c c' : Consumption n) (u : Usage n) (o : Option (Reservation n))
        → k.reservation ≡ o
        → used_of n dim c'.workflow ≡ used_of n dim c.workflow + usage_of n dim u
        → held_of n dim c'.workflow
          ≡ held_of n dim c.workflow
            - amount n dim (reservation_or n d o)
            + retained n d dim (reservation_or n d o) u
        → PoolStep limit
            (overrun n d dim o u)
            (pool_of n dim (record { consumption = c; clients = xs ++ (k ∷ ys) }))
            (pool_of n dim (record {
              consumption = c';
              clients = xs ++ ((record k { reservation = none }) ∷ ys);
            }))
    record_step dim limit xs ys k c c' u none holds more less =
        charge_step dim limit xs ys k (record k { reservation = none }) c c'
          (amount n dim (reservation_or n d none)) (usage_of n dim u)
          (retained n d dim (reservation_or n d none) u) more less (ap (claim_of n dim) holds) refl
          (retained-default dim u)
    record_step dim limit xs ys k c c' u (some v) holds more less =
        settle_step dim limit xs ys k (record k { reservation = none }) c c' (amount n dim v)
          (usage_of n dim u) (retained n d dim v u) more less (ap (claim_of n dim) holds) refl
          (retained_bound dim v u)

    release_step :
        (dim : Dimension) (limit : Option ℕ) (xs ys : List (Client n)) (k : Client n)
        (c : Consumption n) (o : Option (Reservation n))
        → k.reservation ≡ o
        → PoolStep limit 0 (pool_of n dim (record { consumption = c; clients = xs ++ (k ∷ ys) })) (
            pool_of n dim (record {
              consumption = release n d k.budget o c;
              clients = xs ++ ((record k { reservation = none }) ∷ ys);
            }))
    unfolding release
    release_step dim limit xs ys k c none holds =
        step_between limit 0 0 _ _ _ _ refl
          (pool_eq _ _ _ _ _ _ refl refl (
            claims_at dim xs ys k
            ∙ ap (λ z. claims_of n dim xs ++ (z ∷ claims_of n dim ys)) (ap (claim_of n dim) holds)
            ∙ sym (claims_at dim xs ys (record k { reservation = none }))))
          refl (stay _)
    release_step dim limit xs ys k c (some v) holds =
        let at = at-release n d k.budget v c workflow_level in
        let (same, less) = used-release n d v (load_state n k.budget c).workflow dim in
        step_between limit _ _ _ _ _ _ (omega arith) refl refl (
          settle_step dim limit xs ys k (record k { reservation = none }) c
            (release n d k.budget (some v) c) (amount n dim v) 0 0
            (used_from k.budget c (release n d k.budget (some v) c) dim 0
              (omega (arith, ap (used n dim) at, same)))
            (held_from k.budget c (release n d k.budget (some v) c) dim (amount n dim v) 0
              (omega (arith, ap (held n dim) at, less)))
            (ap (claim_of n dim) holds) refl (omega arith))

    -- Every call of a client that commits (a preflight, granted or refused, a record of any usage, with
    -- or without a reservation, and a release) is a step of the pool that the ledger is for each of its
    -- counts (model invocations, input tokens and output tokens of the workflow), and what the call
    -- charges in excess of the reservation is the number of that step; where the clients enforce one
    -- limit of the workflow on the count, and sound limits.
    pub Step-PoolStep :
        (dim : Dimension) (limit : Option (BudgetLimit n)) {s t : System n}
        → All (Enforces n dim limit) s.clients
        → (step : Step n d elapsed_ms s t)
        → PoolStep
            (limit_of n d limit)
            (excess n d elapsed_ms dim step)
            (pool_of n dim s)
            (pool_of n dim t)
    unfolding excess
    Step-PoolStep dim limit enforced
          (grants xs ys k c c' estimated configured configured_attempts timestamp g v h) =
        let (same, more) =
          at-preflight n d elapsed_ms k.budget k.pricing estimated configured configured_attempts
            timestamp c g v c' h workflow_level dim in
        let enforces = All_at (Enforces n dim limit) xs ys k enforced in
        let within =
          preflight-IsWithin n d elapsed_ms laws k.budget k.pricing estimated configured
            configured_attempts timestamp c g v c' enforces.sound h workflow_level dim in
        claim_step dim (limit_of n d limit) xs ys k (record k { reservation = some v }) c c'
          (amount n dim v) (used_from k.budget c c' dim 0 (omega (arith, same)))
          (held_from k.budget c c' dim 0 (amount n dim v) (omega (arith, more))) refl
          (rw (used_of-load k.budget c' dim, held_of-load k.budget c' dim)
            (subst
              (λ l. Fits (limit_of n d l) (
                used n dim (load_state n k.budget c').workflow
                + held n dim (load_state n k.budget c').workflow
                + 0))
              enforces.shared within))
    Step-PoolStep dim limit enforced
          (refuses clients k c c' estimated configured configured_attempts timestamp decision h) =
        let (same, same') =
          at-refused n d elapsed_ms k.budget k.pricing estimated configured configured_attempts
            timestamp c decision c' h dim in
        step_between (limit_of n d limit) 0 0 _ _ _ _ refl refl
          (pool_eq _ _ _ _ _ _ (omega (arith, used_from k.budget c c' dim 0 (omega (arith, same))))
            (omega (arith, held_from k.budget c c' dim 0 0 (omega (arith, same')))) refl)
          (stay (pool_of n dim (record { consumption = c; clients = clients })))
    Step-PoolStep dim limit enforced (records xs ys k c c' u timestamp charged h) =
        let v = reservation_or n d k.reservation in
        let (more, less) =
          at-record_usage n d elapsed_ms k.budget k.pricing v u timestamp c charged c'
            (record_usage_or n d elapsed_ms k.budget k.pricing k.reservation u timestamp c ∙ h)
            dim in
        record_step dim (limit_of n d limit) xs ys k c c' u k.reservation refl
          (used_from k.budget c c' dim (usage_of n dim u) more)
          (held_from k.budget c c' dim (amount n dim v) (retained n d dim v u) less)
    Step-PoolStep dim limit enforced (releases xs ys k c) =
        release_step dim (limit_of n d limit) xs ys k c k.reservation refl
