-- ===== src/Budgets/Fits.antt =====
-- src/aep/execution_budgets.py: counts that fit a limit, and the attempts and shares of a reservation.
use native.Mathlib.Nat.{
  le-div_iff_mul-le, le-max_left, min-le_left, min-le_right, mul_comm, mul-le-mul_left,
}
use agent_engineering_platfo.Prelude.{
  ℕ, zero, suc, ◌*◌, ◌/◌, ◌≤◌, ◌≡◌, refl, false, Option, none, some, arith, leb, max, min,
}
use agent_engineering_platfo.Budgets.Plan.{
  least, or_value, first_attempts, input_attempts, output_attempts, output_share, total_output,
}

-- An amount is no more than what remains, where that is limited.
abbrev pub Fits : Option ℕ → ℕ → Type 0
Fits none x = Unit
Fits (some r) x = x ≤ r

pub Fits-least : (a b : Option ℕ) (x : ℕ) → Fits a x → Fits b x → Fits (least a b) x
Fits-least none b x p q = q
Fits-least (some a) none x p q = p
Fits-least (some a) (some b) x p q = ground arith

pub Fits-both : (a b : Option ℕ) (x : ℕ) → Fits (least a b) x → Fits a x × Fits b x
Fits-both none b x p = (tt, p)
Fits-both (some a) none x p = (p, tt)
Fits-both (some a) (some b) x p = ground arith

pub Fits-less : (a : Option ℕ) (x y : ℕ) → x ≤ y → Fits a y → Fits a x
Fits-less none x y l p = tt
Fits-less (some r) x y l p = omega arith

-- A number of attempts that what remains allows.
pub record IsAllowed (allowance input output : Option ℕ) (estimated k : ℕ) : Type 0 where
  pub positive : 1 ≤ k
  pub invocations : Fits allowance k
  pub inputs : Fits input (estimated * k)
  pub outputs : Fits output k

pub first_attempts-lem :
    (configured allowance : Option ℕ)
    → Fits allowance 1
    → (1 ≤ first_attempts configured allowance)
      × Fits allowance (first_attempts configured allowance)
unfolding first_attempts
first_attempts-lem (some k) none h = ground arith
first_attempts-lem (some k) (some a) h = ground arith
first_attempts-lem none (some a) h = ground arith
first_attempts-lem none none h = (omega arith, tt)

-- A share of what remains, where one is left.
share_le : (r e x : ℕ) → 1 ≤ e → e ≤ r → x ≤ max 1 (r / e) → x * e ≤ r
share_le r e x p q h =
    let left : 1 ≤ r / e = (le-div_iff_mul-le p).1 (omega arith) in
    (le-div_iff_mul-le p).0 (ground arith)

or_value_zero : (y : ℕ) → or_value (some y) 0 ≡ y
or_value_zero zero = refl
or_value_zero (suc y) = refl

share_bound : (o c : ℕ) → 1 ≤ c → max 1 (min o c) ≤ c
share_bound o c h = ground arith

pub output_share-Fits :
    (remaining configured before : Option ℕ) (k : ℕ)
    → 1 ≤ k
    → Fits remaining k
    → Fits remaining (total_output remaining k (output_share remaining configured k before))
unfolding output_share
output_share-Fits none configured before k p h = tt
output_share-Fits (some r) configured before k p h = rw or_value_zero (
    share_le r k _ p h
      (share_bound (or_value configured (max 1 (r / k))) _ (le-max_left 1 (r / k))))

pub input_attempts-lem :
    (input : Option ℕ) (estimated k : ℕ)
    → 1 ≤ estimated
    → 1 ≤ k
    → Fits input estimated
    → (1 ≤ input_attempts input estimated k)
      × (input_attempts input estimated k ≤ k)
      × Fits input (estimated * input_attempts input estimated k)
input_attempts-lem none estimated k e p h = (p, omega arith, tt)
input_attempts-lem (some r) estimated k e p h = (
  ground arith,
  min-le_left k _,
  rw (mul_comm estimated (min k (max 1 (r / estimated))))
      (share_le r estimated _ e h (min-le_right k _)),
)

pub output_attempts-lem :
    (output : Option ℕ) (k : ℕ)
    → 1 ≤ k
    → Fits output 1
    → (1 ≤ output_attempts output k)
      × (output_attempts output k ≤ k)
      × Fits output (output_attempts output k)
output_attempts-lem none k p h = (p, omega arith, tt)
output_attempts-lem (some r) k p h = ground arith

pub fewer-IsAllowed :
    (allowance input output : Option ℕ) (estimated j k : ℕ)
    → 1 ≤ j
    → j ≤ k
    → IsAllowed allowance input output estimated k
    → IsAllowed allowance input output estimated j
fewer-IsAllowed allowance input output estimated j k p l h = record {
  positive = p;
  invocations = Fits-less allowance j k l h.invocations;
  inputs = Fits-less input (estimated * j) (estimated * k) (mul-le-mul_left estimated l) h.inputs;
  outputs = Fits-less output j k l h.outputs;
}

pub fewer_le : (a k : ℕ) → 1 ≤ k → leb k a ≡ false → max 1 a ≤ k
fewer_le a k p h = ground arith
