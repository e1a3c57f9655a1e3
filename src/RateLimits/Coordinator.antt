-- ===== src/RateLimits/Coordinator.antt =====
-- `ProcessLocalModelAdmissionCoordinator` of src/aep/model_rate_limits.py without a state path, where
-- `_restore` and `_persist` do nothing. Its instants are floats, whose operations are parameters.
use agent_engineering_platfo.Prelude.{
  ℕ, suc, ◌+◌, ◌-◌, Bool, true, false, ◌||◌, Option, none, some, ltb, nat_eq, if◌then◌else◌,
}
use agent_engineering_platfo.Action.{Result, ok, err, value_error}
use agent_engineering_platfo.Dag.Graph.{ℤ, pos, negsuc}

-- Python's floats, as far as they are used: `maximum a b` is `max(a, b)`, `before` is `<`,
-- `minutes n d` is `n * 60 / d`, and `delay_ms t` is `max(0, round(t * 1000))`.
pub record Clock : Type 1 where
  pub Time : Type 0
  pub origin : Time
  pub plus : Time → Time → Time
  pub minus : Time → Time → Time
  pub maximum : Time → Time → Time
  pub before : Time → Time → Bool
  pub is_origin : Time → Bool
  pub minutes : ℕ → ℕ → Time
  pub delay_ms : Time → ℕ

abbrev pub add : ℤ → ℤ → ℤ
add (pos m) (pos n) = pos (m + n)
add (negsuc m) (negsuc n) = negsuc (suc (m + n))
add (pos m) (negsuc n) = if ltb m (suc n) then negsuc (n - m) else pos (m - suc n)
add (negsuc m) (pos n) = if ltb n (suc m) then negsuc (m - n) else pos (n - suc m)

abbrev pub is_negative : ℤ → Bool
is_negative (pos n) = false
is_negative (negsuc n) = true

-- max(1, n)
abbrev pub at_least_one : ℤ → ℕ
at_least_one (pos (suc n)) = suc n
at_least_one _ = 1

-- max(0, n - a)
abbrev pub excess : ℤ → ℕ → ℕ
excess (pos n) a = n - a
excess (negsuc n) a = 0

module _ (c : Clock) where
  pub record Coordinator : Type 0 where
    pub requests_per_minute : ℕ
    pub tokens_per_minute : ℕ
    pub next_request_at : c.Time
    pub next_token_at : c.Time
    pub blocked_until : c.Time
    pub latest_reservation_id : ℕ

  pub record AdmissionDecision : Type 0 where
    pub admitted : Bool
    pub delay_ms : ℕ
    pub eligible_at : c.Time
    pub estimated_input_tokens : ℤ
    pub reserved_tokens : ℕ
    pub reservation_id : Option ℕ

  -- `__init__`
  unfoldable pub make_coordinator : ℤ → ℤ → Result Coordinator
  make_coordinator (pos (suc requests)) (pos (suc tokens)) = ok (record {
    requests_per_minute = suc requests;
    tokens_per_minute = suc tokens;
    next_request_at = c.origin;
    next_token_at = c.origin;
    blocked_until = c.origin;
    latest_reservation_id = 0;
  })
  make_coordinator _ _ = err value_error

  unfoldable pub eligible : c.Time → Coordinator → c.Time
  eligible now s =
      c.maximum (c.maximum (c.maximum now s.next_request_at) s.next_token_at) s.blocked_until

  -- What `admit` decides of a demand, and the state after it.
  unfoldable pub decide : c.Time → c.Time → ℤ → ℕ → Coordinator → AdmissionDecision × Coordinator
  decide now deadline estimated demand s =
      let at = eligible now s in
      if c.before at deadline
      then (
        record {
          admitted = true;
          delay_ms = c.delay_ms (c.minus at now);
          eligible_at = at;
          estimated_input_tokens = estimated;
          reserved_tokens = demand;
          reservation_id = some (suc s.latest_reservation_id);
        },
        record s {
          latest_reservation_id = suc s.latest_reservation_id;
          next_request_at = c.plus at (c.minutes 1 s.requests_per_minute);
          next_token_at = c.plus at (c.minutes demand s.tokens_per_minute);
        },
      )
      else (
        record {
          admitted = false;
          delay_ms = c.delay_ms (c.minus at now);
          eligible_at = at;
          estimated_input_tokens = estimated;
          reserved_tokens = demand;
          reservation_id = none;
        },
        s,
      )

  -- Negative estimates raise before anything is decided.
  abbrev pub checked :
      Bool → AdmissionDecision × Coordinator → Coordinator → Result AdmissionDecision × Coordinator
  checked true r s = (err value_error, s)
  checked false r s = (ok r.0, r.1)

  unfoldable pub admit :
      c.Time → c.Time → ℤ → ℤ → Coordinator → Result AdmissionDecision × Coordinator
  admit now deadline estimated allowance s =
      checked (is_negative estimated || is_negative allowance)
        (decide now deadline estimated (at_least_one (add estimated allowance)) s) s

  unfoldable pub revalidate : c.Time → c.Time → Coordinator → AdmissionDecision
  revalidate now deadline s =
      let at = c.maximum now s.blocked_until in
      record {
        admitted = c.before at deadline;
        delay_ms = c.delay_ms (c.minus at now);
        eligible_at = at;
        estimated_input_tokens = pos 0;
        reserved_tokens = 0;
        reservation_id = none;
      }

  abbrev pub is_latest : Option ℕ → Coordinator → Bool
  is_latest none s = false
  is_latest (some id) s = nat_eq id s.latest_reservation_id

  unfoldable pub observe_success : ℤ → ℤ → ℤ → Option ℕ → Coordinator → Coordinator
  observe_success reserved actual_input actual_output id s =
      let credit =
        c.minutes (excess reserved (at_least_one (add actual_input actual_output)))
          s.tokens_per_minute in
      if c.is_origin credit
      then s
      else if is_latest id s
      then record s { next_token_at = c.maximum c.origin (c.minus s.next_token_at credit) }
      else s

  unfoldable pub observe_throttle : c.Time → Coordinator → Coordinator
  observe_throttle eligible_at s = record s {
    blocked_until = c.maximum s.blocked_until eligible_at;
  }
