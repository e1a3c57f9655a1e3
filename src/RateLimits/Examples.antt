-- ===== src/RateLimits/Examples.antt =====
-- The pacing at a concrete coordinator, with natural numbers of milliseconds as instants.
use agent_engineering_platfo.Prelude.{
  ℕ, ◌+◌, ◌-◌, ◌*◌, ◌≤◌, ◌≡◌, refl, true, false, some, none, [], ◌∷◌, arith, ltb, leb, nat_eq,
  if◌then◌else◌,
}
use agent_engineering_platfo.Dag.Graph.{pos}
use agent_engineering_platfo.RateLimits.Coordinator.{
  Clock, Coordinator, AdmissionDecision, admit, decide, eligible, observe_throttle,
}
use agent_engineering_platfo.Action.{ok}
use agent_engineering_platfo.RateLimits.Waiting.{Absorbing, refused_then_admitted}
use agent_engineering_platfo.RateLimits.Pacing.{Ordered, throttle, observe, admit_paced}

abbrev clock : Clock
clock = record {
  Time = ℕ;
  origin = 0;
  plus = λ t u. t + u;
  minus = λ t u. t - u;
  maximum = λ t u. if leb t u then u else t;
  before = ltb;
  is_origin = λ t. nat_eq t 0;
  minutes = λ n d. n * 60000;
  delay_ms = λ t. t;
}

order : Ordered clock
order = record {
  le = λ t u. t ≤ u;
  le_trans = λ t u v h k. omega (arith, h, k);
  le_maximum_left = λ t u. ground arith;
  le_maximum_right = λ t u. ground arith;
}

-- One request and one token in a minute.
abbrev coordinator : Coordinator clock
coordinator = record {
  requests_per_minute = 1;
  tokens_per_minute = 1;
  next_request_at = 0;
  next_token_at = 0;
  blocked_until = 0;
  latest_reservation_id = 0;
}

abbrev first : AdmissionDecision clock
first = record {
  admitted = true;
  delay_ms = 0;
  eligible_at = 5;
  estimated_input_tokens = pos 1;
  reserved_tokens = 1;
  reservation_id = some 1;
}

abbrev second : AdmissionDecision clock
second = record {
  admitted = true;
  delay_ms = 59996;
  eligible_at = 60005;
  estimated_input_tokens = pos 1;
  reserved_tokens = 1;
  reservation_id = some 2;
}

admit_paced_example : order.le (clock.plus 5 (clock.minutes 1 1)) 60005
unfolding admit decide eligible observe observe_throttle
admit_paced_example =
    admit_paced clock order 5 10 9 100000 (pos 1) (pos 0) (pos 1) (pos 0) (throttle 7 ∷ []) first
      second coordinator refl refl refl

-- A coordinator that has just admitted a request.
abbrev busy : Coordinator clock
busy = record coordinator { next_request_at = 60005 }

abbrev refused : AdmissionDecision clock
refused = record {
  admitted = false;
  delay_ms = 59995;
  eligible_at = 60005;
  estimated_input_tokens = pos 1;
  reserved_tokens = 1;
  reservation_id = none;
}

absorbing : Absorbing clock order
unfolding order
absorbing = record { maximum_absorbs = λ t u h. ground arith }

refused_then_admitted_example :
    (d : AdmissionDecision clock) × (((admit clock 60010 70000
          (pos 1)
          (pos 0)
          (admit clock 10 20 (pos 1) (pos 0) busy).1).0
        ≡ ok d)
      × ((d.admitted ≡ true) × (d.eligible_at ≡ 60010)))
unfolding admit decide eligible order
refused_then_admitted_example =
    refused_then_admitted clock order absorbing 10 20 60010 70000 (pos 1) (pos 0) refused busy refl
      refl (omega arith) refl
