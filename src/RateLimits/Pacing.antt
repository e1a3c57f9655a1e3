-- ===== src/RateLimits/Pacing.antt =====
-- Admitted requests are paced (src/aep/model_rate_limits.py).
use mathlib.Core.Path.{subst}
use agent_engineering_platfo.Prelude.{
  ℕ, ◌≡◌, refl, sym, ap, ◌∙◌, Bool, true, false, ◌||◌, Option, List, [], ◌∷◌, Bool-cases, inl, inr,
  if◌then◌else◌,
}
use agent_engineering_platfo.Action.{ok}
use agent_engineering_platfo.Dag.Graph.{ℤ}
use agent_engineering_platfo.RateLimits.Coordinator.{
  Clock, Coordinator, AdmissionDecision, admit, checked, decide, eligible, observe_success,
  observe_throttle, is_negative, is_latest, add, at_least_one,
}

-- What the pacing relies on: an order for which a maximum is not below its arguments.
pub record Ordered (c : Clock) : Type 1 where
  pub le : c.Time → c.Time → Type 0
  pub le_trans : (t u v : c.Time) → le t u → le u v → le t v
  pub le_maximum_left : (t u : c.Time) → le t (c.maximum t u)
  pub le_maximum_right : (t u : c.Time) → le u (c.maximum t u)

module _ (c : Clock) where
  -- What may come between two admissions.
  pub data Observation : Type 0 where
    success : ℤ → ℤ → ℤ → Option ℕ → Observation
    throttle : c.Time → Observation

  unfoldable pub observe : List Observation → Coordinator c → Coordinator c
  observe [] s = s
  observe (success r i o id ∷ os) s = observe os (observe_success c r i o id s)
  observe (throttle t ∷ os) s = observe os (observe_throttle c t s)

  observe_success_request :
      (r i o : ℤ) (id : Option ℕ) (s : Coordinator c)
      → (observe_success c r i o id s).next_request_at ≡ s.next_request_at
  unfolding observe_success
  observe_success_request r i o id s =
      if_request _ s _ refl (if_request (is_latest c id s) _ s refl refl)
    where
      if_request :
          (b : Bool) (x y : Coordinator c)
          → x.next_request_at ≡ s.next_request_at
          → y.next_request_at ≡ s.next_request_at
          → (if b then x else y).next_request_at ≡ s.next_request_at
      if_request true x y hx hy = hx
      if_request false x y hx hy = hy

  observe_request :
      (os : List Observation) (s : Coordinator c)
      → (observe os s).next_request_at ≡ s.next_request_at
  unfolding observe observe_throttle
  observe_request [] s = refl
  observe_request (success r i o id ∷ os) s =
      observe_request os (observe_success c r i o id s) ∙ observe_success_request r i o id s
  observe_request (throttle t ∷ os) s = observe_request os (observe_throttle c t s)

  admit_decides :
      (now deadline : c.Time) (e o : ℤ) (d : AdmissionDecision c) (s : Coordinator c)
      → (admit c now deadline e o s).0 ≡ ok d
      → let r = decide c now deadline e (at_least_one (add e o)) s in
        (r.0 ≡ d) × ((admit c now deadline e o s).1 ≡ r.1)
  unfolding admit
  admit_decides now deadline e o d s =
      choose (is_negative e || is_negative o) (decide c now deadline e (at_least_one (add e o)) s)
    where
      choose :
          (b : Bool) (r : AdmissionDecision c × Coordinator c)
          → (checked c b r s).0 ≡ ok d
          → (r.0 ≡ d) × ((checked c b r s).1 ≡ r.1)
      choose true r h = absurd (cc)
      choose false r h = (cc, refl)

  -- A decision is for the instant of eligibility, and where it admits, the next request waits for the
  -- interval after it.
  decide_interval :
      (now deadline : c.Time) (e : ℤ) (demand : ℕ) (s : Coordinator c)
      → let r = decide c now deadline e demand s in
        (r.0.eligible_at ≡ eligible c now s)
        × (r.0.admitted ≡ true
            → r.1.next_request_at ≡ c.plus (eligible c now s) (c.minutes 1 s.requests_per_minute))
  unfolding decide eligible
  decide_interval now deadline e demand s =
      elim (Bool-cases (c.before (eligible c now s) deadline)) [
        | inl before ↦ (rw (before, decide) refl, rw (before, decide) λ h. refl)
        | inr late ↦ (rw (late, decide) refl, rw (late, decide) λ h. absurd (cc))
      ]

  module _ (order : Ordered c) where
    eligible_after :
        (now : c.Time) (s : Coordinator c) → order.le s.next_request_at (eligible c now s)
    unfolding eligible
    eligible_after now s = order.le_trans _ _ _ (order.le_maximum_right now s.next_request_at) (
        order.le_trans _ _ _ (order.le_maximum_left _ s.next_token_at)
          (order.le_maximum_left _ s.blocked_until))

    -- Between two admitted requests lies at least the interval that the request limit allows, whatever
    -- successes and throttles are observed between them.
    pub admit_paced :
        (now deadline later end' : c.Time) (e o e' o' : ℤ) (os : List Observation)
        (first second : AdmissionDecision c) (s : Coordinator c)
        → (admit c now deadline e o s).0 ≡ ok first
        → first.admitted ≡ true
        → (admit c later end' e' o' (observe os (admit c now deadline e o s).1)).0 ≡ ok second
        → order.le (c.plus first.eligible_at (c.minutes 1 s.requests_per_minute)) second.eligible_at
    admit_paced now deadline later end' e o e' o' os first second s done ok_first again =
        let s1 = (admit c now deadline e o s).1 in
        let (granted, after) = admit_decides now deadline e o first s done in
        let (at, next) = decide_interval now deadline e (at_least_one (add e o)) s in
        let (granted', after') = admit_decides later end' e' o' second (observe os s1) again in
        let (at', next') =
          decide_interval later end' e' (at_least_one (add e' o')) (observe os s1) in
        let reserved : s1.next_request_at
            ≡ c.plus first.eligible_at (c.minutes 1 s.requests_per_minute) =
          ap (λ x. x.next_request_at) after
          ∙ next (ap (λ x. x.admitted) granted ∙ ok_first)
          ∙ ap (λ t. c.plus t (c.minutes 1 s.requests_per_minute))
              (sym at ∙ ap (λ x. x.eligible_at) granted) in
        subst (λ t. order.le t second.eligible_at) (observe_request os s1 ∙ reserved)
          (subst (λ t. order.le (observe os s1).next_request_at t)
            (sym at' ∙ ap (λ x. x.eligible_at) granted') (eligible_after later (observe os s1)))
