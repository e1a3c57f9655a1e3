-- ===== src/RateLimits/Waiting.antt =====
-- A request that was refused is admitted once its wait is over (src/aep/model_rate_limits.py).
use agent_engineering_platfo.Prelude.{ℕ, ◌≡◌, refl, sym, ap, ◌∙◌, Bool, true, false, ◌||◌}
use agent_engineering_platfo.Action.{ok}
use agent_engineering_platfo.Dag.Graph.{ℤ}
use agent_engineering_platfo.RateLimits.Coordinator.{
  Clock, Coordinator, AdmissionDecision, admit, checked, decide, eligible, is_negative, add,
  at_least_one,
}
use agent_engineering_platfo.RateLimits.Pacing.{Ordered}

-- Beyond the order, the wait relies on a maximum that is its first argument where the second one is
-- not above it.
pub record Absorbing (c : Clock) (o : Ordered c) : Type 0 where
  pub maximum_absorbs : (t u : c.Time) → o.le u t → c.maximum t u ≡ t

module _ (c : Clock) (o : Ordered c) (a : Absorbing c o) where
  -- Once no instant of the state lies ahead, a request is eligible at once.
  eligible_now :
      (now later : c.Time) (s : Coordinator c)
      → o.le (eligible c now s) later
      → eligible c later s ≡ later
  unfolding eligible
  eligible_now now later s h =
      let token =
        o.le_trans _ _ _ (o.le_maximum_right (c.maximum now s.next_request_at) s.next_token_at)
          (o.le_trans _ _ _ (o.le_maximum_left _ s.blocked_until) h) in
      let request = o.le_trans _ _ _ (o.le_maximum_right now s.next_request_at) (
        o.le_trans _ _ _ (o.le_maximum_left _ s.next_token_at)
          (o.le_trans _ _ _ (o.le_maximum_left _ s.blocked_until) h)) in
      let blocked = o.le_trans _ _ _ (o.le_maximum_right _ s.blocked_until) h in
      ap (λ t. c.maximum (c.maximum t s.next_token_at) s.blocked_until)
        (a.maximum_absorbs later s.next_request_at request)
      ∙ (ap (λ t. c.maximum t s.blocked_until) (a.maximum_absorbs later s.next_token_at token)
          ∙ a.maximum_absorbs later s.blocked_until blocked)

  -- A refusal names the instant of eligibility and changes nothing.
  refusal :
      (now deadline : c.Time) (e : ℤ) (demand : ℕ) (d : AdmissionDecision c) (s : Coordinator c)
      → (decide c now deadline e demand s).0 ≡ d
      → d.admitted ≡ false
      → (d.eligible_at ≡ eligible c now s) × ((decide c now deadline e demand s).1 ≡ s)
  unfolding decide
  refusal now deadline e demand d s made refused = go (c.before (eligible c now s) deadline) refl
    where
      go :
          (b : Bool)
          → c.before (eligible c now s) deadline ≡ b
          → (d.eligible_at ≡ eligible c now s) × ((decide c now deadline e demand s).1 ≡ s)
      go true h = absurd (cc (ap (λ r. r.admitted) (rw h at made)))
      go false h = (sym (ap (λ r. r.eligible_at) (rw h at made)), rw h refl)

  decided :
      (now deadline : c.Time) (e w : ℤ) (d : AdmissionDecision c) (s : Coordinator c)
      → (admit c now deadline e w s).0 ≡ ok d
      → ((is_negative e || is_negative w) ≡ false)
        × (((decide c now deadline e (at_least_one (add e w)) s).0 ≡ d)
            × ((admit c now deadline e w s).1
                ≡ (decide c now deadline e (at_least_one (add e w)) s).1))
  unfolding admit
  decided now deadline e w d s h = go (is_negative e || is_negative w) _ refl h
    where
      go :
          (b : Bool) (r : AdmissionDecision c × Coordinator c)
          → (is_negative e || is_negative w) ≡ b
          → (checked c b r s).0 ≡ ok d
          → ((is_negative e || is_negative w) ≡ false)
            × ((r.0 ≡ d) × ((checked c (is_negative e || is_negative w) r s).1 ≡ r.1))
      go true r n h = absurd (cc)
      go false r n h = (n, (cc, rw n refl))

  admitted_at :
      (now deadline : c.Time) (e w : ℤ) (s : Coordinator c)
      → (is_negative e || is_negative w) ≡ false
      → eligible c now s ≡ now
      → c.before now deadline ≡ true
      → (d : AdmissionDecision c) × (((admit c now deadline e w s).0 ≡ ok d)
          × ((d.admitted ≡ true) × (d.eligible_at ≡ now)))
  unfolding admit decide
  admitted_at now deadline e w s positive at early = (
    (decide c now deadline e (at_least_one (add e w)) s).0,
    (rw positive refl, (rw (at, early) refl, rw (at, early) refl)),
  )

  -- A request that was refused and comes again, with nothing between, at an instant that is not before
  -- the one it was told and that is before its new deadline, is admitted at once.
  pub refused_then_admitted :
      (now deadline later new_deadline : c.Time) (e w : ℤ) (d : AdmissionDecision c)
      (s : Coordinator c)
      → (admit c now deadline e w s).0 ≡ ok d
      → d.admitted ≡ false
      → o.le d.eligible_at later
      → c.before later new_deadline ≡ true
      → (d' : AdmissionDecision c) × (((admit c later new_deadline e w
              (admit c now deadline e w s).1).0
            ≡ ok d')
          × ((d'.admitted ≡ true) × (d'.eligible_at ≡ later)))
  refused_then_admitted now deadline later new_deadline e w d s h refused waited early =
      let (positive, (made, after)) = decided now deadline e w d s h in
      let (told, same) = refusal now deadline e (at_least_one (add e w)) d s made refused in
      let at : eligible c later s ≡ later = eligible_now now later s (rw told at waited) in
      rw (after ∙ same) (admitted_at later new_deadline e w s positive at early)
