-- ===== src/Action.antt =====
-- Methods that read and write an object and may raise. What was written before a raise stays
-- written, so the state comes back beside the error too.
use agent_engineering_platfo.Prelude.{◌≡◌, refl, Bool, true, false, String}

-- The exception classes, without their messages.
pub data Error : Type 0 where
  value_error type_error key_error not_found already_exists immutable status_conflict : Error
  store_error invalid_transition retry_not_allowed invalid_reference correlation_error : Error
  identity_conflict index_error : Error
  approval_error : String → Error
  unauthorized : Error

pub data Result {ℓ} (A : Type ℓ) : Type ℓ where
  ok : A → Result A
  err : Error → Result A

abbrev pub Action {ℓ} : Type ℓ → Type ℓ → Type ℓ
Action S A = S → Result A × S

module _ {ℓ} {S A : Type ℓ} where
  unfoldable pub pure : A → Action S A
  pure a s = (ok a, s)

  unfoldable pub raise : Error → Action S A
  raise e s = (err e, s)

  -- A pure computation that may raise.
  unfoldable pub lift : Result A → Action S A
  lift r s = (r, s)

  -- `if b: m` `else: n`
  unfoldable pub branch : Bool → Action S A → Action S A → Action S A
  branch true m n = m
  branch false m n = n

unfoldable pub read {ℓ} : {S : Type ℓ} → Action S S
read s = (ok s, s)

unfoldable pub guard {ℓ} : {S : Type ℓ} → Bool → Error → Action S (Unit {ℓ})
guard true e s = (ok tt, s)
guard false e s = (err e, s)

module _ {ℓ} {S A B : Type ℓ} where
  abbrev pub and_then : Result A × S → (A → Action S B) → Result B × S
  and_then (ok a, s) f = f a s
  and_then (err e, s) f = (err e, s)

  infixl 5 ◌>>=◌ ◌>>◌
  unfoldable pub ◌>>=◌ : Action S A → (A → Action S B) → Action S B
  unfolding pure raise lift read guard branch
  ◌>>=◌ m f s = and_then (m s) f

  abbrev pub ◌>>◌ : Action S A → Action S B → Action S B
  m >> n = m >>= λ _. n

-- Rules for what holds of the state after an action, whether it returns or raises.
module _ {ℓ κ} {S A B : Type ℓ} (P : S → Type κ) where
  pub bind_rule :
      (m : Action S A) (f : A → Action S B) (s : S)
      → ((e : Error) → (m s).0 ≡ err e → P (m s).1)
      → ((a : A) → (m s).0 ≡ ok a → P (f a (m s).1).1)
      → P ((m >>= f) s).1
  unfolding ◌>>=◌
  bind_rule m f s raised returned = go (m s) raised returned
    where
      go :
          (r : Result A × S)
          → ((e : Error) → r.0 ≡ err e → P r.1)
          → ((a : A) → r.0 ≡ ok a → P (f a r.1).1)
          → P (and_then r f).1
      go (ok a, t) raised returned = returned a refl
      go (err e, t) raised returned = raised e refl

module _ {ℓ κ} {S A B : Type ℓ} (P : S → Type κ) where
  -- The same where the first part keeps what holds.
  pub then_rule :
      (m : Action S A) (f : A → Action S B) (s : S)
      → P (m s).1
      → ((a : A) → P (f a (m s).1).1)
      → P ((m >>= f) s).1
  then_rule m f s after next = bind_rule P m f s (λ _ _. after) (λ a _. next a)

  -- A pure part changes no state.
  pub lift_rule :
      (r : Result A) (f : A → Action S B) (s : S)
      → P s
      → ((a : A) → r ≡ ok a → P (f a s).1)
      → P ((lift r >>= f) s).1
  unfolding ◌>>=◌
  lift_rule (ok a) f s here next = next a refl
  lift_rule (err e) f s here next = here

module _ {ℓ κ} {S B : Type ℓ} (P : S → Type κ) where
  pub guard_rule :
      (b : Bool) (e : Error) (f : Unit {ℓ} → Action S B) (s : S)
      → P s
      → (b ≡ true → P (f tt s).1)
      → P ((guard b e >>= f) s).1
  unfolding ◌>>=◌
  guard_rule true e f s here next = next refl
  guard_rule false e f s here next = here

  pub pure_rule : (b : B) (s : S) → P s → P (pure b s).1
  unfolding pure
  pure_rule b s here = here

  pub read_rule : (f : S → Action S B) (s : S) → P (f s s).1 → P ((read >>= f) s).1
  unfolding ◌>>=◌
  read_rule f s next = next

  pub branch_rule :
      (b : Bool) (m n : Action S B) (s : S)
      → (b ≡ true → P (m s).1)
      → (b ≡ false → P (n s).1)
      → P (branch b m n s).1
  unfolding branch
  branch_rule true m n s when unless = when refl
  branch_rule false m n s when unless = unless refl

module _ {ℓ κ} {S : Type ℓ} (P : S → Type κ) where
  pub guard_last_rule : (b : Bool) (e : Error) (s : S) → P s → P (guard {ℓ} b e s).1
  unfolding guard
  guard_last_rule true e s here = here
  guard_last_rule false e s here = here

  pub raise_rule : (A : Type ℓ) (e : Error) (s : S) → P s → P (raise {A = A} e s).1
  unfolding raise
  raise_rule A e s here = here

-- Rules for what holds of an action's outcome, its result and the state after it.
module _ {ℓ κ} {S B : Type ℓ} (Q : Result B × S → Type κ) where
  pub guard_case :
      (b : Bool) (e : Error) (f : Unit {ℓ} → Action S B) (s : S)
      → (b ≡ false → Q (err e, s))
      → (b ≡ true → Q (f tt s))
      → Q ((guard b e >>= f) s)
  unfolding ◌>>=◌
  guard_case true e f s failed passed = passed refl
  guard_case false e f s failed passed = failed refl

  pub read_case : (f : S → Action S B) (s : S) → Q (f s s) → Q ((read >>= f) s)
  unfolding ◌>>=◌
  read_case f s next = next

  pub branch_case :
      (b : Bool) (m n : Action S B) (s : S)
      → (b ≡ true → Q (m s))
      → (b ≡ false → Q (n s))
      → Q (branch b m n s)
  unfolding branch
  branch_case true m n s when unless = when refl
  branch_case false m n s when unless = unless refl

module _ {ℓ κ} {S A B : Type ℓ} (Q : Result B × S → Type κ) where
  pub lift_case :
      (r : Result A) (f : A → Action S B) (s : S)
      → ((e : Error) → r ≡ err e → Q (err e, s))
      → ((a : A) → r ≡ ok a → Q (f a s))
      → Q ((lift r >>= f) s)
  unfolding ◌>>=◌
  lift_case (ok a) f s failed passed = passed a refl
  lift_case (err e) f s failed passed = failed e refl

-- Any first step, from its own outcome.
module _ {ℓ κ} {S A B : Type ℓ} (Q : Result B × S → Type κ) where
  outcome_case :
      (f : A → Action S B) (r : Result A × S)
      → ((e : Error) (t : S) → r ≡ (err e, t) → Q (err e, t))
      → ((a : A) (t : S) → r ≡ (ok a, t) → Q (f a t))
      → Q (and_then r f)
  outcome_case f (ok a, t) refused next = next a t refl
  outcome_case f (err e, t) refused next = refused e t refl

  pub step_case :
      (m : Action S A) (f : A → Action S B) (s : S)
      → ((e : Error) (t : S) → m s ≡ (err e, t) → Q (err e, t))
      → ((a : A) (t : S) → m s ≡ (ok a, t) → Q (f a t))
      → Q ((m >>= f) s)
  unfolding ◌>>=◌
  step_case m f s refused next = outcome_case f (m s) refused next

-- What a sequence comes to, where its first step is known.
module _ {ℓ} {S A B : Type ℓ} (f : A → Action S B) (s : S) where
  pub bind_ok : (m : Action S A) (a : A) (t : S) → m s ≡ (ok a, t) → (m >>= f) s ≡ f a t
  unfolding ◌>>=◌
  bind_ok m a t h = rw h refl

  pub lift_ok : (r : Result A) (a : A) → r ≡ ok a → (lift r >>= f) s ≡ f a s
  unfolding ◌>>=◌
  lift_ok r a h = rw h refl
