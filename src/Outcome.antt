-- ===== src/Outcome.antt =====
-- Pure code that returns a value or raises one of its own errors.
use mathlib.Core.Path.{subst}
use agent_engineering_platfo.Prelude.{◌≡◌, refl, Bool, true, false}

pub data Outcome {ℓ} (E A : Type ℓ) : Type ℓ where
  returned : A → Outcome E A
  raised : E → Outcome E A

module _ {ℓ} {E A B : Type ℓ} where
  infixl 5 ◌>>=◌ ◌>>◌
  unfoldable pub ◌>>=◌ : Outcome E A → (A → Outcome E B) → Outcome E B
  returned a >>= f = f a
  raised e >>= f = raised e

  abbrev pub ◌>>◌ : Outcome E A → Outcome E B → Outcome E B
  m >> n = m >>= λ _. n

  -- A statement about what a sequence comes to, from its first step.
  pub bind_case {κ} :
      (Q : Outcome E B → Type κ) (m : Outcome E A) (f : A → Outcome E B)
      → ((e : E) → m ≡ raised e → Q (raised e))
      → ((a : A) → m ≡ returned a → Q (f a))
      → Q (m >>= f)
  unfolding ◌>>=◌
  bind_case Q (returned a) f failed next = next a refl
  bind_case Q (raised e) f failed next = failed e refl

-- `if not b: raise e`
unfoldable pub ensure : {E : Type 0} → Bool → E → Outcome E (Unit {0})
ensure true e = returned tt
ensure false e = raised e

pub ensure_case {κ} :
    {E B : Type 0} (Q : Outcome E B → Type κ) (b : Bool) (e : E) (f : Unit {0} → Outcome E B)
    → (b ≡ false → Q (raised e))
    → (b ≡ true → Q (f tt))
    → Q (ensure b e >>= f)
unfolding ◌>>=◌ ensure
ensure_case Q true e f failed next = next refl
ensure_case Q false e f failed next = failed refl

-- A statement about what is returned; a raise is allowed.
abbrev pub Returns {κ} : {E A : Type 0} → (A → Type κ) → Outcome E A → Type κ
Returns P (returned a) = P a
Returns P (raised e) = Unit

pub Returns-returned {κ} :
    {E A : Type 0} (P : A → Type κ) (m : Outcome E A) (a : A) → Returns P m → m ≡ returned a → P a
Returns-returned P m a h e = subst (Returns P) e h

pub Returns-imp {κ μ} :
    {E A : Type 0} (P : A → Type κ) (Q : A → Type μ) (m : Outcome E A)
    → ((a : A) → P a → Q a)
    → Returns P m
    → Returns Q m
Returns-imp P Q (returned a) f h = f a h
Returns-imp P Q (raised e) f h = tt

-- A statement about what is raised; a return is allowed.
abbrev pub Raises {κ} : {E A : Type 0} → (E → Type κ) → Outcome E A → Type κ
Raises P (returned a) = Unit
Raises P (raised e) = P e

pub Raises-raised {κ} :
    {E A : Type 0} (P : E → Type κ) (m : Outcome E A) (e : E) → Raises P m → m ≡ raised e → P e
Raises-raised P m e h eq = subst (Raises P) eq h
