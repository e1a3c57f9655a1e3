-- ===== src/Budgets/Pool.antt =====
-- What a count of the ledger of src/aep/execution_budgets.py promises, without its records: a pool of
-- units that several clients share.
use agent_engineering_platfo.Prelude.{
  ℕ, ◌+◌, ◌-◌, ◌≤◌, ◌≡◌, refl, Option, none, some, List, [], ◌∷◌, ◌++◌, All, arith, min,
}
use agent_engineering_platfo.Budgets.Fits.{Fits}

-- The units that are spent, those that are held, and the claims of the clients.
pub record Pool : Type 0 where
  pub spent : ℕ
  pub held : ℕ
  pub claims : List ℕ

-- A client claims units that the limit still allows. It settles its claim: it spends units, leaves some
-- of the claim held and gives the claim back. Or it spends units that it has no claim to, and takes some
-- off what is held. The number of a step is what it spends and takes in excess of the claim.
pub data PoolStep (limit : Option ℕ) : ℕ → Pool → Pool → Type 0 where
  stay : (p : Pool) → PoolStep limit 0 p p
  claim :
      (spent held x x' : ℕ) (xs ys : List ℕ)
      → Fits limit (spent + held + x')
      → PoolStep limit 0
          (record { spent = spent; held = held; claims = xs ++ (x ∷ ys) })
          (record { spent = spent; held = held + x'; claims = xs ++ (x' ∷ ys) })
  settle :
      (spent held x used kept : ℕ) (xs ys : List ℕ)
      → kept ≤ x
      → PoolStep limit
          (used + kept - x)
          (record { spent = spent; held = held; claims = xs ++ (x ∷ ys) })
          (record { spent = spent + used; held = held - x + kept; claims = xs ++ (0 ∷ ys) })
  charge :
      (spent held taken used : ℕ) (xs ys : List ℕ)
      → PoolStep limit
          (used + taken)
          (record { spent = spent; held = held; claims = xs ++ (0 ∷ ys) })
          (record { spent = spent + used; held = held - taken; claims = xs ++ (0 ∷ ys) })

abbrev sum : List ℕ → ℕ
sum [] = 0
sum (x ∷ xs) = x + sum xs

sum-append : (xs : List ℕ) (x : ℕ) (ys : List ℕ) → sum (xs ++ (x ∷ ys)) ≡ sum xs + (x + sum ys)
sum-append [] x ys = omega arith
sum-append (w ∷ xs) x ys = omega (arith, sum-append xs x ys)

abbrev pub extended : Option ℕ → ℕ → Option ℕ
extended none e = none
extended (some r) e = some (r + e)

-- After steps with an excess of `e`: the claims are held but for at most `e` units, and what is spent
-- and held passes the limit by at most `e`.
pub record IsSolvent (limit : Option ℕ) (e : ℕ) (p : Pool) : Type 0 where
  pub covered : sum p.claims ≤ p.held + e
  pub kept : Fits (extended limit e) (p.spent + p.held)

-- The same, with the units that are claimed and not held.
pub record IsBalanced (limit : Option ℕ) (e : ℕ) (p : Pool) : Type 0 where
  missing : ℕ
  covered : sum p.claims ≤ p.held + missing
  bounded : missing ≤ e
  kept : Fits (extended limit e) (p.spent + p.held + missing)

Fits-below :
    (limit : Option ℕ) (d e x y : ℕ)
    → x + d ≤ y + e
    → Fits (extended limit d) y
    → Fits (extended limit e) x
Fits-below none d e x y l h = tt
Fits-below (some r) d e x y l h = omega arith

Fits-extended :
    (limit : Option ℕ) (e x y : ℕ) → y ≤ x + e → Fits limit x → Fits (extended limit e) y
Fits-extended none e x y l h = tt
Fits-extended (some r) e x y l h = omega arith

pub IsBalanced-IsSolvent :
    (limit : Option ℕ) (e : ℕ) (p : Pool) → IsBalanced limit e p → IsSolvent limit e p
IsBalanced-IsSolvent limit e p h = record {
  covered = omega (arith, h.covered, h.bounded);
  kept =
      Fits-below limit e e (p.spent + p.held) (p.spent + p.held + h.missing) (omega arith) h.kept;
}

pub PoolStep-IsBalanced :
    (limit : Option ℕ) (d e : ℕ) {p q : Pool}
    → PoolStep limit e p q
    → IsBalanced limit d p
    → IsBalanced limit (d + e) q
PoolStep-IsBalanced limit d e (stay p) h = record {
  missing = h.missing;
  covered = h.covered;
  bounded = omega (arith, h.bounded);
  kept =
      Fits-below limit d (d + 0) (p.spent + p.held + h.missing) (p.spent + p.held + h.missing)
        (omega arith) h.kept;
}
PoolStep-IsBalanced limit d e (claim spent held x x' xs ys allowed) h = record {
  missing = h.missing;
  covered = omega (arith, sum-append xs x ys, sum-append xs x' ys, h.covered);
  bounded = omega (arith, h.bounded);
  kept =
      Fits-extended limit (d + 0) (spent + held + x') (spent + (held + x') + h.missing)
        (omega (arith, h.bounded)) allowed;
}
PoolStep-IsBalanced limit d e (settle spent held x used kept xs ys l) h = record {
  missing = h.missing - (x - held);
  covered = omega (arith, sum-append xs x ys, sum-append xs 0 ys, h.covered);
  bounded = omega (arith, h.bounded);
  kept =
      Fits-below limit d (d + (used + kept - x))
        (spent + used + (held - x + kept) + (h.missing - (x - held))) (spent + held + h.missing)
        (omega (arith, sum-append xs x ys, h.covered)) h.kept;
}
PoolStep-IsBalanced limit d e (charge spent held taken used xs ys) h = record {
  missing = h.missing + min taken held;
  covered = omega (arith, h.covered);
  bounded = omega (arith, h.bounded);
  kept =
      Fits-below limit d (d + (used + taken))
        (spent + used + (held - taken) + (h.missing + min taken held)) (spent + held + h.missing)
        (omega arith) h.kept;
}

sum-none : (xs : List ℕ) → All (λ x. x ≡ 0) xs → sum xs ≡ 0
sum-none [] h = refl
sum-none (x ∷ xs) h = omega (arith, h.0, sum-none xs h.1)

Fits-zero : (limit : Option ℕ) → Fits (extended limit 0) 0
Fits-zero none = tt
Fits-zero (some r) = omega arith

-- A pool that nothing was taken from is balanced.
pub idle-IsBalanced :
    (limit : Option ℕ) (claims : List ℕ)
    → All (λ x. x ≡ 0) claims
    → IsBalanced limit 0 (record { spent = 0; held = 0; claims = claims })
idle-IsBalanced limit claims h = record {
  missing = 0;
  covered = omega (arith, sum-none claims h);
  bounded = omega arith;
  kept = Fits-zero limit;
}
