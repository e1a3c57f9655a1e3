-- ===== src/Text/Slices.antt =====
-- Lemmas on the parts of a list.
use agent_engineering_platfo.Prelude.{
  ℕ, zero, suc, ◌-◌, ◌+◌, ◌≤◌, ◌≡◌, refl, ap, List, [], ◌∷◌, ◌++◌, arith, length,
}
use agent_engineering_platfo.Text.{take, drop, get_elem?}

zero_add : (m : ℕ) → 0 + m ≡ m
zero_add m = omega arith

add_zero : (m : ℕ) → suc m + 0 ≡ suc m
add_zero m = omega arith

suc_add : (n m : ℕ) → suc n + m ≡ suc (n + m)
suc_add n m = omega arith

module _ {ℓ} {A : Type ℓ} where
  pub length-take : (n : ℕ) (t : List A) → n ≤ length t → length (take n t) ≡ n
  unfolding take
  length-take zero t h = refl
  length-take (suc n) [] h = absurd (omega arith)
  length-take (suc n) (x ∷ t) h = ap suc (length-take n t (omega arith))

  pub length-drop : (n : ℕ) (t : List A) → length (drop n t) ≡ length t - n
  unfolding drop
  length-drop zero t = omega arith
  length-drop (suc n) [] = omega arith
  length-drop (suc n) (x ∷ t) = omega (arith, length-drop n t)

  pub take-append_drop : (n : ℕ) (t : List A) → take n t ++ drop n t ≡ t
  unfolding take drop
  take-append_drop zero t = refl
  take-append_drop (suc n) [] = refl
  take-append_drop (suc n) (x ∷ t) = ap (x ∷◌) (take-append_drop n t)

  pub take_all : (n : ℕ) (t : List A) → length t ≤ n → take n t ≡ t
  unfolding take
  take_all zero [] h = refl
  take_all zero (x ∷ t) h = absurd (omega arith)
  take_all (suc n) [] h = refl
  take_all (suc n) (x ∷ t) h = ap (x ∷◌) (take_all n t (omega arith))

  pub drop-drop : (n m : ℕ) (t : List A) → drop m (drop n t) ≡ drop (n + m) t
  unfolding drop
  drop-drop zero m t = cc (zero_add m)
  drop-drop (suc n) zero [] = rw (add_zero n) refl
  drop-drop (suc n) (suc m) [] = rw (suc_add n (suc m)) refl
  drop-drop (suc n) m (x ∷ t) = rw (suc_add n m) (drop-drop n m t)

  pub drop-append : (n : ℕ) (t u : List A) → length t ≡ n → drop n (t ++ u) ≡ u
  unfolding drop
  drop-append zero [] u h = refl
  drop-append zero (x ∷ t) u h = absurd (omega arith)
  drop-append (suc n) [] u h = absurd (omega arith)
  drop-append (suc n) (x ∷ t) u h = drop-append n t u (omega arith)

  pub take-append : (n : ℕ) (t u : List A) → length t ≡ n → take n (t ++ u) ≡ t
  unfolding take
  take-append zero [] u h = refl
  take-append zero (x ∷ t) u h = absurd (omega arith)
  take-append (suc n) [] u h = absurd (omega arith)
  take-append (suc n) (x ∷ t) u h = ap (x ∷◌) (take-append n t u (omega arith))

  pub drop_all : (n : ℕ) (t : List A) → length t ≤ n → drop n t ≡ []
  unfolding drop
  drop_all zero [] h = refl
  drop_all zero (x ∷ t) h = absurd (omega arith)
  drop_all (suc n) [] h = refl
  drop_all (suc n) (x ∷ t) h = drop_all n t (omega arith)

  pub get_elem?-drop : (n i : ℕ) (t : List A) → get_elem? (drop n t) i ≡ get_elem? t (n + i)
  unfolding drop get_elem?
  get_elem?-drop zero i t = cc (zero_add i)
  get_elem?-drop (suc n) i [] = refl
  get_elem?-drop (suc n) i (x ∷ t) = rw (suc_add n i) (get_elem?-drop n i t)
