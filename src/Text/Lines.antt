-- ===== src/Text/Lines.antt =====
-- The first line of a text, from the place of its newline.
use agent_engineering_platfo.Prelude.{
  ℕ, zero, suc, ◌-◌, ◌<◌, ◌≡◌, refl, Bool, true, false, ◌&&◌, Option, none, some, List, [], ◌∷◌,
  arith, nat_eq, ltb, length, if◌then◌else◌, Bool-cases, ◌⊎◌, inl, inr, ◌≢◌,
}
use agent_engineering_platfo.Text.{
  take, drop, get_elem?, index_of, char_is, split_lines, put, shifted, lf, cr,
}

-- The end of the line before the newline at `k`.
abbrev pub before_newline : ℕ → List ℕ → ℕ
before_newline k t = if ltb 0 k && char_is cr (get_elem? t (k - 1)) then k - 1 else k

pub nat_cases : (x y : ℕ) → (x ≡ y) ⊎ (x ≢ y)
nat_cases x y = elim (Bool-cases (nat_eq x y)) [
  | inl e ↦ inl (ground arith)
  | inr e ↦ inr (ground arith)
]

abbrev FirstAt : ℕ → ℕ → List ℕ → ℕ → Type 0
FirstAt c x t k =
    ((x ≡ c) × (k ≡ 0)) ⊎ ((j : ℕ) × ((index_of c t ≡ some j) × ((k ≡ suc j) × (x ≢ c))))

index_of-cases : (c x : ℕ) (t : List ℕ) (k : ℕ) → index_of c (x ∷ t) ≡ some k → FirstAt c x t k
unfolding index_of
index_of-cases c x t k h = go (index_of c t) refl h
  where
    go :
        (o : Option ℕ)
        → index_of c t ≡ o
        → (if nat_eq x c then some 0 else shifted 1 o) ≡ some k
        → FirstAt c x t k
    go none e h = inl (ground arith)
    go (some j) e h = elim (nat_cases x c) [
      | inl eq ↦ inl (eq, ground arith)
      | inr ne ↦ inr (j, (e, (ground arith, ne)))
    ]

pub index_of-bound : (c : ℕ) (t : List ℕ) (k : ℕ) → index_of c t ≡ some k → k < length t
unfolding index_of
index_of-bound c [] k h = cc
index_of-bound c (x ∷ t) k h = elim (index_of-cases c x t k h) [
  | inl e ↦ omega (arith, e.1)
  | inr (j, (e, (eq, ne))) ↦ omega (arith, eq, index_of-bound c t j e)
]

pub split_lines-last :
    (c : ℕ) (t : List ℕ) → index_of lf (c ∷ t) ≡ none → split_lines (c ∷ t) ≡ (c ∷ t, []) ∷ []
unfolding split_lines index_of
split_lines-last c [] h = ground arith
split_lines-last c (d ∷ t) h = ground (arith, split_lines-last d t)

less_one : (j : ℕ) → suc j - 1 ≡ j
less_one j = omega arith

before_newline-suc :
    (j : ℕ) (t : List ℕ)
    → before_newline (suc j) t ≡ (if char_is cr (get_elem? t j) then j else suc j)
before_newline-suc j t = rw (less_one j) (ground arith)

-- The line and its terminator, where the line ends at `b` and the newline is at `k`.
abbrev pub NextLine : List ℕ → ℕ → ℕ → Type 0
NextLine t k b =
    split_lines t ≡ (take b t, take (suc k - b) (drop b t)) ∷ split_lines (drop (suc k) t)

less_suc : (k b : ℕ) → suc (suc k) - suc b ≡ suc k - b
less_suc k b = omega arith

unfolding_put :
    (x y : ℕ) (l e : List ℕ) (ls : List (List ℕ × List ℕ))
    → put x ((y ∷ l, e) ∷ ls) ≡ (x ∷ y ∷ l, e) ∷ ls
unfolding_put x y l e ls = refl

split_lines-put : (x : ℕ) (t : List ℕ) → x ≢ lf → split_lines (x ∷ t) ≡ put x (split_lines t)
unfolding split_lines
split_lines-put x t ne = ground arith

split_lines-lf : (u : List ℕ) → NextLine (lf ∷ u) 0 0
unfolding split_lines take drop
split_lines-lf u = refl

-- A character before a line that is not empty.
one_more :
    (x y : ℕ) (u : List ℕ) (k b : ℕ)
    → x ≢ lf
    → NextLine (y ∷ u) k (suc b)
    → NextLine (x ∷ y ∷ u) (suc k) (suc (suc b))
unfolding take drop
one_more x y u k b ne next = rw (split_lines-put x (y ∷ u) ne, next, less_suc k (suc b)) refl

-- A character before an empty line that a carriage return and a newline end.
before_crlf : (x : ℕ) (u : List ℕ) → x ≢ lf → NextLine (cr ∷ u) 1 0 → NextLine (x ∷ cr ∷ u) 2 1
unfolding take drop
before_crlf x u ne next = rw (split_lines-put x (cr ∷ u) ne, next) (ground arith)

-- A character before a newline.
before_lf : (x : ℕ) (u : List ℕ) → x ≢ lf → NextLine (x ∷ lf ∷ u) 1 (if nat_eq x cr then 0 else 1)
unfolding take drop
before_lf x u ne = go (nat_eq x cr) refl
  where
    go : (b : Bool) → nat_eq x cr ≡ b → NextLine (x ∷ lf ∷ u) 1 (if b then 0 else 1)
    go true e = rw (split_lines-put x (lf ∷ u) ne, split_lines-lf u) (ground arith)
    go false e = rw (split_lines-put x (lf ∷ u) ne, split_lines-lf u) (ground arith)

-- A character before the first line, whose newline is not its first character.
before_more :
    (x y : ℕ) (u : List ℕ) (i : ℕ)
    → x ≢ lf
    → NextLine (y ∷ u) (suc i) (if char_is cr (get_elem? (y ∷ u) i) then i else suc i)
    → NextLine
        (x ∷ y ∷ u)
        (suc (suc i))
        (if char_is cr (get_elem? (y ∷ u) i) then suc i else suc (suc i))
unfolding get_elem?
before_more x y u zero ne next = go (char_is cr (some y)) refl next
  where
    go :
        (b : Bool)
        → nat_eq y cr ≡ b
        → NextLine (y ∷ u) 1 (if b then 0 else 1)
        → NextLine (x ∷ y ∷ u) 2 (if b then 1 else 2)
    go true e next = let eq : y ≡ cr = ground arith in rw eq (before_crlf x u ne (rw eq at next))
    go false e next = one_more x y u 1 0 ne next
before_more x y u (suc i) ne next = go (char_is cr (get_elem? u i)) next
  where
    go :
        (b : Bool)
        → NextLine (y ∷ u) (suc (suc i)) (if b then suc i else suc (suc i))
        → NextLine (x ∷ y ∷ u) (suc (suc (suc i))) (if b then suc (suc i) else suc (suc (suc i)))
    go true next = one_more x y u (suc (suc i)) i ne next
    go false next = one_more x y u (suc (suc i)) (suc i) ne next

after_first :
    (x : ℕ) (t : List ℕ) (j : ℕ)
    → index_of lf t ≡ some j
    → x ≢ lf
    → NextLine t j (before_newline j t)
    → NextLine (x ∷ t) (suc j) (before_newline (suc j) (x ∷ t))
unfolding index_of get_elem?
after_first x [] j e ne next = absurd cc
after_first x (y ∷ u) zero e ne next = let eq : y ≡ lf = ground arith in rw eq (before_lf x u ne)
after_first x (y ∷ u) (suc i) e ne next =
    rw (before_newline-suc (suc i) (x ∷ y ∷ u))
      (before_more x y u i ne (rw (before_newline-suc i (y ∷ u)) at next))

pub split_lines-next :
    (t : List ℕ) (k : ℕ) → index_of lf t ≡ some k → NextLine t k (before_newline k t)
unfolding index_of
split_lines-next [] k h = absurd cc
split_lines-next (x ∷ t) k h = elim (index_of-cases lf x t k h) [
  | inl e ↦ rw (e.1, e.0) (split_lines-lf t)
  | inr (j, (e, (eq, ne))) ↦ rw eq (after_first x t j e ne (split_lines-next t j e))
]
