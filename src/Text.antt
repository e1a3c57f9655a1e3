-- ===== src/Text.antt =====
-- Python texts as lists of code points: slices, searches and line endings. The texts of JSON values
-- are strings, and `codes` reads one.
pub mod Slices
pub mod Lines
use Prim.Native.Char.{code}
use agent_engineering_platfo.Prelude.{
  ℕ, zero, suc, ◌-◌, ◌+◌, ◌≡◌, ◌↔◌, String, Bool, true, false, not, ◌&&◌, ◌||◌, Option, none, some,
  List, [], ◌∷◌, ◌++◌, arith, ltb, nat_eq, Eq, if◌then◌else◌,
}

abbrev pub codes : String → List ℕ
codes String.[] = []
codes (String.◌∷◌ c s) = code c ∷ codes s

abbrev pub lf : ℕ
lf = 10

abbrev pub cr : ℕ
cr = 13

abbrev pub same : List ℕ → List ℕ → Bool
same [] [] = true
same [] (y ∷ ys) = false
same (x ∷ xs) [] = false
same (x ∷ xs) (y ∷ ys) = nat_eq x y && same xs ys

pub same_iff : (xs ys : List ℕ) → (same xs ys ≡ true) ↔ (xs ≡ ys)
same_iff [] [] = ground arith
same_iff [] (y ∷ ys) = ground arith
same_iff (x ∷ xs) [] = ground arith
same_iff (x ∷ xs) (y ∷ ys) = ground (arith, same_iff xs ys)

instance abbrev pub Text_eq : Eq (List ℕ)
Text_eq = record { beq = same; beq_iff = same_iff }

module _ {ℓ} {A : Type ℓ} where
  -- text[:n]
  unfoldable pub take : ℕ → List A → List A
  take zero t = []
  take (suc n) [] = []
  take (suc n) (x ∷ t) = x ∷ take n t

  -- text[n:]
  unfoldable pub drop : ℕ → List A → List A
  drop zero t = t
  drop (suc n) [] = []
  drop (suc n) (x ∷ t) = drop n t

  -- text[start:end]
  abbrev pub slice : ℕ → ℕ → List A → List A
  slice start end t = take (end - start) (drop start t)

  unfoldable pub get_elem? : List A → ℕ → Option A
  get_elem? [] i = none
  get_elem? (x ∷ t) zero = some x
  get_elem? (x ∷ t) (suc i) = get_elem? t i

abbrev pub shifted : ℕ → Option ℕ → Option ℕ
shifted n none = none
shifted n (some i) = some (n + i)

unfoldable pub index_of : ℕ → List ℕ → Option ℕ
index_of c [] = none
index_of c (x ∷ t) = if nat_eq x c then some 0 else shifted 1 (index_of c t)

-- text.find(c, start), `none` for -1
abbrev pub find : ℕ → ℕ → List ℕ → Option ℕ
find c start t = shifted start (index_of c (drop start t))

-- text[i] == c
abbrev pub char_is : ℕ → Option ℕ → Bool
char_is c none = false
char_is c (some x) = nat_eq x c

abbrev pub starts_with : ℕ → List ℕ → Bool
starts_with c [] = false
starts_with c (x ∷ t) = nat_eq x c

-- text.endswith(suffix), for a suffix of one character
unfoldable pub ends_with : ℕ → List ℕ → Bool
ends_with c [] = false
ends_with c (x ∷ []) = nat_eq x c
ends_with c (x ∷ y ∷ t) = ends_with c (y ∷ t)

-- The text in lines, each with its terminator: a newline, or a carriage return and a newline.
abbrev pub put : ℕ → List (List ℕ × List ℕ) → List (List ℕ × List ℕ)
put c [] = (c ∷ [], []) ∷ []
put c (([], e) ∷ ls) =
    if nat_eq c cr && same e (lf ∷ []) then ([], c ∷ e) ∷ ls else (c ∷ [], e) ∷ ls
put c ((x ∷ l, e) ∷ ls) = (c ∷ x ∷ l, e) ∷ ls

unfoldable pub split_lines : List ℕ → List (List ℕ × List ℕ)
split_lines [] = []
split_lines (c ∷ t) =
    let rest = split_lines t in if nat_eq c lf then ([], c ∷ []) ∷ rest else put c rest
