-- ===== src/LocalizedPatch/Bounds.antt =====
-- src/aep/localized_patch.py: where the lines that `_logical_line_matches` finds lie.
use agent_engineering_platfo.Prelude.{
  ℕ, suc, ◌+◌, ◌≤◌, ◌≡◌, refl, ap, Bool, true, false, ◌&&◌, List, [], ◌∷◌, arith, leb, length, All,
  Nat_eq, if◌then◌else◌,
}
use agent_engineering_platfo.Outcome.{Returns}
use agent_engineering_platfo.Text.{split_lines, put, same, same_iff}
use agent_engineering_platfo.LocalizedPatch.{Line}
use agent_engineering_platfo.LocalizedPatch.Lines.{logical_line_matches}
use agent_engineering_platfo.LocalizedPatch.OperationFields.{the_match}
use agent_engineering_platfo.LocalizedPatch.Matched.{lines_named, logical_line_matches-lines_named}

-- The length of the lines with their terminators.
abbrev total : List (List ℕ × List ℕ) → ℕ
total [] = 0
total ((l, e) ∷ ls) = length l + length e + total ls

total-put : (c : ℕ) (ls : List (List ℕ × List ℕ)) → total (put c ls) ≡ suc (total ls)
total-put c [] = ground arith
total-put c (([], e) ∷ ls) = ground arith
total-put c ((x ∷ l, e) ∷ ls) = omega arith

total-split_lines : (t : List ℕ) → total (split_lines t) ≡ length t
unfolding split_lines
total-split_lines [] = refl
total-split_lines (c ∷ t) = ground (arith, total-put c (split_lines t), total-split_lines t)

-- A match of the anchor, in a text of the size.
abbrev pub IsLineOf : ℕ → List ℕ → Line → Type 0
IsLineOf size anchor l =
    (l.line_end ≡ l.line_start + length anchor) × (l.line_end + length l.terminator ≤ size)

lines_named-All :
    (anchor : List ℕ) (rs re offset size : ℕ) (ls : List (List ℕ × List ℕ))
    → offset + total ls ≤ size
    → All (IsLineOf size anchor) (lines_named anchor rs re offset ls)
unfolding lines_named
lines_named-All anchor rs re offset size [] h = tt
lines_named-All anchor rs re offset size ((l, e) ∷ ls) h =
    go (leb rs offset && leb (offset + length l) re && same l anchor) _ refl
      (lines_named-All anchor rs re (offset + length l + length e) size ls (omega arith))
  where
    go :
        (b : Bool) (rest : List Line)
        → (leb rs offset && leb (offset + length l) re && same l anchor) ≡ b
        → All (IsLineOf size anchor) rest
        → All (IsLineOf size anchor) (
            if b
            then record { line_start = offset; line_end = offset + length l; terminator = e } ∷ rest
            else rest)
    go true rest eq h' =
        let same_text : l ≡ anchor = (same_iff l anchor).0 (ground arith) in
        ((ap (λ t. offset + length t) same_text, omega arith), h')
    go false rest eq h' = h'

the_match-IsLineOf :
    (size : ℕ) (anchor : List ℕ) (ls : List Line)
    → All (IsLineOf size anchor) ls
    → Returns (IsLineOf size anchor) (the_match ls)
unfolding the_match
the_match-IsLineOf size anchor [] all = tt
the_match-IsLineOf size anchor (m ∷ []) all = all.0
the_match-IsLineOf size anchor (m ∷ n ∷ ls) all = tt

pub match-IsLineOf :
    (preimage anchor : List ℕ) (rs re : ℕ)
    → Returns
        (IsLineOf (length preimage) anchor)
        (the_match (logical_line_matches preimage anchor rs re))
match-IsLineOf preimage anchor rs re =
    the_match-IsLineOf (length preimage) anchor (logical_line_matches preimage anchor rs re) (
      rw (logical_line_matches-lines_named preimage anchor rs re) (
        lines_named-All anchor rs re 0 (length preimage) (split_lines preimage)
          (omega (arith, total-split_lines preimage))))
