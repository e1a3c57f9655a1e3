-- ===== src/LocalizedPatch/Matched.antt =====
-- src/aep/localized_patch.py: what the loop of `_logical_line_matches` finds, against the lines of the
-- text taken apart by recursion.
use agent_engineering_platfo.Prelude.{
  ℕ, zero, suc, ◌+◌, ◌-◌, ◌≤◌, ◌<◌, ◌≡◌, refl, ◌&&◌, none, some, List, [], ◌∷◌, arith, leb, length,
  if◌then◌else◌, Option-cases, inl, inr,
}
use agent_engineering_platfo.Text.{take, drop, index_of, shifted, split_lines, same, lf}
use agent_engineering_platfo.Text.Slices.{
  length-take, length-drop, take_all, drop-drop, drop_all, get_elem?-drop,
}
use agent_engineering_platfo.Text.Lines.{
  before_newline, split_lines-last, split_lines-next, index_of-bound, nat_cases,
}
use agent_engineering_platfo.LocalizedPatch.{Line}
use agent_engineering_platfo.LocalizedPatch.Lines.{
  line_end_at, line_at, is_match, matches_from, logical_line_matches,
}

-- The lines of a list that are the anchor and lie in the region, from an offset.
unfoldable pub lines_named : List ℕ → ℕ → ℕ → ℕ → List (List ℕ × List ℕ) → List Line
lines_named anchor region_start region_end offset [] = []
lines_named anchor region_start region_end offset ((l, e) ∷ ls) =
    let rest = lines_named anchor region_start region_end (offset + length l + length e) ls in
    if leb region_start offset && leb (offset + length l) region_end && same l anchor
    then record { line_start = offset; line_end = offset + length l; terminator = e } ∷ rest
    else rest

line_end_at-lem :
    (content : List ℕ) (cursor k : ℕ)
    → line_end_at content cursor (cursor + k) ≡ cursor + before_newline k (drop cursor content)
unfolding line_end_at
line_end_at-lem content cursor zero = ground arith
line_end_at-lem content cursor (suc k) =
    rw (get_elem?-drop cursor (suc k - 1) content, same_index cursor k) (ground arith)
  where
    same_index : (c k : ℕ) → c + (suc k - 1) ≡ c + suc k - 1
    same_index c k = omega arith

before_newline-bound : (k : ℕ) (t : List ℕ) → before_newline k t ≤ k
before_newline-bound k t = ground arith

next_cursor : (c k : ℕ) → c + suc k ≡ suc (c + k)
next_cursor c k = omega arith

last_lines : (t : List ℕ) → 0 < length t → index_of lf t ≡ none → split_lines t ≡ (t, []) ∷ []
last_lines [] h e = absurd (omega arith)
last_lines (c ∷ t) h e = split_lines-last c t e

same_difference : (c k b : ℕ) → suc (c + k) - (c + b) ≡ suc k - b
same_difference c k b = omega arith

add_sub : (c b : ℕ) → c + b - c ≡ b
add_sub c b = omega arith

-- The slices of the line at the cursor, in what is left of the text.
module _ (content : List ℕ) (cursor k : ℕ) where
  abbrev rest_of : List ℕ
  rest_of = drop cursor content

  abbrev cut : ℕ
  cut = before_newline k (drop cursor content)

  abbrev the_line : Line
  the_line = record {
    line_start = cursor;
    line_end = cursor + cut;
    terminator = take (suc k - cut) (drop cut rest_of);
  }

  line_at-some : line_at content cursor (shifted cursor (some k)) ≡ (the_line, suc (cursor + k))
  unfolding line_at
  line_at-some =
      rw
        (
          line_end_at-lem content cursor k,
          same_difference cursor k cut,
          ← drop-drop cursor cut content,
        )
        refl

module _ (anchor : List ℕ) (rs re : ℕ) where
  -- What the first line gives, by its length and the one of its terminator.
  abbrev first_named : List ℕ → ℕ → ℕ → ℕ → List Line → List Line
  first_named t cursor b k rest =
      if leb rs cursor && leb (cursor + b) re && same (take b t) anchor
      then record {
        line_start = cursor;
        line_end = cursor + b;
        terminator = take (suc k - b) (drop b t);
      }
        ∷ rest
      else rest

  named_step :
      (t : List ℕ) (ls : List (List ℕ × List ℕ)) (cursor b k : ℕ)
      → b ≤ k
      → k < length t
      → lines_named anchor rs re cursor ((take b t, take (suc k - b) (drop b t)) ∷ ls)
        ≡ first_named t cursor b k (lines_named anchor rs re (suc (cursor + k)) ls)
  unfolding lines_named
  named_step t ls cursor b k h g =
      rw
        (
          length-take b t (omega arith),
          length-take (suc k - b) (drop b t) (omega (arith, length-drop b t)),
          next_offset,
        )
        refl
    where
      next_offset : cursor + b + (suc k - b) ≡ suc (cursor + k)
      next_offset = omega arith

  named_last :
      (t : List ℕ) (cursor : ℕ)
      → lines_named anchor rs re cursor ((t, []) ∷ []) ≡ (
          if leb rs cursor && leb (cursor + length t) re && same t anchor
          then record { line_start = cursor; line_end = cursor + length t; terminator = [] } ∷ []
          else [])
  unfolding lines_named
  named_last t cursor = refl

  module _ (content : List ℕ) where
    matches_from-end : (fuel : ℕ) → matches_from content anchor rs re fuel (length content) ≡ []
    unfolding matches_from
    matches_from-end zero = refl
    matches_from-end (suc fuel) = ground arith

    -- What a turn of the loop adds.
    abbrev after_line : ℕ → Line × ℕ → List Line
    after_line fuel at =
        let rest = matches_from content anchor rs re fuel at.1 in
        if is_match content anchor rs re at.0 then at.0 ∷ rest else rest

    one_turn :
        (fuel cursor : ℕ)
        → cursor < length content
        → matches_from content anchor rs re (suc fuel) cursor
          ≡ after_line fuel
              (line_at content cursor (shifted cursor (index_of lf (drop cursor content))))
    unfolding matches_from
    one_turn fuel cursor h = ground arith

    matches_from-last :
        (fuel cursor : ℕ)
        → cursor < length content
        → index_of lf (drop cursor content) ≡ none
        → matches_from content anchor rs re (suc fuel) cursor
          ≡ lines_named anchor rs re cursor ((drop cursor content, []) ∷ [])
    unfolding line_at
    matches_from-last fuel cursor h e =
        rw
          (
            one_turn fuel cursor h,
            e,
            matches_from-end fuel,
            named_last (drop cursor content) cursor,
            length-drop cursor content,
            all_of,
            take_all (length content - cursor) (drop cursor content)
                (omega (arith, length-drop cursor content)),
          )
          refl
      where
        all_of : cursor + (length content - cursor) ≡ length content
        all_of = omega arith

    matches_from-next :
        (fuel cursor k : ℕ)
        → cursor < length content
        → index_of lf (drop cursor content) ≡ some k
        → matches_from content anchor rs re (suc fuel) cursor
          ≡ first_named
              (drop cursor content)
              cursor
              (cut content cursor k)
              k
              (matches_from content anchor rs re fuel (suc (cursor + k)))
    matches_from-next fuel cursor k h e =
        rw
          (
            one_turn fuel cursor h,
            e,
            line_at-some content cursor k,
            add_sub cursor (cut content cursor k),
          )
          refl

    pub matches_from-lem :
        (fuel cursor : ℕ)
        → cursor ≤ length content
        → length content < cursor + fuel
        → matches_from content anchor rs re fuel cursor
          ≡ lines_named anchor rs re cursor (split_lines (drop cursor content))
    unfolding lines_named split_lines
    matches_from-lem zero cursor h f = absurd (omega arith)
    matches_from-lem (suc fuel) cursor h f = elim (nat_cases cursor (length content)) [
      | inl e ↦
          rw (e, drop_all (length content) content (omega arith)) (matches_from-end (suc fuel))
      | inr ne ↦ elim (Option-cases (index_of lf (drop cursor content))) [
        | inl e ↦
            rw
              (
                matches_from-last fuel cursor (ground arith) e,
                last_lines (drop cursor content) (omega (arith, length-drop cursor content)) e,
              )
              refl
        | inr (k, e) ↦
            rw
              (
                matches_from-next fuel cursor k (ground arith) e,
                split_lines-next (drop cursor content) k e,
                named_step (drop cursor content) (split_lines (drop (suc k) (drop cursor content)))
                    cursor (cut content cursor k) k (before_newline-bound k (drop cursor content))
                    (index_of-bound lf (drop cursor content) k e),
                drop-drop cursor (suc k) content,
                next_cursor cursor k,
                matches_from-lem fuel (suc (cursor + k))
                    (omega (
                      arith,
                      index_of-bound lf (drop cursor content) k e,
                      length-drop cursor content,
                    ))
                    (omega arith),
              )
              refl
      ]
    ]

-- The loop finds the lines of the text that are the anchor and lie in the region, in their order.
pub logical_line_matches-lines_named :
    (content anchor : List ℕ) (region_start region_end : ℕ)
    → logical_line_matches content anchor region_start region_end
      ≡ lines_named anchor region_start region_end 0 (split_lines content)
unfolding logical_line_matches drop
logical_line_matches-lines_named content anchor region_start region_end =
    matches_from-lem anchor region_start region_end content (suc (length content)) 0 (omega arith)
      (omega arith)
