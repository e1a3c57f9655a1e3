-- ===== src/LocalizedPatch/InPlace.antt =====
-- src/aep/localized_patch.py: the edits that the loop over the operations makes are spans of the
-- preimage, inside the region.
use agent_engineering_platfo.Prelude.{
  ℕ, ◌≤◌, ◌≡◌, refl, String, Bool, true, false, ◌&&◌, Option, none, List, arith, length, Nat_eq,
  if◌then◌else◌, ◌⊎◌, inl, inr,
}
use agent_engineering_platfo.Outcome.{Outcome, ensure_case, bind_case, Returns, Returns-returned}
use agent_engineering_platfo.Json.{Json, str, Fields}
use agent_engineering_platfo.Text.{same, same_iff}
use agent_engineering_platfo.LocalizedPatch.{
  PatchError, Operation, inserted, replaced, deleted, rewritten, AnchorKind, Line, TrustedRegion,
  Edit,
}
use agent_engineering_platfo.LocalizedPatch.Operations.{
  edit_of, insert_edit, replace_edit, delete_edit, at_line, line_edit, anchored_edit, rewrite_edit,
  edit_for,
}
use agent_engineering_platfo.LocalizedPatch.OperationFields.{
  bounds_of, in_region, is_delete, get_or,
}
use agent_engineering_platfo.LocalizedPatch.Bounds.{IsLineOf, match-IsLineOf}

-- A rewrite, or an edit inside the region.
abbrev pub IsAuthorized : ℕ × ℕ → Edit → Type 0
IsAuthorized region e = (e.evidence.anchor ≡ none) ⊎ ((region.0 ≤ e.start) × (e.stop ≤ region.1))

-- The edit is a span of the text of the size, which its record names.
pub record IsInPlace (size : ℕ) (region : ℕ × ℕ) (e : Edit) : Type 0 where
  pub in_order : e.start ≤ e.stop
  pub in_text : e.stop ≤ size
  pub recorded : e.evidence.span ≡ (e.start, e.stop)
  pub authorized : IsAuthorized region e

and_left : (a b : Bool) → (a && b) ≡ true → a ≡ true
and_left a b h = ground arith

in_region-lem :
    (region anchor span : ℕ × ℕ)
    → in_region region anchor span ≡ true
    → (region.0 ≤ span.0) × (span.1 ≤ region.1)
unfolding in_region
in_region-lem region anchor span h = (ground arith, ground arith)

module _ (sha256 : List ℕ → String) (preimage : List ℕ) (region : Option TrustedRegion)
    (ordinal : ℕ) (declared : Json) where
  abbrev Good : Outcome PatchError Edit → Type 0
  Good = Returns (IsInPlace (length preimage) (bounds_of region))

  edit_of-IsInPlace :
      (operation : Operation) (kind : AnchorKind) (anchor : List ℕ) (anchor_span span : ℕ × ℕ)
      (content : List ℕ)
      → span.0 ≤ span.1
      → span.1 ≤ length preimage
      → in_region (bounds_of region) anchor_span span ≡ true
      → IsInPlace (length preimage) (bounds_of region) (
          edit_of sha256 preimage region ordinal declared operation kind anchor anchor_span span
            content)
  edit_of-IsInPlace operation kind anchor anchor_span span content o t r = record {
    in_order = o;
    in_text = t;
    recorded = refl;
    authorized = inr (in_region-lem (bounds_of region) anchor_span span r);
  }

  insert_edit-IsInPlace :
      (placement : Json) (anchor : List ℕ) (l : Line) (content : List ℕ)
      → IsLineOf (length preimage) anchor l
      → Good (insert_edit sha256 preimage region ordinal declared placement anchor l content)
  unfolding insert_edit
  insert_edit-IsInPlace placement anchor l content h =
      bind_case Good _ _ (λ e _. tt)
        (λ after _.
          ensure_case Good _ _ _ (λ _. tt)
            (λ inside.
              edit_of-IsInPlace inserted AnchorKind.logical_line anchor _ _ _ (omega arith)
                (ground arith) (and_left _ _ inside)))

  replace_edit-IsInPlace :
      (anchor : List ℕ) (l : Line) (content : List ℕ)
      → IsLineOf (length preimage) anchor l
      → Good (replace_edit sha256 preimage region ordinal declared anchor l content)
  unfolding replace_edit
  replace_edit-IsInPlace anchor l content h =
      ensure_case Good _ _ _ (λ _. tt)
        (λ inside.
          edit_of-IsInPlace replaced AnchorKind.logical_line anchor _ _ content (omega arith)
            (omega arith) inside)

  delete_edit-IsInPlace :
      (anchor content : List ℕ)
      → length anchor ≤ length preimage
      → Good (delete_edit sha256 preimage region ordinal declared anchor content)
  unfolding delete_edit
  delete_edit-IsInPlace anchor content h =
      ensure_case Good _ _ _ (λ _. tt)
        (λ empty.
          ensure_case Good _ _ _ (λ _. tt)
            (λ inside.
              edit_of-IsInPlace deleted AnchorKind.whole_file anchor _ _ content (omega arith) h
                inside))

  at_line-IsInPlace :
      (operation : Operation) (placement : Json) (anchor : List ℕ) (l : Line) (content : List ℕ)
      → IsLineOf (length preimage) anchor l
      → Good (at_line sha256 preimage region ordinal declared operation placement anchor l content)
  at_line-IsInPlace inserted placement anchor l content h =
      insert_edit-IsInPlace placement anchor l content h
  at_line-IsInPlace deleted placement anchor l content h =
      ensure_case Good _ _ _ (λ _. tt) (λ empty. tt)
  at_line-IsInPlace replaced placement anchor l content h =
      replace_edit-IsInPlace anchor l content h
  at_line-IsInPlace rewritten placement anchor l content h =
      replace_edit-IsInPlace anchor l content h

  line_edit-IsInPlace :
      (operation : Operation) (placement : Json) (anchor content : List ℕ)
      → Good (line_edit sha256 preimage region ordinal declared operation placement anchor content)
  unfolding line_edit
  line_edit-IsInPlace operation placement anchor content =
      ensure_case Good _ _ _ (λ _. tt)
        (λ one_line.
          bind_case Good _ _ (λ e _. tt)
            (λ l found.
              at_line-IsInPlace operation placement anchor l content
                (Returns-returned _ _ l (match-IsLineOf preimage anchor _ _) found)))

  anchored_edit-IsInPlace :
      (single : Bool) (operation : Operation) (raw : Fields) (content : List ℕ)
      → Good (anchored_edit sha256 preimage region ordinal declared single operation raw content)
  unfolding anchored_edit
  anchored_edit-IsInPlace single operation raw content =
      bind_case Good _ _ (λ e _. tt)
        (λ anchor _. bind_case Good _ _ (λ e _. tt) (λ n _. go anchor _ refl))
    where
      go :
          (anchor : List ℕ) (b : Bool)
          → (is_delete operation && same anchor preimage && single) ≡ b
          → Good (
              if b
              then delete_edit sha256 preimage region ordinal declared anchor content
              else line_edit sha256 preimage region ordinal declared operation
                  (get_or (str "after") "placement" raw)
                  anchor
                  content)
      go anchor true h =
          let whole : anchor ≡ preimage = (same_iff anchor preimage).0 (ground arith) in
          delete_edit-IsInPlace anchor content (rw whole (omega arith))
      go anchor false h =
          line_edit-IsInPlace operation (get_or (str "after") "placement" raw) anchor content

  rewrite_edit-IsInPlace :
      (authorized seen single : Bool) (content : List ℕ)
      → Good (rewrite_edit sha256 preimage region ordinal declared authorized seen single content)
  unfolding rewrite_edit
  rewrite_edit-IsInPlace authorized seen single content =
      ensure_case Good _ _ _ (λ _. tt)
        (λ _. record {
          in_order = omega arith;
          in_text = omega arith;
          recorded = refl;
          authorized = inl refl;
        })

  pub edit_for-IsInPlace :
      (authorized seen single : Bool) (operation : Operation) (raw : Fields) (content : List ℕ)
      → Good (
          edit_for sha256 preimage region ordinal declared authorized seen single operation raw
            content)
  unfolding edit_for
  edit_for-IsInPlace authorized seen single rewritten raw content =
      rewrite_edit-IsInPlace authorized seen single content
  edit_for-IsInPlace authorized seen single inserted raw content =
      anchored_edit-IsInPlace single inserted raw content
  edit_for-IsInPlace authorized seen single replaced raw content =
      anchored_edit-IsInPlace single replaced raw content
  edit_for-IsInPlace authorized seen single deleted raw content =
      anchored_edit-IsInPlace single deleted raw content
