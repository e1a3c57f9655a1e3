-- ===== src/LocalizedPatch/Operations.antt =====
-- src/aep/localized_patch.py: the loop over the operations in `apply_localized_operations`, which turns
-- each into an edit of the preimage. Parameters: `sha256` is the digest of a text, `printable` Python's
-- `str.isprintable` on a character.
use Prim.Native.String.{String}
use agent_engineering_platfo.Prelude.{
  ℕ, suc, ◌+◌, Bool, true, false, not, ◌&&◌, ◌||◌, Option, none, some, List, [], ◌∷◌, length,
  contains, Nat_eq, if◌then◌else◌,
}
use agent_engineering_platfo.Outcome.{Outcome, returned, raised, ◌>>=◌, ◌>>◌, ensure}
use agent_engineering_platfo.Json.{Json, str, obj, Fields, get}
use agent_engineering_platfo.Store.State.{is_text}
use agent_engineering_platfo.Text.{same, lf, cr, Text_eq}
use agent_engineering_platfo.LocalizedPatch.{
  PatchError, invalid_operation, path_mismatch, stale_revision, stale_preimage,
  rewrite_not_authorized, invalid_anchor, delete_not_authorized, out_of_region, Operation, inserted,
  replaced, deleted, rewritten, AnchorKind, logical_line, whole_file, Line, TrustedRegion, Edit,
}
use agent_engineering_platfo.LocalizedPatch.Lines.{logical_line_matches, line_boundary_content}
use agent_engineering_platfo.LocalizedPatch.OperationFields.{
  operation_of, get_or, placement_of, content_of, anchor_of, match_count_of, the_match,
  is_region_id, bounds_of, in_region, crosses_section, is_delete,
}

module _ (sha256 : List ℕ → String) (preimage : List ℕ) (region : Option TrustedRegion)
    (ordinal : ℕ) (declared : Json) where
  -- The edit of a localized operation, with its record.
  abbrev pub edit_of : Operation → AnchorKind → List ℕ → ℕ × ℕ → ℕ × ℕ → List ℕ → Edit
  edit_of operation kind anchor anchor_span span content = record {
    start = span.0;
    stop = span.1;
    replacement = content;
    evidence = record {
      ordinal = ordinal;
      operation = operation;
      span = span;
      anchor = some (record {
        anchor_sha256 = sha256 anchor;
        anchor_kind = kind;
        resolved_anchor_span = anchor_span;
        trusted_region_anchor_match_count = 1;
      });
      model_declared_region_id = declared;
      trusted_region = region;
    };
  }

  -- `if operation == "insert"`, at the matched line
  unfoldable pub insert_edit : Json → List ℕ → Line → List ℕ → Outcome PatchError Edit
  insert_edit placement anchor line content = do
    after ← placement_of placement
    let start = if after then line.line_end + length line.terminator else line.line_start
    let inserted_content = line_boundary_content preimage start content after
    let anchor_span : ℕ × ℕ = (line.line_start, line.line_start + length anchor)
    ensure
        (in_region (bounds_of region) anchor_span (start, start)
          && not (crosses_section (length preimage) region after start inserted_content))
        out_of_region
    returned (edit_of inserted logical_line anchor anchor_span (start, start) inserted_content)

  -- A replacement of the matched line.
  unfoldable pub replace_edit : List ℕ → Line → List ℕ → Outcome PatchError Edit
  replace_edit anchor line content = do
    let span : ℕ × ℕ = (line.line_start, line.line_start + length anchor)
    ensure (in_region (bounds_of region) span span) out_of_region
    returned (edit_of replaced logical_line anchor span span content)

  -- `elif operation == "delete"` of the whole file
  unfoldable pub delete_edit : List ℕ → List ℕ → Outcome PatchError Edit
  delete_edit anchor content = do
    let span : ℕ × ℕ = (0, length anchor)
    ensure (same content []) invalid_operation
    ensure (in_region (bounds_of region) span span) out_of_region
    returned (edit_of deleted whole_file anchor span span content)

  abbrev pub at_line : Operation → Json → List ℕ → Line → List ℕ → Outcome PatchError Edit
  at_line inserted placement anchor line content = insert_edit placement anchor line content
  at_line deleted placement anchor line content = do
    ensure (same content []) invalid_operation
    raised delete_not_authorized
  at_line _ placement anchor line content = replace_edit anchor line content

  -- The operations that name a logical line.
  unfoldable pub line_edit : Operation → Json → List ℕ → List ℕ → Outcome PatchError Edit
  line_edit operation placement anchor content = do
    ensure (not (contains anchor cr || contains anchor lf)) invalid_anchor
    line ←
        the_match (logical_line_matches preimage anchor (bounds_of region).0 (bounds_of region).1)
    at_line operation placement anchor line content

  -- An operation with an anchor.
  unfoldable pub anchored_edit : Bool → Operation → Fields → List ℕ → Outcome PatchError Edit
  anchored_edit single operation raw content = do
    anchor ← anchor_of (get "anchor" raw)
    match_count_of (get "expectedMatchCount" raw)
    (if is_delete operation && same anchor preimage && single
        then delete_edit anchor content
        else line_edit operation (get_or (str "after") "placement" raw) anchor content)

  -- `if operation == "rewrite"`
  unfoldable pub rewrite_edit : Bool → Bool → Bool → List ℕ → Outcome PatchError Edit
  rewrite_edit authorized seen single content = do
    ensure (authorized && not seen && single) rewrite_not_authorized
    returned (record {
      start = 0;
      stop = length preimage;
      replacement = content;
      evidence = record {
        ordinal = ordinal;
        operation = rewritten;
        span = (0, length preimage);
        anchor = none;
        model_declared_region_id = declared;
        trusted_region = region;
      };
    })

  unfoldable pub edit_for :
      Bool → Bool → Bool → Operation → Fields → List ℕ → Outcome PatchError Edit
  edit_for authorized seen single rewritten raw content =
      rewrite_edit authorized seen single content
  edit_for authorized seen single operation raw content = anchored_edit single operation raw content

abbrev pub is_rewrite : Operation → Bool
is_rewrite rewritten = true
is_rewrite _ = false

-- What the operations share: the target, and what authorizes a rewrite.
pub record Target : Type 0 where
  pub path : String
  pub repository_revision : String
  pub preimage_sha256 : String
  pub authorized : Bool
  pub single : Bool

module _ (sha256 : List ℕ → String) (printable : ℕ → Bool) (preimage : List ℕ)
    (region : Option TrustedRegion) (target : Target) where
  -- One turn of the loop, which also returns whether it was a rewrite.
  unfoldable pub resolve : ℕ → Bool → Fields → Outcome PatchError (Edit × Bool)
  resolve ordinal seen raw = do
    operation ← operation_of (get "operation" raw)
    ensure (is_text target.path (get "path" raw)) path_mismatch
    ensure (is_text target.repository_revision (get "repositoryRevision" raw)) stale_revision
    ensure (is_text target.preimage_sha256 (get "preimageSha256" raw)) stale_preimage
    let declared = get "regionId" raw
    ensure (is_region_id printable declared) invalid_operation
    content ← content_of (get_or (str "") "content" raw)
    edit ←
        edit_for sha256 preimage region ordinal declared target.authorized seen target.single
          operation raw content
    returned (edit, is_rewrite operation)

  abbrev pub object_of : Json → Outcome PatchError Fields
  object_of (obj raw) = returned raw
  object_of _ = raised invalid_operation

  -- The loop.
  unfoldable pub resolve_all : ℕ → Bool → List Json → Outcome PatchError (List Edit)
  resolve_all ordinal seen [] = returned []
  resolve_all ordinal seen (v ∷ vs) = do
    raw ← object_of v
    step ← resolve ordinal seen raw
    edits ← resolve_all (suc ordinal) (seen || step.1) vs
    returned (step.0 ∷ edits)
