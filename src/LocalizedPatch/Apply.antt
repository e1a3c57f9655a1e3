-- ===== src/LocalizedPatch/Apply.antt =====
-- src/aep/localized_patch.py: `apply_localized_operations`: the tests of the target, the order of the
-- edits, and the postimage with its evidence.
use agent_engineering_platfo.Prelude.{
  ℕ, ◌+◌, ◌-◌, max, String, Bool, true, false, not, ◌&&◌, ◌||◌, Option, none, some, List, [], ◌∷◌,
  ◌++◌, map, str_eq, leb, nat_eq, length,
}
use agent_engineering_platfo.Outcome.{Outcome, returned, raised, ◌>>=◌, ◌>>◌, ensure}
use agent_engineering_platfo.Json.{Json, obj, Fields, get}
use agent_engineering_platfo.Store.State.{is_text}
use agent_engineering_platfo.Text.{codes, slice, drop}
use agent_engineering_platfo.LocalizedPatch.{
  PatchError, non_utf8_target, stale_preimage, stale_revision, missing_operation,
  trusted_region_missing, out_of_region, out_of_order_edits, overlapping_edits, TrustedRegion, Edit,
  AppliedOperation, LocalizedPatch,
}
use agent_engineering_platfo.LocalizedPatch.Lines.{is_clean, utf8_length}
use agent_engineering_platfo.LocalizedPatch.Paths.{safe_path}
use agent_engineering_platfo.LocalizedPatch.Regions.{Heading, Fence, region_bounds}
use agent_engineering_platfo.LocalizedPatch.Operations.{Target, resolve_all}

-- The spans are in order and do not overlap. The loop starts at -1, which no span is below; 0 is
-- the same here.
unfoldable pub check_order : ℕ → ℕ → List Edit → Outcome PatchError (Unit {0})
check_order prior_start prior_end [] = returned tt
check_order prior_start prior_end (e ∷ es) = do
  ensure (leb prior_start e.start) out_of_order_edits
  ensure (leb prior_end e.start) overlapping_edits
  check_order e.start (max prior_end e.stop) es

-- `"".join(output)`: the preimage with the replacements in the place of the spans.
unfoldable pub splice : List ℕ → ℕ → List Edit → List ℕ
splice preimage cursor [] = drop cursor preimage
splice preimage cursor (e ∷ es) =
    slice cursor e.start preimage ++ (e.replacement ++ splice preimage e.stop es)

-- `unchanged`
unfoldable pub unchanged : List ℕ → ℕ → List Edit → List (List ℕ)
unchanged preimage cursor [] = drop cursor preimage ∷ []
unchanged preimage cursor (e ∷ es) = slice cursor e.start preimage ∷ unchanged preimage e.stop es

unfoldable pub joined : List (List ℕ) → List ℕ
joined [] = []
joined (t ∷ ts) = t ++ joined ts

-- `sum(len(replacement) - (end - start) …)`, the two sides apart
unfoldable pub added : List Edit → ℕ
added [] = 0
added (e ∷ es) = length e.replacement + added es

unfoldable pub removed : List Edit → ℕ
removed [] = 0
removed (e ∷ es) = (e.stop - e.start) + removed es

-- `item.get("operation") == "rewrite"` of a mapping
abbrev is_rewrite_item : Json → Bool
is_rewrite_item (obj raw) = is_text "rewrite" (get "operation" raw)
is_rewrite_item _ = false

unfoldable pub all_rewrites : List Json → Bool
all_rewrites [] = true
all_rewrites (v ∷ vs) = is_rewrite_item v && all_rewrites vs

module _ (strip : String → String) (words : List ℕ → List (List ℕ))
    (structure : List ℕ → List Heading × List Fence) where
  -- `trusted_region`
  unfoldable pub trusted_region_of :
      List ℕ → Option Fields → List Json → Outcome PatchError (Option TrustedRegion)
  trusted_region_of preimage none operations = do
    ensure (all_rewrites operations) trusted_region_missing
    returned none
  trusted_region_of preimage (some region) operations = do
    span ← region_bounds strip words structure preimage region
    returned (
        some (record {
          kind = get "kind" region;
          name = get "name" region;
          selection_id = get "selectionId" region;
          plan_artifact_id = get "planArtifactId" region;
          span = span;
        }))

  -- The region of the postimage is the one of the preimage, grown by the edits.
  unfoldable pub same_region : List ℕ → ℕ × ℕ → List Edit → Fields → Bool
  same_region postimage span edits region =
      agrees (region_bounds strip words structure postimage region)
    where
      agrees : Outcome PatchError (ℕ × ℕ) → Bool
      agrees (raised e) = false
      agrees (returned after) =
          nat_eq after.0 span.0 && nat_eq (after.1 + removed edits) (span.1 + added edits)

  unfoldable pub check_region :
      Option Fields → Option TrustedRegion → List ℕ → List Edit → Outcome PatchError (Unit {0})
  check_region (some region) (some trusted) postimage edits =
      ensure (is_text "WHOLE_FILE" trusted.kind || same_region postimage trusted.span edits region)
        out_of_region
  check_region _ _ postimage edits = returned tt

  module _ (casefold : List ℕ → List ℕ) (sha256 : List ℕ → String) (printable : ℕ → Bool) where
    abbrev pub applied : String → String → String → String → Edit → AppliedOperation
    applied path revision before after e = record {
      evidence = e.evidence;
      path = path;
      repository_revision = revision;
      preimage_sha256 = before;
      postimage_sha256 = after;
    }

    abbrev pub span_of_edit : Edit → ℕ × ℕ
    span_of_edit e = e.evidence.span

    -- `LocalizedPatch(…)`
    unfoldable pub patch_of : String → String → String → List ℕ → List Edit → LocalizedPatch
    patch_of path revision before preimage edits =
        let postimage = splice preimage 0 edits in
        let kept = unchanged preimage 0 edits in
        record {
          content = postimage;
          operations = map (applied path revision before (sha256 postimage)) edits;
          replacements = map (λ e. e.replacement) edits;
          preservation = record {
            preimage_sha256 = before;
            postimage_sha256 = sha256 postimage;
            unchanged_region_count = length kept;
            unchanged_bytes = utf8_length (joined kept);
            unchanged_sha256 = sha256 (joined kept);
            authorized_spans = map span_of_edit edits;
          };
        }

    -- The tests of the arguments, before the region.
    unfoldable pub check_target :
        String → String → String → String → List Json → Outcome PatchError (Unit {0})
    check_target path preimage preimage_sha256 revision operations = do
      safe_path casefold (codes path)
      ensure (is_clean (codes preimage)) non_utf8_target
      ensure (str_eq (sha256 (codes preimage)) preimage_sha256) stale_preimage
      ensure (nat_eq (length (codes revision)) 40) stale_revision
      ensure (not (nat_eq (length operations) 0)) missing_operation

    unfoldable pub apply_localized_operations :
        String
        → String
        → String
        → String
        → List Json
        → Option Fields
        → Bool
        → Bool
        → Outcome PatchError LocalizedPatch
    apply_localized_operations path preimage preimage_sha256 revision operations region
          allow_rewrite target_exists =
        do
          check_target path preimage preimage_sha256 revision operations
          trusted ← trusted_region_of (codes preimage) region operations
          let target : Target = record {
            path = path;
            repository_revision = revision;
            preimage_sha256 = preimage_sha256;
            authorized = allow_rewrite || not target_exists;
            single = nat_eq (length operations) 1;
          }
          edits ← resolve_all sha256 printable (codes preimage) trusted target 0 false operations
          check_order 0 0 edits
          check_region region trusted (splice (codes preimage) 0 edits) edits
          returned (patch_of path revision preimage_sha256 (codes preimage) edits)
