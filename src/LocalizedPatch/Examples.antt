-- ===== src/LocalizedPatch/Examples.antt =====
-- Tests of the model of src/aep/localized_patch.py. The digest of a text is replaced by a constant.
use agent_engineering_platfo.Prelude.{
  ◌+◌, contains, String, ◌≡◌, refl, true, false, some, List, [], ◌∷◌, length, All,
}
use agent_engineering_platfo.Outcome.{Outcome, returned, raised}
use agent_engineering_platfo.Json.{Json, int, str, obj, Fields, end, field}
use agent_engineering_platfo.Text
use agent_engineering_platfo.Outcome
use agent_engineering_platfo.Json
use agent_engineering_platfo.Text.{codes, split_lines}
use agent_engineering_platfo.LocalizedPatch.{PatchError, index_error, LocalizedPatch}
use agent_engineering_platfo.LocalizedPatch.Lines
use agent_engineering_platfo.LocalizedPatch.Paths
use agent_engineering_platfo.LocalizedPatch.Regions.{Heading, Fence}
use agent_engineering_platfo.LocalizedPatch.Regions
use agent_engineering_platfo.LocalizedPatch.Operations
use agent_engineering_platfo.LocalizedPatch.OperationFields
use agent_engineering_platfo.LocalizedPatch.Apply
use agent_engineering_platfo.LocalizedPatch.Apply.{apply_localized_operations}
use agent_engineering_platfo.LocalizedPatch.Restored.{put_back}
use agent_engineering_platfo.LocalizedPatch.Preserved.{
  patch_restores, patch_size, patch-IsInRegion, IsInRegion, spans_length, texts_length,
}
use agent_engineering_platfo.LocalizedPatch.Matched.{lines_named, logical_line_matches-lines_named}
use agent_engineering_platfo.LocalizedPatch.Lines.{logical_line_matches}

abbrev revision : String
revision = "0123456789012345678901234567890123456789"

abbrev operation_on : String → String → String → Fields → Json
operation_on operation anchor content more = obj (
    field "operation" (str operation) (
      field "path" (str "docs/a.md") (
        field "repositoryRevision" (str revision) (
          field "preimageSha256" (str "digest") (
            field "anchor" (str anchor)
              (field "expectedMatchCount" (int 1) (field "content" (str content) more)))))))

abbrev two_operations : List Json
two_operations =
    operation_on "replace" "two" "2" end ∷ operation_on "insert" "three" "four" end ∷ []

abbrev whole : Fields
whole = field "kind" (str "WHOLE_FILE") (field "name" (str "WHOLE_FILE") end)

abbrev patched : Outcome PatchError LocalizedPatch
patched =
    apply_localized_operations (λ s. s) (λ t. t ∷ []) (λ t. ([], [])) (λ t. t) (λ t. "digest")
      (λ c. true) "docs/a.md" "one\ntwo\nthree\n" "digest" revision two_operations (some whole)
      false true

abbrev no_patch : LocalizedPatch
no_patch = record {
  content = [];
  operations = [];
  replacements = [];
  preservation = record {
    preimage_sha256 = "";
    postimage_sha256 = "";
    unchanged_region_count = 0;
    unchanged_bytes = 0;
    unchanged_sha256 = "";
    authorized_spans = [];
  };
}

abbrev patch_or_none : Outcome PatchError LocalizedPatch → LocalizedPatch
patch_or_none (returned p) = p
patch_or_none (raised e) = no_patch

abbrev the_patch : LocalizedPatch
the_patch = patch_or_none patched

patched_returns : patched ≡ returned the_patch
unfolding apply_localized_operations Outcome.◌>>=◌ Outcome.ensure Apply.check_target Paths.safe_path
    contains Paths.path_parts Paths.kept_parts Paths.split_slash Paths.path_text Paths.is_git
    Lines.utf8 Apply.trusted_region_of Regions.region_bounds Json.get Regions.span_of
    Operations.resolve_all Operations.resolve Json.has Apply.added Apply.all_rewrites
    Apply.check_order Apply.check_region Apply.joined Apply.patch_of Apply.removed Apply.same_region
    Apply.splice Apply.unchanged Lines.crlf_to_lf Lines.line_at Lines.line_boundary_content
    Lines.line_end_at Lines.line_ending Lines.logical_line_matches Lines.matches_from
    Lines.normalized Lines.replace_char Lines.separated Lines.terminated Lines.utf8_length
    Lines.without_ending OperationFields.all_printable OperationFields.anchor_of
    Operations.anchored_edit OperationFields.content_of OperationFields.crosses_section
    Operations.delete_edit Operations.edit_for OperationFields.in_region Operations.insert_edit
    Operations.line_edit OperationFields.match_count_of OperationFields.operation_of
    OperationFields.placement_of Operations.replace_edit Operations.rewrite_edit
    OperationFields.the_match Regions.named Regions.section_end Regions.titled Text.drop
    Text.ends_with Text.get_elem? Text.index_of Text.take
patched_returns = refl

patched_content : the_patch.content ≡ codes "one\n2\nthree\nfour\n"
unfolding apply_localized_operations Outcome.◌>>=◌ Outcome.ensure Apply.check_target Paths.safe_path
    contains Paths.path_parts Paths.kept_parts Paths.split_slash Paths.path_text Paths.is_git
    Lines.utf8 Apply.trusted_region_of Regions.region_bounds Json.get Regions.span_of
    Operations.resolve_all Operations.resolve Json.has Apply.added Apply.all_rewrites
    Apply.check_order Apply.check_region Apply.joined Apply.patch_of Apply.removed Apply.same_region
    Apply.splice Apply.unchanged Lines.crlf_to_lf Lines.line_at Lines.line_boundary_content
    Lines.line_end_at Lines.line_ending Lines.logical_line_matches Lines.matches_from
    Lines.normalized Lines.replace_char Lines.separated Lines.terminated Lines.utf8_length
    Lines.without_ending OperationFields.all_printable OperationFields.anchor_of
    Operations.anchored_edit OperationFields.content_of OperationFields.crosses_section
    Operations.delete_edit Operations.edit_for OperationFields.in_region Operations.insert_edit
    Operations.line_edit OperationFields.match_count_of OperationFields.operation_of
    OperationFields.placement_of Operations.replace_edit Operations.rewrite_edit
    OperationFields.the_match Regions.named Regions.section_end Regions.titled Text.drop
    Text.ends_with Text.get_elem? Text.index_of Text.take
patched_content = refl

-- A path that is a dot has no first part.
dot_raises : Paths.safe_path (λ t. t) (codes ".") ≡ raised index_error
unfolding Paths.safe_path Outcome.◌>>=◌ Outcome.ensure contains Paths.path_parts Paths.kept_parts
    Paths.split_slash Paths.path_text Paths.is_git
dot_raises = refl

patch_restores_example :
    put_back
      (codes "one\ntwo\nthree\n")
      the_patch.content
      0
      0
      the_patch.preservation.authorized_spans
      the_patch.replacements
    ≡ codes "one\ntwo\nthree\n"
patch_restores_example =
    patch_restores (λ s. s) (λ t. t ∷ []) (λ t. ([], [])) (λ t. t) (λ t. "digest") (λ c. true)
      "docs/a.md" "one\ntwo\nthree\n" "digest" revision two_operations (some whole) false true
      the_patch patched_returns

patch_size_example :
    length the_patch.content + spans_length the_patch.preservation.authorized_spans
    ≡ length (codes "one\ntwo\nthree\n") + texts_length the_patch.replacements
patch_size_example =
    patch_size (λ s. s) (λ t. t ∷ []) (λ t. ([], [])) (λ t. t) (λ t. "digest") (λ c. true)
      "docs/a.md" "one\ntwo\nthree\n" "digest" revision two_operations (some whole) false true
      the_patch patched_returns

patch-IsInRegion_example : All (IsInRegion (0, 14)) the_patch.operations
unfolding apply_localized_operations Outcome.◌>>=◌ Outcome.ensure Apply.check_target Paths.safe_path
    contains Paths.path_parts Paths.kept_parts Paths.split_slash Paths.path_text Paths.is_git
    Lines.utf8 Apply.trusted_region_of Regions.region_bounds Json.get Regions.span_of
    Operations.resolve_all Operations.resolve Json.has Apply.added Apply.all_rewrites
    Apply.check_order Apply.check_region Apply.joined Apply.patch_of Apply.removed Apply.same_region
    Apply.splice Apply.unchanged Lines.crlf_to_lf Lines.line_at Lines.line_boundary_content
    Lines.line_end_at Lines.line_ending Lines.logical_line_matches Lines.matches_from
    Lines.normalized Lines.replace_char Lines.separated Lines.terminated Lines.utf8_length
    Lines.without_ending OperationFields.all_printable OperationFields.anchor_of
    Operations.anchored_edit OperationFields.content_of OperationFields.crosses_section
    Operations.delete_edit Operations.edit_for OperationFields.in_region Operations.insert_edit
    Operations.line_edit OperationFields.match_count_of OperationFields.operation_of
    OperationFields.placement_of Operations.replace_edit Operations.rewrite_edit
    OperationFields.the_match Regions.named Regions.section_end Regions.titled Text.drop
    Text.ends_with Text.get_elem? Text.index_of Text.take
patch-IsInRegion_example =
    patch-IsInRegion (λ s. s) (λ t. t ∷ []) (λ t. ([], [])) (λ t. t) (λ t. "digest") (λ c. true)
      "docs/a.md" "one\ntwo\nthree\n" "digest" revision two_operations (some whole) false true whole
      (0, 14) the_patch refl refl patched_returns

logical_line_matches-lines_named_example :
    logical_line_matches (codes "a\r\nb\na") (codes "a") 0 6
    ≡ lines_named (codes "a") 0 6 0 (split_lines (codes "a\r\nb\na"))
logical_line_matches-lines_named_example =
    logical_line_matches-lines_named (codes "a\r\nb\na") (codes "a") 0 6
