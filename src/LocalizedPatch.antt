-- ===== src/LocalizedPatch.antt =====
-- src/aep/localized_patch.py: text edits that are checked against an immutable preimage. The
-- diagnostics of `LocalizedPatchError`, and what is passed between the steps.
pub mod Lines
pub mod Paths
pub mod Regions
pub mod OperationFields
pub mod Operations
pub mod Apply
pub mod Matched
pub mod Bounds
pub mod InPlace
pub mod Resolved
pub mod Ordered
pub mod Restored
pub mod Preserved
mod Examples
use agent_engineering_platfo.Prelude.{ℕ, String, Option, List}
use agent_engineering_platfo.Json.{Json}

-- The codes of `LocalizedPatchError`, and the errors that Python itself raises.
pub data PatchError : Type 0 where
  unsafe_path non_utf8_target stale_preimage stale_revision missing_operation : PatchError
  trusted_region_missing trusted_region_unresolved invalid_operation path_mismatch : PatchError
  unsafe_content rewrite_not_authorized missing_anchor invalid_match_count : PatchError
  invalid_anchor anchor_missing anchor_ambiguous delete_not_authorized out_of_region : PatchError
  out_of_order_edits overlapping_edits : PatchError
  index_error type_error : PatchError

pub data Operation : Type 0 where
  inserted replaced deleted rewritten : Operation

pub data AnchorKind : Type 0 where
  logical_line whole_file : AnchorKind

-- A logical line: its span without the terminator, and the terminator.
pub record Line : Type 0 where
  pub line_start : ℕ
  pub line_end : ℕ
  pub terminator : List ℕ

-- `trusted_region`
pub record TrustedRegion : Type 0 where
  pub kind : Json
  pub name : Json
  pub selection_id : Json
  pub plan_artifact_id : Json
  pub span : ℕ × ℕ

pub record Anchor : Type 0 where
  pub anchor_sha256 : String
  pub anchor_kind : AnchorKind
  pub resolved_anchor_span : ℕ × ℕ
  pub trusted_region_anchor_match_count : ℕ

-- `record` of one operation; a rewrite has no anchor.
pub record Evidence : Type 0 where
  pub ordinal : ℕ
  pub operation : Operation
  pub span : ℕ × ℕ
  pub anchor : Option Anchor
  pub model_declared_region_id : Json
  pub trusted_region : Option TrustedRegion

-- (start, end, content, record)
pub record Edit : Type 0 where
  pub start : ℕ
  pub stop : ℕ
  pub replacement : List ℕ
  pub evidence : Evidence

-- The record of an operation in the result.
pub record AppliedOperation : Type 0 where
  pub evidence : Evidence
  pub path : String
  pub repository_revision : String
  pub preimage_sha256 : String
  pub postimage_sha256 : String

pub record Preservation : Type 0 where
  pub preimage_sha256 : String
  pub postimage_sha256 : String
  pub unchanged_region_count : ℕ
  pub unchanged_bytes : ℕ
  pub unchanged_sha256 : String
  pub authorized_spans : List (ℕ × ℕ)

pub record LocalizedPatch : Type 0 where
  pub content : List ℕ
  pub operations : List AppliedOperation
  pub replacements : List (List ℕ)
  pub preservation : Preservation
