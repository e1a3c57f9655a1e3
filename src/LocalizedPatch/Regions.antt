-- ===== src/LocalizedPatch/Regions.antt =====
-- src/aep/localized_patch.py: `_region_bounds`, over `_region_span` of src/aep/planning_evidence.py,
-- without the identity of the region, which `_region_bounds` drops. Parameters: `structure` stands for
-- `_markdown_structure`, whose regular expressions find the headings and the fences of a text; `strip`
-- and `words` are Python's `str.strip` and `str.split`.
use agent_engineering_platfo.Prelude.{
  ℕ, String, ◌&&◌, List, [], ◌∷◌, str_eq, ltb, leb, length, contains, if◌then◌else◌,
}
use agent_engineering_platfo.Outcome.{Outcome, returned, raised}
use agent_engineering_platfo.Json.{Json, str, Fields, get}
use agent_engineering_platfo.Text.{codes, same, Text_eq}
use agent_engineering_platfo.LocalizedPatch.{PatchError, trusted_region_unresolved}

pub record Heading : Type 0 where
  pub offset : ℕ
  pub title : List ℕ
  pub level : ℕ

pub record Fence : Type 0 where
  pub fence_start : ℕ
  pub fence_end : ℕ
  pub info : List ℕ

-- `for offset, _title, candidate_level, _line in headings if …`, and the default
unfoldable pub section_end : ℕ → ℕ → List Heading → ℕ → ℕ
section_end start level [] default = default
section_end start level (h ∷ hs) default =
    if ltb start h.offset && leb h.level level then h.offset else section_end start level hs default

unfoldable pub titled : List ℕ → List Heading → List Heading
titled name [] = []
titled name (h ∷ hs) = let rest = titled name hs in if same h.title name then h ∷ rest else rest

abbrev pub the_section : List Heading → ℕ → List Heading → Outcome PatchError (ℕ × ℕ)
the_section headings default (h ∷ []) =
    returned (h.offset, section_end h.offset h.level headings default)
the_section headings default _ = raised trusted_region_unresolved

abbrev pub the_fence : List Fence → Outcome PatchError (ℕ × ℕ)
the_fence (f ∷ []) = returned (f.fence_start, f.fence_end)
the_fence _ = raised trusted_region_unresolved

module _ (strip : String → String) (words : List ℕ → List (List ℕ))
    (structure : List ℕ → List Heading × List Fence) where
  unfoldable pub named : List ℕ → List Fence → List Fence
  named name [] = []
  named name (f ∷ fs) =
      let rest = named name fs in if contains (words f.info) name then f ∷ rest else rest

  unfoldable pub span_of : List ℕ → String → String → Outcome PatchError (ℕ × ℕ)
  span_of content kind name =
      if str_eq (strip name) ""
      then raised trusted_region_unresolved
      else if str_eq kind "WHOLE_FILE"
      then if str_eq name "WHOLE_FILE"
        then returned (0, length content)
        else raised trusted_region_unresolved
      else if str_eq kind "MARKDOWN_SECTION"
      then the_section (structure content).0 (length content)
          (titled (codes name) (structure content).0)
      else if str_eq kind "MARKDOWN_FENCE"
      then the_fence (named (codes name) (structure content).1)
      else raised trusted_region_unresolved

  abbrev pub region_of : List ℕ → Json → Json → Outcome PatchError (ℕ × ℕ)
  region_of content (str kind) (str name) = span_of content kind name
  region_of content _ _ = raised trusted_region_unresolved

  -- `_region_bounds`: every error of `_region_span` becomes this one.
  unfoldable pub region_bounds : List ℕ → Fields → Outcome PatchError (ℕ × ℕ)
  region_bounds content region = region_of content (get "kind" region) (get "name" region)
