-- ===== src/LocalizedPatch/OperationFields.antt =====
-- src/aep/localized_patch.py: the fields of one operation, as `apply_localized_operations` reads them.
use Prim.Native.String.{String}
use agent_engineering_platfo.Prelude.{
  ℕ, suc, Bool, true, false, not, ◌&&◌, ◌||◌, Option, none, some, List, [], ◌∷◌, str_eq, ltb, leb,
  nat_eq, length, Nat_eq, if◌then◌else◌,
}
use agent_engineering_platfo.Outcome.{Outcome, returned, raised, ◌>>◌, ensure}
use agent_engineering_platfo.Json.{Json, null, int, str, arr, obj, Fields, get, has}
use agent_engineering_platfo.Store.State.{is_text}
use agent_engineering_platfo.Text.{codes, same, Text_eq}
use agent_engineering_platfo.LocalizedPatch.{
  PatchError, invalid_operation, unsafe_content, missing_anchor, invalid_match_count,
  anchor_missing, anchor_ambiguous, type_error, Operation, inserted, replaced, deleted, rewritten,
  Line, TrustedRegion,
}
use agent_engineering_platfo.LocalizedPatch.Lines.{utf8, is_clean, ends_line}

-- `operation not in {"insert", "replace", "delete", "rewrite"}`; a list or a dict has no hash.
unfoldable pub operation_of : Json → Outcome PatchError Operation
operation_of (str s) =
    if str_eq s "insert"
    then returned inserted
    else if str_eq s "replace"
    then returned replaced
    else if str_eq s "delete"
    then returned deleted
    else if str_eq s "rewrite"
    then returned rewritten
    else raised invalid_operation
operation_of (arr _) = raised type_error
operation_of (obj _) = raised type_error
operation_of _ = raised invalid_operation

-- raw.get(key, default)
abbrev pub get_or : Json → String → Fields → Json
get_or default key raw = if has key raw then get key raw else default

-- The placement is `after`.
unfoldable pub placement_of : Json → Outcome PatchError Bool
placement_of (str s) =
    if str_eq s "after"
    then returned true
    else if str_eq s "before"
    then returned false
    else raised invalid_operation
placement_of (arr _) = raised type_error
placement_of (obj _) = raised type_error
placement_of _ = raised invalid_operation

-- The content, a text that UTF-8 can hold, without NUL.
unfoldable pub content_of : Json → Outcome PatchError (List ℕ)
content_of (str s) = do ensure (is_clean (codes s)) unsafe_content; returned (codes s)
content_of _ = raised unsafe_content

unfoldable pub anchor_of : Json → Outcome PatchError (List ℕ)
anchor_of (str s) = do
  ensure (not (same (codes s) []) && utf8 (codes s)) missing_anchor
  returned (codes s)
anchor_of _ = raised missing_anchor

unfoldable pub match_count_of : Json → Outcome PatchError ℕ
match_count_of (int (suc n)) = returned (suc n)
match_count_of _ = raised invalid_match_count

-- The one match, and the error for none or several.
unfoldable pub the_match : List Line → Outcome PatchError Line
the_match [] = raised anchor_missing
the_match (l ∷ []) = returned l
the_match (l ∷ m ∷ ls) = raised anchor_ambiguous

unfoldable pub all_printable : (ℕ → Bool) → List ℕ → Bool
all_printable printable [] = true
all_printable printable (c ∷ t) = printable c && all_printable printable t

abbrev pub is_region_id : (ℕ → Bool) → Json → Bool
is_region_id printable null = true
is_region_id printable (str s) =
    not (same (codes s) []) && leb (length (codes s)) 128 && all_printable printable (codes s)
is_region_id printable _ = false

-- The bounds of the region; without a region all operations are rewrites, which read none.
abbrev pub bounds_of : Option TrustedRegion → ℕ × ℕ
bounds_of none = (0, 0)
bounds_of (some r) = r.span

abbrev pub is_section : Option TrustedRegion → Bool
is_section none = false
is_section (some r) = is_text "MARKDOWN_SECTION" r.kind

-- The tests for OUT_OF_REGION that read the span of the edit.
unfoldable pub in_region : (ℕ × ℕ) → (ℕ × ℕ) → (ℕ × ℕ) → Bool
in_region region anchor span =
    leb region.0 anchor.0 && leb anchor.1 region.1 && leb region.0 span.0 && leb span.1 region.1

-- The tests for OUT_OF_REGION of an insert at the border of a Markdown section.
unfoldable pub crosses_section : ℕ → Option TrustedRegion → Bool → ℕ → List ℕ → Bool
crosses_section size region after start content =
    is_section region
    && ((not after && nat_eq start (bounds_of region).0)
        || (after
            && nat_eq start (bounds_of region).1
            && ltb (bounds_of region).1 size
            && not (same content [])
            && not (ends_line content)))

abbrev pub is_delete : Operation → Bool
is_delete deleted = true
is_delete _ = false
