-- ===== src/LocalizedPatch/Lines.antt =====
-- src/aep/localized_patch.py: `_logical_line_matches`, `_line_boundary_content`, `_line_ending` and
-- `_utf8`.
use agent_engineering_platfo.Prelude.{
  ℕ, zero, suc, ◌-◌, ◌+◌, Bool, true, false, not, ◌&&◌, ◌||◌, Option, none, some, List, [], ◌∷◌,
  ◌++◌, ltb, leb, nat_eq, length, contains, Nat_eq, if◌then◌else◌,
}
use agent_engineering_platfo.Text.{
  slice, find, get_elem?, char_is, starts_with, ends_with, same, lf, cr,
}
use agent_engineering_platfo.LocalizedPatch.{Line}

-- `newline - 1 if newline > cursor and content[newline - 1] == "\r" else newline`
unfoldable pub line_end_at : List ℕ → ℕ → ℕ → ℕ
line_end_at content cursor newline =
    if ltb cursor newline && char_is cr (get_elem? content (newline - 1))
    then newline - 1
    else newline

-- The line at the cursor, and the cursor after it.
unfoldable pub line_at : List ℕ → ℕ → Option ℕ → Line × ℕ
line_at content cursor none =
    (record { line_start = cursor; line_end = length content; terminator = [] }, length content)
line_at content cursor (some newline) =
    let line_end = line_end_at content cursor newline in
    (
      record {
        line_start = cursor;
        line_end = line_end;
        terminator = slice line_end (suc newline) content;
      },
      suc newline,
    )

-- The test of a line.
abbrev pub is_match : List ℕ → List ℕ → ℕ → ℕ → Line → Bool
is_match content anchor region_start region_end l =
    leb region_start l.line_start
    && leb l.line_end region_end
    && same (slice l.line_start l.line_end content) anchor

-- The loop, on fuel: a turn moves the cursor past a line.
unfoldable pub matches_from : List ℕ → List ℕ → ℕ → ℕ → ℕ → ℕ → List Line
matches_from content anchor region_start region_end zero cursor = []
matches_from content anchor region_start region_end (suc fuel) cursor =
    elim (leb (length content) cursor) [
      | true ↦ []
      | false ↦
          let at = line_at content cursor (find lf cursor content) in
          let rest = matches_from content anchor region_start region_end fuel at.1 in
          if is_match content anchor region_start region_end at.0 then at.0 ∷ rest else rest
    ]

unfoldable pub logical_line_matches : List ℕ → List ℕ → ℕ → ℕ → List Line
logical_line_matches content anchor region_start region_end =
    matches_from content anchor region_start region_end (suc (length content)) 0

abbrev pub ending_at : List ℕ → Option ℕ → List ℕ
ending_at content none = lf ∷ []
ending_at content (some index) =
    if ltb 0 index && char_is cr (get_elem? content (index - 1)) then cr ∷ lf ∷ [] else lf ∷ []

-- `_line_ending`
unfoldable pub line_ending : List ℕ → List ℕ
line_ending content = ending_at content (find lf 0 content)

-- content.replace("\r\n", "\n")
unfoldable pub crlf_to_lf : List ℕ → List ℕ
crlf_to_lf [] = []
crlf_to_lf (c ∷ t) =
    let rest = crlf_to_lf t in if nat_eq c cr && starts_with lf t then rest else c ∷ rest

-- content.replace(c, text), for a single character
unfoldable pub replace_char : ℕ → List ℕ → List ℕ → List ℕ
replace_char c text [] = []
replace_char c text (d ∷ t) = (if nat_eq d c then text else d ∷ []) ++ replace_char c text t

unfoldable pub normalized : List ℕ → List ℕ → List ℕ
normalized ending content = replace_char lf ending (replace_char cr (lf ∷ []) (crlf_to_lf content))

abbrev pub ends_line : List ℕ → Bool
ends_line t = ends_with cr t || ends_with lf t

-- normalized[:-len(ending)] where the text ends with the ending, which has one or two characters
unfoldable pub without_ending : List ℕ → List ℕ → List ℕ
without_ending ending [] = []
without_ending ending (c ∷ t) =
    let rest = without_ending ending t in if same (c ∷ t) ending then [] else c ∷ rest

abbrev pub is_line_char : Option ℕ → Bool
is_line_char c = char_is cr c || char_is lf c

-- `_line_boundary_content`, from `if not normalized`; `after` is the test of the placement.
unfoldable pub separated : List ℕ → ℕ → Bool → List ℕ → List ℕ → List ℕ
separated preimage offset after ending [] = []
separated preimage offset after ending (c ∷ t) =
    let at_start = nat_eq offset 0 || is_line_char (get_elem? preimage (offset - 1)) in
    if after && not at_start && nat_eq offset (length preimage)
    then at_end_of_file (without_ending ending (c ∷ t))
    else c ∷ t
  where
    at_end_of_file : List ℕ → List ℕ
    at_end_of_file [] = []
    at_end_of_file (d ∷ u) = ending ++ d ∷ u

unfoldable pub terminated : List ℕ → ℕ → List ℕ → List ℕ → List ℕ
terminated preimage offset ending [] = []
terminated preimage offset ending (c ∷ t) =
    if not (ends_line (c ∷ t))
      && (ltb offset (length preimage)
          || not (nat_eq offset (length preimage))
          || ends_line preimage)
    then (c ∷ t) ++ ending
    else c ∷ t

unfoldable pub line_boundary_content : List ℕ → ℕ → List ℕ → Bool → List ℕ
line_boundary_content preimage offset content after =
    let ending = line_ending preimage in
    terminated preimage offset ending
      (separated preimage offset after ending (normalized ending content))

-- `_utf8`: UTF-8 has no surrogates.
unfoldable pub utf8 : List ℕ → Bool
utf8 [] = true
utf8 (c ∷ t) = not (leb 55296 c && leb c 57343) && utf8 t

-- The number of bytes of the text in UTF-8.
unfoldable pub utf8_length : List ℕ → ℕ
utf8_length [] = 0
utf8_length (c ∷ t) =
    (if ltb c 128 then 1 else if ltb c 2048 then 2 else if ltb c 65536 then 3 else 4)
    + utf8_length t

-- `not isinstance(…, str) or "\x00" in text or not _utf8(text)`, for a text
abbrev pub is_clean : List ℕ → Bool
is_clean t = not (contains t 0) && utf8 t
