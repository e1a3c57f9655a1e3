-- ===== src/LocalizedPatch/Paths.antt =====
-- src/aep/localized_patch.py: `_safe_path`, over the parts that `PurePosixPath` makes of a text.
-- `casefold` is Python's `str.casefold`.
use agent_engineering_platfo.Prelude.{
  ℕ, Bool, not, ◌||◌, List, [], ◌∷◌, ◌++◌, nat_eq, contains, Nat_eq, if◌then◌else◌,
}
use agent_engineering_platfo.Outcome.{Outcome, returned, raised, ◌>>=◌, ◌>>◌, ensure}
use agent_engineering_platfo.Text.{codes, same, Text_eq, starts_with}
use agent_engineering_platfo.LocalizedPatch.{PatchError, unsafe_path, index_error}

abbrev pub slash : ℕ
slash = 47

abbrev pub dot : List ℕ
dot = 46 ∷ []

abbrev pub dot_dot : List ℕ
dot_dot = 46 ∷ 46 ∷ []

abbrev add_char : ℕ → List (List ℕ) → List (List ℕ)
add_char c [] = (c ∷ []) ∷ []
add_char c (part ∷ parts) = (c ∷ part) ∷ parts

-- value.split("/")
unfoldable pub split_slash : List ℕ → List (List ℕ)
split_slash [] = [] ∷ []
split_slash (c ∷ t) =
    let rest = split_slash t in if nat_eq c slash then [] ∷ rest else add_char c rest

-- The parts that count: neither empty nor a dot.
unfoldable pub kept_parts : List (List ℕ) → List (List ℕ)
kept_parts [] = []
kept_parts (part ∷ parts) =
    let rest = kept_parts parts in if same part [] || same part dot then rest else part ∷ rest

-- `PurePosixPath(value).parts` of a path that is not absolute
unfoldable pub path_parts : List ℕ → List (List ℕ)
path_parts value = kept_parts (split_slash value)

-- `str(path)` of the parts
unfoldable pub path_text : List (List ℕ) → List ℕ
path_text [] = dot
path_text (part ∷ []) = part
path_text (part ∷ next ∷ parts) = part ++ slash ∷ path_text (next ∷ parts)

module _ (casefold : List ℕ → List ℕ) where
  -- `path.parts[0].casefold() == ".git"`
  unfoldable pub is_git : List (List ℕ) → Outcome PatchError Bool
  is_git [] = raised index_error
  is_git (part ∷ parts) = returned (same (casefold part) (codes ".git"))

  -- The conditions of the two tests, in their order.
  unfoldable pub safe_path : List ℕ → Outcome PatchError (Unit {0})
  safe_path value = do
    ensure (not (same value [] || contains value 92 || contains value 0)) unsafe_path
    ensure (not (starts_with slash value)) unsafe_path
    let parts = path_parts value
    ensure (not (contains parts dot_dot)) unsafe_path
    ensure (same (path_text parts) value) unsafe_path
    git ← is_git parts
    ensure (not git) unsafe_path
