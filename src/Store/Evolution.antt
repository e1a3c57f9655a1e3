-- ===== src/Store/Evolution.antt =====
-- What the store may do to a stored object: which of its fields a write leaves as they were.
pub mod Writes
pub mod Stable
use agent_engineering_platfo.Prelude.{
  String, ◌≡◌, refl, sym, ◌∙◌, Bool, true, false, List, [], ◌∷◌, ◌++◌, arith, eq_iff, str_eq,
  String_eq, contains, if◌then◌else◌, Bool-cases, inl, inr,
}
use agent_engineering_platfo.Action.{Result, ok}
use agent_engineering_platfo.Json.{Json, str, Fields, get, has}
use agent_engineering_platfo.Store.State.{
  is_text, in_set, terminal_statuses, runtime_identity_fields, kind_identity_fields,
}
use agent_engineering_platfo.Store.Objects.{has_any}

-- The fields that bind an object's identity: those of every object and those of its kind.
abbrev pub identity_fields : Json → List String
identity_fields kind = runtime_identity_fields ++ kind_identity_fields kind

abbrev pub IsIdentity : Fields → String → Type 0
IsIdentity v key = contains (identity_fields (get "kind" v)) key ≡ true

-- The object has ended.
abbrev pub IsTerminal : Fields → Type 0
IsTerminal v = in_set (get "status" v) terminal_statuses ≡ ok true

-- `w` may stand where `v` stood: the identity is the same, and an object that has ended keeps every
-- field but its list of attempts.
pub record Evolves (v w : Fields) : Type 0 where
  pub identity : (key : String) → IsIdentity v key → get key w ≡ get key v
  pub frozen :
      IsTerminal v → (key : String) → str_eq "taskExecutionIds" key ≡ false → get key w ≡ get key v

pub Evolves-refl : (v : Fields) → Evolves v v
Evolves-refl v = record { identity = λ key h. refl; frozen = λ t key h. refl }

pub Evolves-trans : {u v w : Fields} → Evolves u v → Evolves v w → Evolves u w
unfolding contains
Evolves-trans {u} {v} {w} a b = record {
  identity = λ key h. b.identity key (rw (a.identity "kind" refl) h) ∙ a.identity key h;
  frozen = λ t key h. b.frozen (rw (a.frozen t "status" refl) t) key h ∙ a.frozen t key h;
}

contains-if_lem :
    (b : Bool) (names : List String) (name : String)
    → contains names name ≡ false
    → contains (if b then names else []) name ≡ false
unfolding contains
contains-if_lem true names name h = h
contains-if_lem false names name h = refl

-- The names that the store writes itself.
pub data IsWritten : String → Type 0 where
  status : IsWritten "status"
  updated_at : IsWritten "updatedAt"
  completed_at : IsWritten "completedAt"
  dispatch_state : IsWritten "dispatchState"
  dispatch_owner_id : IsWritten "dispatchOwnerId"
  approval_id : IsWritten "approvalId"
  task_execution_ids : IsWritten "taskExecutionIds"

-- They are no identity fields, of whatever kind the object is.
written_not_identity :
    {name : String} (kind : Json) → IsWritten name → contains (identity_fields kind) name ≡ false
unfolding contains
written_not_identity kind status = contains-if_lem (is_text "TaskExecution" kind) _ "status" refl
written_not_identity kind updated_at =
    contains-if_lem (is_text "TaskExecution" kind) _ "updatedAt" refl
written_not_identity kind completed_at =
    contains-if_lem (is_text "TaskExecution" kind) _ "completedAt" refl
written_not_identity kind dispatch_state =
    contains-if_lem (is_text "TaskExecution" kind) _ "dispatchState" refl
written_not_identity kind dispatch_owner_id =
    contains-if_lem (is_text "TaskExecution" kind) _ "dispatchOwnerId" refl
written_not_identity kind approval_id =
    contains-if_lem (is_text "TaskExecution" kind) _ "approvalId" refl
written_not_identity kind task_execution_ids =
    contains-if_lem (is_text "TaskExecution" kind) _ "taskExecutionIds" refl

-- So each differs from every identity field.
pub written_ne :
    {name : String} (v : Fields) (key : String)
    → IsWritten name
    → IsIdentity v key
    → str_eq name key ≡ false
written_ne {name} v key written inside = elim (Bool-cases (str_eq name key)) [
  | inl same ↦
      let out : contains (identity_fields (get "kind" v)) key ≡ false =
        rw (← (eq_iff name key).0 same) (written_not_identity (get "kind" v) written) in
      cc
  | inr other ↦ other
]

-- Changes that name no protected field lack each of them.
pub has_of_has_any :
    (keys : List String) (changes : Fields) (key : String)
    → has_any keys changes ≡ false
    → contains keys key ≡ true
    → has key changes ≡ false
unfolding has_any contains
has_of_has_any [] changes key h m = cc
has_of_has_any (k ∷ ks) changes key h m = elim (Bool-cases (str_eq k key)) [
  | inl same ↦ rw (← (eq_iff k key).0 same) (ground arith)
  | inr other ↦ has_of_has_any ks changes key (ground arith) (ground arith)
]
