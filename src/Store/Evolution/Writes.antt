-- ===== src/Store/Evolution/Writes.antt =====
-- Each write of the store keeps the identity of the object, and is made to objects that have not ended.
use agent_engineering_platfo.Prelude.{
  String, ◌≡◌, refl, sym, ◌∙◌, Bool, true, false, not, List, [], ◌∷◌, ◌++◌, arith, eq_iff, str_eq,
  String_eq, contains, Bool-cases, inl, inr,
}
use agent_engineering_platfo.Action.{Result, ok}
use agent_engineering_platfo.Json.{
  Json, null, str, arr, nil, Fields, get, set, pop, update, set_default, get-set, get-pop,
  get-set_default, get-update_absent,
}
use agent_engineering_platfo.Store.State.{
  is_text, in_set, terminal_statuses, runtime_identity_fields, kind_identity_fields,
}
use agent_engineering_platfo.Store.Objects.{has_any, replaces_protected, with_status}
use agent_engineering_platfo.Store.Transitions.{wakeable_statuses, woken, bound_to, is_awaiting}
use agent_engineering_platfo.Store.Evolution.{
  Evolves, IsIdentity, IsWritten, status, updated_at, completed_at, dispatch_state,
  dispatch_owner_id, approval_id, task_execution_ids, written_ne, has_of_has_any, identity_fields,
}

-- The object has a status, and has not ended.
abbrev pub IsOpen : Fields → Type 0
IsOpen v = in_set (get "status" v) terminal_statuses ≡ ok false

record SameIdentity (v w : Fields) : Type 0 where
  at : (key : String) → IsIdentity v key → get key w ≡ get key v

SameIdentity-refl : (v : Fields) → SameIdentity v v
SameIdentity-refl v = record { at = λ key h. refl }

open-Evolves : (v w : Fields) → IsOpen v → SameIdentity v w → Evolves v w
open-Evolves v w still same = record {
  identity = same.at;
  frozen = λ ended key _. absurd (true_ne_false (sym ended ∙ still));
}
  where
    true_ne_false : ◌≡◌ {A = Result Bool} (ok true) (ok false) → ⊥
    true_ne_false e = cc

module _ {v w : Fields} (same : SameIdentity v w) {name : String} (written : IsWritten name)
    (x : Json) where
  SameIdentity-set : SameIdentity v (set name x w)
  SameIdentity-set = record {
    at = λ key inside.
        rw (get-set name key x w, written_ne v key written inside) (same.at key inside);
  }

  SameIdentity-set_default : SameIdentity v (set_default name x w)
  SameIdentity-set_default = record {
    at = λ key inside.
        get-set_default name key x w (written_ne v key written inside) ∙ same.at key inside;
  }

SameIdentity-pop :
    {v w : Fields} {name : String} → SameIdentity v w → IsWritten name → SameIdentity v (pop name w)
SameIdentity-pop {v} {w} {name} same written = record {
  at = λ key inside. rw (get-pop name key w, written_ne v key written inside) (same.at key inside);
}

has_any-append :
    (a b : List String) (changes : Fields)
    → has_any a changes ≡ false
    → has_any b changes ≡ false
    → has_any (a ++ b) changes ≡ false
unfolding has_any
has_any-append [] b changes h k = k
has_any-append (x ∷ a) b changes h k = ground (arith, has_any-append a b changes)

-- Unprotected changes name no field of identity.
unprotected-SameIdentity :
    (v changes : Fields)
    → not (replaces_protected v changes) ≡ true
    → SameIdentity v (update v changes)
unfolding replaces_protected
unprotected-SameIdentity v changes free = record {
  at = λ key inside. get-update_absent key v changes (
      has_of_has_any (identity_fields (get "kind" v)) changes key
        (has_any-append runtime_identity_fields (kind_identity_fields (get "kind" v)) changes
          (ground arith) (ground arith))
        inside);
}

pub with_status-Evolves :
    (v changes : Fields) (to time : String)
    → not (replaces_protected v changes) ≡ true
    → IsOpen v
    → Evolves v (with_status v to time changes)
unfolding with_status
with_status-Evolves v changes to time free still =
    open-Evolves v _ still
      (record { at = λ key inside. ground (arith, updated.at key inside, ended.at key inside) })
  where
    updated : SameIdentity v (set "updatedAt" (str time) (set "status" (str to) (update v changes)))
    updated =
        SameIdentity-set
          (SameIdentity-set (unprotected-SameIdentity v changes free) status (str to)) updated_at
          (str time)

    ended : SameIdentity v (
        set_default "completedAt"
          (str time)
          (set "updatedAt" (str time) (set "status" (str to) (update v changes))))
    ended = SameIdentity-set_default updated completed_at (str time)

-- A status that is known, and is not final, is open.
in_set_of_is_text :
    (x : Json) (t : String)
    → contains terminal_statuses t ≡ false
    → is_text t x ≡ true
    → in_set x terminal_statuses ≡ ok false
unfolding in_set
in_set_of_is_text (str s) t open' same = rw ((eq_iff s t).0 same, open')
in_set_of_is_text null t open' same = cc
in_set_of_is_text _ t open' same = cc

pub running-IsOpen : (v : Fields) → is_text "RUNNING" (get "status" v) ≡ true → IsOpen v
unfolding contains
running-IsOpen v h = in_set_of_is_text (get "status" v) "RUNNING" refl h

pub awaiting-IsOpen : (v : Fields) → is_awaiting v ≡ true → IsOpen v
unfolding contains
awaiting-IsOpen v h = in_set_of_is_text (get "status" v) "AWAITING_APPROVAL" refl (ground arith)

wakeable_open :
    (x : Json) → in_set x wakeable_statuses ≡ ok true → in_set x terminal_statuses ≡ ok false
unfolding in_set contains
wakeable_open (str s) h = elim (Bool-cases (str_eq "AWAITING_APPROVAL" s)) [
  | inl a ↦ rw (← (eq_iff "AWAITING_APPROVAL" s).0 a)
  | inr na ↦ elim (Bool-cases (str_eq "PENDING" s)) [
    | inl p ↦ rw (← (eq_iff "PENDING" s).0 p)
    | inr np ↦ ground arith
  ]
]
wakeable_open null h = cc
wakeable_open _ h = cc

pub wakeable-IsOpen : (v : Fields) → in_set (get "status" v) wakeable_statuses ≡ ok true → IsOpen v
wakeable-IsOpen v h = wakeable_open (get "status" v) h

pub claimed-Evolves :
    (v : Fields) (owner time : String)
    → IsOpen v
    → Evolves v (
        set "updatedAt"
          (str time)
          (set "dispatchOwnerId" (str owner) (set "dispatchState" (str "CLAIMED") v)))
claimed-Evolves v owner time still = open-Evolves v _ still (
    SameIdentity-set
      (SameIdentity-set (SameIdentity-set (SameIdentity-refl v) dispatch_state (str "CLAIMED"))
        dispatch_owner_id (str owner))
      updated_at (str time))

pub bound_to-Evolves :
    (v : Fields) (approval time : String) → IsOpen v → Evolves v (bound_to approval time v)
bound_to-Evolves v approval time still = open-Evolves v _ still (
    SameIdentity-set (SameIdentity-set (SameIdentity-refl v) approval_id (str approval)) updated_at
      (str time))

pub woken-Evolves :
    (v : Fields) (approval time : String)
    → IsOpen v
    → Evolves v (
        set "updatedAt"
          (str time)
          (set "approvalId" (str approval) (pop "dispatchOwnerId" (pop "dispatchState" (woken v)))))
woken-Evolves v approval time still = open-Evolves v _ still (
    SameIdentity-set
      (SameIdentity-set
        (SameIdentity-pop (SameIdentity-pop pending dispatch_state) dispatch_owner_id) approval_id
        (str approval))
      updated_at (str time))
  where
    pending : SameIdentity v (woken v)
    pending = record {
      at = λ key inside.
          ground
            (arith, (SameIdentity-set (SameIdentity-refl v) status (str "PENDING")).at key inside);
    }

pub attached-Evolves : (v : Fields) → Evolves v (set_default "taskExecutionIds" (arr nil) v)
attached-Evolves v = record {
  identity = (SameIdentity-set_default (SameIdentity-refl v) task_execution_ids (arr nil)).at;
  frozen = λ _ key other. get-set_default "taskExecutionIds" key (arr nil) v other;
}

pub extended-Evolves :
    (v : Fields) (ids : Json) (time : String)
    → IsOpen v
    → Evolves v (set "updatedAt" (str time) (set "taskExecutionIds" ids v))
extended-Evolves v ids time still = open-Evolves v _ still (
    SameIdentity-set (SameIdentity-set (SameIdentity-refl v) task_execution_ids ids) updated_at
      (str time))
