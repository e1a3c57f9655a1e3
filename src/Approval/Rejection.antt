-- ===== src/Approval/Rejection.antt =====
-- src/aep/approval.py: a request that is pending can be rejected.
use agent_engineering_platfo.Prelude.{
  String, ◌≡◌, refl, Bool, true, false, some, arith, eq_iff, String_eq, contains,
}
use agent_engineering_platfo.Action.{Result, ok, ◌>>=◌}
use agent_engineering_platfo.Dict.{lookup}
use agent_engineering_platfo.Json.{Json, Items, null, arr, str, Fields, end, field, get, has}
use agent_engineering_platfo.Store.State.{Store, save, require, is_text, in_set}
use agent_engineering_platfo.Store.Objects.{
  get_object, holds, update_status, replaces_protected, has_any, has_both, with_status, or_now,
}
use agent_engineering_platfo.Store.Contracts.{get_status_with_status}
use agent_engineering_platfo.Approval.Gate.{Instants, is_expired, stripped, decide_pending, decide}

-- An approval request that waits for a decision and never expires.
pub record IsOpen (reviewers : Items) (digest : String) (v : Fields) : Type 0 where
  pub kind_is : get "kind" v ≡ str "Approval"
  pub status_is : get "status" v ≡ str "PENDING"
  pub lasts : get "expiresAt" v ≡ null
  pub has_list : has "authorizedReviewers" v ≡ true
  pub listed : get "authorizedReviewers" v ≡ arr reviewers
  pub bound : get "artifactRequestDigest" v ≡ str digest

-- A call returned an object with the status.
abbrev pub IsDecided : String → Result Fields × Store → Type 0
IsDecided status x = (w : Fields) × ((x.0 ≡ ok w) × (get "status" w ≡ str status))

-- The changes that a decision makes.
abbrev decision_changes : String → String → String → Fields
decision_changes actor time text =
    field "approver" (str actor) (field "decidedAt" (str time) (field "reason" (str text) end))

replaces_none :
    (v : Fields) (actor time text : String)
    → get "kind" v ≡ str "Approval"
    → replaces_protected v (decision_changes actor time text) ≡ false
unfolding replaces_protected has_any has_both has
replaces_none v actor time text kind = rw kind refl

rejected :
    (i time text : String) (actor now : String) (v : Fields) (s : Store)
    → lookup i s.objects ≡ some v
    → get "kind" v ≡ str "Approval"
    → get "status" v ≡ str "PENDING"
    → update_status i "REJECTED"
        (some "PENDING")
        (some time)
        (decision_changes actor time text)
        now
        s
      ≡ save i
          (with_status v "REJECTED" (or_now (some time) now) (decision_changes actor time text))
          s
unfolding update_status ◌>>=◌ require in_set lookup save contains
rejected i time text actor now v s found kind pending =
    rw (found, replaces_none v actor time text kind, pending) refl

module _ (strip : String → String) where
  decide_pending-IsDecided :
      (i time text : String) (actor now : String) (reason : Json) (v : Fields) (s : Store)
      → lookup i s.objects ≡ some v
      → get "kind" v ≡ str "Approval"
      → get "status" v ≡ str "PENDING"
      → stripped strip reason ≡ ok text
      → IsDecided "REJECTED" (decide_pending strip v i actor "REJECTED" time reason now s)
  unfolding decide_pending ◌>>=◌ contains save
  decide_pending-IsDecided i time text actor now reason v s found kind pending blank =
      rw (blank, rejected i time text actor now v s found kind pending)
        (_, (refl, get_status_with_status v (decision_changes actor time text) "REJECTED" _))

  module _ (render : Json → String) (in_text : String → String → Bool)
      (short_hash : String → String) (d : Instants) where
    -- A reviewer of an open request rejects it with its digest and a reason.
    pub decide-IsDecided :
        (i time text : String) (actor now digest : String) (reason : Json) (vs : Items) (v : Fields)
        (s : Store)
        → lookup i s.objects ≡ some v
        → IsOpen vs digest v
        → holds actor vs ≡ true
        → stripped strip reason ≡ ok text
        → IsDecided "REJECTED"
            (decide strip render in_text short_hash d i actor "REJECTED" time reason digest now s)
    unfolding decide ◌>>=◌ get_object is_expired
    decide-IsDecided i time text actor now digest reason vs v s found o listed blank =
        let same : is_text digest (str digest) ≡ true = ground (arith, eq_iff digest digest) in
        rw (found, o.kind_is, o.has_list, o.listed, listed, o.bound, same, o.status_is, o.lasts)
          (decide_pending-IsDecided i time text actor now reason v s found o.kind_is o.status_is
            blank)
