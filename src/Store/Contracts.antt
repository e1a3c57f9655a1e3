-- ===== src/Store/Contracts.antt =====
-- What single operations promise to clients that race: leases, dispatch claims and optimistic
-- status updates.
use agent_engineering_platfo.Prelude.{
  String, ◌≡◌, ◌∙◌, ◌≢◌, refl, Bool, true, false, Option, some, arith, eq_iff, str_eq, String_eq,
}
use agent_engineering_platfo.Action.{
  pure, raise, guard_case, branch_case, lift_case, Error, Result, ok, err, status_conflict, ◌>>=◌,
}
use agent_engineering_platfo.Dict.{lookup, lookup-insert_self}
use agent_engineering_platfo.Json.{
  Json, null, str, Fields, get, set, update, get-set_default, json_laws,
}
use agent_engineering_platfo.Store.State.{Store, Lease, text_lt, is_text, save}
use agent_engineering_platfo.Store.Rules.{require_case, save_case}
use agent_engineering_platfo.Store.Evolution.Stable.{lookup-save_self}
use agent_engineering_platfo.Store.Objects.{update_status, with_status, or_now}
use agent_engineering_platfo.Store.Leases.{
  acquire_lease, renew_lease, release_lease, update_status_with_lease,
}
use agent_engineering_platfo.Store.Transitions.{claim_task_dispatch}

-- While one owner's lease has not expired, no other owner acquires, renews or releases it, or updates
-- an object under it, and the store stays as it was.
pub lease_excludes :
    (key owner other now expires later next : String) (s : Store) (i status : String)
    (expected updated_at : Option String) (changes : Fields) (clock : String)
    → (acquire_lease key owner now expires s).0 ≡ true
    → owner ≢ other
    → text_lt later expires ≡ true
    → let s' = (acquire_lease key owner now expires s).1 in
      (acquire_lease key other later next s' ≡ (false, s'))
      × (renew_lease key other later next s' ≡ (false, s'))
      × (release_lease key other s' ≡ (false, s'))
      × (update_status_with_lease i status key other later expected updated_at changes clock s'
          ≡ (err status_conflict, s'))
unfolding acquire_lease renew_lease release_lease update_status_with_lease ◌>>=◌
lease_excludes key owner other now expires later next s i status x u c clock got differ before = (
  ground (arith, eq_iff owner other, lookup-insert_self key lease s.leases),
  ground (arith, eq_iff owner other, lookup-insert_self key lease s.leases),
  ground (arith, eq_iff owner other, lookup-insert_self key lease s.leases),
  ground (arith, eq_iff owner other, lookup-insert_self key lease s.leases),
)
  where
    lease : Lease
    lease = record { owner_id = owner; expires_at = expires }

-- A task that has been claimed.
record IsClaimed (task : String) (v : Fields) (s : Store) : Type 0 where
  found : lookup task s.objects ≡ some v
  kind : is_text "TaskExecution" (get "kind" v) ≡ true
  running : is_text "RUNNING" (get "status" v) ≡ true
  claimed : is_text "CLAIMED" (get "dispatchState" v) ≡ true

claim_of_claimed :
    (task owner time : String) (v : Fields) (s : Store)
    → IsClaimed task v s
    → owner ≢ ""
    → claim_task_dispatch task owner time s ≡ (ok (false, v), s)
unfolding claim_task_dispatch pure
claim_of_claimed task owner time v s c named =
    guard_case Lost _ _ _ s (λ e. ground (arith, eq_iff owner ""))
      λ _.
        require_case Lost task _ s (λ e. ground (arith, c.found))
          λ w found.
            let same : w ≡ v = cc (found, c.found) in
            guard_case Lost _ _ _ s (λ e. ground (arith, c.kind))
              λ _.
                guard_case Lost _ _ _ s (λ e. ground (arith, c.running))
                  λ _. branch_case Lost _ _ _ s (λ _. rw same) (λ free. ground (arith, c.claimed))
  where
    Lost : Result (Bool × Fields) × Store → Type 0
    Lost r = r ≡ (ok (false, v), s)

claim_saved :
    (task owner time : String) (w v : Fields) (s : Store)
    → is_text "TaskExecution" (get "kind" w) ≡ true
    → is_text "RUNNING" (get "status" w) ≡ true
    → let w' =
        set "updatedAt"
          (str time)
          (set "dispatchOwnerId" (str owner) (set "dispatchState" (str "CLAIMED") w)) in
      ◌≡◌ {A = Result (Bool × Fields)} (ok (true, w')) (ok (true, v))
      → IsClaimed task v (save task w' s).1
claim_saved task owner time w v s kind running h =
    let w' =
      set "updatedAt" (str time)
        (set "dispatchOwnerId" (str owner) (set "dispatchState" (str "CLAIMED") w)) in
    let same : w' ≡ v = cc in
    rw (← same) (record {
      found = lookup-save_self task w' s;
      kind = simp json_laws kind;
      running = simp json_laws running;
      claimed = simp json_laws refl;
    })

claim_task_dispatch-IsClaimed :
    (task owner time : String) (v : Fields) (s : Store)
    → (claim_task_dispatch task owner time s).0 ≡ ok (true, v)
    → IsClaimed task v (claim_task_dispatch task owner time s).1
unfolding claim_task_dispatch pure
claim_task_dispatch-IsClaimed task owner time v s =
    guard_case Won _ _ _ s (λ _ h. cc)
      λ _.
        require_case Won task _ s (λ _ h. cc)
          λ w found.
            guard_case Won _ _ _ s (λ _ h. cc)
              λ kind.
                guard_case Won _ _ _ s (λ _ h. cc)
                  λ running.
                    branch_case Won _ _ _ s (λ _ h. cc)
                      λ _.
                        guard_case Won _ _ _ s (λ _ h. cc)
                          λ _.
                            save_case Won task _ _ s
                              λ h. claim_saved task owner time w v s kind running h
  where
    Won : Result (Bool × Fields) × Store → Type 0
    Won r = r.0 ≡ ok (true, v) → IsClaimed task v r.1

-- Once a claim of a task has won, a claim by a non-empty owner id loses in every later store in which
-- the task's object is the one that the winner left: it gets that object and changes nothing.
pub dispatch_once :
    (task owner other time later : String) (v : Fields) (s t : Store)
    → (claim_task_dispatch task owner time s).0 ≡ ok (true, v)
    → lookup task t.objects ≡ lookup task (claim_task_dispatch task owner time s).1.objects
    → other ≢ ""
    → claim_task_dispatch task other later t ≡ (ok (false, v), t)
dispatch_once task owner other time later v s t won untouched named =
    let c = claim_task_dispatch-IsClaimed task owner time v s won in
    claim_of_claimed task other later v t
      (record {
        found = untouched ∙ c.found;
        kind = c.kind;
        running = c.running;
        claimed = c.claimed;
      })
      named

pub get_status_with_status :
    (v changes : Fields) (status time : String)
    → get "status" (with_status v status time changes) ≡ str status
unfolding with_status
get_status_with_status v changes status time =
    let updated = set "updatedAt" (str time) (set "status" (str status) (update v changes)) in
    let kept : get "status" updated ≡ str status = simp json_laws in
    ground (arith, kept, get-set_default "completedAt" "status" (str time) updated refl)

-- The object that a successful update has left.
record HasStatus (i status : String) (s : Store) : Type 0 where
  now : Fields
  found : lookup i s.objects ≡ some now
  moved : get "status" now ≡ str status

updated-HasStatus :
    (i status x : String) (updated_at : Option String) (changes w : Fields) (now : String)
    (s : Store)
    → str_eq status x ≡ false
    → (update_status i status (some x) updated_at changes now s).0 ≡ ok w
    → HasStatus i status (update_status i status (some x) updated_at changes now s).1
unfolding update_status pure raise
updated-HasStatus i status x updated_at changes w now s differ =
    guard_case Q _ _ _ s (λ _ h. cc)
      λ _.
        require_case Q i _ s (λ _ h. cc)
          λ v found.
            guard_case Q _ _ _ s (λ _ h. cc)
              λ _.
                guard_case Q _ _ _ s (λ _ h. cc)
                  λ _.
                    guard_case Q _ _ _ s (λ _ h. cc)
                      λ current.
                        lift_case Q _ _ s (λ _ _ h. cc)
                          λ terminal _.
                            branch_case Q _ _ _ s
                              (λ _.
                                branch_case Q _ _ _ s
                                  (λ same h. absurd (two_texts (get "status" v) current same))
                                  (λ _ h. cc))
                              (λ _ h. record {
                                now = with_status v status (or_now updated_at now) changes;
                                found = lookup-save_self i _ s;
                                moved = get_status_with_status v changes status _;
                              })
  where
    Q : Result Fields × Store → Type 0
    Q r = r.0 ≡ ok w → HasStatus i status r.1

    two_texts : (j : Json) → is_text x j ≡ true → is_text status j ≡ true → ⊥
    two_texts (str t) a b = ground (arith, differ, eq_iff t x, eq_iff t status, eq_iff status x)
    two_texts null a b = cc
    two_texts _ a b = cc

-- Of two clients that update one object and expect the same status, the second fails and changes
-- nothing, if the first has moved the object to another status.
pub stale_update_fails :
    (i first second x : String) (t u : Option String) (c d w : Fields) (m n : String) (s : Store)
    → str_eq first x ≡ false
    → (update_status i first (some x) t c m s).0 ≡ ok w
    → let s' = (update_status i first (some x) t c m s).1 in
      (e : Error) × (update_status i second (some x) u d n s' ≡ (err e, s'))
unfolding update_status
stale_update_fails i first second x t u c d w m n s differ done =
    let s' = (update_status i first (some x) t c m s).1 in
    let h = updated-HasStatus i first x t c w m s differ done in
    guard_case (Q s') _ _ _ s' (λ _. (_, refl))
      λ _.
        require_case (Q s') i _ s' (λ _. (_, refl))
          λ v found.
            guard_case (Q s') _ _ _ s' (λ _. (_, refl))
              λ _.
                guard_case (Q s') _ _ _ s' (λ _. (_, refl))
                  λ _.
                    guard_case (Q s') _ _ _ s' (λ _. (_, refl))
                      λ current.
                        let same : v ≡ h.now = cc (found, h.found) in
                        absurd (ground (arith, same, h.moved, current, differ))
  where
    Q : Store → Result Fields × Store → Type 0
    Q s' r = (e : Error) × (r ≡ (err e, s'))
