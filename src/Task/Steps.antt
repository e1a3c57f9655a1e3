-- ===== src/Task/Steps.antt =====
-- The transitions of a TaskExecution (src/aep/task_execution.py) follow its table.
use mathlib.Core.Path.{subst}
use agent_engineering_platfo.Prelude.{
  String, ◌≡◌, refl, ap, ◌∙◌, Bool, true, false, Option, none, some, arith, eq_iff, String_eq,
  contains,
}
use agent_engineering_platfo.Action.{Result, ok, pure, guard_case, branch_case, lift_case}
use agent_engineering_platfo.Dict.{lookup}
use agent_engineering_platfo.Json.{Json, str, Fields, get}
use agent_engineering_platfo.Store.State.{Store, is_text, in_set, item, save, terminal_statuses}
use agent_engineering_platfo.Store.Objects.{update_status}
use agent_engineering_platfo.Store.Rules.{require_case}
use agent_engineering_platfo.Store.Evolution.Stable.{lookup-save_self}
use agent_engineering_platfo.Store.Contracts.{get_status_with_status}
use agent_engineering_platfo.Task.Status.{
  TaskStatus, pending, running, succeeded, failed, cancelled, awaiting_approval, status_text,
  parse_status, allowed, is_terminal,
}
use agent_engineering_platfo.Task.Lifecycle.{status_or_error, transition}
use agent_engineering_platfo.Task.Cases.{require_task_execution_case}

parse_status_text :
    (j : Json) (current : TaskStatus)
    → parse_status j ≡ some current
    → j ≡ str (status_text current)
unfolding parse_status
parse_status_text (str s) current h = ground (
  arith,
  eq_iff s "PENDING",
  eq_iff s "RUNNING",
  eq_iff s "SUCCEEDED",
  eq_iff s "FAILED",
  eq_iff s "CANCELLED",
  eq_iff s "AWAITING_APPROVAL",
)
parse_status_text _ current h = cc

in_set_status :
    (current : TaskStatus)
    → in_set (str (status_text current)) terminal_statuses ≡ ok (is_terminal current)
unfolding in_set contains
in_set_status pending = refl
in_set_status running = refl
in_set_status succeeded = refl
in_set_status failed = refl
in_set_status cancelled = refl
in_set_status awaiting_approval = refl

pub not_allowed :
    (current target : TaskStatus) → is_terminal current ≡ true → allowed current target ≡ false
unfolding allowed
not_allowed succeeded target h = refl
not_allowed failed target h = refl
not_allowed cancelled target h = refl
not_allowed pending target h = cc
not_allowed running target h = cc
not_allowed awaiting_approval target h = cc

status_parsed :
    (before : Fields) (value : Json) (current : TaskStatus)
    → item "status" before ≡ ok value
    → status_or_error (parse_status value) ≡ ok current
    → parse_status (get "status" before) ≡ some current
status_parsed before value current at parsed =
    let same : get "status" before ≡ value = ground (arith, at) in
    rw same (some_of (parse_status value) parsed)
  where
    some_of : (o : Option TaskStatus) → status_or_error o ≡ ok current → o ≡ some current
    some_of none h = cc
    some_of (some c) h = cc

-- A transition that the table has, from the status that was stored to the one that is stored now.
pub record Moved (i : String) (target : TaskStatus) (v : Fields) (s s' : Store) : Type 0 where
  pub before : Fields
  pub current : TaskStatus
  pub found : lookup i s.objects ≡ some before
  pub kind : is_text "TaskExecution" (get "kind" before) ≡ true
  pub status : parse_status (get "status" before) ≡ some current
  pub legal : allowed current target ≡ true
  pub stored : lookup i s'.objects ≡ some v
  pub moved : get "status" v ≡ str (status_text target)

module _ (i : String) (target : TaskStatus) (timestamp : String) (changes : Fields) (now : String)
    (v : Fields) (s : Store) where
  Done : Result Fields × Store → Type 0
  Done r = r.0 ≡ ok v → Moved i target v s r.1

  saved_now :
      (x : Fields)
      → get "status" x ≡ str (status_text target)
      → (save i x s).0 ≡ ok v
      → (lookup i (save i x s).1.objects ≡ some v) × (get "status" v ≡ str (status_text target))
  unfolding save
  saved_now x moved h =
      let same : x ≡ v = cc in
      (
        lookup-save_self i x s ∙ ap some same,
        subst (λ y. get "status" y ≡ str (status_text target)) same moved,
      )

  update_status-Done :
      (before : Fields) (current : TaskStatus)
      → lookup i s.objects ≡ some before
      → is_text "TaskExecution" (get "kind" before) ≡ true
      → parse_status (get "status" before) ≡ some current
      → allowed current target ≡ true
      → Done (
          update_status i
            (status_text target)
            (some (status_text current))
            (some timestamp)
            changes
            now
            s)
  unfolding update_status Done pure
  update_status-Done before current found kind status legal =
      guard_case Done _ _ _ s (λ _ h. cc)
        λ _.
          require_case Done i _ s (λ _ h. cc)
            λ w found'.
              let same : w ≡ before = cc (found, found') in
              let at : get "status" w ≡ str (status_text current) =
                rw same (parse_status_text (get "status" before) current status) in
              guard_case Done _ _ _ s (λ _ h. cc)
                λ _.
                  guard_case Done _ _ _ s (λ _ h. cc)
                    λ _.
                      guard_case Done _ _ _ s (λ _ h. cc)
                        λ _.
                          lift_case Done _ _ s (λ _ _ h. cc)
                            λ terminal ended.
                              branch_case Done _ _ _ s
                                (λ yes.
                                  let over : ◌≡◌ {A = Result Bool} (ok (is_terminal current))
                                      (ok true) =
                                    cc (in_set_status current, ended, at, yes) in
                                  absurd (ground (arith, over, not_allowed current target, legal)))
                                (λ _ h.
                                  let (stored, moved) =
                                    saved_now _
                                      (get_status_with_status w changes (status_text target) _) h in
                                  record {
                                    before = before;
                                    current = current;
                                    found = found;
                                    kind = kind;
                                    status = status;
                                    legal = legal;
                                    stored = stored;
                                    moved = moved;
                                  })

  -- A transition that returns has found a TaskExecution whose status the table lets move to the target,
  -- and what it returns is stored under the same id, with the target as its status.
  pub transition-Moved :
      (transition i target timestamp changes now s).0 ≡ ok v
      → Moved i target v s (transition i target timestamp changes now s).1
  unfolding transition Done
  transition-Moved =
      require_task_execution_case Done _ s i (λ _ h. cc)
        λ before found kind.
          lift_case Done _ _ s (λ _ _ h. cc)
            λ value at.
              lift_case Done _ _ s (λ _ _ h. cc)
                λ current parsed.
                  guard_case Done _ _ _ s (λ _ h. cc)
                    λ legal.
                      update_status-Done before current found kind
                        (status_parsed before value current at parsed) legal
