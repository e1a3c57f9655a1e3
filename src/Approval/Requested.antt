-- ===== src/Approval/Requested.antt =====
-- src/aep/approval.py: what a request that returns has stored, and that it can be decided.
use agent_engineering_platfo.Prelude.{
  String, ◌≡◌, refl, sym, ap, ◌∙◌, true, false, Option, none, some, arith, str_eq, eq_iff,
  String_eq,
}
use agent_engineering_platfo.Action.{
  Result, ok, err, Action, pure, guard_case, lift_case, branch_case, step_case,
}
use agent_engineering_platfo.Store.Snapshot.{atomic, rollback, memory_snapshot}
use agent_engineering_platfo.Dict.{lookup, lookup-insert, lookup-insert_self}
use agent_engineering_platfo.Json.{Json, Fields, obj, get, has, to_text, get-set, has-set}
use agent_engineering_platfo.Store.Identity.{created_fresh}
use agent_engineering_platfo.Store.State.{Store, is_text, text_or, index, save}
use agent_engineering_platfo.Store.Objects.{insert_object}
use agent_engineering_platfo.Store.Rules.{require_case, save_case}
use agent_engineering_platfo.Store.Transitions.{create_approval_request, is_awaiting}
use agent_engineering_platfo.Approval.Request.{with_mapping, with_expiry}

atomic-ok :
    {A : Type 0} (m : Action Store A) (s t : Store) (a : A)
    → atomic m s ≡ (ok a, t)
    → m s ≡ (ok a, t)
unfolding atomic
atomic-ok {A = A} m s t a = go (m s)
  where
    go : (x : Result A × Store) → rollback (memory_snapshot s) x ≡ (ok a, t) → x ≡ (ok a, t)
    go (ok b, u) h = h
    go (err e, u) h = absurd (cc)

inserted :
    (v : Fields) (key : String) (s t : Store)
    → t ≡ insert_object key v s
    → lookup (text_or "" (get "id" v)) t.objects ≡ some v
unfolding insert_object index
inserted v key s t e =
    ap (λ x. lookup (text_or "" (get "id" v)) x.objects) e
    ∙ lookup-insert_self (text_or "" (get "id" v)) v s.objects

-- A task is no object of another kind, so it stands beside it.
beside :
    (v task w : Fields) (task_id : String) (s : Store)
    → is_text "TaskExecution" (get "kind" v) ≡ false
    → is_awaiting task ≡ true
    → lookup task_id s.objects ≡ some task
    → lookup (text_or "" (get "id" v)) s.objects ≡ some v
    → lookup (text_or "" (get "id" v)) (save task_id w s).1.objects ≡ some v
unfolding save
beside v task w task_id s kind awaiting found here = ground (
  arith,
  lookup-insert task_id (text_or "" (get "id" v)) w s.objects,
  eq_iff task_id (text_or "" (get "id" v)),
)

module _ (render : Json → String) where
  -- The object that an approval request stores, whose kind is not that of a task.
  pub create_approval_request-stored :
      (v r : Fields) (key : String) (expected : Option String) (updated_at : String) (s t : Store)
      → lookup key s.deterministic_keys ≡ none
      → is_text "TaskExecution" (get "kind" v) ≡ false
      → create_approval_request render v key expected updated_at s ≡ (ok r, t)
      → (r ≡ v) × (lookup (text_or "" (get "id" v)) t.objects ≡ some v)
  unfolding create_approval_request pure
  create_approval_request-stored v r key expected updated_at s t fresh kind h =
      step_case Q _ _ s (λ _ _ _ h. absurd (cc))
        (λ a u made.
          let (same, written) = created_fresh v a key s u fresh made in
          lift_case Q _ _ u (λ _ _ h. absurd (cc))
            (λ value named.
              require_case Q (to_text render value) _ u (λ _ h. absurd (cc))
                (λ task found.
                  guard_case Q _ _ _ u (λ _ h. absurd (cc))
                    (λ awaiting.
                      branch_case Q _ _ _ u
                        (λ _ h. (
                          cc (same),
                          ap (λ x. lookup (text_or "" (get "id" v)) x.objects)
                                (sym (ap (λ x. x.1) h))
                              ∙ inserted v key s u written,
                        ))
                        (λ _.
                          guard_case Q _ _ _ u (λ _ h. absurd (cc))
                            (λ _. save_case Q _ _ _ u (λ h. (
                              cc (same),
                              ap (λ x. lookup (text_or "" (get "id" v)) x.objects)
                                    (sym (ap (λ x. x.1) h))
                                  ∙ beside v task _ (to_text render value) u kind awaiting found
                                      (inserted v key s u written),
                            ))))))))
        (atomic-ok _ s t r h)
    where
      Q : Result Fields × Store → Type 0
      Q x = x ≡ (ok r, t) → (r ≡ v) × (lookup (text_or "" (get "id" v)) t.objects ≡ some v)

-- The parts of a request that may be absent keep what stands under another key.
get-with_mapping :
    (key j : String) (m : Option Fields) (f : Fields)
    → str_eq key j ≡ false
    → (get j (with_mapping key m f) ≡ get j f) × (has j (with_mapping key m f) ≡ has j f)
get-with_mapping key j none f other = (refl, refl)
get-with_mapping key j (some m) f other =
    (ground (arith, get-set key j (obj m) f), ground (arith, has-set key j (obj m) f))

pub get-parts :
    (j : String) (a b : Option Fields) (e : Option String) (f : Fields)
    → e ≡ none
    → str_eq "artifactDigests" j ≡ false
    → str_eq "target" j ≡ false
    → (get j (with_mapping "artifactDigests" a (with_mapping "target" b (with_expiry e f)))
        ≡ get j f)
      × (has j (with_mapping "artifactDigests" a (with_mapping "target" b (with_expiry e f)))
          ≡ has j f)
get-parts j a b e f lasting no_digests no_target =
    let outer =
      get-with_mapping "artifactDigests" j a (with_mapping "target" b (with_expiry e f))
        no_digests in
    let inner = get-with_mapping "target" j b (with_expiry e f) no_target in
    (
      outer.0 ∙ inner.0 ∙ ap (λ x. get j (with_expiry x f)) lasting,
      outer.1 ∙ inner.1 ∙ ap (λ x. has j (with_expiry x f)) lasting,
    )
