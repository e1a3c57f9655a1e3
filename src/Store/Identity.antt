-- ===== src/Store/Identity.antt =====
-- Deterministic keys make creation idempotent.
use agent_engineering_platfo.Prelude.{
  String, ◌≡◌, none, false, some, List, arith, str_eq, String_eq, Option-cases, inl, inr,
}
use agent_engineering_platfo.Action.{Result, ok, guard_case, lift_case, read_case}
use agent_engineering_platfo.Dict.{lookup, lookup-insert_self}
use agent_engineering_platfo.Json.{Json, Fields, get}
use agent_engineering_platfo.Store.State.{Store, text_or, index}
use agent_engineering_platfo.Store.Objects.{create, create_at, create_new, stored, insert_object}
use agent_engineering_platfo.Store.Rules.{IsObject, copy_and_validate_of, copy_and_validate_ok}
use agent_engineering_platfo.Store.Evolution.{Evolves}
use agent_engineering_platfo.Store.Calls.{Call, run}
use agent_engineering_platfo.Store.History.{run-Kept, run-IsBoundTo}

-- The key is bound to the id under which the object is stored.
pub record IsCreated (key : String) (v : Fields) (s : Store) : Type 0 where
  pub named : str_eq key "" ≡ false
  pub id : String
  pub bound : lookup key s.deterministic_keys ≡ some id
  pub found : lookup id s.objects ≡ some v

create_at-IsCreated :
    (value w : Fields) (key : String) (s : Store)
    → str_eq key "" ≡ false
    → (create_at (lookup key s.deterministic_keys) value key s).0 ≡ ok w
    → IsCreated key w (create_at (lookup key s.deterministic_keys) value key s).1
unfolding create_at create_new stored insert_object index
create_at-IsCreated value w key s named = elim (Option-cases (lookup key s.deterministic_keys)) [
  | inl e ↦ rw e (elim (Option-cases (lookup (text_or "" (get "id" value)) s.objects)) [
    | inl n ↦
        rw (n, create_new)
          λ h. record {
            named = named;
            id = text_or "" (get "id" value);
            bound = lookup-insert_self key (text_or "" (get "id" value)) s.deterministic_keys;
            found = rw lookup-insert_self (ground arith);
          }
    | inr (x, n) ↦ rw (n, create_new) λ h. cc
  ])
  | inr (i, e) ↦ rw e (elim (Option-cases (lookup i s.objects)) [
    | inl n ↦ rw (n, stored) λ h. cc
    | inr (x, n) ↦
        rw (n, stored) λ h. record { named = named; id = i; bound = e; found = ground (arith, n) }
  ])
]

pub create-IsCreated :
    (v w : Fields) (key : String) (s : Store)
    → (create v key s).0 ≡ ok w
    → IsCreated key w (create v key s).1
unfolding create
create-IsCreated v w key s =
    lift_case Q _ _ s (λ _ _ h. cc)
      λ value _.
        guard_case Q _ _ _ s (λ _ h. cc)
          λ named. read_case Q _ s (create_at-IsCreated value w key s (ground arith))
  where
    Q : Result Fields × Store → Type 0
    Q r = r.0 ≡ ok w → IsCreated key w r.1

-- A creation that returns under a new key has stored what it was given.
pub created_fresh :
    (v r : Fields) (key : String) (s t : Store)
    → lookup key s.deterministic_keys ≡ none
    → create v key s ≡ (ok r, t)
    → (r ≡ v) × (t ≡ insert_object key v s)
unfolding create create_at create_new
created_fresh v r key s t fresh =
    lift_case Q _ _ s (λ _ _ h. absurd (cc))
      (λ value valid.
        guard_case Q _ _ _ s (λ _ h. absurd (cc))
          (λ named. read_case Q _ s (
            rw fresh (elim (Option-cases (lookup (text_or "" (get "id" value)) s.objects)) [
              | inl e ↦
                  rw (e, create_new)
                    (λ h. (
                      cc ((copy_and_validate_ok v value valid).0),
                      cc ((copy_and_validate_ok v value valid).0),
                    ))
              | inr (w, e) ↦ rw (e, create_new) (λ h. absurd (cc))
            ]))))
  where
    Q : Result Fields × Store → Type 0
    Q x = x ≡ (ok r, t) → (r ≡ v) × (t ≡ insert_object key v s)

-- A creation whose key is bound returns the object that is stored.
create_bound :
    (v w : Fields) (key : String) (s : Store)
    → IsObject v
    → IsCreated key w s
    → create v key s ≡ (ok w, s)
unfolding create
create_bound v w key s valid c =
    lift_case Q _ _ s (λ e h. cc (copy_and_validate_of v valid))
      λ value _.
        guard_case Q _ _ _ s (λ e. ground (arith, c.named))
          λ _. read_case Q _ s (rw c.bound (unfold create_at stored in rw (c.found, stored)))
  where
    Q : Result Fields × Store → Type 0
    Q r = r ≡ (ok w, s)

-- The key is bound to an id; `w` stands under the id in the first store; and in the second one an object
-- into which `w` has evolved, which `r`, the outcome of a call in the second store, returns and leaves.
pub record IsSameCreation (key : String) (w : Fields) (s t : Store) (r : Result Fields × Store)
    : Type 0 where
  pub id : String
  pub bound : lookup key s.deterministic_keys ≡ some id
  pub first : lookup id s.objects ≡ some w
  pub now : Fields
  pub found : lookup id t.objects ≡ some now
  pub again : r ≡ (ok now, t)
  pub evolved : Evolves w now

-- Once a creation has returned an object, a creation of any valid object with the same key returns the
-- object that then stands under the id of the first one, which has evolved from it, and changes
-- nothing, whatever calls came between.
pub created_once :
    (render : Json → String) (calls : List Call) (v v' w : Fields) (key : String) (s : Store)
    → (create v key s).0 ≡ ok w
    → IsObject v'
    → let t = run render calls (create v key s).1 in
      IsSameCreation key w (create v key s).1 t (create v' key t)
created_once render calls v v' w key s done valid =
    let c = create-IsCreated v w key s done in
    let s' = (create v key s).1 in
    let kept = run-Kept render calls s' c.id w c.found in
    record {
      id = c.id;
      bound = c.bound;
      first = c.found;
      now = kept.now;
      found = kept.found;
      again = create_bound v' kept.now key (run render calls s') valid (record {
        named = c.named;
        id = c.id;
        bound = run-IsBoundTo render calls s' key c.id c.bound;
        found = kept.found;
      });
      evolved = kept.evolved;
    }
