-- ===== src/Task/Retries.antt =====
-- Retries of a TaskExecution (src/aep/task_execution.py): an attempt is retried at most once.
use mathlib.Core.Path.{subst}
use agent_engineering_platfo.Prelude.{
  String, ◌≡◌, ◌⊎◌, refl, Bool, true, some, arith, eq_iff, String_eq, inl, inr,
}
use agent_engineering_platfo.Action.{Error, Result, ok, err, guard_case, lift_case, read_case}
use agent_engineering_platfo.Dict.{lookup, lookup-insert}
use agent_engineering_platfo.Json.{Json, Fields, get}
use agent_engineering_platfo.Store.State.{Store, text_or, index}
use agent_engineering_platfo.Store.Objects
use agent_engineering_platfo.Store.Rules.{create_rule}
use agent_engineering_platfo.Store.Identity.{IsCreated, create-IsCreated}
use agent_engineering_platfo.Task.Lifecycle.{may_retry, retry}
use agent_engineering_platfo.Task.NextKey.{NextKey, same_key, retry_case}

-- An inserted object is not the one of another id.
pub create_kept :
    (i : String) (w value : Fields) (key : String) (s : Store)
    → lookup i s.objects ≡ some w
    → lookup i (Objects.create value key s).1.objects ≡ some w
unfolding Objects.insert_object index
create_kept i w value key s found =
    create_rule (λ t. lookup i t.objects ≡ some w) value key s found
      λ valid new_key new_id. ground (
        arith,
        lookup-insert (text_or "" (get "id" value)) i value s.objects,
        eq_iff (text_or "" (get "id" value)) i,
        new_id,
        found,
      )

-- A creation with a key that is bound raises, or returns what stands under the key.
pub Again : Fields → Store → Result Fields × Store → Type 0
Again v s r = (r ≡ (ok v, s)) ⊎ ((e : Error) × (r ≡ (err e, s)))

create-Again :
    (value v : Fields) (key : String) (s : Store)
    → IsCreated key v s
    → Again v s (Objects.create value key s)
unfolding Objects.create Again Objects.create_at Objects.stored
create-Again value v key s c =
    lift_case (Again v s) _ _ s (λ e _. inr (e, refl))
      λ valid _.
        guard_case (Again v s) _ _ _ s (λ _. inr (_, refl))
          λ _. read_case (Again v s) _ s (inl (rw c.bound (rw (c.found, Objects.stored) refl)))

module _ (strip : String → String) (render : Json → String)
    (is_task_ref is_task_execution : Fields → Bool) where
  -- What a retry that returns leaves.
  pub record Retried (i : String) (v : Fields) (s' : Store) : Type 0 where
    previous : Fields
    pub kept : lookup i s'.objects ≡ some previous
    pub retryable : may_retry previous ≡ true
    key : String
    next : NextKey strip render is_task_ref is_task_execution previous key
    created : IsCreated key v s'

  pub retry-Retried :
      (i new_id timestamp : String) (v : Fields) (s : Store)
      → (retry strip render is_task_ref is_task_execution i new_id timestamp s).0 ≡ ok v
      → Retried i v (retry strip render is_task_ref is_task_execution i new_id timestamp s).1
  retry-Retried i new_id timestamp v s =
      retry_case strip render is_task_ref is_task_execution (λ r. r.0 ≡ ok v → Retried i v r.1) s
        (λ _ h. absurd (cc)) i new_id timestamp
        (λ previous key value found retryable next h. record {
          previous = previous;
          kept = create_kept i previous value key s found;
          retryable = retryable;
          key = key;
          next = next;
          created = create-IsCreated value v key s h;
        })

  retry-Again :
      (i new_id timestamp key : String) (v previous : Fields) (s : Store)
      → lookup i s.objects ≡ some previous
      → NextKey strip render is_task_ref is_task_execution previous key
      → IsCreated key v s
      → Again v s (retry strip render is_task_ref is_task_execution i new_id timestamp s)
  unfolding Again
  retry-Again i new_id timestamp key v previous s stands next created =
      retry_case strip render is_task_ref is_task_execution (Again v s) s (λ e. inr (e, refl)) i
        new_id timestamp
        (λ w key' value found _ next'.
          let same : previous ≡ w = cc (stands, found) in
          let keys : key ≡ key' =
            same_key strip render is_task_ref is_task_execution
              (subst (λ u. NextKey strip render is_task_ref is_task_execution u key) same next)
              next' in
          create-Again value v key' s (subst (λ k. IsCreated k v s) keys created))

  -- Once a retry of an attempt has returned, every further retry of that attempt, whatever id and
  -- time it is given, changes nothing: it raises, or it returns the attempt that the first one made.
  pub retry_once :
      (i first second timestamp later : String) (v : Fields) (s : Store)
      → (retry strip render is_task_ref is_task_execution i first timestamp s).0 ≡ ok v
      → let s' = (retry strip render is_task_ref is_task_execution i first timestamp s).1 in
        Again v s' (retry strip render is_task_ref is_task_execution i second later s')
  retry_once i first second timestamp later v s done =
      let r = retry-Retried i first timestamp v s done in
      retry-Again i second later r.key v r.previous _ r.kept r.next r.created
