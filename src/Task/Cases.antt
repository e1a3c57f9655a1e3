-- ===== src/Task/Cases.antt =====
-- src/aep/task_execution.py: the outcomes of `_require`.
use agent_engineering_platfo.Prelude.{
  String, ◌≡◌, refl, Bool, true, false, Option, none, some, String_eq,
}
use agent_engineering_platfo.Action.{Error, Result, err, value_error, Action, pure, ◌>>=◌, guard}
use agent_engineering_platfo.Dict.{lookup}
use agent_engineering_platfo.Json.{Fields, get}
use agent_engineering_platfo.Store.State.{Store, is_text}
use agent_engineering_platfo.Store.Objects.{get_object}
use agent_engineering_platfo.Task.Lifecycle.{require_found, require_task_execution}

-- `_require` goes on with the stored TaskExecution.
module _ {κ} {B : Type 0} (Q : Result B × Store → Type κ) (f : Fields → Action Store B)
    (s : Store) where
  checked_case :
      (b : Bool) (v : Fields)
      → ((e : Error) → Q (err e, s))
      → (b ≡ true → Q (f v s))
      → Q ((guard b value_error >>= (λ _. pure v) >>= f) s)
  unfolding ◌>>=◌
  checked_case true v refused next = next refl
  checked_case false v refused next = refused value_error

  require_found_case :
      (o : Option Fields)
      → ((e : Error) → Q (err e, s))
      → ((v : Fields) → o ≡ some v → is_text "TaskExecution" (get "kind" v) ≡ true → Q (f v s))
      → Q ((require_found o >>= f) s)
  unfolding require_found ◌>>=◌
  require_found_case none refused next = refused value_error
  require_found_case (some v) refused next = checked_case _ v refused (next v refl)

  pub require_task_execution_case :
      (i : String)
      → ((e : Error) → Q (err e, s))
      → ((v : Fields)
          → lookup i s.objects ≡ some v
          → is_text "TaskExecution" (get "kind" v) ≡ true
          → Q (f v s))
      → Q ((require_task_execution i >>= f) s)
  unfolding require_task_execution get_object ◌>>=◌
  require_task_execution_case i refused next = require_found_case (lookup i s.objects) refused next
