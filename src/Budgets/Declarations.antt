-- ===== src/Budgets/Declarations.antt =====
-- src/aep/execution_budgets.py: the limits that a declaration gives, and the test that a lower scope
-- widens none. `render` is Python's `str` on a JSON value that is no text.
use agent_engineering_platfo.Prelude.{
  ℕ, suc, String, Bool, true, false, not, ◌&&◌, ◌||◌, Option, none, some, List, [], ◌∷◌, str_eq,
  String_eq, contains, if◌then◌else◌,
}
use agent_engineering_platfo.Outcome.{Outcome, returned, raised, ◌>>=◌, ◌>>◌, ensure}
use agent_engineering_platfo.Dict.{Dict, lookup}
use agent_engineering_platfo.Json.{Json, Fields, get, has, to_text}
use agent_engineering_platfo.Store.State.{text_lt, non_empty_text, text_or}
use agent_engineering_platfo.Resources.{ResourceRef}
use agent_engineering_platfo.Budgets.{
  BudgetField, max_model_invocations, max_input_tokens, max_output_tokens, max_elapsed_ms,
  max_cost_usd, Scope, execution_scope, task_scope, agent_scope, workflow_scope, Numbers, Raw,
  missing, integer, number, text, Declaration, absent, mapping, malformed, BudgetLimit, Limits,
}

-- `ExecutionBudgetError`
pub data BudgetError : Type 0 where
  not_an_object unsupported_fields not_positive widening pricing_error : BudgetError
  bad_cost_status bad_cost : BudgetError

abbrev pub field_text : BudgetField → String
field_text max_model_invocations = "maxModelInvocations"
field_text max_input_tokens = "maxInputTokens"
field_text max_output_tokens = "maxOutputTokens"
field_text max_elapsed_ms = "maxElapsedMs"
field_text max_cost_usd = "maxCostUsd"

abbrev pub budget_fields : List BudgetField
budget_fields =
    max_model_invocations ∷ max_input_tokens ∷ max_output_tokens ∷ max_elapsed_ms ∷ max_cost_usd
    ∷ []

abbrev pub budget_names : List String
budget_names =
    "maxModelInvocations" ∷ "maxInputTokens" ∷ "maxOutputTokens" ∷ "maxElapsedMs" ∷ "maxCostUsd"
    ∷ []

-- `_SCOPE_SPECIFICITY`
abbrev pub specificity : Scope → ℕ
specificity execution_scope = 0
specificity task_scope = 1
specificity agent_scope = 2
specificity workflow_scope = 3

-- `_reference_record`
unfoldable pub reference_record : Fields → Option ResourceRef
reference_record f =
    if non_empty_text (get "kind" f)
      && non_empty_text (get "name" f)
      && non_empty_text (get "version" f)
    then some (record {
      kind = text_or "" (get "kind" f);
      name = text_or "" (get "name" f);
      version = text_or "" (get "version" f);
    })
    else none

abbrev pub reference_of : Option Fields → Option ResourceRef
reference_of none = none
reference_of (some f) = reference_record f

module _ (render : Json → String) where
  -- `str(ref.get(field, ""))`
  abbrev pub part_of : String → Fields → String
  part_of key f = if has key f then to_text render (get key f) else ""

  abbrev pub precedes : ResourceRef → ResourceRef → Bool
  precedes r s =
      text_lt r.kind s.kind
      || (str_eq r.kind s.kind
          && (text_lt r.name s.name || (str_eq r.name s.name && text_lt r.version s.version)))

  -- A key of a dict that is read in the order of its keys: a key that is there stays one key.
  unfoldable pub add_ref : ResourceRef → List ResourceRef → List ResourceRef
  add_ref r [] = r ∷ []
  add_ref r (s ∷ refs) =
      let rest = add_ref r refs in
      if precedes r s then r ∷ s ∷ refs else if precedes s r then s ∷ rest else s ∷ refs

  -- The loop over the references, and `sorted(refs)`.
  unfoldable pub resource_refs_of : List (Option Fields) → List ResourceRef
  resource_refs_of [] = []
  resource_refs_of (none ∷ refs) = resource_refs_of refs
  resource_refs_of (some f ∷ refs) =
      let rest = resource_refs_of refs in
      if str_eq (part_of "kind" f) ""
        || str_eq (part_of "name" f) ""
        || str_eq (part_of "version" f) ""
      then rest
      else add_ref
          (record {
            kind = part_of "kind" f;
            name = part_of "name" f;
            version = part_of "version" f;
          })
          rest

module _ (n : Numbers) where
  -- `_positive_int`
  unfoldable pub positive_int : Raw n → Outcome BudgetError (Option ℕ)
  positive_int missing = returned none
  positive_int (integer (suc k)) = returned (some (suc k))
  positive_int _ = raised not_positive

  abbrev pub as_number : Option ℕ → Option n.Num
  as_number none = none
  as_number (some k) = some (n.of_int k)

  -- The value of one field of a declaration.
  unfoldable pub value_of : BudgetField → Raw n → Outcome BudgetError (Option n.Num)
  value_of max_cost_usd missing = returned none
  value_of max_cost_usd (integer k) =
      if n.is_positive_finite (n.of_int k)
      then returned (some (n.of_int k))
      else raised not_positive
  value_of max_cost_usd (number x) =
      if n.is_positive_finite x then returned (some x) else raised not_positive
  value_of max_cost_usd _ = raised not_positive
  value_of field v = do k ← positive_int v; returned (as_number k)

  abbrev pub raw_or_missing : Option (Raw n) → Raw n
  raw_or_missing none = missing
  raw_or_missing (some v) = v

  abbrev pub limit_with :
      BudgetField → Scope → Option ResourceRef → Option n.Num → Option (BudgetLimit n)
  limit_with field scope ref none = none
  limit_with field scope ref (some x) =
      some (record { field = field; value = x; scope = scope; resource_ref = ref })

  -- One turn of the loop of `_declared_limits`.
  unfoldable pub declared_limit :
      Dict String (Raw n)
      → Scope
      → Option ResourceRef
      → BudgetField
      → Outcome BudgetError (Option (BudgetLimit n))
  declared_limit d scope ref field = do
    x ← value_of field (raw_or_missing (lookup (field_text field) d))
    returned (limit_with field scope ref x)

  unfoldable pub is_supported : Dict String (Raw n) → Bool
  is_supported [] = true
  is_supported ((k, v) ∷ d) = contains budget_names k && is_supported d

  -- The dict of the five fields.
  abbrev pub five :
      Option (BudgetLimit n)
      → Option (BudgetLimit n)
      → Option (BudgetLimit n)
      → Option (BudgetLimit n)
      → Option (BudgetLimit n)
      → Limits n
  five a b c d e max_model_invocations = a
  five a b c d e max_input_tokens = b
  five a b c d e max_output_tokens = c
  five a b c d e max_elapsed_ms = d
  five a b c d e max_cost_usd = e

  -- `_declared_limits`
  unfoldable pub declared_limits :
      Declaration n → Scope → Option Fields → Outcome BudgetError (Limits n)
  declared_limits absent scope ref = returned (λ field. none)
  declared_limits malformed scope ref = raised not_an_object
  declared_limits (mapping d) scope ref = do
    ensure (is_supported d) unsupported_fields
    let resource_ref = reference_of ref
    invocations ← declared_limit d scope resource_ref max_model_invocations
    inputs ← declared_limit d scope resource_ref max_input_tokens
    outputs ← declared_limit d scope resource_ref max_output_tokens
    elapsed ← declared_limit d scope resource_ref max_elapsed_ms
    cost ← declared_limit d scope resource_ref max_cost_usd
    returned (five invocations inputs outputs elapsed cost)

  -- `child_limit.value > parent_limit.value`, where both are there
  abbrev pub widens : Option (BudgetLimit n) → Option (BudgetLimit n) → Bool
  widens (some p) (some c) = not (n.at_most c.value p.value)
  widens _ _ = false

  -- `_reject_widening`
  unfoldable pub reject_widening_in :
      Limits n → Limits n → List BudgetField → Outcome BudgetError (Unit {0})
  reject_widening_in parent child [] = returned tt
  reject_widening_in parent child (f ∷ fs) = do
    ensure (not (widens (parent f) (child f))) widening
    reject_widening_in parent child fs

  abbrev pub reject_widening : Limits n → Limits n → Outcome BudgetError (Unit {0})
  reject_widening parent child = reject_widening_in parent child budget_fields

  -- `_model_pricing`
  abbrev pub is_price : Option (Raw n) → Bool
  is_price (some (integer k)) = n.is_nonnegative_finite (n.of_int k)
  is_price (some (number x)) = n.is_nonnegative_finite x
  is_price _ = false

  abbrev pub is_usd : Option (Raw n) → Bool
  is_usd (some (text t)) = str_eq t "USD"
  is_usd _ = false

  unfoldable pub model_pricing_of :
      Declaration n → Outcome BudgetError (Option (Dict String (Raw n)))
  model_pricing_of absent = returned none
  model_pricing_of malformed = raised not_an_object
  model_pricing_of (mapping d) = do
    ensure (is_price (lookup "inputPerMillionTokens" d)) pricing_error
    ensure (is_price (lookup "outputPerMillionTokens" d)) pricing_error
    ensure (is_usd (lookup "currency" d)) pricing_error
    returned (some d)
