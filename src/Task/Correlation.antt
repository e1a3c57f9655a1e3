-- ===== src/Task/Correlation.antt =====
-- src/aep/observability.py: `CorrelationContext` and `bind_correlation`. `strip` is Python's
-- `str.strip`.
use agent_engineering_platfo.Prelude.{
  String, Bool, true, false, ◌||◌, Option, none, some, List, [], ◌∷◌, str_eq, if◌then◌else◌,
}
use agent_engineering_platfo.Action.{Error, correlation_error}
use agent_engineering_platfo.Outcome.{Outcome, returned, raised, ◌>>=◌, ◌>>◌, ensure}
use agent_engineering_platfo.Json.{Json, null, str, Fields, get}
use agent_engineering_platfo.Store.State.{is_text, is_null, mapping_or_empty}
use agent_engineering_platfo.Store.Transitions.{is_option}

pub record CorrelationContext : Type 0 where
  pub trace_id : String
  pub workflow_execution_id : String
  pub task_execution_id : Option String

-- A context, or the mapping that a service boundary passes on.
pub data Correlation : Type 0 where
  bound : CorrelationContext → Correlation
  boundary : Fields → Correlation

-- [candidate for candidate in … if candidate is not None]
unfoldable pub present : List Json → List Json
present [] = []
present (v ∷ vs) = let rest = present vs in if is_null v then rest else v ∷ rest

-- `value.get("id") if kind == … else None`
abbrev pub id_if_kind : String → Fields → Json
id_if_kind kind f = if is_text kind (get "kind" f) then get "id" f else null

-- The candidates for an identity: the id where the object is of the kind, the field, and the field
-- of the provenance.
unfoldable pub candidates : String → String → Fields → List Json
candidates kind key f =
    present (id_if_kind kind f ∷ get key f ∷ get key (mapping_or_empty (get "provenance" f)) ∷ [])

module _ (strip : String → String) where
  -- `_require_text`
  unfoldable pub require_text : Json → Outcome Error String
  require_text (str s) =
      if str_eq (strip s) "" then raised correlation_error else returned (strip s)
  require_text _ = raised correlation_error

  -- `_optional_mapping_text`
  unfoldable pub optional_text : Json → Outcome Error (Option String)
  optional_text v = if is_null v then returned none else (do t ← require_text v; returned (some t))

  -- `CorrelationContext(…)`, which `__post_init__` checks
  unfoldable pub make_context : String → String → Option String → Outcome Error CorrelationContext
  make_context trace_id workflow_id none = do
    require_text (str trace_id)
    require_text (str workflow_id)
    returned (record {
      trace_id = trace_id;
      workflow_execution_id = workflow_id;
      task_execution_id = none;
    })
  make_context trace_id workflow_id (some task_id) = do
    require_text (str trace_id)
    require_text (str workflow_id)
    require_text (str task_id)
    returned (record {
      trace_id = trace_id;
      workflow_execution_id = workflow_id;
      task_execution_id = some task_id;
    })

  unfoldable pub from_boundary_fields : Fields → Outcome Error CorrelationContext
  from_boundary_fields f = do
    trace_id ← require_text (get "traceId" f)
    workflow_id ← require_text (get "workflowExecutionId" f)
    task_id ← optional_text (get "taskExecutionId" f)
    make_context trace_id workflow_id task_id

  -- The texts of the candidates, which are all to be the first one.
  unfoldable pub same_texts : String → List Json → Outcome Error Bool
  same_texts first [] = returned true
  same_texts first (v ∷ vs) = do
    t ← require_text v
    rest ← same_texts first vs
    returned (if str_eq t first then rest else false)

  -- `_one_identity`
  unfoldable pub one_identity : List Json → Outcome Error String
  one_identity [] = raised correlation_error
  one_identity (v ∷ vs) = do
    first ← require_text v
    same ← same_texts first vs
    ensure same correlation_error
    returned first

  unfoldable pub task_identity : List Json → Outcome Error (Option String)
  task_identity [] = returned none
  task_identity (v ∷ vs) = do t ← one_identity (v ∷ vs); returned (some t)

  unfoldable pub required_again : Option String → Outcome Error (Option String)
  required_again none = returned none
  required_again (some t) = do t' ← require_text (str t); returned (some t')

  unfoldable pub from_runtime_object : Fields → Outcome Error CorrelationContext
  from_runtime_object f = do
    workflow_id ← one_identity (candidates "WorkflowExecution" "workflowExecutionId" f)
    task_id ← task_identity (candidates "TaskExecution" "taskExecutionId" f)
    trace_id ← require_text (get "traceId" f)
    workflow_text ← require_text (str workflow_id)
    task_text ← required_again task_id
    make_context trace_id workflow_text task_text

  unfoldable pub context_of : Correlation → Outcome Error CorrelationContext
  context_of (bound c) = returned c
  context_of (boundary f) = from_boundary_fields f

  -- `bind_correlation` with a task and a provenance
  unfoldable pub bind_correlation : Correlation → String → Fields → Outcome Error CorrelationContext
  bind_correlation correlation task_id provenance = do
    context ← context_of correlation
    ensure (is_option context.task_execution_id (str task_id)) correlation_error
    let workflow_value = get "workflowExecutionId" provenance
    ensure (is_null workflow_value || is_text context.workflow_execution_id workflow_value)
        correlation_error
    let task_value = get "taskExecutionId" provenance
    ensure (is_null task_value || is_option context.task_execution_id task_value) correlation_error
    returned context
