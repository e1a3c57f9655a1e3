-- ===== src/Budgets/Records.antt =====
-- src/aep/execution_budgets.py: the records of the ledger of a WorkflowExecution, and the state that a
-- Task's budget reads from it. The ledger is the value of `budgetConsumption`, as typed records; the
-- amounts that a decision reports as remaining, and its message, are left out.
use agent_engineering_platfo.Prelude.{ℕ, String, Bool, false, Option, none, some, [], String_eq}
use agent_engineering_platfo.Dict.{Dict, lookup, insert}
use agent_engineering_platfo.Resources.{ResourceRef}
use agent_engineering_platfo.Budgets.{BudgetField, Scope, Numbers, Limits, ResolvedExecutionBudget}

-- The scopes of a state, in the order of `scopeNames`.
pub data Level : Type 0 where
  workflow_level task_level agent_level : Level

-- The reason of a block.
pub data BlockReason : Type 0 where
  budget_exhausted budget_cost_unavailable : BlockReason

module _ (n : Numbers) where
  -- `_blocked_decision`
  pub record BlockedDecision : Type 0 where
    pub reason : BlockReason
    pub dimension : BudgetField
    pub scope : Scope
    pub internal_scope : Level
    pub resource_ref : Option ResourceRef
    pub limit : n.Num
    pub consumed : n.Num
    pub reserved : n.Num
    pub required : n.Num
    pub sticky : Bool
    pub decided_at : String

  -- The last decision of a record.
  pub data Decision : Type 0 where
    allowed : Option ℕ → ℕ → String → Decision
    recorded : String → Decision
    blocked : BlockedDecision → Decision

  -- `_consumption_record`
  pub record ConsumptionRecord : Type 0 where
    pub model_invocations : ℕ
    pub input_tokens : ℕ
    pub output_tokens : ℕ
    pub reserved_model_invocations : ℕ
    pub reserved_input_tokens : ℕ
    pub reserved_output_tokens : ℕ
    pub elapsed_ms : ℕ
    pub cost_usd : n.Num
    pub reserved_cost_usd : n.Num
    pub cost_status : String
    pub cost_status_counts : Dict String ℕ
    pub started_at : String
    pub updated_at : String
    pub last_provider : String
    pub last_model : String
    pub overrun : Bool
    pub blocked_reason : Option BlockReason
    pub blocked_decision : Option BlockedDecision
    pub last_decision : Option Decision

  abbrev pub consumption_record :
      Option ConsumptionRecord → String → String → String → ConsumptionRecord
  consumption_record (some r) started_at provider model = r
  consumption_record none started_at provider model = record {
    model_invocations = 0;
    input_tokens = 0;
    output_tokens = 0;
    reserved_model_invocations = 0;
    reserved_input_tokens = 0;
    reserved_output_tokens = 0;
    elapsed_ms = 0;
    cost_usd = n.of_int 0;
    reserved_cost_usd = n.of_int 0;
    cost_status = "UNAVAILABLE";
    cost_status_counts = [];
    started_at = started_at;
    updated_at = started_at;
    last_provider = provider;
    last_model = model;
    overrun = false;
    blocked_reason = none;
    blocked_decision = none;
    last_decision = none;
  }

  -- The value of `budgetConsumption`.
  pub record Consumption : Type 0 where
    pub workflow : Option ConsumptionRecord
    pub tasks : Dict String ConsumptionRecord
    pub agents : Dict String ConsumptionRecord
    pub last_decision : Option BlockedDecision

  -- What `_load_state` makes.
  pub record State : Type 0 where
    pub workflow : ConsumptionRecord
    pub task : ConsumptionRecord
    pub agent : ConsumptionRecord

  -- `state[scope]`
  abbrev pub at : State → Level → ConsumptionRecord
  at s workflow_level = s.workflow
  at s task_level = s.task
  at s agent_level = s.agent

  -- `getattr(self.resolved, scope)`
  abbrev pub limits_at : ResolvedExecutionBudget n → Level → Limits n
  limits_at b workflow_level = b.workflow
  limits_at b task_level = b.task
  limits_at b agent_level = b.agent

  -- A loop over the three records.
  abbrev pub each : (Level → ConsumptionRecord → ConsumptionRecord) → State → State
  each f s = record {
    workflow = f workflow_level s.workflow;
    task = f task_level s.task;
    agent = f agent_level s.agent;
  }

  -- A change of one of them.
  abbrev pub put : Level → (ConsumptionRecord → ConsumptionRecord) → State → State
  put workflow_level f s = record s { workflow = f s.workflow }
  put task_level f s = record s { task = f s.task }
  put agent_level f s = record s { agent = f s.agent }

  -- The fields of `TaskBudget`, but for the store and the reservation; the two instants at which the
  -- workflow and the task started, as `_load_state` finds them.
  pub record TaskBudget : Type 0 where
    pub task_key : String
    pub agent_key : String
    pub resolved : ResolvedExecutionBudget n
    pub provider : String
    pub model : String
    pub workflow_started_at : String
    pub task_started_at : String

  -- `_load_state`
  unfoldable pub load_state : TaskBudget → Consumption → State
  load_state b c = record {
    workflow = consumption_record c.workflow b.workflow_started_at b.provider b.model;
    task = consumption_record (lookup b.task_key c.tasks) b.task_started_at b.provider b.model;
    agent = consumption_record (lookup b.agent_key c.agents) b.task_started_at b.provider b.model;
  }

  abbrev pub or_last : Option BlockedDecision → Option BlockedDecision → Option BlockedDecision
  or_last none last = last
  or_last (some d) last = some d

  -- `_changes_for_state`, the changes of the workflow
  unfoldable pub changes_for_state :
      TaskBudget → Consumption → State → Option BlockedDecision → Consumption
  changes_for_state b c s decision = record {
    workflow = some s.workflow;
    tasks = insert b.task_key s.task c.tasks;
    agents = insert b.agent_key s.agent c.agents;
    last_decision = or_last decision c.last_decision;
  }
