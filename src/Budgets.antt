-- ===== src/Budgets.antt =====
-- src/aep/execution_budgets.py: the limits of a Task's execution, from the declarations of its Workflow,
-- Task and Agent and from the override of the execution.
pub mod Declarations
pub mod Resolution
pub mod Least
pub mod Limits
pub mod Hierarchy
pub mod Costs
pub mod Records
pub mod Checks
pub mod Plan
pub mod Ledger
pub mod Settlement
pub mod Fits
pub mod Planned
pub mod Pool
pub mod Counts
pub mod Evaluated
pub mod Granted
pub mod Shared
pub mod Released
pub mod SameCounts
pub mod Settled
pub mod Refined
pub mod Interleaved
pub mod Sticky
mod Examples
mod LedgerExamples
use agent_engineering_platfo.Prelude.{ℕ, String, Bool, Option, List, []}
use agent_engineering_platfo.Dict.{Dict}
use agent_engineering_platfo.Resources.{ResourceRef}

-- `BUDGET_FIELDS`
pub data BudgetField : Type 0 where
  max_model_invocations max_input_tokens max_output_tokens max_elapsed_ms max_cost_usd : BudgetField

-- The scope of a limit.
pub data Scope : Type 0 where
  execution_scope task_scope agent_scope workflow_scope : Scope

-- Python's numbers, integers and floats: `at_most` is `<=`, which orders finite ones.
pub record Numbers : Type 1 where
  pub Num : Type 0
  pub of_int : ℕ → Num
  pub at_most : Num → Num → Bool
  pub is_positive_finite : Num → Bool
  pub is_nonnegative_finite : Num → Bool

module _ (n : Numbers) where
  -- A value of a declaration: `None`, an integer that is not negative, a number that is no such
  -- integer, a text, or anything else.
  pub data Raw : Type 0 where
    missing : Raw
    integer : ℕ → Raw
    number : n.Num → Raw
    text : String → Raw
    other : Raw

  -- A declaration: `None`, a mapping, or anything else.
  pub data Declaration : Type 0 where
    absent : Declaration
    mapping : Dict String Raw → Declaration
    malformed : Declaration

  -- `BudgetLimit`
  pub record BudgetLimit : Type 0 where
    pub field : BudgetField
    pub value : n.Num
    pub scope : Scope
    pub resource_ref : Option ResourceRef

  -- The limits of one scope, a dict with the five fields as keys.
  abbrev pub Limits : Type 0
  Limits = BudgetField → Option BudgetLimit

  -- `ResolvedExecutionBudget`
  pub record ResolvedExecutionBudget : Type 0 where
    pub workflow : Limits
    pub task : Limits
    pub agent : Limits
    pub model_output_token_limit : Option ℕ
    pub model_pricing : Option (Dict String Raw)
    pub resource_refs : List ResourceRef
