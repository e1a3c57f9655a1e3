-- ===== src/Task/Status.antt =====
-- The statuses, failure classes and transitions of src/aep/task_execution.py.
use agent_engineering_platfo.Prelude.{
  String, Bool, true, false, Option, none, some, str_eq, if◌then◌else◌,
}
use agent_engineering_platfo.Json.{Json, str}

pub data TaskStatus : Type 0 where
  pending running succeeded failed cancelled awaiting_approval : TaskStatus

pub data FailureClass : Type 0 where
  recoverable configuration evaluation policy permanent : FailureClass

-- target.value
abbrev pub status_text : TaskStatus → String
status_text pending = "PENDING"
status_text running = "RUNNING"
status_text succeeded = "SUCCEEDED"
status_text failed = "FAILED"
status_text cancelled = "CANCELLED"
status_text awaiting_approval = "AWAITING_APPROVAL"

abbrev pub class_text : FailureClass → String
class_text recoverable = "RECOVERABLE"
class_text configuration = "CONFIGURATION"
class_text evaluation = "EVALUATION"
class_text policy = "POLICY"
class_text permanent = "PERMANENT"

abbrev pub is_recoverable : FailureClass → Bool
is_recoverable recoverable = true
is_recoverable _ = false

-- `TaskStatus(value)`
unfoldable pub parse_status : Json → Option TaskStatus
parse_status (str s) =
    if str_eq s "PENDING"
    then some pending
    else if str_eq s "RUNNING"
    then some running
    else if str_eq s "SUCCEEDED"
    then some succeeded
    else if str_eq s "FAILED"
    then some failed
    else if str_eq s "CANCELLED"
    then some cancelled
    else if str_eq s "AWAITING_APPROVAL"
    then some awaiting_approval
    else none
parse_status _ = none

-- `target in TRANSITIONS[current]`
unfoldable pub allowed : TaskStatus → TaskStatus → Bool
allowed pending running = true
allowed pending cancelled = true
allowed running succeeded = true
allowed running failed = true
allowed running cancelled = true
allowed running awaiting_approval = true
allowed awaiting_approval running = true
allowed awaiting_approval failed = true
allowed awaiting_approval cancelled = true
allowed _ _ = false

-- `TERMINAL_TASK_STATUSES`
abbrev pub is_terminal : TaskStatus → Bool
is_terminal succeeded = true
is_terminal failed = true
is_terminal cancelled = true
is_terminal _ = false
