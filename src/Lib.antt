-- ===== src/Lib.antt =====
-- Verification of the agent engineering platform.
--
-- The platform runs workflows of tasks. Every fact about a run is a runtime object (a JSON mapping)
-- in a store, and services and workers coordinate through the store alone: deterministic keys make
-- a creation idempotent, claims and leases choose one worker, expected statuses order the updates,
-- and transactions group an update with its event.
--
-- Files and code:
-- - Prelude, Action, Dict, Json: shared helpers. Action is the state and error monad of the model
--   (a method may change the state and then raise), Dict a Python dict in insertion order, Json the
--   values of a runtime object.
-- - Store: src/aep/runtime_store.py. Store/State is the record of the six dicts of
--   `InMemoryRuntimeObjectStore`, with the constants and helpers of that module; Store/Objects its
--   creations, status updates, events and reads; Store/Snapshot the copy of the dicts that a
--   transaction takes and restores; Store/Leases its claims and leases; Store/Transitions the dispatch, approval and transactional methods. Operations have the names of
--   the methods. Store/Calls makes sequences of calls; each call runs under the store's lock, so
--   clients that race are such a sequence. Store/Rules and Store/Evolution hold the rules of
--   induction; Store/WellFormed, Store/History, Store/Identity, Store/Contracts and
--   Store/Transactions the theorems; Store/Examples the tests.
-- - Outcome: pure code that returns or raises one error of its own.
-- - Resources: src/aep/resource_loader.py, the references and the collection of resources.
-- - Dag: src/aep/task_dag.py, which turns a Workflow's Tasks and dependencies into groups that may
--   run in parallel. Dag/Graph is the loop over indegrees, for any type of node; Dag/Resolve the
--   parsing of the entries and `resolve_task_dag`; Dag/Counts, Dag/Release, Dag/Groups and Dag/Layers
--   count the placed and the ready nodes along the loop; Dag/Declared and Dag/Faults are about
--   the first loops, Dag/Plan and Dag/Resolution about the whole; Dag/Examples holds the tests.
--   The loop runs on fuel, one more than the number of nodes: each turn but the last places a node.
-- - Task: src/aep/task_execution.py, the lifecycle of one attempt at a Task over the store, with
--   the correlation context of src/aep/observability.py. Task/Status has the statuses and the table
--   of transitions, Task/Correlation the context, Task/Lifecycle the operations; Task/Cases,
--   Task/Steps, Task/NextKey and Task/Retries the theorems; Task/Examples the tests. The validators and Python's
--   `str.strip` are parameters; a lifecycle logger is not modelled.
-- - WorkflowExecution: src/aep/workflow_execution.py, the creation of the execution of a Workflow for
--   an event, and of its first ExecutionEvent. Creation has the operations, Started says what the first
--   event is, Appended is about the keys of the store, Recorded has the theorem, Examples the test. `uuid5`, `==` on JSON values and the validators are parameters.
-- - RateLimits: src/aep/model_rate_limits.py, the pacing of requests to a model provider.
--   RateLimits/Coordinator has the operations, for a coordinator without a state file,
--   RateLimits/Pacing and RateLimits/Waiting the theorems, RateLimits/Examples the tests. Float
--   arithmetic is a parameter.
-- - Text: Python texts as lists of code points, with slices, searches and lines.
-- - LocalizedPatch: src/aep/localized_patch.py, edits of a text that name whole lines of an immutable
--   preimage. Lines, Paths, Regions, OperationFields, Operations and Apply have the functions, with
--   `_region_span` of src/aep/planning_evidence.py in Regions; Matched compares the loop over newlines
--   with a recursion; Bounds, InPlace, Resolved and Ordered are about the edits, Restored and Preserved
--   about the patch; Examples has the tests. `sha256`, `str.isprintable`, `str.casefold`, `str.strip`
--   and `str.split` are parameters, and so are the regular expressions of `_markdown_structure`. The
--   loop of `_logical_line_matches` runs on fuel, one more than the length of the text: each turn
--   passes a line.
-- - CapabilityPolicy: src/aep/capability_policy.py, the decisions that authorize privileged capabilities.
--   Policies validates and sorts, Matching finds the rules and the winner, Records makes the record and
--   its key, Verdicts and Evaluation compose them over the store, with the hook of the Tool Runtime;
--   Restrictive, Permitted, Sorted, Authorized and Conflicts have the theorems, Examples the tests. The
--   JSON Schema validator, the pattern of versions and the digest of the canonical JSON are parameters.
-- - Budgets: src/aep/execution_budgets.py, the limits of a Task and the ledger that enforces them.
--   Declarations reads a declaration and Resolution combines the scopes; Least, Limits and Hierarchy
--   have the theorems about them. Costs has the helpers on money, Records the records of the ledger,
--   Checks the checks before a dispatch, Plan `_reservation_plan`, Ledger `preflight` and `release`,
--   Settlement `record`. Pool is the abstract view of a count and Shared the calls of several clients,
--   with what a record charges in excess of its reservation;
--   Fits, Planned, Counts, Evaluated, Granted, Released, SameCounts, Settled, Refined, Interleaved
--   and Sticky have the theorems; Examples and LedgerExamples the tests. Python's numbers, its decimals and the
--   difference of two timestamps are parameters (`Numbers`, `Decimals`), the order of the numbers and
--   its agreement with `int` hypotheses (`IsOrder`, `IsArithmetic`). The ledger is typed records, in
--   place of the JSON that the store keeps.
-- - WorkflowResolver: src/aep/workflow_resolver.py, the Workflows whose triggers name a normalized event.
--   Resolver has the functions, Subscribed the theorem, Examples the tests. `str.strip` is a parameter.
-- - Approval: src/aep/approval.py, requests for approval and the decisions of reviewers on them, over
--   the store. Gate has `ApprovalGate.decide`, Request `ApprovalGate.request`; Authorized and Refused
--   are about a decision, Requested, Rejection and Composed about a request and the decision that
--   follows it; Examples and RequestExamples are tests. The reading of timestamps is a parameter
--   (`Instants`), and so are SHA-256 with the canonical JSON and Python's functions on texts.
--
-- Choices of the model: JSON numbers are integers. A class of exception is a constructor of `Error`,
-- its message is dropped. The wall clock that a method reads when it is given no instant is an argument
-- (`now`). Instants are texts that are compared by code points, as the code does. Python's `str` on a
-- value that is no text is a parameter (`render`). The budget callback of `mutate_execution_budget`
-- is a parameter.
--
-- Not modelled: the durable store's files and locks, the adapters of model providers, GitHub, git
-- and Docker, and the services built on them, which do input and output.
pub mod Prelude
pub mod Action
pub mod Outcome
pub mod Dict
pub mod Json
pub mod Store
pub mod Resources
pub mod Dag
pub mod Task
pub mod WorkflowExecution
pub mod RateLimits
pub mod Text
pub mod LocalizedPatch
pub mod CapabilityPolicy
pub mod Budgets
pub mod WorkflowResolver
pub mod Approval
