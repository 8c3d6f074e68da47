-- ===== src/Lib.antt =====
-- etask, a distributed scheduler of tasks: this library models the part of it that decides what
-- runs when, and what becomes of it.
--
-- The program. Scheduler nodes scan a table of tasks and take a lease on one (a compare-and-swap on
-- its version), plan a route for it, create an execution record and call an executor, or leave the
-- record to be pulled. Executors report states. The execution service applies them to the record,
-- which only changes by updates that name the states they expect, or under a lock of the row;
-- terminal states go through a completion message, whose consumer ends the record, moves the task
-- on to its next time and gives its lease back. Compensators scan for executions to retry, to
-- reschedule and to interrupt, and deliver the signals of cancellations. Nothing but the database
-- holds these parts together.
--
-- The files.
-- - Base: numbers, lists, strings and integers of 32 and 64 bits, as Go has them.
-- - Errs: the sentinel errors (internal/errs/error.go and others), and results.
-- - Domain: internal/domain/task_execution.go, execution_route.go, task.go, report.go, codebook.go,
--   execution_cancellation.go, execution_pool.go, task_notification.go and task_validation.go.
-- - Store: the world (tables, clock, messages) and the actions on it. An action is a function from
--   a world to a result and a world; a statement consumes one entry of `faults` and may fail; a
--   transaction rolls back. Store.Obeys has the rules by which a relation between worlds that
--   single statements obey holds of whole services; Store.Inversion says what success means, and
--   Store.Quiet what changes nothing.
-- - Execution: internal/repository/dao/task_execution.go (Table, Updates, Queries),
--   internal/service/task/execution_service.go (Service), internal/event/complete/consumer.go
--   (Completion). Execution.Diagram is the state machine of an execution.
-- - Retry: pkg/retry. Calendar: internal/domain/calendar/schedule.go; Calendar.First says what the
--   first free trigger of a schedule is.
-- - Task: internal/repository/dao/task.go (Table, Changes; Changes also has `stopProjectTasks` of
--   project_deletion.go), internal/service/task/service.go and
--   internal/service/acquirer/task_acquirer.go (Service), internal/service/task/param_override.go
--   (Overrides). Task.Lock is the version as a lock.
-- - Cancellation: internal/repository/dao/execution_cancellation.go and
--   internal/service/termination/service.go.
-- - Dispatch: internal/service/dispatcher (Routing, Dispatcher), the creation of executions by
--   internal/service/task/execution_service.go and internal/repository/task_execution.go
--   (Creation), internal/service/scheduler/scheduler.go and internal/compensator (Rounds).
-- - Sorter: pkg/sorter/sorter.go. Sorter.Order and Sorter.Plans say where a dragged row ends up.
-- - Codebook: internal/repository/dao/codebook.go and internal/repository/codebook.go (Table,
--   Versions, Writing, Sorting), internal/service/codebook/codebook.go (Projects, Service), on the
--   tables of Store.Library. Codebook.Tree is the invariant of the paths.
-- - Pool: internal/repository/dao/execution_pool.go and internal/repository/execution_pool.go
--   (Tables), internal/service/pool (Matcher, Binding), on the tables of Store.Pools.
-- - System: the operations of the modelled services on tasks, executions and cancellations as steps
--   of one run (Runs: any order, any arguments and stale snapshots, any faults, other processes in
--   between), and what holds of all runs. Of the deletion of a project
--   (internal/repository/dao/project_deletion.go) a step is what it does to the tasks; what its
--   statements on other tables come to is an argument.
-- - Examples: the theorems at concrete inputs.
--
-- How the code is read. An operation runs at one instant, and its statements are not interleaved
-- with those of others, except where the code itself expects it: an operation on a stale record
-- takes the record as an argument, and the retry loop of UpdateNextTime takes what others do in
-- between as a function. The number of rows that an UPDATE reports is the number that its WHERE
-- clause met (clientFoundRows). A transaction is one step with a COMMIT that may fail. Rows that
-- compare equal in an ORDER BY come in the order of the table. Ids and times are natural numbers in
-- milliseconds after 1970; deadlines and durations are int64 that wrap. Parameters of the world:
-- the tenant scope of the ORM, the collation of columns, the parser of JSON, sha256 and random
-- UUIDs, the next time of a cron expression, the text of a request id, and what a machine makes of
-- a float64 that no int64 holds. The holiday filter takes the schedule of robfig/cron and the table
-- of holidays as parameters, and a location whose offset from UTC does not change; robfig/cron
-- documents that it looks five years ahead, of which the theorems assume four. The answers of the
-- pools to a dispatch, the node picker, the program resolver and the input assembler are arguments
-- (`Services`).
--
-- Bounds. UpdateNextTime tries once and, on conflicts, three times more, as the strategy with three
-- retries allows. The holiday loop makes its 366 rounds. No other recursion has fuel. The depth of
-- a node is an integer without bounds, as the path column holds far fewer ids.
--
-- Not modelled. The deletion of a project beyond its tasks; programs, artifacts and encrypted
-- variables of an execution; notification texts; logs; the endless loops around a round and their
-- waiting; imports and change sets of source code; the catalog and the syncer of pools, the
-- runners, the agent, the language models, the web and gRPC adapters and the script executors.
pub mod Base
pub mod Errs
pub mod Domain
pub mod Store
pub mod Execution
pub mod Retry
pub mod Task
pub mod Cancellation
pub mod Dispatch
pub mod Calendar
pub mod Codebook
pub mod Sorter
pub mod Pool
pub mod System
pub mod Examples
