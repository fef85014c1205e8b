-- ===== src/Lib.antt =====
-- A model of the core services of the agent platform, and theorems about them.
--
-- The platform runs agents for tenants. An agent has numbered versions, which the release service
-- publishes, rolls out to a share of the users, watches and rolls back, along a flow with orders.
-- A run of an agent goes through a state machine; its model calls go through a gateway with a
-- chain of models, a limiter and a circuit breaker; long work goes through a job queue; calls of
-- tools and pages are allowed by policies.
--
-- The modules and the code that they model:
--   Release   app/release/service.py and the rows of app/storage/models.py. `Db` holds the tables as
--             lists in the order of insertion. A method of `ReleaseService` is an `Action Db`, a
--             function of the state into a result or an error code and the new state, with the
--             method's name (`_get_version` is `get_version`, `gray` is `gray_release`). Model has the
--             rows, Flow the stages and nodes, Orders the orders and histories, Contract the checks
--             before a publication, Versions the life of a version, Canary the automatic stop, and
--             Resolve the choice of the version that serves a user.
--   Runtime   app/agent/runtime/state.py: the states of a run and their transitions (State);
--             app/agent/runtime/runtime.py: the loop's data (Loop), its rounds (Drive), the start, end
--             and resumption of a run (Run), and the rebuilding of its messages (Rebuild);
--             app/agent/context (Context), the lock of a run in app/storage/lock.py (Lock), and
--             app/agent/runtime/recovery.py (Recovery). What the loop calls is the record `Deps` of
--             operations over a world `W`.
--   Tool      app/approval/service.py (Approvals), `execute_tool` of app/tool/registry.py (Execute) and
--             `ToolRuntime.execute` of app/tool/runtime.py (Pipeline), whose gates are those of Access,
--             Gateway and Approvals, and `_execute_one_tool` of app/agent/runtime/runtime.py (Calls). A
--             tool is a function on a world.
--   Queue     app/queue/store.py (Store: `JobStore` over job rows; Shared: `claim_queued`) and
--             app/queue/queue.py (Heap: `JobQueue`, its admission, heaps, processing and recovery).
--   Gateway   app/common/circuit_breaker.py (Breaker), app/tool/limiter.py (Limiter),
--             app/agent/model/router.py (Router), health.py, pool.py and scheduler.py beside it (Pool), and
--             `complete` of app/agent/model/gateway.py (Complete), which calls the first three.
--   Config    app/configcenter/service.py: versioned configuration and feature flags.
--   Evaluation app/evaluation/service.py: Text has the operations of strings, Spec the stored
--             expectations, Calls the order of tool calls, Cases the datasets, Seed the upsert of
--             cases, Judge the judgement of one run, Regression the regressions, and Security the
--             attacks. Release.Publishing is the endpoint of app/release/api.py that joins the
--             regression with `ReleaseService.publish`.
--   Events    app/events/service.py: the outbox, its statistics and replays.
--   Cost      app/cost/service.py: the reconciliation of the costs of calls with a bill.
--   Knowledge app/knowledge/chunker.py: the sections and blocks of a document.
--   Idempotency app/gateway/idempotency.py, the application behind it and the decoding of a body's
--             bytes being functions.
--   Access    app/security/policy.py (Policy, and Actions for `list_actions`) and
--             app/agent/runtime/budget.py (Budget).
--   Base      what they share: Boolean tests on numbers, tables with select, update and order_by,
--             results with the codes of app/common/errors.py, and methods as state passing.
--
-- Numbers and time: identifiers and texts that the code only compares are numbers. The clock, new ids
-- and hashes are arguments. Rates and averages are pairs of counts compared by cross multiplication,
-- with costs in millionths and rates in thousandths, where the code has floats. The loops over
-- lists and the retries are structural recursions. The loop of a run has fuel, one unit for each round,
-- and `none` for its end; one unit for each step of the budget and one more are enough, since a round
-- that goes on counts a step and the budget stops the next round.
--
-- The provider of a model, the model that judges, the execution of a run in an evaluation, the
-- handler of a job, the hash of a user, the count of tokens, the text of a summary, the functions of
-- tools and the operations of `Deps` are parameters without hypotheses; the decoding of a response's
-- body is one that is assumed to be undone by the encoding where the body is UTF-8. Not modelled: the
-- HTTP layer, the database itself (each method is one sequential call), Redis, asyncio workers, timers
-- and task cancellation, the texts of messages and reasons, the built-in tools and their secrets,
-- retrieval, memory and the reports of costs.
pub mod Base
pub mod Runtime
pub mod Tool
pub mod Release
pub mod Evaluation
pub mod Events
pub mod Cost
pub mod Gateway
pub mod Queue
pub mod Access
pub mod Config
pub mod Knowledge
pub mod Idempotency
