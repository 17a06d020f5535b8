-- ===== src/Lib.antt =====
-- The verification library of CGA's backend: the job queue of the indexer, the storage of relay batches,
-- the ADC releases and project revisions, the graph that a request may read, the analysis of call graphs, scheduled
-- tasks, the query strategy of agents, and the comparison of policy snapshots. Paths are those of the repository.
--
-- The parts.
--
-- * Queue is src/backend/queue/models.py and streams.py: producers publish indexing jobs to a Redis stream, workers
--   claim, renew, finish and acknowledge them, and the recovery takes over what a dead worker left. Queue.Job has
--   the job; Queue.Status the status hash with its readings (`_terminal`, `_attempt_count`, `_retry_due`,
--   `_base_status`); Queue.History `_history` and `_finish_history`; Queue.Redis the store and the commands that the
--   code sends; Queue.Watch the loop over WATCH and EXEC; Queue.Publish `publish` with its script; Queue.Claim
--   `set_job_processing` and `heartbeat`; Queue.Finish `_finish`, `set_job_done`, `set_job_failed`; Queue.Ack `ack`
--   and `_cleanup_finished`; Queue.Quarantine `_quarantine`; Queue.Recover `_recover`;
--   Queue.Consume `consume` and `_decode`, whose `Meanwhile` has what other clients write and what the scans return. Each handler takes the
--   store and gives the outcome with the next store; what `_now` returns is an argument. Queue.Safety has the abstract
--   queue, a step relation whose steps are publications, the transactions of claims, renewals, finishes and recoveries,
--   `ack`, deliveries and the passing of time.
-- * Relay is src/backend/cga_relay/storage.py: Relay.Paths `_relative_path`, Relay.Payload `_canonical_payload`,
--   Relay.Storage `save_sync_batch`, `load_sync_batch` and `list_sync_batches` over the table of batches.
-- * Adc is src/backend/adc/service.py: Adc.Documents the changes and `effective`, Adc.Store the two tables with
--   `publish`, `read_release` and `project_revision`, Adc.Revise `save_revision` and `onboarding`.
-- * Auth is src/backend/auth/context.py: Auth.Context has the graph names, the project scopes and the context variables,
--   which a binding sets for its body and resets.
-- * Graph is src/backend/graph/analyzer.py: Graph.Calls `build_from_calls` and the fans, Graph.Cycles
--   `detect_cycles`, Graph.Depth `compute_call_depth`, Graph.Measures `compute_metrics` and `find_critical_functions`.
-- * Schedules is src/backend/schedules/models.py and service.py: Schedules.Task the checks of a task and the merge of an
--   update, Schedules.Table the tables of tasks and runs with the round of the worker, Schedules.Compact
--   `_compact_response_value`, Schedules.Browser `build_request_payload` with the commands of a browser test,
--   Schedules.Workflow `_execute_browseragent_workflow` with its attempts, Schedules.Collect
--   `_collect_browseragent_results`, Schedules.Execute `execute_scheduled_task`: its
--   `perform` is what the round of Schedules.Table runs for each task.
-- * Agent is src/backend/agent/query_strategy.py: Agent.Budget the tokens of items, Agent.Quality their scores and
--   `decide_fallback`, Agent.Fallback the snippets of local files, Agent.Strategy `run_cg_first_strategy`.
-- * Policy is diff.py of extensions/azure-policy-monitor, in src/policy_monitor, with the scope of azure_state.py:
--   Policy.Snapshot the state that is compared, Policy.Findings what is reported, Policy.Changes the comparison of
--   resources, assignments and effects, Policy.Diff the other detectors and `diff_policy_snapshots`.
-- * Prelude, Text, Json and Http are what these share: numbers, lists and maps; texts as code points; JSON values; results that are
--   a value, an HTTPException with its status, or another exception. Tests runs the definitions.
--
-- Bounds and fuel. The WATCH loop has the five rounds of the source; what other clients write between
-- WATCH and EXEC is a list of changes of the store, empty when nobody interferes. The search for cycles has as much
-- fuel as there are symbols, since it only goes down to symbols that it has not visited; the search for depths as
-- much as there are roots and calls, since a symbol enters the queue as a root or for a call of a symbol that was not
-- visited; that this is enough is part of what is shown. All else recurs on its data.
--
-- What is taken as given. `Queue.Job.Codec` is pydantic's JSON of a job and its reading back; `Relay.Storage.Codec`
-- the canonical `json.dumps`, `json.loads` and SHA-256; the digest of the documents and `str.casefold` are
-- arguments of the operations of Adc; `Auth.Context.Functions` is `str.strip`, `str.lower` and SHA-256,
-- and `Policy.Snapshot.Strings` the first two; `Schedules.Browser.Python` is what Python and
-- the database give a task, and `Schedules.Execute.World` the responses that it gets, up to its deadline. Sets are lists of their members: an order of iteration is an order of the
-- list. Floats are left to arguments: the averages and the scores of Graph.Measures, and `Agent.Quality.Floats`.
-- `Agent.Fallback.Files` has the texts of the repository, and `Agent.Strategy.Source` the callables of the graph.
--
-- What is not modelled. Of the queue: the type guards of the publishing script, the idle times of pending messages
-- beyond the check of `_recover`, entries of the statistics that `_finish` copies into the hash besides
-- the ones it reads, `recover_stale_jobs_by_repo` and the snapshot of the queue, and the waiting of a read for new entries; a stream ID is a number, and the decimal
-- and JSON texts of the hash are kept by their meaning; quarantine and cleanup are no steps of the abstract queue,
-- `ack` is one step of it though its commands are sent one by one, and its step of a recovery takes it that the message
-- still stands in the stream. Of the
-- relay: the locks and the WAL of PostgreSQL (a call is one step, so the order of concurrent commits is left out), and arguments that are no integers. Of the
-- ADC service: `archive`, `initialize` and the validators of the request models; columns of JSON and versions are
-- kept by their meaning, and a call reads the clock once. Of the graph: the limit of Python on recursion. Of the schedules:
-- instants are seconds, SQL is a list of rows, the URLs of
-- requests are part of the world, and so is `run_project_extension`. Of the agent: the client
-- of the MCP server; line numbers and the budgets and bounds of the configuration are not negative. Of the policy monitor: the requests to Azure, the normalisation of
-- its answers and the notifications; the message of a finding goes with its check.
pub mod Prelude
pub mod Text
pub mod Http
pub mod Json
pub mod Queue
pub mod Relay
pub mod Adc
pub mod Auth
pub mod Policy
pub mod Schedules
pub mod Graph
pub mod Agent
pub mod Tests
