-- ===== src/Lib.antt =====
-- Durable Threads: the Python package src/durable_threads, which hands bounded coding tasks to
-- executors, judges their results and keeps a local record. This library models its own logic.
--
-- A task text is given a risk class (R0 to R4). A decision engine answers questions about the task,
-- and deterministic policy decides what they count for. The workflow routes the task to
-- providers, runs one attempt with each, verifies it, ranks the attempts and then completes, waits for
-- a reviewer, tries again or gives up. The ledger claims a task on disk before a provider starts.
--
-- Which file models which part:
--   Risk          risk.py: the signals (regular expressions), `classify_risk`, `meets_threshold`
--   Regex         the matcher that the regular expressions of the package are run with
--   Decisions     decisions.py: questions, answers, batches, `DecisionPolicy.gate`; in
--                 Decisions/Heuristic the heuristic and the static engine, and in Decisions/Jev the
--                 remote engine and `decision_engine_from_env`; in Decisions/Stored `to_dict` and
--                 `answer_from_dict`
--   Intelligence  intelligence.py: `assess_task`, `assess_result`, `completion_gate`
--   Contracts     temporal_contracts.py: what workflows and activities exchange
--   Attempt       temporal_workflows.py: AgentExecutionWorkflow, `_attempt_rank`, `_stronger_effort`
--   Session       temporal_workflows.py: the state of DurableTaskWorkflow, its signal and its query
--   Workflow      temporal_workflows.py: DurableTaskWorkflow.run
--   Ledger        ledger.py: `_redact`, `_locked`, `read`, `save`, `record_task`, `begin_task`
--   Registry      execution.py: ExecutorDescriptor, ExecutionRegistry (`register`, `rank`, `select`);
--                 in Registry/Builtin `default_execution_registry` and scripted.py: the plugin
--   Evidence      evidence.py: `parse_worker_result`, `validate_evidence`, `git_changed_paths`
--   Activities    temporal_activities.py: the five activities that the workflows call
--   Packets       packets.py: `build_packet` and the checks of its texts
--   Native        native.py: `recommend_native_execution`, with the worker entry of config.py
--   Models        routing.py: `resolve_model`
--   Providers     providers.py: adapters, `build_invocation`, `run_invocation`, sessions and usage; execution.py: `CliExecutionBackend`
--   Config        config.py: the entries of a roster, `load_roster`
--   Routing       routing.py: `select_workers`, `catalog_from_payload`
--   Cli           cli.py: `_dispatch` with its ledger records, `_plan`, the other commands, `main`
--   Pro5          plugins/durable-threads/skills/durable-threads/scripts/pro5.py: `audit_config`, `quota_summary`,
--                 `probe_metadata`, `schema_probe`, `main`
--   Errors, Dict, Json, Prelude  the errors, dictionaries, JSON values and helpers that they share
--
-- State. A workflow is a function of a Session: the fields of the workflow object and the reviews that
-- are still to come, in order. It returns, raises, or is blocked in a wait. The ledger is a function of
-- a Disk: the JSON of the file, if there is one, and whether the lock file is there.
--
-- Numbers. Probabilities and certainties are thousandths as integers, since the constants of the source
-- have at most three decimals; rounding of binary fractions is not modelled. Texts are lists of code
-- points; `lower`, `upper`, `casefold` and `\w` are those of ASCII, and the encoding of the locale is
-- UTF-8. Loops are structural, on a list or on the rounds that `max_attempts` leaves. A loop of the matcher of regular expressions has one
-- round for each character that is left, which is enough, since a round that consumes nothing ends it.
-- The probe of Pro5 reads at most 1000 lines for a request and 8 pages, which are limits of the source.
--
-- Parameters. The decision engine, the activities of the workflow with the retries of their policies,
-- the hash of a state, the search for executables, the run of a provider process with its output, the
-- lines that a Codex process writes, the file system, git and the decoding of JSON are
-- arguments of the definitions that use them. Reading JSON and running git may raise, and the output of
-- a provider process may be no text. The exception as which a failed child workflow reaches its parent
-- is an argument too.
-- Error values carry a fixed text where the source formats one.
--
-- Not modelled: the SDK of the remote decision engine, the backend of the scripted executor, the
-- client and the worker of the workflow engine, which hand arguments on to it, the benchmarks and
-- release scripts, and the TypeScript packages. Of the ledger: the directory that is made before the
-- lock is taken, a file that is no JSON, and errors of reading, writing, closing and unlinking; another
-- process may not take the lock between the two calls of one dispatch.
mod Prelude
pub mod Errors
pub mod Regex
pub mod Risk
pub mod Dict
pub mod Json
pub mod Decisions
pub mod Intelligence
pub mod Config
pub mod Contracts
pub mod Attempt
pub mod Session
pub mod Workflow
pub mod Ledger
pub mod Registry
pub mod Evidence
pub mod Activities
pub mod Native
pub mod Packets
pub mod Models
pub mod Routing
pub mod Providers
pub mod Cli
pub mod Pro5
