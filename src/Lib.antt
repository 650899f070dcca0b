-- ===== src/Lib.antt =====
-- Verification of matea, a service that lets language-model agents work on the issues and pull
-- requests of a Gitea server.
--
-- A webhook (internal/ingress/gitea) becomes an event, which the dispatcher (internal/dispatcher)
-- handles: the resolver finds the agent and the type of the task, the gates may stop it, the
-- workflow context of the issue enters the stage of the task, a session is read or made, and one
-- task is stored and queued. All of these keep their state in SQLite tables (internal/store). When
-- a task has ended, the workflow manager (internal/workflow) moves the stage on or back.
--
-- Base holds the helpers: lists, texts as lists of code points (of bytes in Agent, Sandbox and
--   Dispatcher/History, which measure them), association maps.
-- Store: the tables. Types has the rows of internal/store; Tasks (task.go), Sessions (session.go),
--   Contexts (workflow.go), Handles (hub_handle.go) and Memories (memory.go) have a function for
--   each method. A table is the list of its rows in ascending order of the ids, with the next id,
--   and those of the handles and of the memories in the order of their saving; a statement reads
--   and writes that list. Times are numbers, and an operation that reads the clock takes it as an
--   argument.
-- Ingress: Event is parser.go, from the decoded JSON on; Inbox is dedup.go and handler.go, with
--   its table as a list, up to the removal of old deliveries, which is left out.
-- Gitea/PullRequest: the readers of a decoded pull request, internal/gitea/pr.go.
-- Config: Schema has the settings with a key, Values their texts (parse_bool_value, atoi), Keys the
--   reading and writing by key of internal/config/keys.go, and Manager is manager.go with the table
--   of system_config.go. The keys llm.providers and agents.backends are left out.
-- Agents: Registry is internal/agents/registry.go, its two maps as association lists, and DiffPolicy
--   gitsync_diffpolicy.go, with path.Match and path.Base as arguments. HubRun is runViaHub of
--   hub_run.go: the hub and the transport are arguments, and its loop goes through the list of the
--   hub's answers, at whose end the context is done, as its timeout of 30 minutes brings about.
--   GitSync is workspace_transport.go with conversation.go and pr_lookup.go: the choice of the
--   branches, Prepare, and Approve up to the opening of the pull request (Transport), where the
--   answers of the server and of git are arguments. KeySweep is gitsync_sweep.go, and HubDispatch
--   hub_dispatch.go with the two decisions of hub_run.go.
-- Agent: Messages are the messages of internal/llm/provider.go and their size in tokens, Truncate
--   is internal/agent/truncate.go and Loop is loop.go, where the answers of the model and of the
--   tools are arguments.
-- Model/RateLimit: the retries of internal/llm/ratelimit.go. Api/SetupToken: the token of
--   internal/api/setup_token.go.
-- Sandbox: internal/sandbox/sandbox.go on Unix, its checks of commands and paths, the captured
--   output (Output) and the files (Files, where the file system is a function from paths).
-- Workflow: Manager is context.go, Policy is policy.go, TaskTypes is tasktype_table.go, Cleanup the
--   cleanups of lifecycle.go with the disk as the list of its files, Resolver is
--   resolver.go, with its regular expressions in Comments, and Sessions is session.go.
-- Dispatcher: State is the state that the handler of an event changes, with its effects on the
--   Gitea server as a list; Gates is gates.go and gate_l1.go, Keys issue_key.go and
--   conversation_target.go, Lifecycle the reset and the closing of issues (pipeline.go,
--   lifecycle.go), and Pipeline handleEventV2 of pipeline.go, in the order of its steps. Queue is
--   queue.go; Execution is execute of executor.go, where the answers of the runs, the
--   ends of their contexts and what other handlers do meanwhile are arguments, and Executor
--   finalizeTaskResult with the callbacks of dispatcher.go. Restart is Start of dispatcher.go with
--   ReattachHubHandles, Cancels the registry of running tasks with the resets from the web UI, and
--   Serial the slots of the agents, all of executor.go. History is comment_history.go.
--   Among the faults are flags for the calls of the database that fail in the handler of an event, the
--   acceptance and the execution of a task, the restart, the web UI, the hub, the inbox and the settings.
--   The other calls, such as those of the reset and the closing of issues in Lifecycle, are taken to succeed.
--   What the settings answer is a record of functions.
-- Tests holds the samples and a run of each theorem that has conditions.
--
-- All loops are structural recursion, over lists, texts or the number of rounds or retries that are
-- left; the loop that drops messages takes their number as fuel, and each of its turns drops one.
-- Integers are those of the source where it only counts up: ids, numbers of issues and times, none
-- of which overflow.
--
-- Not modelled: HTTP, SQL as text, goroutines (each method that holds a lock, and each handler of
-- an event, is one step), the texts of comments and prompts, the language models, git,
-- processes and directories, the reading of configuration files, the web interface.
pub mod Base
pub mod Store
pub mod Workflow
pub mod Ingress
pub mod Gitea
pub mod Config
pub mod Agents
pub mod Agent
pub mod Model
pub mod Sandbox
pub mod Api
pub mod Dispatcher
pub mod Tests
