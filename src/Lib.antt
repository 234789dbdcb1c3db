-- ===== src/Lib.antt =====
-- SimpleClaw: a multi-agent runtime that connects chat channels to agents with tools.
--
-- The program's core, and the files here that model it. A chat message comes in from a channel; the
-- gateway finds the agent that it is for and decides whether it is admitted (Routing), under a session
-- key (Session). One worker task per session key runs its turns (Workers). In a turn the agent calls
-- tools; the executor runs a call where its configuration says, and asks the user through the gateway
-- before a tool leaves its sandbox (Tools, Approval). The loop that asks a model and executes the calls
-- of its responses is bounded (Agent). A file tool's access is routed to one of the sandbox's roots
-- (Paths). A tool may go on in the background; its end comes back as a message to its session (Runs).
-- Owners steer an agent by commands, which work on sessions, workers and runs together (Gateway).
--
-- Base, and the files below it: names of the libraries, tests and lists over the native numbers, texts
--   as lists of code points, decimal texts, association lists for `HashMap<String, V>`, stable sorting.
-- Error: src/error.rs; `?` is `>>=` on Result.
-- Channels: src/channels/types.rs; the messages that the parts exchange.
-- Routing: src/gateway/policy.rs and src/config/routing.rs; Routing.Precedence has the levels of the
--   configuration, Routing.Admission what is let in.
-- Session: src/gateway/session.rs; the session keys (Session.Keys), and the sessions that a reset
--   replaces (Session.Rotation).
-- Approval: src/approval.rs; `register`, `wait_for_decision`, `resolve` and `request_approval` keep
--   their names. Each method holds the registry's lock, and is one step; Approval.Trace has their
--   interleavings.
-- Workers: src/run/session.rs; the tasks and the callers as steps (`Event`) that interleave in any
--   order. Workers.Serial is about one worker per key, Workers.Delivery about the order of messages,
--   Workers.Gaps about what the code does not ensure.
-- Tools: the registry, the authorizer and the executor of src/tools/mod.rs; Tools.Registry has the
--   factory and the registry, Tools.Lookup what is found in it, Tools.Executor has `execute` with a
--   trace of what it does outside, Tools.Escalation and Tools.Denials the approvals, Tools.Owners the
--   restriction to owners.
-- Runs: src/tools/async_tool_manager.rs; Runs has the entries, Runs.Manager, Runs.Access, Runs.Watch and
--   Runs.Completion the methods of `AsyncToolRunManager`, Runs.Keeps and Runs.Status the ends of runs,
--   Runs.Eviction the bound on ended runs, Runs.Claims what a session reaches and which ends are
--   announced.
--
-- Json: what is used of serde_json, as a parameter.
-- Agent: src/dispatch.rs, src/react.rs, src/providers/types.rs and src/reply_policy.rs. Agent.Dispatch
--   has the execution of calls and the native dispatcher, Agent.Xml the other dispatcher, Agent.Stream
--   the streams of a provider, Agent.React `run_loop`; Agent.Loop is about the loop's end and the
--   invariants along it, Agent.Calls and Agent.History about the calls and the history. A round is a
--   step of the recursion on `max_steps`; the provider and the tools of each round are inputs.
-- Gateway: src/gateway/mod.rs, command.rs and router.rs; Gateway.Responses has the answers,
--   Gateway.Commands `execute_command`, Gateway.Inbound `route_inbound`. What other tasks do between the
--   steps of a command is an input (`Outside`). Gateway.Stopping, Gateway.Owners and Gateway.Sessions
--   are about what commands change.
-- Display: src/run.rs, the display of a reply that grows while it is streamed; Display.Steps has its tasks
--   and the channel as steps that interleave, Display.Shape, Display.Next and Display.Calls the states that
--   they reach, Display.Growth, Display.Finalize and Display.Messages what is shown.
-- Sse: the reading of responses in src/providers/gemini.rs; Sse has the lines and the task of
--   `generate_stream`, Sse.Gemini the events, Sse.Calls the table of tool calls, Sse.Chunks the cutting
--   into chunks.
-- Cron: src/tools/builtin/cron/store.rs, Cron.Tool the tool of cron/mod.rs there, and Cron.Scheduler a tick
--   of src/run/cron_scheduler.rs. Cron.Bound is about the jobs of the agents, Cron.Fires about what a tick
--   sends.
-- Turns: src/turn/prepare.rs and finalize.rs; Turns.Messages has the messages of src/memory/mod.rs,
--   Turns.Query the query of the recall, with the slices of Turns.Bytes, Turns.Sections the memories in
--   the prompt, Turns.Prepare `prepare_turn` and `finalize_turn`. Turns.History is about what the model
--   reads, Turns.Shorter, Turns.Fronts, Turns.Clean and Turns.Ascii about the query, Turns.Bound about
--   lengths.
-- Paths: sandbox/common/src/lib.rs, with `std::path` on Unix as lists of components; Paths.Access is
--   src/tools/builtin/file_access.rs. Paths.Normal and Paths.Names are about normalized paths,
--   Paths.Guest, Paths.Roots, Paths.Routes and Paths.Extra about which paths are let in,
--   and Paths.Expansion is the expansion of variables and of the home directory.
-- Edit: src/tools/builtin/edit.rs; the replacing in Edit.Replace.
-- Secrets: src/secrets.rs; the environment is a function, the file's YAML a parameter.
--
-- Conventions. A text is a list of code points. `u64` counters wrap around (`% 2 ^ 64`); signed numbers
-- are their bit patterns. A lock makes a method one step, and other tasks act between the steps: they
-- are inputs of a method that waits, except in a tick of the cron scheduler and between the append and
-- the read of the history in the preparation of a turn, where no other task acts. Time, files, processes, the channels' libraries and the tools' own
-- code are inputs too. A `HashMap` is an association list, whose order stands for the iteration order
-- that Rust leaves open. Two definitions run on fuel: the decimal digits, where the number itself is
-- enough, and the loop of `normalize_recall_query`, where the length of the query is, since each round
-- takes a character off.
--
-- Not modelled, since they are input and output or code of libraries: the requests to model providers
-- and their authentication, the Discord client, the embeddings and the vectors of the memory,
-- configuration files, the daemon, logging and telemetry, and the WebAssembly and host sandboxes. Not
-- modelled either, although they have logic of the program's own: how a turn runs the agent loop, the
-- long-term memory, the single tools with their arguments, and the checks of the configuration. The
-- agent that one agent invokes is a tool like any other.
pub mod Agent
pub mod Approval
pub mod Base
pub mod Channels
pub mod Cron
pub mod Display
pub mod Edit
pub mod Error
pub mod Gateway
pub mod Json
pub mod Paths
pub mod Routing
pub mod Runs
pub mod Secrets
pub mod Session
pub mod Sse
pub mod Tools
pub mod Turns
pub mod Workers
