-- ===== src/Runs.antt =====
-- src/tools/async_tool_manager.rs: background runs of tools. This file has the types and the methods
-- of an entry. An instant is a number of milliseconds, an `i32` its sign-extended 64-bit pattern; an
-- entry's `Notify` is named by its run id, and waking its waiters is left to what a wait sees.
pub mod Access
pub mod Manager
pub mod Completion
pub mod Watch
pub mod Eviction
pub mod Keeps
pub mod Status
pub mod Claims
mod Tests
use simple_claw.Base.{
  ℕ, ◌-◌, ◌^◌, ◌++◌, Text, lit, Option, none, some, Bool, true, false, ◌&&◌, ◌==◌, if◌then◌else◌,
}
use simple_claw.Error.{FrameworkError, tool, Result, ok, err}
use simple_claw.Channels.{GatewayChannelKind}

-- `CompletionRoute` of src/tools/mod.rs
pub record CompletionRoute : Type 0 where
  pub trace_id : Text
  pub source_channel : GatewayChannelKind
  pub target_agent_id : Text
  pub session_key : Text
  pub source_message_id : Option Text
  pub channel_id : Text
  pub guild_id : Option Text
  pub is_dm : Bool

pub data AsyncToolRunKind : Type 0 where
  process delegated : AsyncToolRunKind

unfoldable pub kind_as_str : AsyncToolRunKind → Text
kind_as_str process = lit "process"
kind_as_str delegated = lit "delegated"

pub data AsyncToolRunStatus : Type 0 where
  running completed killed : AsyncToolRunStatus

unfoldable pub status_as_str : AsyncToolRunStatus → Text
status_as_str running = lit "running"
status_as_str completed = lit "completed"
status_as_str killed = lit "killed"

-- `status == AsyncToolRunStatus::Running`
unfoldable pub is_running : AsyncToolRunStatus → Bool
is_running running = true
is_running _ = false

pub record StartedAsyncToolRun : Type 0 where
  pub run_id : Text
  pub tool_name : Text
  pub kind : AsyncToolRunKind

pub record ProcessAsyncToolRunDetails : Type 0 where
  pub command : Text
  pub pid : Option ℕ
  pub exit_code : Option ℕ
  pub stdout : Text
  pub stderr : Text

pub record DelegatedAsyncToolRunDetails : Type 0 where
  pub request : Text
  pub reply : Option Text
  pub error : Option Text

pub data AsyncToolRunDetails : Type 0 where
  process_details : ProcessAsyncToolRunDetails → AsyncToolRunDetails
  delegated_details : DelegatedAsyncToolRunDetails → AsyncToolRunDetails

pub record AsyncToolRunSnapshot : Type 0 where
  pub run_id : Text
  pub tool_name : Text
  pub kind : AsyncToolRunKind
  pub status : AsyncToolRunStatus
  pub summary : Text
  pub details : AsyncToolRunDetails
  pub started_at : ℕ
  pub finished_at : Option ℕ

pub record ProcessRunState : Type 0 where
  pub command : Text
  pub pid : Option ℕ
  pub stdout_path : Text
  pub stderr_path : Text
  pub exit_code : Option ℕ

pub record DelegatedRunState : Type 0 where
  pub request : Text
  pub reply : Option Text
  pub error : Option Text

pub record AsyncToolRunEntry : Type 0 where
  pub tool_name : Text
  pub kind : AsyncToolRunKind
  pub summary : Text
  pub agent_id : Text
  pub session_key : Text
  pub status : AsyncToolRunStatus
  pub started_at : ℕ
  pub finished_at : Option ℕ
  pub claimed : Bool
  pub process_state : Option ProcessRunState
  pub delegated_state : Option DelegatedRunState

unfoldable pub belongs_to : AsyncToolRunEntry → Text → Text → Bool
belongs_to self agent_id session_key = self.agent_id == agent_id && self.session_key == session_key

-- The last bytes of a log file, as `read_process_output_tail` gives them.
abbrev pub Tails : Type 0
Tails = Text → ℕ → Text

details_of : Tails → Text → Option ProcessRunState → Option DelegatedRunState → AsyncToolRunDetails
details_of tail summary (some p) d = process_details (record {
  command = p.command;
  pid = p.pid;
  exit_code = p.exit_code;
  stdout = tail p.stdout_path 32768;
  stderr = tail p.stderr_path 16384;
})
details_of tail summary none (some d) =
    delegated_details (record { request = d.request; reply = d.reply; error = d.error })
details_of tail summary none none =
    delegated_details
      (record { request = summary; reply = none; error = some (lit "run details unavailable") })

unfoldable pub snapshot : Tails → AsyncToolRunEntry → Text → AsyncToolRunSnapshot
unfolding details_of
snapshot tail self run_id = record {
  run_id = run_id;
  tool_name = self.tool_name;
  kind = self.kind;
  status = self.status;
  summary = self.summary;
  details = details_of tail self.summary self.process_state self.delegated_state;
  started_at = self.started_at;
  finished_at = self.finished_at;
}

-- The instant, and what running the command `kill <pid>` gives: the error of starting it, or nothing
-- (a failure of the command itself is only logged).
pub record Killing : Type 0 where
  pub now : ℕ
  pub kill_error : ℕ → Option Text

-- `-1` as a pattern.
abbrev pub minus_one : ℕ
minus_one = 2 ^ 64 - 1

signal : Killing → Option ℕ → Option Text
signal k none = none
signal k (some pid) = k.kill_error pid

kill_signalled :
    Killing → AsyncToolRunEntry → ProcessRunState → Option Text → Result AsyncToolRunEntry
kill_signalled k self p (some e) = err (tool (lit "failed to kill background run: " ++ e))
kill_signalled k self p none = ok (record self {
  status = killed;
  finished_at = some k.now;
  process_state = some (record p { exit_code = some minus_one });
})

kill_process : Killing → AsyncToolRunEntry → Option ProcessRunState → Result AsyncToolRunEntry
unfolding kill_signalled signal
kill_process k self none = err (tool (lit "background run kind does not support kill"))
kill_process k self (some p) = kill_signalled k self p (signal k p.pid)

-- An error leaves the entry as it was.
unfoldable pub kill : Killing → AsyncToolRunEntry → Result AsyncToolRunEntry
unfolding kill_process is_running
kill k self = if is_running self.status then kill_process k self self.process_state else ok self
