-- ===== src/Gateway.antt =====
-- src/gateway: the commands that a channel forwards, the gateway's routing of messages, and the state
-- that both work on. `P` is what a plan of a tool holds, `T` a message to a worker.
pub mod Responses
pub mod Inbound
pub mod Commands
pub mod Stopping
pub mod Owners
pub mod Sessions
mod Tests
use simple_claw.Base.{ℕ, Text, lit, List, Option, Bool}
use simple_claw.Base.Dict.{Dict}
use simple_claw.Channels.{GatewayChannelKind}
use simple_claw.Routing.{RoutingConfig}
use simple_claw.Session.{SessionStore, Faults}
use simple_claw.Runs.{Tails, Killing}
use simple_claw.Runs.Manager.{AsyncToolRunManager}
use simple_claw.Workers.{System}
use simple_claw.Tools.Registry.{AgentToolRegistry}
use simple_claw.Agent.{ToolRunOutput}

pub data ChannelCommandKind : Type 0 where
  new_session status stop tools : ChannelCommandKind

unfoldable pub command_as_str : ChannelCommandKind → Text
command_as_str new_session = lit "new"
command_as_str status = lit "status"
command_as_str stop = lit "stop"
command_as_str tools = lit "tools"

-- The channel on which the answer goes back is left out: the answer is a result.
pub record ChannelCommand : Type 0 where
  pub kind : ChannelCommandKind
  pub source : GatewayChannelKind
  pub channel_id : Text
  pub guild_id : Option Text
  pub user_id : Text
  pub is_dm : Bool

pub data CommandResponse : Type 0 where
  new_session_response status_response : Text → CommandResponse
  stop_response : ℕ → Text → CommandResponse
  tools_response : Text → CommandResponse

unfoldable pub response_message : CommandResponse → Text
response_message (new_session_response message) = message
response_message (status_response message) = message
response_message (stop_response killed_count message) = message
response_message (tools_response message) = message

-- The fields of `AgentRuntimeConfig` that the gateway reads.
pub record AgentRuntimeConfig (P : Type 0) : Type 0 where
  pub agent_name : Text
  pub owner_ids : List Text
  pub tool_registry : AgentToolRegistry P ToolRunOutput

-- The gateway, with the session workers and the background runs that it shares with other tasks.
pub record Gateway (P T : Type 0) : Type 0 where
  pub agents : Dict (AgentRuntimeConfig P)
  pub inbound_policy : RoutingConfig
  pub session_store : SessionStore
  pub session_coordinator : System T
  pub async_tool_runs : AsyncToolRunManager

-- What a command meets outside: the faults of the database and the instants of its two calls, the
-- logs of the runs and how their processes are killed, and what other tasks do while the gateway
-- holds no lock, before its calls.
pub record Outside (T : Type 0) : Type 0 where
  pub resolve_faults : Faults
  pub resolved_at : Text
  pub rotate_faults : Faults
  pub rotated_at : Text
  pub tail : Tails
  pub killing : Text → Killing
  pub before_rotate : SessionStore → SessionStore
  pub before_remove : System T → System T
  pub before_list : AsyncToolRunManager → AsyncToolRunManager
  pub before_kill : Text → AsyncToolRunManager → AsyncToolRunManager
