-- ===== src/Gateway/Commands.antt =====
-- `execute_command` of src/gateway/mod.rs. Each lock that it takes is one step; what other tasks do
-- before a step is an input (`Outside`). What it returns is the answer, with the gateway after it.
use simple_claw.Base.{
  ℕ, zero, suc, ◌+◌, Text, lit, List, [], ◌∷◌, ◌++◌, Option, none, some, Bool, true, show,
  if◌then◌else◌,
}
use simple_claw.Base.Dict
use simple_claw.Error.{Result, ok, err}
use simple_claw.Channels.{ChannelInbound}
use simple_claw.Routing.{resolve_route}
use simple_claw.Session.{
  SessionStore, SessionRotation, build_session_scope_key, current_or_create, rotate,
}
use simple_claw.Workers.{remove}
use simple_claw.Tools.{RegisteredTool, owner_allowed}
use simple_claw.Runs.{AsyncToolRunSnapshot, is_running}
use simple_claw.Runs.Manager.{AsyncToolRunManager}
use simple_claw.Runs.Access.{list_for_session, kill_for_session}
use simple_claw.Agent.{ToolDefinition, ToolRunOutput}
use simple_claw.Gateway.{
  ChannelCommandKind, new_session, status, stop, tools, command_as_str, ChannelCommand,
  CommandResponse, new_session_response, stop_response, AgentRuntimeConfig, Gateway, Outside,
}
use simple_claw.Gateway.Responses.{
  denied_command_response, owner_denied_command_response, unknown_agent_command_response,
  error_command_response, status_command_response, tools_command_response,
}

-- The agent, the scope and the session that a command is for.
abbrev pub Target : Type 0
Target = Text × Text × Text

-- The message that stands for a command when the agent is looked for.
unfoldable pub command_inbound : ChannelCommand → ChannelInbound
unfolding command_as_str
command_inbound cmd = record {
  message_id = lit "command:" ++ command_as_str cmd.kind;
  channel_id = cmd.channel_id;
  guild_id = cmd.guild_id;
  is_dm = cmd.is_dm;
  user_id = cmd.user_id;
  username = lit "system";
  mentioned_bot = true;
  content = lit "/" ++ command_as_str cmd.kind;
}

-- A run is counted if its kill is not refused.
kills : Result AsyncToolRunSnapshot → ℕ
kills (ok run) = 1
kills (err e) = 0

unfoldable pub stop_message : ℕ → Text
stop_message zero = lit "No running background tasks were found."
stop_message (suc n) = lit "Stopped " ++ show (suc n) ++ lit " background task(s)."

module _ {T : Type 0} (outside : Outside T) where
  unfoldable pub stop_run :
      Text → Text → AsyncToolRunSnapshot → AsyncToolRunManager → ℕ × AsyncToolRunManager
  unfolding kills
  stop_run agent_id session_key run self =
      let (killed, self') =
        kill_for_session outside.tail (outside.killing run.run_id)
          (outside.before_kill run.run_id self) run.run_id agent_id session_key in
      if is_running run.status then (kills killed, self') else (0, self)

  -- The loop over the listed runs.
  unfoldable pub stop_runs :
      Text → Text → List AsyncToolRunSnapshot → AsyncToolRunManager → ℕ × AsyncToolRunManager
  unfolding stop_run
  stop_runs agent_id session_key [] self = (0, self)
  stop_runs agent_id session_key (run ∷ runs) self =
      let (killed, self') = stop_run agent_id session_key run self in
      let (more, self'') = stop_runs agent_id session_key runs self' in (killed + more, self'')

  unfoldable pub stop_command_response :
      AsyncToolRunManager → Text → Text → CommandResponse × AsyncToolRunManager
  unfolding stop_runs stop_message
  stop_command_response self agent_id session_key =
      let listed = outside.before_list self in
      let (killed_count, self') =
        stop_runs agent_id session_key (list_for_session outside.tail listed agent_id session_key)
          listed in
      (stop_response killed_count (stop_message killed_count), self')

module _ {P T : Type 0} where
  unfoldable pub stored : Gateway P T → SessionStore → Gateway P T
  stored self store = record self { session_store = store }

module _ {P T : Type 0} (outside : Outside T) where
  keyed_target :
      Gateway P T → Text → Text → Result Text × SessionStore → Result (Option Target) × Gateway P T
  unfolding stored
  keyed_target self agent_id scope_key (err e, store) = (err e, stored self store)
  keyed_target self agent_id scope_key (ok session_key, store) =
      (ok (some (agent_id, scope_key, session_key)), stored self store)

  routed_target :
      Gateway P T → ChannelCommand → Option (Text × Bool) → Result (Option Target) × Gateway P T
  unfolding keyed_target
  routed_target self cmd none = (ok none, self)
  routed_target self cmd (some (agent_id, invoke)) =
      let scope_key = build_session_scope_key agent_id cmd.is_dm cmd.source cmd.channel_id in
      keyed_target self agent_id scope_key
        (current_or_create outside.resolve_faults outside.resolved_at self.session_store scope_key)

  unfoldable pub resolve_command_target :
      Gateway P T → ChannelCommand → Result (Option Target) × Gateway P T
  unfolding routed_target command_inbound
  resolve_command_target self cmd =
      routed_target self cmd (resolve_route cmd.source (command_inbound cmd) self.inbound_policy)

  rotated_session :
      Gateway P T → Text → Result SessionRotation × SessionStore → CommandResponse × Gateway P T
  unfolding stored
  rotated_session self agent_id (err e, store) =
      (error_command_response new_session e, stored self store)
  rotated_session self agent_id (ok rotated, store) = (
    new_session_response (
        lit "Started a fresh session for `"
        ++ agent_id
        ++ lit "`. New session: `"
        ++ rotated.session_id
        ++ lit "`."),
    record self {
      session_store = store;
      session_coordinator =
          remove (outside.before_remove self.session_coordinator) rotated.previous_session_id;
    },
  )

  unfoldable pub new_session_command : Gateway P T → Text → Text → CommandResponse × Gateway P T
  unfolding rotated_session
  new_session_command self agent_id scope_key = rotated_session self agent_id (
      rotate outside.rotate_faults outside.rotated_at (outside.before_rotate self.session_store)
        scope_key)

module _ {P T : Type 0} (definition : RegisteredTool P ToolRunOutput → ToolDefinition)
    (outside : Outside T) where
  -- What a command does once its user is known to be an owner.
  unfoldable pub allowed_command :
      Gateway P T → ChannelCommandKind → Text → Text → Text → CommandResponse × Gateway P T
  allowed_command self new_session agent_id scope_key session_key =
      new_session_command outside self agent_id scope_key
  allowed_command self status agent_id scope_key session_key =
      let runs = outside.before_list self.async_tool_runs in
      (
        status_command_response outside.tail self runs agent_id scope_key session_key,
        record self { async_tool_runs = runs },
      )
  allowed_command self stop agent_id scope_key session_key =
      let (response, runs) =
        stop_command_response outside self.async_tool_runs agent_id session_key in
      (response, record self { async_tool_runs = runs })
  allowed_command self tools agent_id scope_key session_key =
      (tools_command_response definition self agent_id, self)

  configured_command :
      Gateway P T
      → ChannelCommand
      → Text
      → Text
      → Text
      → Option (AgentRuntimeConfig P)
      → CommandResponse × Gateway P T
  unfolding allowed_command
  configured_command self cmd agent_id scope_key session_key none =
      (unknown_agent_command_response cmd.kind agent_id, self)
  configured_command self cmd agent_id scope_key session_key (some config) =
      if owner_allowed cmd.user_id config.owner_ids
      then allowed_command self cmd.kind agent_id scope_key session_key
      else (owner_denied_command_response cmd.kind, self)

  targeted_command :
      ChannelCommand → Result (Option Target) × Gateway P T → CommandResponse × Gateway P T
  unfolding configured_command
  targeted_command cmd (err e, self) = (error_command_response cmd.kind e, self)
  targeted_command cmd (ok none, self) = (denied_command_response cmd.kind, self)
  targeted_command cmd (ok (some (agent_id, scope_key, session_key)), self) =
      configured_command self cmd agent_id scope_key session_key (Dict.get self.agents agent_id)

  unfoldable pub execute_command : Gateway P T → ChannelCommand → CommandResponse × Gateway P T
  unfolding targeted_command
  execute_command self cmd = targeted_command cmd (resolve_command_target outside self cmd)
