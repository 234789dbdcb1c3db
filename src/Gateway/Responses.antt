-- ===== src/Gateway/Responses.antt =====
-- The answers to commands of src/gateway/mod.rs that change nothing.
use simple_claw.Base.{
  Text, lit, List, [], ◌∷◌, ◌++◌, map, length, take, Option, none, some, show, count,
}
use simple_claw.Base.Dict
use simple_claw.Error.{FrameworkError, display}
use simple_claw.Tools.{RegisteredTool}
use simple_claw.Runs.{AsyncToolRunSnapshot, Tails, is_running, status_as_str}
use simple_claw.Runs.Manager.{AsyncToolRunManager}
use simple_claw.Runs.Access.{list_for_session}
use simple_claw.Agent.{ToolDefinition, ToolRunOutput}
use simple_claw.Agent.React.{definitions}
use simple_claw.Gateway.{
  ChannelCommandKind, new_session, status, stop, tools, CommandResponse, new_session_response,
  status_response, stop_response, tools_response, AgentRuntimeConfig, Gateway,
}

-- `join("\n")`
join_lines : List Text → Text
join_lines [] = []
join_lines (t ∷ []) = t
join_lines (t ∷ u ∷ ts) = t ++ lit "\n" ++ join_lines (u ∷ ts)

-- The answer of each kind with a message, where nothing was killed.
answered_with : ChannelCommandKind → Text → CommandResponse
answered_with new_session message = new_session_response message
answered_with status message = status_response message
answered_with stop message = stop_response 0 message
answered_with tools message = tools_response message

unfoldable pub denied_command_response : ChannelCommandKind → CommandResponse
unfolding answered_with
denied_command_response kind =
    answered_with kind (lit "That command is not allowed in this channel.")

unfoldable pub owner_denied_command_response : ChannelCommandKind → CommandResponse
unfolding answered_with
owner_denied_command_response kind =
    answered_with kind (lit "That command is only available to configured owners.")

unfoldable pub not_configured : Text → Text
not_configured agent_id = lit "Agent `" ++ agent_id ++ lit "` is not configured."

unfoldable pub unknown_agent_command_response : ChannelCommandKind → Text → CommandResponse
unfolding answered_with not_configured
unknown_agent_command_response kind agent_id = answered_with kind (not_configured agent_id)

unfoldable pub error_command_response : ChannelCommandKind → FrameworkError → CommandResponse
unfolding answered_with
error_command_response kind e =
    answered_with kind (lit "Failed to resolve session state: " ++ display e)

run_line : AsyncToolRunSnapshot → Text
run_line run =
    lit "- `" ++ run.run_id ++ lit "` " ++ status_as_str run.status ++ lit " " ++ run.summary

recent_runs : List AsyncToolRunSnapshot → Text
unfolding run_line join_lines
recent_runs [] = []
recent_runs (run ∷ runs) = lit "\nRecent runs:\n" ++ join_lines (map run_line (take 5 (run ∷ runs)))

tool_line : ToolDefinition → Text
tool_line tool = lit "- `" ++ tool.name ++ lit "`: " ++ tool.description

tools_listed : Text → List ToolDefinition → CommandResponse
unfolding tool_line join_lines
tools_listed agent_id [] =
    tools_response (lit "Agent `" ++ agent_id ++ lit "` has no tools configured.")
tools_listed agent_id (tool ∷ rest) = tools_response (join_lines (map tool_line (tool ∷ rest)))

module _ {P : Type 0} where
  -- The answer for an agent's configuration and the runs of its session.
  status_of :
      Text
      → Text
      → Text
      → List AsyncToolRunSnapshot
      → Option (AgentRuntimeConfig P)
      → CommandResponse
  unfolding not_configured recent_runs
  status_of agent_id scope_key session_key runs none = status_response (not_configured agent_id)
  status_of agent_id scope_key session_key runs (some config) = status_response (
      lit "Agent: "
      ++ config.agent_name
      ++ lit " (`"
      ++ agent_id
      ++ lit "`)\nScope: `"
      ++ scope_key
      ++ lit "`\nSession: `"
      ++ session_key
      ++ lit "`\nBackground runs: "
      ++ show (count (λ (run : AsyncToolRunSnapshot). is_running run.status) runs)
      ++ lit " active / "
      ++ show (length runs)
      ++ lit " total"
      ++ recent_runs runs)

  tools_of :
      (RegisteredTool P ToolRunOutput → ToolDefinition)
      → Text
      → Option (AgentRuntimeConfig P)
      → CommandResponse
  unfolding not_configured tools_listed
  tools_of definition agent_id none = tools_response (not_configured agent_id)
  tools_of definition agent_id (some config) =
      tools_listed agent_id (definitions definition config.tool_registry)

module _ {P T : Type 0} where
  unfoldable pub status_command_response :
      Tails → Gateway P T → AsyncToolRunManager → Text → Text → Text → CommandResponse
  unfolding status_of
  status_command_response tail self runs agent_id scope_key session_key =
      status_of agent_id scope_key session_key (list_for_session tail runs agent_id session_key)
        (Dict.get self.agents agent_id)

  unfoldable pub tools_command_response :
      (RegisteredTool P ToolRunOutput → ToolDefinition) → Gateway P T → Text → CommandResponse
  unfolding tools_of
  tools_command_response definition self agent_id =
      tools_of definition agent_id (Dict.get self.agents agent_id)
