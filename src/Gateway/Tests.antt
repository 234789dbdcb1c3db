-- ===== src/Gateway/Tests.antt =====
-- A gateway with one agent and its background runs, and the theorems applied to it.
use simple_claw.Base.{
  ℕ, ◌≡◌, ◌⊎◌, refl, arith, Text, lit, [], ◌∷◌, none, some, true, false, text_discrete, trim,
}
use simple_claw.Base.Dict
use simple_claw.Base.Dict.{Dict}
use simple_claw.Error.{ok, tool}
use simple_claw.Channels.{discord, ChannelInbound}
use simple_claw.Routing.{InboundPolicyConfig, resolve_route, resolve, allows_user}
use simple_claw.Session.{no_faults, build_session_scope_key, format_session_id, current_or_create}
use simple_claw.Tools.{RegisteredTool, tool_name}
use simple_claw.Runs.{AsyncToolRunEntry, running, process, delegated, Killing, kill}
use simple_claw.Runs.Manager.{AsyncToolRunManager}
use simple_claw.Agent.{ToolDefinition, ToolRunOutput}
use simple_claw.Gateway.{status, stop, ChannelCommandKind, ChannelCommand, Gateway, Outside}
use simple_claw.Gateway.Commands.{
  execute_command, resolve_command_target, stop_command_response, stored,
}
use simple_claw.Gateway.Inbound.{route_inbound, inbound_message}
use simple_claw.Gateway.Stopping.{stopped, on_some, AllRefused, stop_command_response-get}
use simple_claw.Gateway.Owners.{ByOwner, Untouched, execute_command-owned}
use simple_claw.Gateway.Sessions.{command_after, resolve_command_target-route_inbound}

abbrev killing : Killing
killing = record { now = 11; kill_error = λ pid. none }

-- No other task acts, and nothing fails.
abbrev quiet : Outside ℕ
quiet = record {
  resolve_faults = no_faults;
  resolved_at = [];
  rotate_faults = no_faults;
  rotated_at = [];
  tail = λ path bytes. path;
  killing = λ id. killing;
  before_rotate = λ s. s;
  before_remove = λ s. s;
  before_list = λ m. m;
  before_kill = λ id m. m;
}

-- A run of the agent 97 in the session 115, as a process and as a delegated one.
abbrev process_run : AsyncToolRunEntry
process_run = record {
  tool_name = 116 ∷ [];
  kind = process;
  summary = 99 ∷ [];
  agent_id = 97 ∷ [];
  session_key = 115 ∷ [];
  status = running;
  started_at = 5;
  finished_at = none;
  claimed = false;
  process_state = some (record {
    command = 99 ∷ [];
    pid = some 7;
    stdout_path = 111 ∷ [];
    stderr_path = 101 ∷ [];
    exit_code = none;
  });
  delegated_state = none;
}

abbrev delegated_run : AsyncToolRunEntry
delegated_run = record process_run {
  kind = delegated;
  process_state = none;
  delegated_state = some (record { request = 99 ∷ []; reply = none; error = none });
}

abbrev both : AsyncToolRunManager
both = record { runs = (1 ∷ [], process_run) ∷ (2 ∷ [], delegated_run) ∷ []; counter = 3 }

stop_command_response-get_example :
    Dict.get (stop_command_response quiet both (97 ∷ []) (115 ∷ [])).1.runs (1 ∷ [])
    ≡ on_some (stopped killing (97 ∷ []) (115 ∷ [])) (some process_run)
unfolding Dict.get text_discrete
stop_command_response-get_example =
    stop_command_response-get quiet both (97 ∷ []) (115 ∷ []) (1 ∷ []) (λ j n. refl)

abbrev waiting : AsyncToolRunManager
waiting = record { runs = (2 ∷ [], delegated_run) ∷ []; counter = 3 }

waiting-AllRefused : AllRefused (λ id. killing) waiting.runs (97 ∷ []) (115 ∷ [])
unfolding Dict.get kill
waiting-AllRefused id e there mine live =
    (tool (lit "background run kind does not support kill"), ground arith)

abbrev unset : InboundPolicyConfig
unset = record { agent = none; allow_from = none; require_mentions = none }

-- A gateway whose agent `default` belongs to the user 117.
abbrev gateway : Gateway Unit ℕ
gateway = record {
  agents =
      (
        lit "default",
        record {
          agent_name = 65 ∷ [];
          owner_ids = (117 ∷ []) ∷ [];
          tool_registry = record { ordered = []; by_name = [] };
        },
      )
      ∷ [];
  inbound_policy = record { defaults = unset; channels = λ _. none };
  session_store = record { active_sessions = [] };
  session_coordinator = record { workers = []; next_worker_id = 1; tasks = λ _. none };
  async_tool_runs = both;
}

abbrev definition : RegisteredTool Unit ToolRunOutput → ToolDefinition
definition t = record { name = tool_name t; description = []; input_schema_json = [] }

abbrev message : ChannelInbound
message = record {
  message_id = 109 ∷ [];
  channel_id = 99 ∷ [];
  guild_id = none;
  is_dm = true;
  user_id = 117 ∷ [];
  username = 110 ∷ [];
  mentioned_bot = false;
  content = 104 ∷ [];
}

abbrev command : ChannelCommandKind → Text → ChannelCommand
command kind user = record (command_after kind discord message) { user_id = user }

execute_command-owned_example :
    ByOwner definition quiet gateway (command stop (118 ∷ []))
    ⊎ Untouched definition quiet gateway
        (command stop (118 ∷ []))
        (execute_command definition quiet gateway (command stop (118 ∷ []))).1
execute_command-owned_example =
    execute_command-owned definition quiet gateway (command stop (118 ∷ []))

abbrev scope : Text
scope = build_session_scope_key (lit "default") true discord (99 ∷ [])

resolve_command_target-route_inbound_example :
    (resolve_command_target quiet
      (stored gateway
        (route_inbound no_faults [] [] discord message gateway.inbound_policy
          gateway.session_store).1)
      (command_after status discord message)).0
    ≡ ok (some (lit "default", scope, format_session_id scope 1))
unfolding route_inbound current_or_create Dict.get resolve_route resolve allows_user lit trim
    text_discrete
resolve_command_target-route_inbound_example =
    resolve_command_target-route_inbound quiet gateway no_faults [] [] discord message status
      (inbound_message [] discord message (lit "default") true (format_session_id scope 1))
      (route_inbound no_faults [] [] discord message gateway.inbound_policy gateway.session_store).1
      refl refl
