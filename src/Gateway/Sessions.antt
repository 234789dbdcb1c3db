-- ===== src/Gateway/Sessions.antt =====
-- The sessions that messages and commands reach, and what the command for a new session does.
use simple_claw.Base.{
  ◌≡◌, refl, inl, inr, ℕ, ◌+◌, ◌<◌, ◌^◌, Text, lit, ◌++◌, none, some, Bool, true, arith,
  Option-cases,
}
use simple_claw.Base.Dict
use simple_claw.Base.Dict.{get-insert, get-remove_self}
use simple_claw.Error.{ok, Result-cases}
use simple_claw.Channels.{GatewayChannelKind, ChannelInbound, InboundMessage}
use simple_claw.Routing.{resolve_route}
use simple_claw.Session.{
  SessionStore, Faults, no_faults, build_session_scope_key, format_session_id, current_or_create,
  rotate,
}
use simple_claw.Routing.Admission.{resolve_route-mentioned}
use simple_claw.Session.Rotation.{HasRotated}
use simple_claw.Workers.{remove}
use simple_claw.Tools.{RegisteredTool, owner_allowed}
use simple_claw.Agent.{ToolDefinition, ToolRunOutput}
use simple_claw.Gateway.{
  ChannelCommandKind, new_session, ChannelCommand, new_session_response, AgentRuntimeConfig,
  Gateway, Outside,
}
use simple_claw.Gateway.Inbound.{route_inbound}
use simple_claw.Gateway.Commands.{
  command_inbound, resolve_command_target, execute_command, stored, new_session_command,
}

current-HasRotated :
    (now : Text) (s : SessionStore) (k : Text) (n : ℕ)
    → HasRotated s k n
    → ((current_or_create no_faults now s k).0 ≡ ok (format_session_id k (n + 1)))
      × HasRotated (current_or_create no_faults now s k).1 k n
unfolding current_or_create
current-HasRotated now s k n h = grind (arith, get-insert)

rotate-HasRotated :
    (now : Text) (s : SessionStore) (k : Text) (n : ℕ)
    → n + 2 < 2 ^ 63
    → HasRotated s k n
    → ((rotate no_faults now s k).0
        ≡ ok (record {
          previous_session_id = format_session_id k (n + 1);
          session_id = format_session_id k (n + 2);
        }))
      × HasRotated (rotate no_faults now s k).1 k (n + 1)
unfolding rotate
rotate-HasRotated now s k n b h = grind (arith, get-insert)

current-again :
    (f : Faults) (now later : Text) (s : SessionStore) (k key : Text)
    → (current_or_create f now s k).0 ≡ ok key
    → (current_or_create no_faults later (current_or_create f now s k).1 k).0 ≡ ok key
unfolding current_or_create
current-again f now later s k key h = grind (arith, get-insert)

-- The command that a user gives in the channel of a message.
abbrev pub command_after : ChannelCommandKind → GatewayChannelKind → ChannelInbound → ChannelCommand
command_after kind source inbound = record {
  kind = kind;
  source = source;
  channel_id = inbound.channel_id;
  guild_id = inbound.guild_id;
  user_id = inbound.user_id;
  is_dm = inbound.is_dm;
}

module _ {P T : Type 0} (outside : Outside T) where
  -- When a message is routed, a command that its user gives next in the same channel is for the agent
  -- and for the session of the message, as long as the database does not fail for the lookup of the
  -- command.
  pub resolve_command_target-route_inbound :
      (self : Gateway P T) (faults : Faults) (now trace : Text) (source : GatewayChannelKind)
      (inbound : ChannelInbound) (kind : ChannelCommandKind) (message : InboundMessage)
      (store : SessionStore)
      → route_inbound faults now trace source inbound self.inbound_policy self.session_store
        ≡ (ok (some message), store)
      → outside.resolve_faults ≡ no_faults
      → (resolve_command_target outside (stored self store) (command_after kind source inbound)).0
        ≡ ok (
            some (
              message.target_agent_id,
              build_session_scope_key message.target_agent_id inbound.is_dm source
                  inbound.channel_id,
              message.session_key,
            ))
  unfolding route_inbound resolve_command_target stored command_inbound
  resolve_command_target-route_inbound self faults now trace source inbound kind message store h
        quiet =
      elim (Option-cases (resolve_route source inbound self.inbound_policy)) [
        | inl dropped ↦ ground arith
        | inr ((agent, invokes), e) ↦
            let scope = build_session_scope_key agent inbound.is_dm source inbound.channel_id in
            let (i, e') =
              resolve_route-mentioned self.inbound_policy source inbound
                (command_inbound (command_after kind source inbound)).message_id (lit "system")
                (command_inbound (command_after kind source inbound)).content agent invokes e in
            elim (Result-cases (current_or_create faults now self.session_store scope).0) [
              | inl (key, there) ↦
                  let to_agent : agent ≡ message.target_agent_id = ground arith in
                  let under_key : key ≡ message.session_key = ground arith in
                  let in_store : (current_or_create faults now self.session_store scope).1 ≡ store =
                    ground arith in
                  let again =
                    current-again faults now outside.resolved_at self.session_store scope key
                      there in
                  rw (← to_agent, ← under_key, ← in_store, e', quiet, again) refl
              | inr (x, failed) ↦ ground arith
            ]
      ]

module _ {P T : Type 0} (definition : RegisteredTool P ToolRunOutput → ToolDefinition)
    (outside : Outside T) where
  -- When an owner of the agent asks for a new session, the database has no faults, no other task
  -- rotates in between, and the scope has rotated `n` times (fewer than the numbers allow), then the
  -- answer names the next session, the scope has rotated once more, the session before has no worker
  -- in the map any longer, and the background runs are as they were.
  pub execute_command-new_session :
      (self : Gateway P T) (cmd : ChannelCommand) (agent : Text) (invokes : Bool)
      (config : AgentRuntimeConfig P) (n : ℕ)
      → cmd.kind ≡ new_session
      → resolve_route cmd.source (command_inbound cmd) self.inbound_policy ≡ some (agent, invokes)
      → Dict.get self.agents agent ≡ some config
      → owner_allowed cmd.user_id config.owner_ids ≡ true
      → outside.resolve_faults ≡ no_faults
      → outside.rotate_faults ≡ no_faults
      → ((s : SessionStore) → outside.before_rotate s ≡ s)
      → n + 2 < 2 ^ 63
      → let scope = build_session_scope_key agent cmd.is_dm cmd.source cmd.channel_id in
        HasRotated self.session_store scope n
        → let (response, after) = execute_command definition outside self cmd in
          (response
            ≡ new_session_response (
                lit "Started a fresh session for `"
                ++ agent
                ++ lit "`. New session: `"
                ++ format_session_id scope (n + 2)
                ++ lit "`."))
          × HasRotated after.session_store scope (n + 1)
          × (Dict.get after.session_coordinator.workers (format_session_id scope (n + 1)) ≡ none)
          × (after.async_tool_runs ≡ self.async_tool_runs)
  unfolding execute_command resolve_command_target stored new_session_command remove
  execute_command-new_session self cmd agent invokes config n asked route found may quiet quiet'
        alone bound before =
      let scope = build_session_scope_key agent cmd.is_dm cmd.source cmd.channel_id in
      let (key, kept) = current-HasRotated outside.resolved_at self.session_store scope n before in
      let store = (current_or_create no_faults outside.resolved_at self.session_store scope).1 in
      let (next, once_more) = rotate-HasRotated outside.rotated_at store scope n bound kept in
      rw (route, quiet, key, found, may, asked, alone store, quiet', next)
        (refl, once_more, get-remove_self _ (format_session_id scope (n + 1)), refl)
