-- ===== src/Gateway/Owners.antt =====
-- Who may change what by a command, and how commands are answered.
use simple_claw.Base.{
  ◌≡◌, refl, ◌⊎◌, inl, inr, Text, some, Bool, arith, In, Bool-cases, Option-cases,
}
use simple_claw.Base.Dict
use simple_claw.Base.Dict.{get-insert}
use simple_claw.Error.{Result-cases}
use simple_claw.Routing.{resolve_route}
use simple_claw.Session.{
  SessionStore, SessionRow, Faults, build_session_scope_key, format_session_id, current_or_create,
}
use simple_claw.Tools.{RegisteredTool, owner_allowed}
use simple_claw.Tools.Owners.{owner_allowed-In}
use simple_claw.Agent.{ToolDefinition, ToolRunOutput}
use simple_claw.Gateway.{ChannelCommand, AgentRuntimeConfig, Gateway, Outside}
use simple_claw.Gateway.Commands.{command_inbound, resolve_command_target, execute_command, stored}

-- The rows of a store are all in the other one.
abbrev pub RowsKept : SessionStore → SessionStore → Type 0
RowsKept before after =
    (k : Text) (row : SessionRow)
    → Dict.get before.active_sessions k ≡ some row
    → Dict.get after.active_sessions k ≡ some row

pub current_or_create-RowsKept :
    (faults : Faults) (now : Text) (store : SessionStore) (scope : Text)
    → RowsKept store (current_or_create faults now store scope).1
unfolding current_or_create
current_or_create-RowsKept faults now store scope k row h = ground (
  arith,
  get-insert store.active_sessions scope k (record {
    active_session_id = format_session_id scope 1;
    active_sequence = 1;
    updated_at = now;
  }),
)

module _ {P T : Type 0} (definition : RegisteredTool P ToolRunOutput → ToolDefinition)
    (outside : Outside T) (self : Gateway P T) (cmd : ChannelCommand) where
  -- The user owns the agent that the command is for.
  abbrev pub ByOwner : Type 0
  ByOwner =
      (agent : Text) × (invoke : Bool) × (config : AgentRuntimeConfig P) × (resolve_route cmd.source
          (command_inbound cmd) self.inbound_policy
        ≡ some (agent, invoke))
      × (Dict.get self.agents agent ≡ some config)
      × In cmd.user_id config.owner_ids

  -- Workers and background runs are the same, and no session was replaced.
  abbrev pub Untouched : Gateway P T → Type 0
  Untouched after =
      (after.session_coordinator ≡ self.session_coordinator)
      × (after.async_tool_runs ≡ self.async_tool_runs)
      × RowsKept self.session_store after.session_store

  -- A command of a user who does not own the agent that it is for leaves the workers and the background
  -- runs as they are, and keeps every session that is stored.
  pub execute_command-owned : ByOwner ⊎ Untouched (execute_command definition outside self cmd).1
  unfolding execute_command resolve_command_target stored
  execute_command-owned =
      elim (Option-cases (resolve_route cmd.source (command_inbound cmd) self.inbound_policy)) [
        | inl e ↦ inr (rw e (refl, refl, λ k row h. h))
        | inr ((agent, invoke), e) ↦
            let scope = build_session_scope_key agent cmd.is_dm cmd.source cmd.channel_id in
            let called =
              current_or_create outside.resolve_faults outside.resolved_at self.session_store
                scope in
            let kept =
              current_or_create-RowsKept outside.resolve_faults outside.resolved_at
                self.session_store scope in
            elim (Result-cases called.0) [
              | inl (key, there) ↦ elim (Option-cases (Dict.get self.agents agent)) [
                | inl unknown ↦ inr (rw (e, there, unknown) (refl, refl, kept))
                | inr (config, found) ↦
                    elim (Bool-cases (owner_allowed cmd.user_id config.owner_ids)) [
                      | inl may ↦ inl (
                        agent,
                        invoke,
                        config,
                        e,
                        found,
                        owner_allowed-In cmd.user_id config.owner_ids may,
                      )
                      | inr may_not ↦ inr (rw (e, there, found, may_not) (refl, refl, kept))
                    ]
              ]
              | inr (x, failed) ↦ inr (rw (e, failed) (refl, refl, kept))
            ]
      ]
