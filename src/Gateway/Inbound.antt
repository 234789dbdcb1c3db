-- ===== src/Gateway/Inbound.antt =====
-- `route_inbound` of src/gateway/router.rs.
use simple_claw.Base.{Text, Option, none, some, Bool}
use simple_claw.Error.{Result, ok, err}
use simple_claw.Channels.{GatewayChannelKind, ChannelInbound, InboundMessage}
use simple_claw.Routing.{RoutingConfig, resolve_route}
use simple_claw.Session.{SessionStore, Faults, build_session_scope_key, current_or_create}

-- The message for the agent, under the key of its session.
unfoldable pub inbound_message :
    Text → GatewayChannelKind → ChannelInbound → Text → Bool → Text → InboundMessage
inbound_message trace_id kind inbound target_agent_id invoke session_key = record {
  trace_id = trace_id;
  source_channel = kind;
  target_agent_id = target_agent_id;
  session_key = session_key;
  source_message_id = some inbound.message_id;
  channel_id = inbound.channel_id;
  guild_id = inbound.guild_id;
  is_dm = inbound.is_dm;
  user_id = inbound.user_id;
  username = inbound.username;
  mentioned_bot = inbound.mentioned_bot;
  invoke = invoke;
  content = inbound.content;
}

keyed :
    Text
    → GatewayChannelKind
    → ChannelInbound
    → Text
    → Bool
    → Result Text × SessionStore
    → Result (Option InboundMessage) × SessionStore
unfolding inbound_message
keyed trace_id kind inbound target_agent_id invoke (err e, store) = (err e, store)
keyed trace_id kind inbound target_agent_id invoke (ok session_key, store) =
    (ok (some (inbound_message trace_id kind inbound target_agent_id invoke session_key)), store)

routed :
    Faults
    → Text
    → Text
    → GatewayChannelKind
    → ChannelInbound
    → SessionStore
    → Option (Text × Bool)
    → Result (Option InboundMessage) × SessionStore
unfolding keyed
routed faults now trace_id kind inbound store none = (ok none, store)
routed faults now trace_id kind inbound store (some (target_agent_id, invoke)) =
    keyed trace_id kind inbound target_agent_id invoke (
      current_or_create faults now store
        (build_session_scope_key target_agent_id inbound.is_dm kind inbound.channel_id))

-- The instant and the trace id are inputs, as are the faults of the database.
unfoldable pub route_inbound :
    Faults
    → Text
    → Text
    → GatewayChannelKind
    → ChannelInbound
    → RoutingConfig
    → SessionStore
    → Result (Option InboundMessage) × SessionStore
unfolding routed
route_inbound faults now trace_id kind inbound inbound_policy session_store =
    routed faults now trace_id kind inbound session_store
      (resolve_route kind inbound inbound_policy)
