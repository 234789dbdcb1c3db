-- ===== src/Channels.antt =====
-- src/channels/types.rs and `GatewayChannelKind` of src/config/gateway.rs: the messages that pass
-- between the channels, the gateway and the turns.
use simple_claw.Base.{Text, Option, Bool}

pub data GatewayChannelKind : Type 0 where
  discord : GatewayChannelKind

pub record ChannelInbound : Type 0 where
  pub message_id : Text
  pub channel_id : Text
  pub guild_id : Option Text
  pub is_dm : Bool
  pub user_id : Text
  pub username : Text
  pub mentioned_bot : Bool
  pub content : Text

pub record InboundMessage : Type 0 where
  pub trace_id : Text
  pub source_channel : GatewayChannelKind
  pub target_agent_id : Text
  pub session_key : Text
  pub source_message_id : Option Text
  pub channel_id : Text
  pub guild_id : Option Text
  pub is_dm : Bool
  pub user_id : Text
  pub username : Text
  pub mentioned_bot : Bool
  pub invoke : Bool
  pub content : Text
