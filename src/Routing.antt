-- ===== src/Routing.antt =====
-- src/config/routing.rs, src/channels/policy.rs, src/gateway/policy.rs and `resolve_route` of
-- src/gateway/router.rs: which agent an inbound message goes to, and whether it is invoked.
-- A `HashMap` keyed by `GatewayChannelKind` is a function; the others are dictionaries.
pub mod Precedence
pub mod Admission
mod Tests
use simple_claw.Base.{
  Text, List, Option, none, some, Bool, true, false, not, ◌&&◌, ◌||◌, any, ◌==◌, lit, trim,
  if◌then◌else◌,
}
use simple_claw.Base.Dict
use simple_claw.Base.Dict.{Dict}
use simple_claw.Channels.{GatewayChannelKind, discord, ChannelInbound}

pub record InboundPolicyConfig : Type 0 where
  pub agent : Option Text
  pub allow_from : Option (List Text)
  pub require_mentions : Option Bool

pub record WorkspaceRoutingConfig : Type 0 where
  pub defaults : InboundPolicyConfig
  pub channels : Dict InboundPolicyConfig

pub record ChannelRoutingConfig : Type 0 where
  pub defaults : InboundPolicyConfig
  pub dm : InboundPolicyConfig
  pub workspaces : Dict WorkspaceRoutingConfig

pub record RoutingConfig : Type 0 where
  pub defaults : InboundPolicyConfig
  pub channels : GatewayChannelKind → Option ChannelRoutingConfig

pub record InboundPolicy : Type 0 where
  pub agent : Text
  pub allow_from : Option (List Text)
  pub require_mentions : Bool

abbrev pub default_agent_id : Text
default_agent_id = lit "default"

-- `if let Some(v) = lower { self = Some(v) }`
abbrev pub override {ℓ} : {A : Type ℓ} → Option A → Option A → Option A
override upper none = upper
override upper (some v) = some v

abbrev pub unwrap_or {ℓ} : {A : Type ℓ} → Option A → A → A
unwrap_or none d = d
unwrap_or (some a) d = a

pub apply_override : InboundPolicyConfig → InboundPolicyConfig → InboundPolicyConfig
apply_override self lower = record {
  agent = override self.agent lower.agent;
  allow_from = override self.allow_from lower.allow_from;
  require_mentions = override self.require_mentions lower.require_mentions;
}

pub finalize : InboundPolicyConfig → Bool → InboundPolicy
finalize self is_dm = record {
  agent = unwrap_or self.agent default_agent_id;
  allow_from = self.allow_from;
  require_mentions = if is_dm then false else unwrap_or self.require_mentions false;
}

-- `workspace_id.and_then(|id| channel_scope.workspaces.get(id))`
pub find_workspace : ChannelRoutingConfig → Option Text → Option WorkspaceRoutingConfig
find_workspace scope none = none
find_workspace scope (some id) = Dict.get scope.workspaces id

apply_channel : InboundPolicyConfig → Option InboundPolicyConfig → InboundPolicyConfig
unfolding apply_override
apply_channel effective none = effective
apply_channel effective (some channel) = apply_override effective channel

apply_workspace : InboundPolicyConfig → Option WorkspaceRoutingConfig → Text → InboundPolicyConfig
unfolding apply_override apply_channel
apply_workspace effective none channel_id = effective
apply_workspace effective (some workspace) channel_id =
    apply_channel (apply_override effective workspace.defaults)
      (Dict.get workspace.channels channel_id)

resolve_scope :
    InboundPolicyConfig → Option ChannelRoutingConfig → Option Text → Text → Bool → InboundPolicy
unfolding apply_override apply_workspace find_workspace finalize
resolve_scope effective none workspace_id channel_id is_dm =
    if is_dm then finalize effective true else finalize effective false
resolve_scope effective (some scope) workspace_id channel_id is_dm =
    let effective' = apply_override effective scope.defaults in
    if is_dm
    then finalize (apply_override effective' scope.dm) true
    else finalize (apply_workspace effective' (find_workspace scope workspace_id) channel_id) false

unfoldable pub resolve :
    RoutingConfig → GatewayChannelKind → Option Text → Text → Bool → InboundPolicy
unfolding resolve_scope
resolve self source_channel workspace_id channel_id is_dm =
    resolve_scope self.defaults (self.channels source_channel) workspace_id channel_id is_dm

allowed_by : Option (List Text) → Text → Bool
allowed_by none user_id = true
allowed_by (some ids) user_id = any (λ id. id == user_id) ids

unfoldable pub allows_user : InboundPolicy → Text → Bool
unfolding allowed_by
allows_user self user_id = allowed_by self.allow_from user_id

pub data InboundDecision : Type 0 where
  drop : InboundDecision
  context_only : Text → InboundDecision
  invoke : Text → InboundDecision

pub record InboundPolicyContext : Type 0 where
  pub source_channel : GatewayChannelKind
  pub workspace_id : Option Text
  pub channel_id : Text
  pub is_dm : Bool
  pub user_id : Text
  pub mentioned_bot : Bool

pub classify_inbound : RoutingConfig → InboundPolicyContext → InboundDecision
classify_inbound inbound_policy context =
    let policy =
      resolve inbound_policy context.source_channel context.workspace_id context.channel_id
        context.is_dm in
    let agent_id = trim policy.agent in
    let allow_invoke =
      allows_user policy context.user_id
      && (not policy.require_mentions || context.mentioned_bot) in
    if allow_invoke then invoke agent_id else if context.is_dm then drop else context_only agent_id

pub evaluate_inbound_policy : GatewayChannelKind → ChannelInbound → RoutingConfig → InboundDecision
unfolding classify_inbound
evaluate_inbound_policy kind inbound inbound_policy = classify_inbound inbound_policy (record {
  source_channel = kind;
  workspace_id = inbound.guild_id;
  channel_id = inbound.channel_id;
  is_dm = inbound.is_dm;
  user_id = inbound.user_id;
  mentioned_bot = inbound.mentioned_bot;
})

abbrev route_of : InboundDecision → Option (Text × Bool)
route_of drop = none
route_of (context_only agent_id) = some (agent_id, false)
route_of (invoke agent_id) = some (agent_id, true)

unfoldable pub resolve_route :
    GatewayChannelKind → ChannelInbound → RoutingConfig → Option (Text × Bool)
unfolding evaluate_inbound_policy
resolve_route kind inbound inbound_policy =
    route_of (evaluate_inbound_policy kind inbound inbound_policy)
