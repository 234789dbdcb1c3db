-- ===== src/Routing/Precedence.antt =====
-- Which layer of the routing configuration decides each field of the effective policy.
use simple_claw.Base.{
  Text, ◌≡◌, List, [], ◌∷◌, ◌++◌, Option, none, some, Bool, true, false, arith, if◌then◌else◌,
}
use simple_claw.Base.Dict
use simple_claw.Channels.{GatewayChannelKind}
use simple_claw.Routing.{
  InboundPolicyConfig, WorkspaceRoutingConfig, ChannelRoutingConfig, RoutingConfig,
  default_agent_id, unwrap_or, find_workspace, resolve,
}

channel_layers : Option InboundPolicyConfig → List InboundPolicyConfig
channel_layers none = []
channel_layers (some c) = c ∷ []

workspace_layers : Option WorkspaceRoutingConfig → Text → List InboundPolicyConfig
unfolding channel_layers
workspace_layers none channel_id = []
workspace_layers (some w) channel_id =
    channel_layers (Dict.get w.channels channel_id) ++ w.defaults ∷ []

scope_layers : Option ChannelRoutingConfig → Option Text → Text → Bool → List InboundPolicyConfig
unfolding workspace_layers
scope_layers none workspace_id channel_id is_dm = []
scope_layers (some s) workspace_id channel_id true = s.dm ∷ s.defaults ∷ []
scope_layers (some s) workspace_id channel_id false =
    workspace_layers (find_workspace s workspace_id) channel_id ++ s.defaults ∷ []

-- The layers that apply, the most specific one first: for a direct message those of its channel
-- kind, else the channel's, the workspace's and the channel kind's; the global one is the last.
unfoldable pub layers :
    RoutingConfig → GatewayChannelKind → Option Text → Text → Bool → List InboundPolicyConfig
unfolding scope_layers
layers r kind workspace_id channel_id is_dm =
    scope_layers (r.channels kind) workspace_id channel_id is_dm ++ r.defaults ∷ []

module _ {ℓ} {A : Type ℓ} (f : InboundPolicyConfig → Option A) where
  abbrev pub setting : List InboundPolicyConfig → Option A
  setting [] = none
  setting (c ∷ cs) = elim (f c) [ none ↦ setting cs | some a ↦ some a ]

-- The effective policy takes each field from the most specific layer that sets it, with the default
-- agent, no allow list and no mention requirement where no layer does; a direct message never
-- requires a mention.
pub resolve-eq-setting :
    (r : RoutingConfig) (kind : GatewayChannelKind) (workspace_id : Option Text) (channel_id : Text)
    (is_dm : Bool)
    → resolve r kind workspace_id channel_id is_dm ≡ (
        let ls = layers r kind workspace_id channel_id is_dm in
        record {
          agent = unwrap_or (setting (λ c. c.agent) ls) default_agent_id;
          allow_from = setting (λ c. c.allow_from) ls;
          require_mentions =
              if is_dm then false else unwrap_or (setting (λ c. c.require_mentions) ls) false;
        })
unfolding resolve layers
resolve-eq-setting r kind workspace_id channel_id is_dm = ground arith
