-- ===== src/Routing/Admission.antt =====
-- Who may invoke the agent, and which messages are dropped.
use simple_claw.Base.{
  Text, ◌≡◌, refl, ◌↔◌, ◌⊎◌, List, [], ◌∷◌, Option, none, some, true, false, arith, any, ◌==◌, trim,
  Bool, Bool-cases, inl, inr,
}
use simple_claw.Channels.{GatewayChannelKind, ChannelInbound}
use simple_claw.Routing.Precedence.{layers, setting, resolve-eq-setting}
use simple_claw.Routing.{
  InboundPolicyConfig, RoutingConfig, allowed_by, allows_user, unwrap_or, default_agent_id,
  InboundPolicyContext, invoke, classify_inbound, resolve_route, resolve,
}

-- The user is on the list, or there is no list.
abbrev pub OnList : Text → List Text → Type 0
OnList user [] = ⊥
OnList user (id ∷ ids) = (id ≡ user) ⊎ OnList user ids

abbrev pub IsAllowed : Option (List Text) → Text → Type 0
IsAllowed none user = Unit
IsAllowed (some ids) user = OnList user ids

any-OnList : (user : Text) (ids : List Text) → any (λ id. id == user) ids ≡ true → OnList user ids
any-OnList user [] h = cc
any-OnList user (id ∷ ids) h = ground (arith, any-OnList user ids)

OnList-any : (user : Text) (ids : List Text) → OnList user ids → any (λ id. id == user) ids ≡ true
OnList-any user [] h = absurd h
OnList-any user (id ∷ ids) h = ground (arith, OnList-any user ids)

allowed_by_iff :
    (o : Option (List Text)) (user : Text) → (allowed_by o user ≡ true) ↔ IsAllowed o user
unfolding allowed_by
allowed_by_iff none user = (λ _. tt, λ _. refl)
allowed_by_iff (some ids) user = (any-OnList user ids, OnList-any user ids)

-- The settings that apply to a message, by the layers of the configuration.
module _ (r : RoutingConfig) (c : InboundPolicyContext) where
  abbrev applied : List InboundPolicyConfig
  applied = layers r c.source_channel c.workspace_id c.channel_id c.is_dm

  abbrev pub MayInvoke : Type 0
  MayInvoke =
      IsAllowed (setting (λ l. l.allow_from) applied) c.user_id
      × ((c.is_dm ≡ true)
          ⊎ (unwrap_or (setting (λ l. l.require_mentions) applied) false ≡ false)
          ⊎ (c.mentioned_bot ≡ true))

  abbrev pub agent_for : Text
  agent_for = trim (unwrap_or (setting (λ l. l.agent) applied) default_agent_id)

-- A message invokes an agent exactly when the most specific allow list, if there is one, has its
-- user and, outside direct messages, a required mention is there; the agent is the trimmed name of
-- the most specific layer that names one.
pub classify_inbound-eq-invoke_iff :
    (r : RoutingConfig) (c : InboundPolicyContext) (agent : Text)
    → (classify_inbound r c ≡ invoke agent) ↔ (MayInvoke r c × (agent_for r c ≡ agent))
unfolding classify_inbound allows_user
classify_inbound-eq-invoke_iff r c agent = rw resolve-eq-setting (
    ground (
      arith,
      allowed_by_iff
          (setting (λ l. l.allow_from)
            (layers r c.source_channel c.workspace_id c.channel_id c.is_dm))
          c.user_id,
    ))

-- A message is dropped exactly when it is a direct message of a user who is not on the most
-- specific allow list; every other message reaches an agent, if only as context.
pub resolve_route-eq-none_iff :
    (r : RoutingConfig) (kind : GatewayChannelKind) (m : ChannelInbound)
    → (resolve_route kind m r ≡ none) ↔ (
        (m.is_dm ≡ true)
        × (¬ IsAllowed
            (setting (λ l. l.allow_from) (layers r kind m.guild_id m.channel_id m.is_dm))
            m.user_id))
unfolding resolve_route classify_inbound allows_user
resolve_route-eq-none_iff r kind m = rw resolve-eq-setting (
    ground (
      arith,
      allowed_by_iff (setting (λ l. l.allow_from) (layers r kind m.guild_id m.channel_id m.is_dm))
          m.user_id,
    ))

-- A message that mentions the bot reaches the agent that it would reach without.
pub resolve_route-mentioned :
    (r : RoutingConfig) (kind : GatewayChannelKind) (m : ChannelInbound)
    (message_id username content agent : Text) (invokes : Bool)
    → resolve_route kind m r ≡ some (agent, invokes)
    → (i : Bool) × (resolve_route kind
          (record m {
            mentioned_bot = true;
            message_id = message_id;
            username = username;
            content = content;
          })
          r
        ≡ some (agent, i))
unfolding resolve_route classify_inbound
resolve_route-mentioned r kind m message_id username content agent invokes h =
    elim (Bool-cases (allows_user (resolve r kind m.guild_id m.channel_id m.is_dm) m.user_id)) [
      | inl e ↦ (true, ground arith)
      | inr e ↦ (false, ground arith)
    ]
