-- ===== src/Routing/Tests.antt =====
-- Runs of the routing code, and the theorems at concrete inputs.
use simple_claw.Base.{
  Text, ◌≡◌, refl, ◌↔◌, [], ◌∷◌, none, some, Bool, true, false, lit, text_discrete, trim,
}
use simple_claw.Base.Dict
use simple_claw.Channels.{discord, ChannelInbound}
use simple_claw.Routing.{
  InboundPolicyConfig, RoutingConfig, InboundPolicyContext, allows_user, resolve, classify_inbound,
  resolve_route, invoke, context_only, unwrap_or, default_agent_id,
}
use simple_claw.Routing.Precedence.{layers, setting, resolve-eq-setting}
use simple_claw.Routing.Admission.{MayInvoke, agent_for, classify_inbound-eq-invoke_iff}

abbrev unset : InboundPolicyConfig
unset = record { agent = none; allow_from = none; require_mentions = none }

-- The configuration of the test `channel_override_takes_precedence`.
abbrev nested : RoutingConfig
nested = record {
  defaults = record {
    agent = some (lit "default");
    allow_from = some (lit "1" ∷ []);
    require_mentions = some true;
  };
  channels = λ _. some (record {
    defaults = record {
      agent = some (lit "reviewer");
      allow_from = some (lit "2" ∷ []);
      require_mentions = some true;
    };
    dm = unset;
    workspaces =
        (
          lit "10",
          record {
            defaults = unset;
            channels =
                (
                  lit "20",
                  record {
                    agent = some (lit " researcher ");
                    allow_from = some (lit "3" ∷ []);
                    require_mentions = some false;
                  },
                )
                ∷ [];
          },
        )
        ∷ [];
  });
}

abbrev at_channel : Bool → Text → InboundPolicyContext
at_channel is_dm user_id = record {
  source_channel = discord;
  workspace_id = some (lit "10");
  channel_id = lit "20";
  is_dm = is_dm;
  user_id = user_id;
  mentioned_bot = false;
}

abbrev message : Bool → Text → ChannelInbound
message is_dm user_id = record {
  message_id = lit "m";
  channel_id = lit "20";
  guild_id = some (lit "10");
  is_dm = is_dm;
  user_id = user_id;
  username = lit "ann";
  mentioned_bot = false;
  content = lit "hello";
}

runs :
    (classify_inbound nested (at_channel false (lit "3")) ≡ invoke (lit "researcher"))
    × (classify_inbound nested (at_channel false (lit "2")) ≡ context_only (lit "researcher"))
    × (resolve_route discord (message true (lit "3")) nested ≡ none)
    × (resolve_route discord (message true (lit "2")) nested ≡ some (lit "reviewer", true))
unfolding classify_inbound resolve_route allows_user resolve Dict.get trim lit text_discrete
runs = (refl, refl, refl, refl)

resolve-eq-setting_example : resolve nested discord (some (lit "10")) (lit "20") false ≡ (
    let ls = layers nested discord (some (lit "10")) (lit "20") false in
    record {
      agent = unwrap_or (setting (λ c. c.agent) ls) default_agent_id;
      allow_from = setting (λ c. c.allow_from) ls;
      require_mentions = unwrap_or (setting (λ c. c.require_mentions) ls) false;
    })
resolve-eq-setting_example = resolve-eq-setting nested discord (some (lit "10")) (lit "20") false

classify_inbound-eq-invoke_iff_example :
    (classify_inbound nested (at_channel false (lit "3")) ≡ invoke (lit "researcher")) ↔ (
      MayInvoke nested (at_channel false (lit "3"))
      × (agent_for nested (at_channel false (lit "3")) ≡ lit "researcher"))
classify_inbound-eq-invoke_iff_example =
    classify_inbound-eq-invoke_iff nested (at_channel false (lit "3")) (lit "researcher")
