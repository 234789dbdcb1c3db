-- ===== src/Approval/Tests.antt =====
-- Runs of the approval registry, and the theorems at concrete inputs.
use simple_claw.Base.{
  Text, ◌≡◌, refl, [], ◌∷◌, List, In, inl, none, some, true, false, lit, text_discrete, show,
}
use simple_claw.Base.Dict
use simple_claw.Channels.{discord, InboundMessage}
use simple_claw.Error.{read, capability_as_str, provider, ok, err}
use simple_claw.Approval.{
  approved, denied, ApprovalRequest, ApprovalRegistry, PendingApprovalRequest, value, elapsed, new,
  register, resolve, wait_for_decision, pending_request, Surroundings, approval_id_of,
}
use simple_claw.Approval.Trace.{Event, registers, resolves, waited, start, run, run-justified}

-- The request of the unit tests.
abbrev request : ApprovalRequest
request = record {
  agent_id = lit "agent-1";
  agent_name = lit "Agent One";
  session_id = lit "sess-1";
  requesting_user_id = lit "user-1";
  tool_name = lit "read";
  execution_kind = lit "preflight_escalation";
  capability = read;
  reason = lit "outside sandbox";
  action_summary = lit "/tmp/secret.txt";
  diagnostic = lit "blocked";
}

abbrev routed : PendingApprovalRequest
routed = record {
  approval_id = lit "approval-1";
  agent_id = lit "agent-1";
  agent_name = lit "Agent One";
  session_id = lit "sess-1";
  requesting_user_id = lit "user-1";
  tool_name = lit "read";
  execution_kind = lit "preflight_escalation";
  capability = lit "read";
  reason = lit "outside sandbox";
  action_summary = lit "/tmp/secret.txt";
  diagnostic = lit "blocked";
}

abbrev registered : ApprovalRegistry
registered = (register new request).1

abbrev id : Text
id = lit "approval-1"

runs : Unit {0}
unfolding register resolve wait_for_decision pending_request new approval_id_of capability_as_str
    show lit text_discrete Dict.get Dict.insert Dict.remove
runs = tt

-- `resolve_accepts_requesting_user` and `resolve_rejects_non_requesting_user_without_consuming_request`
resolutions :
    ((register new request).0.0 ≡ routed)
    × ((resolve registered id (lit "user-1") approved).accepted ≡ true)
    × ((resolve registered id (lit "user-1") approved).sent ≡ some (0, approved))
    × ((resolve registered id (lit "other-user") approved).accepted ≡ false)
    × (pending_request (resolve registered id (lit "other-user") approved).registry id
        ≡ some routed)
unfolding runs
resolutions = (refl, refl, refl, refl, refl)

abbrev inbound : InboundMessage
inbound = record {
  trace_id = lit "trace-1";
  source_channel = discord;
  target_agent_id = lit "default";
  session_key = lit "agent:default:discord:chan-1";
  source_message_id = some (lit "msg-1");
  channel_id = lit "chan-1";
  guild_id = none;
  is_dm = true;
  user_id = lit "user-1";
  username = lit "kaleb";
  mentioned_bot = false;
  invoke = true;
  content = lit "run it";
}

abbrev prompted : Surroundings
prompted = record {
  send_approval_request = λ _ _. ok (some (lit "approval-message-1"));
  during = λ r. r;
  received = elapsed;
}

abbrev unreachable : Surroundings
unreachable = record {
  send_approval_request = λ _ _. err (provider (lit "offline"));
  during = λ r. r;
  received = elapsed;
}

abbrev events : List Event
events =
    registers request
    ∷ resolves id (lit "other-user") approved
    ∷ resolves id (lit "user-1") denied
    ∷ waited id (value denied)
    ∷ []

run-justified_example :
    In
      (record { approval_id = id; user_id = lit "user-1"; decision = denied })
      (run start events).resolutions
unfolding run runs
run-justified_example = run-justified events 0 routed denied (inl refl) (inl refl)
