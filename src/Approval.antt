-- ===== src/Approval.antt =====
-- src/approval.rs: the registry of pending sandbox escalations and the gateway-backed requester.
-- The lock makes each method of the registry one step. A `oneshot` channel is the number of the
-- registration that made it; what its receiver sees is an input (`Received`), and a send is an
-- output.
pub mod Resolution
pub mod Pending
pub mod Trace
mod Tests
use simple_claw.Base.{
  ℕ, ◌+◌, ◌%◌, ◌^◌, Text, List, [], ◌∷◌, ◌++◌, map, Option, none, some, Bool, true, false, show,
  lit, ◌==◌, if◌then◌else◌,
}
use simple_claw.Base.Dict
use simple_claw.Base.Dict.{Dict}
use simple_claw.Channels.{InboundMessage}
use simple_claw.Error.{SandboxCapability, capability_as_str, FrameworkError, tool, Result, ok, err}

pub data ApprovalDecision : Type 0 where
  approved denied timed_out : ApprovalDecision

pub record ApprovalRequest : Type 0 where
  pub agent_id : Text
  pub agent_name : Text
  pub session_id : Text
  pub requesting_user_id : Text
  pub tool_name : Text
  pub execution_kind : Text
  pub capability : SandboxCapability
  pub reason : Text
  pub action_summary : Text
  pub diagnostic : Text

pub record PendingApprovalRequest : Type 0 where
  pub approval_id : Text
  pub agent_id : Text
  pub agent_name : Text
  pub session_id : Text
  pub requesting_user_id : Text
  pub tool_name : Text
  pub execution_kind : Text
  pub capability : Text
  pub reason : Text
  pub action_summary : Text
  pub diagnostic : Text

-- The two ends of a `oneshot` channel, named by the registration that made it.
abbrev pub Sender : Type 0
Sender = ℕ

abbrev pub Receiver : Type 0
Receiver = ℕ

pub record PendingApproval : Type 0 where
  pub request : PendingApprovalRequest
  pub response_tx : Option Sender

-- `next_channel` counts the channels that were made; it is no field of the program's.
pub record ApprovalRegistry : Type 0 where
  pub next_id : ℕ
  pub pending : Dict PendingApproval
  pub next_channel : ℕ

unfoldable pub new : ApprovalRegistry
new = record { next_id = 1; pending = []; next_channel = 0 }

unfoldable pub approval_id_of : ℕ → Text
approval_id_of n = lit "approval-" ++ show n

unfoldable pub route_request : Text → ApprovalRequest → PendingApprovalRequest
route_request approval_id request = record {
  approval_id = approval_id;
  agent_id = request.agent_id;
  agent_name = request.agent_name;
  session_id = request.session_id;
  requesting_user_id = request.requesting_user_id;
  tool_name = request.tool_name;
  execution_kind = request.execution_kind;
  capability = capability_as_str request.capability;
  reason = request.reason;
  action_summary = request.action_summary;
  diagnostic = request.diagnostic;
}

unfoldable pub register :
    ApprovalRegistry → ApprovalRequest → (PendingApprovalRequest × Receiver) × ApprovalRegistry
unfolding route_request
register self request =
    let approval_id = approval_id_of self.next_id in
    let routed = route_request approval_id request in
    let tx = self.next_channel in
    (
      (routed, tx),
      record self {
        next_id = (self.next_id + 1) % 2 ^ 64;
        pending =
            Dict.insert self.pending approval_id
              (record { request = routed; response_tx = some tx });
        next_channel = tx + 1;
      },
    )

-- What `timeout(…, rx)` yields: a value, a sender that was dropped, or the end of the wait.
pub data Received : Type 0 where
  value : ApprovalDecision → Received
  sender_dropped : Received
  elapsed : Received

unfoldable pub decision_of : Received → ApprovalDecision
decision_of (value decision) = decision
decision_of sender_dropped = denied
decision_of elapsed = timed_out

unfoldable pub wait_for_decision :
    ApprovalRegistry → Text → Received → ApprovalDecision × ApprovalRegistry
unfolding decision_of
wait_for_decision self approval_id received =
    (decision_of received, record self { pending = Dict.remove self.pending approval_id })

-- What `resolve` does: whether it is accepted, the send that it makes, and the registry after it.
pub record Resolved : Type 0 where
  pub accepted : Bool
  pub sent : Option (Sender × ApprovalDecision)
  pub registry : ApprovalRegistry

send_on : Option Sender → ApprovalDecision → Option (Sender × ApprovalDecision)
send_on none decision = none
send_on (some tx) decision = some (tx, decision)

resolve_entry :
    ApprovalRegistry → Text → Text → ApprovalDecision → Option PendingApproval → Resolved
unfolding send_on
resolve_entry self approval_id user_id decision none = record {
  accepted = false;
  sent = none;
  registry = self;
}
resolve_entry self approval_id user_id decision (some entry) =
    if entry.request.requesting_user_id == user_id
    then record {
      accepted = true;
      sent = send_on entry.response_tx decision;
      registry = record self { pending = Dict.remove self.pending approval_id };
    }
    else record { accepted = false; sent = none; registry = self }

unfoldable pub resolve : ApprovalRegistry → Text → Text → ApprovalDecision → Resolved
unfolding resolve_entry
resolve self approval_id user_id decision =
    resolve_entry self approval_id user_id decision (Dict.get self.pending approval_id)

unfoldable pub pending_requests : ApprovalRegistry → List PendingApprovalRequest
pending_requests self = map (λ (entry : Text × PendingApproval). entry.1.request) self.pending

abbrev request_of : Option PendingApproval → Option PendingApprovalRequest
request_of none = none
request_of (some p) = some p.request

unfoldable pub pending_request : ApprovalRegistry → Text → Option PendingApprovalRequest
pending_request self approval_id = request_of (Dict.get self.pending approval_id)

-- What `request_approval` takes from outside: the gateway's answer to the prompt, what the other
-- tasks do to the registry during the wait, and what the receiver sees.
pub record Surroundings : Type 0 where
  pub send_approval_request : InboundMessage → PendingApprovalRequest → Result (Option Text)
  pub during : ApprovalRegistry → ApprovalRegistry
  pub received : Received

-- The decision, the registry after it, and the prompt that is deleted (a failure to delete it is
-- only logged).
pub record Requested : Type 0 where
  pub result : Result ApprovalDecision
  pub registry : ApprovalRegistry
  pub deleted : Option Text

expired_prompt : ApprovalDecision → Option Text → Option Text
expired_prompt timed_out message_id = message_id
expired_prompt _ message_id = none

after_prompt :
    Surroundings → ApprovalRegistry → PendingApprovalRequest → Result (Option Text) → Requested
unfolding expired_prompt wait_for_decision
after_prompt around registry pending (err e) = record {
  result = err e;
  registry = registry;
  deleted = none;
}
after_prompt around registry pending (ok message_id) =
    let (decision, registry') =
      wait_for_decision (around.during registry) pending.approval_id around.received in
    record {
      result = ok decision;
      registry = registry';
      deleted = expired_prompt decision message_id;
    }

unfoldable pub request_approval :
    Surroundings → ApprovalRegistry → InboundMessage → ApprovalRequest → Requested
unfolding after_prompt register
request_approval around registry inbound request =
    let ((pending, rx), registry') = register registry request in
    after_prompt around registry' pending (around.send_approval_request inbound pending)

-- `UnavailableApprovalRequester`
unfoldable pub unavailable_request_approval : ApprovalRequest → Result ApprovalDecision
unavailable_request_approval request =
    err (tool (lit "sandbox escalation required but no approval requester is available"))
