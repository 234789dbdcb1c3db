-- ===== src/Approval/Pending.antt =====
-- What the registry holds: ids are fresh, and a request stays until it is resolved or waited for.
use simple_claw.Base.{
  ℕ, ◌+◌, ◌<◌, ◌≤◌, ◌^◌, ◌≡◌, refl, sym, ◌≢◌, Text, Option, none, some, arith, show-injective,
  append-cancel_left, lit,
}
use simple_claw.Base.Dict
use simple_claw.Base.Dict.{get-insert_self, get-insert_ne, get-remove_self, get-remove_ne}
use simple_claw.Channels.{InboundMessage}
use simple_claw.Error.{FrameworkError, ok, err}
use simple_claw.Approval.{
  ApprovalRegistry, ApprovalRequest, approval_id_of, register, pending_request, new, Received,
  timed_out, wait_for_decision, decision_of, Surroundings, request_approval,
}

approval_id_of-injective : (m n : ℕ) → approval_id_of m ≡ approval_id_of n → m ≡ n
unfolding approval_id_of
approval_id_of-injective m n e = show-injective m n (append-cancel_left (lit "approval-") e)

-- No id from `next_id` on is in use.
abbrev pub IsFresh : ApprovalRegistry → Type 0
IsFresh r = (k : ℕ) → r.next_id ≤ k → Dict.get r.pending (approval_id_of k) ≡ none

pub new-IsFresh : IsFresh new
unfolding new Dict.get
new-IsFresh k h = refl

-- Until the counter wraps, a registration takes an id that no pending request has, makes its request
-- pending under it, keeps all the others, and leaves later ids unused.
pub register-IsFresh :
    (r : ApprovalRegistry) (q : ApprovalRequest)
    → r.next_id + 1 < 2 ^ 64
    → IsFresh r
    → let ((routed, rx), r') = register r q in
      (pending_request r routed.approval_id ≡ none)
      × (pending_request r' routed.approval_id ≡ some routed)
      × ((id : Text) → id ≢ routed.approval_id → pending_request r' id ≡ pending_request r id)
      × IsFresh r'
unfolding register pending_request
register-IsFresh r q b fresh = (
  ground (arith, fresh r.next_id),
  simp get-insert_self,
  λ id ne. simp (get-insert_ne r.pending _ id _ (λ e. ne (sym e))),
  λ k h.
      rw
        (get-insert_ne r.pending (approval_id_of r.next_id) (approval_id_of k) _
          (other k (omega arith)))
        (fresh k (omega arith)),
)
  where
    other : (k : ℕ) → r.next_id < k → approval_id_of r.next_id ≢ approval_id_of k
    other k h e = omega (arith, approval_id_of-injective r.next_id k e)

-- A wait reports what its receiver saw, with a dropped sender as a denial and the end of the wait as
-- a time-out, and takes its request and no other out of the registry.
pub wait_for_decision_lem :
    (r : ApprovalRegistry) (id : Text) (seen : Received)
    → ((wait_for_decision r id seen).0 ≡ decision_of seen)
      × (pending_request (wait_for_decision r id seen).1 id ≡ none)
      × ((j : Text)
          → id ≢ j
          → pending_request (wait_for_decision r id seen).1 j ≡ pending_request r j)
unfolding wait_for_decision pending_request
wait_for_decision_lem r id seen =
    (refl, simp get-remove_self, λ j ne. simp (get-remove_ne r.pending id j ne))

-- However the other tasks change the registry meanwhile, a request whose prompt was sent is not
-- pending when `request_approval` returns, and its prompt is deleted exactly on a time-out.
pub request_approval_sent :
    (around : Surroundings) (r : ApprovalRegistry) (m : InboundMessage) (q : ApprovalRequest)
    (message_id : Option Text)
    → around.send_approval_request m (register r q).0.0 ≡ ok message_id
    → let out = request_approval around r m q in
      (out.result ≡ ok (decision_of around.received))
      × (pending_request out.registry (register r q).0.0.approval_id ≡ none)
      × (decision_of around.received ≡ timed_out → out.deleted ≡ message_id)
      × (decision_of around.received ≢ timed_out → out.deleted ≡ none)
unfolding request_approval pending_request
request_approval_sent around r m q message_id e = (
  rw (e, request_approval) refl,
  rw (e, request_approval) (simp get-remove_self),
  λ h. rw (e, request_approval) (ground arith),
  λ h. rw (e, request_approval) (ground arith),
)

-- A request whose prompt could not be sent stays pending: the early return skips the removal.
pub request_approval-leaks :
    (around : Surroundings) (r : ApprovalRegistry) (m : InboundMessage) (q : ApprovalRequest)
    (e : FrameworkError)
    → around.send_approval_request m (register r q).0.0 ≡ err e
    → let out = request_approval around r m q in
      (out.result ≡ err e)
      × (pending_request out.registry (register r q).0.0.approval_id ≡ some (register r q).0.0)
unfolding request_approval pending_request
request_approval-leaks around r m q e h =
    (rw (h, request_approval) refl, rw (h, request_approval) (simp get-insert_self))
