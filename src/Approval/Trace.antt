-- ===== src/Approval/Trace.antt =====
-- Interleavings of the tasks that share the registry: an approval that a tool receives was given by
-- the user whose turn asked for it.
use mathlib.Core.Path.{subst}
use simple_claw.Base.{
  ◌⊎◌, ℕ, ◌<◌, ◌≡◌, Text, List, [], ◌∷◌, Option, none, some, arith, In, inl, inr, if◌then◌else◌,
  Option-cases, Bool-cases, text_eq_iff, ◌==◌,
}
use simple_claw.Base.Dict
use simple_claw.Base.Dict.{get-insert, get-remove}
use simple_claw.Approval.{
  ApprovalDecision, ApprovalRegistry, ApprovalRequest, PendingApproval, PendingApprovalRequest,
  approval_id_of, route_request, send_on, Received, Sender, Receiver, new, register, resolve,
  wait_for_decision,
}

-- Who resolved which request, and how.
pub record Resolution : Type 0 where
  pub approval_id : Text
  pub user_id : Text
  pub decision : ApprovalDecision

-- The registry, with the receivers handed out, the values sent and the resolutions accepted so far.
pub record World : Type 0 where
  pub registry : ApprovalRegistry
  pub issued : List (Receiver × PendingApprovalRequest)
  pub sent : List (Sender × ApprovalDecision)
  pub resolutions : List Resolution

abbrev pub start : World
start = record { registry = new; issued = []; sent = []; resolutions = [] }

pub data Event : Type 0 where
  registers : ApprovalRequest → Event
  resolves : (approval_id user_id : Text) → ApprovalDecision → Event
  waited : (approval_id : Text) → Received → Event

abbrev record_sent :
    Option (Sender × ApprovalDecision)
    → List (Sender × ApprovalDecision)
    → List (Sender × ApprovalDecision)
record_sent none log = log
record_sent (some s) log = s ∷ log

unfoldable pub step : World → Event → World
step w (registers request) =
    let ((routed, rx), registry) = register w.registry request in
    record w { registry = registry; issued = (rx, routed) ∷ w.issued }
step w (resolves approval_id user_id decision) =
    let out = resolve w.registry approval_id user_id decision in
    record w {
      registry = out.registry;
      sent = record_sent out.sent w.sent;
      resolutions =
          if out.accepted
          then record { approval_id = approval_id; user_id = user_id; decision = decision }
            ∷ w.resolutions
          else w.resolutions;
    }
step w (waited approval_id received) = record w {
  registry = (wait_for_decision w.registry approval_id received).1;
}

unfoldable pub run : World → List Event → World
unfolding step
run w [] = w
run w (e ∷ es) = run (step w e) es

pub record Inv (w : World) : Type 0 where
  pub linked :
      (id : Text) (p : PendingApproval)
      → Dict.get w.registry.pending id ≡ some p
      → (p.request.approval_id ≡ id)
        × ((tx : Sender) → p.response_tx ≡ some tx → In (tx, p.request) w.issued)
  pub below :
      (tx : ℕ) (q : PendingApprovalRequest) → In (tx, q) w.issued → tx < w.registry.next_channel
  pub unique :
      (tx : ℕ) (q q' : PendingApprovalRequest) → In (tx, q) w.issued → In (tx, q') w.issued → q ≡ q'
  pub justified :
      (tx : Sender) (d : ApprovalDecision)
      → In (tx, d) w.sent
      → (q : PendingApprovalRequest) × In (tx, q) w.issued
        × In
            (record { approval_id = q.approval_id; user_id = q.requesting_user_id; decision = d })
            w.resolutions

registers-Inv : (w : World) (q : ApprovalRequest) → Inv w → Inv (step w (registers q))
unfolding step register
registers-Inv w q v = record {
  linked = λ id p e.
      let old = get-insert w.registry.pending (approval_id_of w.registry.next_id) id (record {
        request = route_request (approval_id_of w.registry.next_id) q;
        response_tx = some w.registry.next_channel;
      }) in
      (
        ground (arith, old, v.linked id p),
        λ tx h. ground (
          arith,
          old,
          v.linked id p,
          λ (k : Dict.get w.registry.pending id ≡ some p). (v.linked id p k).1 tx,
        ),
      );
  below = λ tx q' h. ground (arith, v.below tx q');
  unique = λ tx q' q'' h h'. ground (arith, v.below tx q', v.below tx q'', v.unique tx q' q'');
  justified = λ tx d h. let (q', a, b) = v.justified tx d h in (q', inr a, b);
}

module _ (w : World) (id user : Text) (d : ApprovalDecision) (p : PendingApproval) (v : Inv w)
    (e : Dict.get w.registry.pending id ≡ some p) (u : p.request.requesting_user_id ≡ user) where
  -- The value that is sent on `t` is justified by the resolution that sends it.
  justified-sent :
      (t tx : Sender) (d' : ApprovalDecision)
      → p.response_tx ≡ some t
      → ◌≡◌ {A = Sender × ApprovalDecision} (t, d) (tx, d') ⊎ In (tx, d') w.sent
      → (q : PendingApprovalRequest) × In (tx, q) w.issued
        × In
            (record { approval_id = q.approval_id; user_id = q.requesting_user_id; decision = d' })
            (record { approval_id = id; user_id = user; decision = d } ∷ w.resolutions)
  justified-sent t tx d' s (inl same) =
      (p.request, (v.linked id p e).1 tx (cc), inl (ground (arith, (v.linked id p e).0)))
  justified-sent t tx d' s (inr before) = let (q, a, b) = v.justified tx d' before in (q, a, inr b)

  -- An accepted resolution sends at most one value, to the receiver of the request it removes.
  accepted-Inv : Inv (record {
    registry = record w.registry { pending = Dict.remove w.registry.pending id };
    issued = w.issued;
    sent = record_sent (send_on p.response_tx d) w.sent;
    resolutions = record { approval_id = id; user_id = user; decision = d } ∷ w.resolutions;
  })
  unfolding send_on
  accepted-Inv = record {
    linked = λ j p' h. v.linked j p' (ground (arith, get-remove w.registry.pending id j));
    below = v.below;
    unique = v.unique;
    justified = λ tx d' h. elim (Option-cases p.response_tx) [
      | inl n ↦ let (q, a, b) = v.justified tx d' (rw n at h) in (q, a, inr b)
      | inr (t, s) ↦ justified-sent t tx d' s (rw s at h)
    ];
  }

resolves-Inv :
    (w : World) (id user : Text) (d : ApprovalDecision) → Inv w → Inv (step w (resolves id user d))
unfolding step resolve
resolves-Inv w id user d v = elim (Option-cases (Dict.get w.registry.pending id)) [
  | inl e ↦ rw (e, resolve) v
  | inr (p, e) ↦ elim (Bool-cases (p.request.requesting_user_id == user)) [
    | inl h ↦ rw (e, resolve, h) (accepted-Inv w id user d p v e ((text_eq_iff _ _).0 h))
    | inr h ↦ rw (e, resolve, h) v
  ]
]

waited-Inv : (w : World) (id : Text) (seen : Received) → Inv w → Inv (step w (waited id seen))
unfolding step wait_for_decision
waited-Inv w id seen v = record {
  linked = λ j p h. v.linked j p (ground (arith, get-remove w.registry.pending id j));
  below = v.below;
  unique = v.unique;
  justified = v.justified;
}

step-Inv : (w : World) (e : Event) → Inv w → Inv (step w e)
step-Inv w (registers q) v = registers-Inv w q v
step-Inv w (resolves id user d) v = resolves-Inv w id user d v
step-Inv w (waited id seen) v = waited-Inv w id seen v

run-Inv : (es : List Event) (w : World) → Inv w → Inv (run w es)
unfolding run
run-Inv [] w v = v
run-Inv (e ∷ es) w v = run-Inv es (step w e) (step-Inv w e v)

start-Inv : Inv start
unfolding new Dict.get
start-Inv = record {
  linked = λ id p e. cc;
  below = λ tx q h. absurd h;
  unique = λ tx q q' h h'. absurd h;
  justified = λ tx d h. absurd h;
}

-- After any interleaving of registrations, resolutions and waits, a value that was sent to the
-- receiver of a request was given for that request's id by the user whose turn made the request.
pub run-justified :
    (es : List Event) (rx : Receiver) (q : PendingApprovalRequest) (d : ApprovalDecision)
    → In (rx, q) (run start es).issued
    → In (rx, d) (run start es).sent
    → In
        (record { approval_id = q.approval_id; user_id = q.requesting_user_id; decision = d })
        (run start es).resolutions
run-justified es rx q d issued sent =
    let v = run-Inv es start start-Inv in
    let (q', a, b) = v.justified rx d sent in
    subst
      (λ (r : PendingApprovalRequest).
        In (record { approval_id = r.approval_id; user_id = r.requesting_user_id; decision = d })
          (run start es).resolutions)
      (v.unique rx q' q a issued) b
