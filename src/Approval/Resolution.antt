-- ===== src/Approval/Resolution.antt =====
-- Who can resolve a pending approval, and how often.
use simple_claw.Base.{◌≡◌, ◌≢◌, ◌↔◌, Text, none, some, true, false, arith, inl, inr, Option-cases}
use simple_claw.Base.Dict
use simple_claw.Base.Dict.{get-remove}
use simple_claw.Approval.{
  ApprovalDecision, ApprovalRegistry, PendingApproval, resolve, pending_request,
}

-- The request is pending, and the user is the one who made it.
abbrev pub MayResolve : ApprovalRegistry → Text → Text → Type 0
MayResolve r id user =
    (p : PendingApproval) × (Dict.get r.pending id ≡ some p) × (p.request.requesting_user_id ≡ user)

accepted→MayResolve :
    (r : ApprovalRegistry) (id user : Text) (d : ApprovalDecision)
    → (resolve r id user d).accepted ≡ true
    → MayResolve r id user
unfolding resolve
accepted→MayResolve r id user d h = elim (Option-cases (Dict.get r.pending id)) [
  | inl e ↦ ground arith
  | inr (p, e) ↦ (p, e, ground arith)
]

-- A resolution is accepted exactly when the request is pending and comes from its requesting user.
pub resolve-accepted_iff :
    (r : ApprovalRegistry) (id user : Text) (d : ApprovalDecision)
    → ((resolve r id user d).accepted ≡ true) ↔ MayResolve r id user
unfolding resolve
resolve-accepted_iff r id user d = (accepted→MayResolve r id user d, λ (p, e, q). ground arith)

-- A resolution that is not accepted sends nothing and changes nothing.
pub resolve_refused :
    (r : ApprovalRegistry) (id user : Text) (d : ApprovalDecision)
    → (resolve r id user d).accepted ≡ false
    → ((resolve r id user d).sent ≡ none) × ((resolve r id user d).registry ≡ r)
unfolding resolve
resolve_refused r id user d h = ground arith

-- An accepted resolution takes its request, and no other, out of the registry, so that no second
-- resolution of it is accepted, whoever makes it.
pub resolve_once :
    (r : ApprovalRegistry) (id user : Text) (d : ApprovalDecision)
    → (resolve r id user d).accepted ≡ true
    → ((user' : Text) (d' : ApprovalDecision)
        → (resolve (resolve r id user d).registry id user' d').accepted ≡ false)
      × ((j : Text)
          → id ≢ j
          → pending_request (resolve r id user d).registry j ≡ pending_request r j)
unfolding resolve pending_request
resolve_once r id user d h = (
  λ user' d'. ground (arith, get-remove r.pending id id),
  λ j ne. ground (arith, get-remove r.pending id j),
)
