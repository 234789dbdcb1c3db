-- ===== src/Tools/Owners.antt =====
-- Who may call a restricted tool.
use simple_claw.Base.{
  ◌≡◌, ◌⊎◌, ◌↔◌, inl, inr, refl, Text, List, [], ◌∷◌, any, In, true, false, ◌==◌, arith, Bool-cases,
}
use simple_claw.Error.{ok}
use simple_claw.Tools.{
  ToolExecEnv, AgentToolEntry, authorize, owner_checked, owner_allowed, no_owners,
}

any-In : (u : Text) (xs : List Text) → any (λ x. x == u) xs ≡ true → In u xs
any-In u [] h = ground arith
any-In u (x ∷ xs) h = elim (Bool-cases (x == u)) [
  | inl e ↦ inl (ground arith)
  | inr e ↦ inr (any-In u xs (ground arith))
]

In-any : (u : Text) (xs : List Text) → In u xs → any (λ x. x == u) xs ≡ true
In-any u [] h = absurd h
In-any u (x ∷ xs) (inl e) = ground arith
In-any u (x ∷ xs) (inr h) = ground (arith, In-any u xs h)

-- Whether a user is an owner, as the checks decide it.
owner_checked-ok : (ctx : ToolExecEnv) → owner_checked ctx ≡ ok tt → In ctx.user_id ctx.owner_ids
unfolding owner_checked owner_allowed
owner_checked-ok ctx h = any-In ctx.user_id ctx.owner_ids (ground arith)

pub owner_allowed-In : (u : Text) (owners : List Text) → owner_allowed u owners ≡ true → In u owners
unfolding owner_allowed
owner_allowed-In u owners h = any-In u owners (ground arith)

In-not_empty : (u : Text) (xs : List Text) → In u xs → no_owners xs ≡ false
In-not_empty u [] h = absurd h
In-not_empty u (x ∷ xs) h = refl

In-owner_checked : (ctx : ToolExecEnv) → In ctx.user_id ctx.owner_ids → owner_checked ctx ≡ ok tt
unfolding owner_checked owner_allowed
In-owner_checked ctx h =
    rw (In-not_empty ctx.user_id ctx.owner_ids h, In-any ctx.user_id ctx.owner_ids h) refl

module _ {P O : Type 0} where
  -- A tool is authorized exactly when it is not restricted to owners, or its user is one of them.
  pub authorize_iff :
      (entry : AgentToolEntry P O) (ctx : ToolExecEnv)
      → (authorize entry ctx ≡ ok tt)
        ↔ ((entry.owner_restricted ≡ false) ⊎ In ctx.user_id ctx.owner_ids)
  unfolding authorize
  authorize_iff entry ctx = (
    λ h. elim (Bool-cases entry.owner_restricted) [
      | inl e ↦ inr (owner_checked-ok ctx (ground arith))
      | inr e ↦ inl e
    ],
    λ h. elim h [
      | inl e ↦ rw e refl
      | inr e ↦ elim (Bool-cases entry.owner_restricted) [
        | inl r ↦ rw r (In-owner_checked ctx e)
        | inr r ↦ rw r refl
      ]
    ],
  )
