-- ===== src/Session/Keys.antt =====
-- Session keys tell scopes apart.
use mathlib.Core.List.{append_assoc}
use simple_claw.Base.{
  ℕ, ◌<◌, ◌^◌, Text, ◌≡◌, refl, sym, ◌∙◌, ◌∷◌, ◌++◌, Bool, true, false, arith, lit, Lacks,
  split_first, split_last, append-cancel_left, append-cancel_right, show_i64, show_i64-Lacks,
  show_i64-injective,
}
use simple_claw.Channels.{GatewayChannelKind, discord}
use simple_claw.Session.{build_session_scope_key, format_session_id}

-- What follows the agent in a scope key.
scope_end : Bool → Text → Text
scope_end true channel_id = lit "main"
scope_end false channel_id = lit "discord:" ++ channel_id

scope_key-eq :
    (agent_id : Text) (is_dm : Bool) (channel_id : Text)
    → build_session_scope_key agent_id is_dm discord channel_id
      ≡ lit "agent:" ++ (agent_id ++ b':' ∷ scope_end is_dm channel_id)
unfolding build_session_scope_key scope_end lit
scope_key-eq agent_id true channel_id = refl
scope_key-eq agent_id false channel_id = simp append_assoc

scope_end-injective :
    (d d' : Bool) (c c' : Text) → scope_end d c ≡ scope_end d' c' → (d ≡ d') × (d ≡ false → c ≡ c')
unfolding scope_end lit
scope_end-injective true true c c' e = (refl, λ h. cc)
scope_end-injective true false c c' e = cc
scope_end-injective false true c c' e = cc
scope_end-injective false false c c' e = (refl, λ h. cc)

-- Where agent names hold no colon, two scopes with the same key are of the same agent, are both or
-- neither of direct messages, and outside direct messages are of the same channel.
pub build_session_scope_key-injective :
    (a a' : Text) (d d' : Bool) (k k' : GatewayChannelKind) (c c' : Text)
    → Lacks b':' a
    → Lacks b':' a'
    → build_session_scope_key a d k c ≡ build_session_scope_key a' d' k' c'
    → (a ≡ a') × (d ≡ d') × (d ≡ false → c ≡ c')
build_session_scope_key-injective a a' d d' discord discord c c' h h' e =
    let (p, q) =
      split_first b':' a a' h h' (
        append-cancel_left (lit "agent:") (sym (scope_key-eq a d c) ∙ e ∙ scope_key-eq a' d' c')) in
    let (r, s) = scope_end-injective d d' c c' q in (p, r, s)

session_id-eq :
    (scope_key : Text) (n : ℕ)
    → format_session_id scope_key n ≡ (scope_key ++ lit ":session") ++ b':' ∷ show_i64 n
unfolding format_session_id lit
session_id-eq scope_key n = simp append_assoc

-- Session ids of different scopes, or with different sequence numbers, differ.
pub format_session_id-injective :
    (k k' : Text) (n n' : ℕ)
    → n < 2 ^ 63
    → n' < 2 ^ 63
    → format_session_id k n ≡ format_session_id k' n'
    → (k ≡ k') × (n ≡ n')
format_session_id-injective k k' n n' h h' e =
    let (p, q) =
      split_last b':' (k ++ lit ":session") (k' ++ lit ":session")
        (show_i64-Lacks b':' n (omega arith)) (show_i64-Lacks b':' n' (omega arith))
        (sym (session_id-eq k n) ∙ e ∙ session_id-eq k' n') in
    (append-cancel_right k k' (lit ":session") p, show_i64-injective n n' h h' q)
