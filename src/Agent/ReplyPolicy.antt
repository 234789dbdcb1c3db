-- ===== src/Agent/ReplyPolicy.antt =====
-- src/reply_policy.rs: a reply that asks for no message.
use simple_claw.Base.{Text, lit, trim, Bool, ◌==◌}

abbrev pub no_reply_sentinel : Text
no_reply_sentinel = lit "NO_REPLY"

unfoldable pub is_no_reply : Text → Bool
is_no_reply reply = trim reply == no_reply_sentinel

unfoldable pub no_reply_prompt_instruction : Text
no_reply_prompt_instruction =
    lit
      "\n\nNO-REPLY BEHAVIOR:\n- If you intentionally want the system to send no user-facing message, respond with exactly NO_REPLY (no extra text)."
