-- ===== src/Runs/Completion.antt =====
-- The completion watcher of src/tools/async_tool_manager.rs: what it announces when a run ends.
use simple_claw.Base.{
  ℕ, Text, lit, show_i64, ◌++◌, Option, none, some, Bool, true, false, not, if◌then◌else◌,
}
use simple_claw.Base.Dict
use simple_claw.Error.{display, Result, ok, err}
use simple_claw.Channels.{InboundMessage}
use simple_claw.Runs.{AsyncToolRunEntry, AsyncToolRunSnapshot, Tails, CompletionRoute, minus_one}
use simple_claw.Runs.Manager.{AsyncToolRunManager}
use simple_claw.Runs.Access.{get}
use simple_claw.Runs.Watch.{mark_delegated_completed, mark_process_completed}

reinject_entry : Option AsyncToolRunEntry → Bool
reinject_entry none = false
reinject_entry (some e) = not e.claimed

unfoldable pub should_reinject : AsyncToolRunManager → Text → Bool
unfolding reinject_entry
should_reinject self run_id = reinject_entry (Dict.get self.runs run_id)

summary_of : Result AsyncToolRunSnapshot → Text
summary_of (ok s) = s.summary
summary_of (err e) = lit "unknown"

tool_name_of : Result AsyncToolRunSnapshot → Text
tool_name_of (ok s) = s.tool_name
tool_name_of (err e) = lit "unknown"

exit_code_or : Option ℕ → ℕ
exit_code_or none = minus_one
exit_code_or (some c) = c

unfoldable pub completion_content_for_process : Tails → AsyncToolRunManager → Text → Option ℕ → Text
unfolding summary_of exit_code_or
completion_content_for_process tail self run_id exit_code =
    lit "[async tool run completed] run_id="
    ++ run_id
    ++ lit " kind=process exit_code="
    ++ show_i64 (exit_code_or exit_code)
    ++ lit " summary="
    ++ summary_of (get tail self run_id)

outcome_text : Result Text → Text
outcome_text (ok reply) = lit "ok"
outcome_text (err e) = lit "error error=" ++ display e

unfoldable pub completion_content_for_delegated :
    Tails → AsyncToolRunManager → Text → Result Text → Text
unfolding summary_of tool_name_of outcome_text
completion_content_for_delegated tail self run_id result =
    lit "[async tool run completed] run_id="
    ++ run_id
    ++ lit " tool="
    ++ tool_name_of (get tail self run_id)
    ++ lit " kind=delegated status="
    ++ outcome_text result
    ++ lit " summary="
    ++ summary_of (get tail self run_id)

-- What a handle gives in the end: the exit code of a process, or the result of a delegated run (the
-- failure of its task included).
pub data Ended : Type 0 where
  process_ended : Option ℕ → Ended
  delegated_ended : Result Text → Ended

unfoldable pub mark : AsyncToolRunManager → ℕ → Text → Ended → AsyncToolRunManager
unfolding mark_process_completed mark_delegated_completed
mark self now run_id (process_ended c) = mark_process_completed self now run_id c
mark self now run_id (delegated_ended r) = mark_delegated_completed self now run_id r

unfoldable pub content_of : Tails → AsyncToolRunManager → Text → Ended → Text
content_of tail self run_id (process_ended c) = completion_content_for_process tail self run_id c
content_of tail self run_id (delegated_ended r) =
    completion_content_for_delegated tail self run_id r

unfoldable pub completion_message : Text → CompletionRoute → InboundMessage
completion_message content route = record {
  trace_id = route.trace_id;
  source_channel = route.source_channel;
  target_agent_id = route.target_agent_id;
  session_key = route.session_key;
  source_message_id = none;
  channel_id = route.channel_id;
  guild_id = route.guild_id;
  is_dm = route.is_dm;
  user_id = lit "system";
  username = lit "system";
  mentioned_bot = false;
  invoke = true;
  content = content;
}

unfoldable pub addressed : Text → Option CompletionRoute → Option InboundMessage
unfolding completion_message
addressed content none = none
addressed content (some route) = some (completion_message content route)

-- The watcher of a run, once its handle has ended: the message that it sends, if any, and the
-- manager after it. `between` and `before` are what the other tasks do after the marking, and after
-- the text was made; the route is there when the sender is.
unfoldable pub watch_completion :
    Tails
    → AsyncToolRunManager
    → ℕ
    → Text
    → Ended
    → (AsyncToolRunManager → AsyncToolRunManager)
    → (AsyncToolRunManager → AsyncToolRunManager)
    → Option CompletionRoute
    → Option InboundMessage × AsyncToolRunManager
unfolding mark content_of addressed should_reinject
watch_completion tail self now run_id ended between before route =
    let marked = between (mark self now run_id ended) in
    let content = content_of tail marked run_id ended in
    let self' = before marked in
    (if should_reinject self' run_id then addressed content route else none, self')
