-- ===== src/Display.antt =====
-- The streaming display of src/run.rs: a reply that grows is shown by sending a message and editing
-- it, and by further messages when it is longer than the channel allows. The methods under the
-- display's lock are functions of its state; Display.Steps has the tasks that run them.
pub mod Steps
pub mod Shape
pub mod Next
pub mod Calls
pub mod Growth
pub mod Finalize
pub mod Messages
mod Tests
use Prim.Native.Nat.{min}
use simple_claw.Base.{
  ℕ, ◌+◌, ◌-◌, Text, List, [], ◌∷◌, Option, none, some, Bool, true, false, not, ◌&&◌, ◌||◌, ◌==◌,
  ltb, eqb, leb, length, take, drop, is_empty, if◌then◌else◌,
}
use simple_claw.Error.{FrameworkError, tool, display, Result, ok, err}

-- STREAMING_EDIT_INTERVAL in milliseconds, the unit of the clock.
abbrev pub streaming_edit_interval : ℕ
streaming_edit_interval = 1500

pub record StreamingDisplay : Type 0 where
  pub channel_limit : Option ℕ
  pub latest_content : Text
  pub committed_prefix_chars : ℕ
  pub displayed_segment : Option Text
  pub message_id : Option Text
  pub last_edit : ℕ
  pub initial_send_attempted : Bool
  pub send_in_flight : Bool
  pub edit_in_flight : Bool
  pub finalized : Bool
  pub terminal_failure : Bool
  pub error_message : Option Text

-- `StreamingDisplay::new`
unfoldable pub new : ℕ → Option ℕ → StreamingDisplay
new now channel_limit = record {
  channel_limit = channel_limit;
  latest_content = [];
  committed_prefix_chars = 0;
  displayed_segment = none;
  message_id = none;
  last_edit = now - streaming_edit_interval;
  initial_send_attempted = false;
  send_in_flight = false;
  edit_in_flight = false;
  finalized = false;
  terminal_failure = false;
  error_message = none;
}

pub record ActiveStreamingSegment : Type 0 where
  pub content : Text
  pub visible_chars : ℕ
  pub has_overflow : Bool

abbrev pub visible_chars_of : Option ℕ → Text → ℕ
visible_chars_of none tail = length tail
visible_chars_of (some limit) tail = min limit (length tail)

unfoldable pub segment_of : Option ℕ → Text → Option ActiveStreamingSegment
segment_of channel_limit tail =
    let visible = visible_chars_of channel_limit tail in
    if is_empty tail
    then none
    else some (record {
      content = take visible tail;
      visible_chars = visible;
      has_overflow = ltb visible (length tail);
    })

-- The text behind the committed characters, up to the channel's limit.
unfoldable pub active_streaming_segment : Text → ℕ → Option ℕ → Option ActiveStreamingSegment
unfolding segment_of
active_streaming_segment latest_content committed_prefix_chars channel_limit =
    segment_of channel_limit (drop committed_prefix_chars latest_content)

abbrev pub segment : StreamingDisplay → Option ActiveStreamingSegment
segment state =
    active_streaming_segment state.latest_content state.committed_prefix_chars state.channel_limit

abbrev pub is_some : Option Text → Bool
is_some none = false
is_some (some t) = true

abbrev pub shows : Option Text → Text → Bool
shows none t = false
shows (some shown) t = shown == t

roll : StreamingDisplay → Option ActiveStreamingSegment → Bool × StreamingDisplay
roll state none = (false, state)
roll state (some s) =
    if not s.has_overflow || not (shows state.displayed_segment s.content)
    then (false, state)
    else (
      true,
      record state {
        committed_prefix_chars = state.committed_prefix_chars + s.visible_chars;
        displayed_segment = none;
        message_id = none;
        initial_send_attempted = false;
        error_message = none;
      },
    )

unfoldable pub try_rollover_streaming_segment : StreamingDisplay → Bool × StreamingDisplay
unfolding roll
try_rollover_streaming_segment state =
    if state.send_in_flight || state.edit_in_flight || state.terminal_failure
    then (false, state)
    else roll state (segment state)

pub data StreamingDisplayAction : Type 0 where
  send_initial : Text → StreamingDisplayAction
  edit_message : Text → Text → StreamingDisplayAction

act_on :
    ℕ
    → StreamingDisplay
    → ActiveStreamingSegment
    → Option Text
    → Option StreamingDisplayAction × StreamingDisplay
act_on now state s none =
    if state.send_in_flight || is_some state.displayed_segment || state.initial_send_attempted
    then (none, state)
    else (
      some (send_initial s.content),
      record state { initial_send_attempted = true; send_in_flight = true },
    )
act_on now state s (some message_id) =
    if state.edit_in_flight || shows state.displayed_segment s.content
    then (none, state)
    else if not state.finalized && ltb (now - state.last_edit) streaming_edit_interval
    then (none, state)
    else (some (edit_message message_id s.content), record state { edit_in_flight = true })

act :
    ℕ
    → StreamingDisplay
    → Option ActiveStreamingSegment
    → Option StreamingDisplayAction × StreamingDisplay
unfolding act_on
act now state none = (none, state)
act now state (some s) = act_on now state s state.message_id

unfoldable pub next_streaming_display_action :
    ℕ → StreamingDisplay → Option StreamingDisplayAction × StreamingDisplay
unfolding act
next_streaming_display_action now state =
    let (rolled, state') = try_rollover_streaming_segment state in
    if state.terminal_failure || is_empty state.latest_content
    then (none, state)
    else act now state' (segment state')

-- What the spawned task does when the send has ended.
unfoldable pub after_send : ℕ → Text → Result (Option Text) → StreamingDisplay → StreamingDisplay
after_send now content (ok (some message_id)) state = record state {
  send_in_flight = false;
  message_id = some message_id;
  displayed_segment = some content;
  last_edit = now;
  error_message = none;
}
after_send now content (ok none) state = record state {
  send_in_flight = false;
  displayed_segment = some content;
  error_message = none;
}
after_send now content (err e) state = record state {
  send_in_flight = false;
  error_message = some (display e);
  terminal_failure = true;
}

unfoldable pub after_edit : ℕ → Text → Result (Unit {0}) → StreamingDisplay → StreamingDisplay
after_edit now content (ok _) state = record state {
  edit_in_flight = false;
  displayed_segment = some content;
  last_edit = now;
  error_message = none;
}
after_edit now content (err e) state = record state {
  edit_in_flight = false;
  error_message = some (display e);
  terminal_failure = true;
}

-- One round of the loop of `finalize_streaming_display`: it returns, it sends the whole content in
-- one message, or it waits.
pub data FinalizeCheck : Type 0 where
  returned : Result (Unit {0}) → FinalizeCheck
  fallback waiting : FinalizeCheck

visible_of : Option ActiveStreamingSegment → ℕ
visible_of none = 0
visible_of (some s) = s.visible_chars

shows_segment : StreamingDisplay → Option ActiveStreamingSegment → Bool
shows_segment state none = false
shows_segment state (some s) = shows state.displayed_segment s.content

unfoldable pub ended : StreamingDisplay → Text → FinalizeCheck
unfolding visible_of shows_segment
ended state content =
    let s = segment state in
    if eqb state.committed_prefix_chars (length content)
    then returned (ok tt)
    else if shows_segment state s
        && eqb (state.committed_prefix_chars + visible_of s) (length content)
    then returned (ok tt)
    else if not (is_some state.message_id) && not (is_some state.displayed_segment)
    then fallback
    else waiting

failed_or_ended : StreamingDisplay → Text → Option Text → FinalizeCheck
unfolding ended
failed_or_ended state content none = ended state content
failed_or_ended state content (some error_message) =
    if state.terminal_failure
      && (is_some state.message_id
          || is_some state.displayed_segment
          || ltb 0 state.committed_prefix_chars)
    then returned (err (tool error_message))
    else ended state content

unfoldable pub finalize_check : StreamingDisplay → Text → FinalizeCheck
unfolding failed_or_ended
finalize_check state content =
    if state.send_in_flight || state.edit_in_flight
    then waiting
    else failed_or_ended state content state.error_message
