-- ===== src/Display/Steps.antt =====
-- The tasks of src/run.rs that share a streaming display, as steps that interleave in any order, and
-- the channel that they write to.
use simple_claw.Base.{◌≡◌, ℕ, Text, List, [], ◌∷◌, ◌++◌, Option, none, some, true}
use simple_claw.Base.Dict.{Dict, get, insert}
use simple_claw.Error.{FrameworkError, ok, err}
use simple_claw.Display.{
  StreamingDisplay, new, StreamingDisplayAction, send_initial, edit_message,
  next_streaming_display_action, after_send, after_edit, fallback, finalize_check,
}

-- `channel` has the messages by their ids, in the order in which they were sent; `pending` the calls
-- to the channel that have not ended.
pub record System : Type 0 where
  pub display : StreamingDisplay
  pub pending : List StreamingDisplayAction
  pub channel : Dict Text

spawned : Option StreamingDisplayAction → List StreamingDisplayAction
spawned none = []
spawned (some action) = action ∷ []

-- `spawn_next_streaming_display_action`, up to the call to the channel.
unfoldable pub spawn_next_streaming_display_action : ℕ → System → System
unfolding next_streaming_display_action spawned
spawn_next_streaming_display_action now s =
    let (action, display') = next_streaming_display_action now s.display in
    record s { display = display'; pending = s.pending ++ spawned action }

unfoldable pub start : ℕ → Option ℕ → System
unfolding new
start now channel_limit = record { display = new now channel_limit; pending = []; channel = [] }

-- The first part of `spawn_streaming_display_update` and of `finalize_streaming_display`.
unfoldable pub set_content : Text → StreamingDisplay → StreamingDisplay
set_content content state = record state { latest_content = content }

unfoldable pub set_final : Text → StreamingDisplay → StreamingDisplay
set_final content state = record state { latest_content = content; finalized = true }

-- The content only grows. The only channel with a display is the one that edits messages, src/channels/discord.rs,
-- whose `send_message_with_id` gives an id for each message that it sends, and never `Ok(None)`; the ids
-- differ, and a call that fails changes nothing on the channel.
pub data Step (s : System) : System → Type 0 where
  update :
      (more : Text)
      → Step s (record s { display = set_content (s.display.latest_content ++ more) s.display })
  finalize :
      (more : Text)
      → Step s (record s { display = set_final (s.display.latest_content ++ more) s.display })
  spawn : (now : ℕ) → Step s (spawn_next_streaming_display_action now s)
  sent :
      (now : ℕ) (before after : List StreamingDisplayAction) (content id : Text)
      → s.pending ≡ before ++ send_initial content ∷ after
      → get s.channel id ≡ none
      → Step s (record {
        display = after_send now content (ok (some id)) s.display;
        pending = before ++ after;
        channel = insert s.channel id content;
      })
  send_failed :
      (now : ℕ) (before after : List StreamingDisplayAction) (content : Text) (e : FrameworkError)
      → s.pending ≡ before ++ send_initial content ∷ after
      → Step s (record s {
        display = after_send now content (err e) s.display;
        pending = before ++ after;
      })
  edited :
      (now : ℕ) (before after : List StreamingDisplayAction) (id content : Text)
      → s.pending ≡ before ++ edit_message id content ∷ after
      → Step s (record {
        display = after_edit now content (ok tt) s.display;
        pending = before ++ after;
        channel = insert s.channel id content;
      })
  edit_failed :
      (now : ℕ) (before after : List StreamingDisplayAction) (id content : Text)
      (e : FrameworkError)
      → s.pending ≡ before ++ edit_message id content ∷ after
      → Step s (record s {
        display = after_edit now content (err e) s.display;
        pending = before ++ after;
      })

pub data Reach (s : System) : System → Type 0 where
  here : Reach s s
  later : {t u : System} → Reach s t → Step t u → Reach s u

abbrev pub contents : Dict Text → List Text
contents [] = []
contents ((id, content) ∷ m) = content ∷ contents m

-- The messages that a display has made: those along its steps and, when the finalization falls back, the whole
-- content, which it sends in one message as the last thing that it does.
pub data Sent (now : ℕ) (limit : Option ℕ) (s : System) (messages : List Text) : Type 0 where
  streamed : Reach (start now limit) s → messages ≡ contents s.channel → Sent now limit s messages
  fell_back :
      Reach (start now limit) s
      → s.display.finalized ≡ true
      → finalize_check s.display s.display.latest_content ≡ fallback
      → messages ≡ contents s.channel ++ s.display.latest_content ∷ []
      → Sent now limit s messages
