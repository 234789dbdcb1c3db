-- ===== src/Display/Tests.antt =====
-- A reply of five characters on a channel that allows three in a message.
use simple_claw.Base.{◌≡◌, refl, Text, lit, [], ◌∷◌, ◌++◌, some, text_discrete, is_empty}
use simple_claw.Base.Dict.{get, insert}
use simple_claw.Error.{FrameworkError, provider, ok, err}
use simple_claw.Display.{
  new, StreamingDisplayAction, edit_message, segment_of, active_streaming_segment,
  try_rollover_streaming_segment, next_streaming_display_action, after_send, after_edit, returned,
  fallback, waiting, finalize_check,
}
use simple_claw.Display.Steps.{
  System, update, finalize, spawn, sent, send_failed, edited, Reach, here, later, start, Sent,
  streamed, fell_back, spawn_next_streaming_display_action, set_content, set_final,
}
use simple_claw.Display.Shape.{joined}
use simple_claw.Display.Messages.{Shown, Sent-Shown}
use simple_claw.Display.Finalize.{
  finalize_check-returned, finalize_check-fallback, finalize_check-progress,
}

abbrev first_sent : System → Text → Text → System
first_sent s content id = record {
  display = after_send 2000 content (ok (some id)) s.display;
  pending = [];
  channel = insert s.channel id content;
}

abbrev s1 : System
s1 = let s = start 5000 (some 3) in record s { display = set_content (lit "abcd") s.display }

abbrev s2 : System
s2 = first_sent (spawn_next_streaming_display_action 5000 s1) (lit "abc") (lit "1")

abbrev s3 : System
s3 = first_sent (spawn_next_streaming_display_action 5000 s2) (lit "d") (lit "2")

abbrev s4 : System
s4 = record s3 { display = set_final (s3.display.latest_content ++ lit "e") s3.display }

abbrev s5 : System
s5 =
    let s = spawn_next_streaming_display_action 9000 s4 in
    record {
      display = after_edit 9000 (lit "de") (ok tt) s.display;
      pending = [];
      channel = insert s.channel (lit "2") (lit "de");
    }

reached : Reach (start 5000 (some 3)) s4
unfolding start new set_content set_final spawn_next_streaming_display_action
    next_streaming_display_action try_rollover_streaming_segment active_streaming_segment segment_of
    is_empty after_send after_edit get insert text_discrete lit
reached =
    later
      (later
        (later
          (later (later (later here (update (lit "abcd"))) (spawn 5000))
            (sent 2000 [] [] (lit "abc") (lit "1") refl refl))
          (spawn 5000))
        (sent 2000 [] [] (lit "d") (lit "2") refl refl))
      (finalize (lit "e"))

abbrev reached_end : Reach (start 5000 (some 3)) s5
unfolding start new set_content set_final spawn_next_streaming_display_action
    next_streaming_display_action try_rollover_streaming_segment active_streaming_segment segment_of
    is_empty after_send after_edit get insert text_discrete lit
reached_end = later (later reached (spawn 9000)) (edited 9000 [] [] (lit "2") (lit "de") refl)

Sent-Shown_example : Shown (some 3) (lit "abcde") (lit "abc" ∷ lit "de" ∷ [])
unfolding start new set_content set_final spawn_next_streaming_display_action
    next_streaming_display_action try_rollover_streaming_segment active_streaming_segment segment_of
    is_empty after_send after_edit get insert text_discrete lit
Sent-Shown_example =
    Sent-Shown 5000 (some 3) s5 (lit "abc" ∷ lit "de" ∷ []) (streamed reached_end refl)

shows_all : finalize_check s5.display s5.display.latest_content ≡ returned (ok tt)
unfolding start new set_content set_final spawn_next_streaming_display_action
    next_streaming_display_action try_rollover_streaming_segment active_streaming_segment segment_of
    is_empty after_send after_edit text_discrete lit finalize_check
shows_all = refl

finalize_check-returned_example : joined s5.channel ≡ s5.display.latest_content
finalize_check-returned_example = finalize_check-returned 5000 (some 3) s5 reached_end shows_all

waits : finalize_check s4.display s4.display.latest_content ≡ waiting
unfolding start new set_content set_final spawn_next_streaming_display_action
    next_streaming_display_action try_rollover_streaming_segment active_streaming_segment segment_of
    is_empty after_send after_edit text_discrete lit finalize_check
waits = refl

finalize_check-progress_example :
    (action : StreamingDisplayAction) × ((spawn_next_streaming_display_action 9000 s4).pending
      ≡ action ∷ [])
unfolding set_final
finalize_check-progress_example =
    finalize_check-progress 5000 9000 (some 3) s4 reached refl refl waits

-- The first message cannot be sent.
abbrev failure : FrameworkError
failure = provider (lit "gone")

abbrev f1 : System
f1 =
    let s = spawn_next_streaming_display_action 5000 s1 in
    record s { display = after_send 6000 (lit "abc") (err failure) s.display; pending = [] }

reached_failure : Reach (start 5000 (some 3)) f1
unfolding start new set_content spawn_next_streaming_display_action next_streaming_display_action
    try_rollover_streaming_segment active_streaming_segment segment_of is_empty after_send lit
reached_failure =
    later (later (later here (update (lit "abcd"))) (spawn 5000))
      (send_failed 6000 [] [] (lit "abc") failure refl)

falls_back : finalize_check f1.display f1.display.latest_content ≡ fallback
unfolding start new set_content spawn_next_streaming_display_action next_streaming_display_action
    try_rollover_streaming_segment active_streaming_segment segment_of is_empty after_send lit
    finalize_check
falls_back = refl

finalize_check-fallback_example : joined f1.channel ≡ []
finalize_check-fallback_example =
    finalize_check-fallback 5000 (some 3) f1 reached_failure falls_back

abbrev f2 : System
f2 = record f1 { display = set_final (f1.display.latest_content ++ []) f1.display }

-- The fallback sends the four characters in one message, on a channel that allows three.
sends_whole : Sent 5000 (some 3) f2 (lit "abcd" ∷ [])
unfolding start new set_content set_final spawn_next_streaming_display_action
    next_streaming_display_action try_rollover_streaming_segment active_streaming_segment segment_of
    is_empty after_send lit finalize_check
sends_whole = fell_back (later reached_failure (finalize [])) refl refl refl

-- A text that does not go on from the committed one: its beginning is never shown.
abbrev r1 : System
r1 = record s3 { display = set_final (lit "vwxyz") s3.display }

abbrev r2 : System
r2 =
    let s = spawn_next_streaming_display_action 9000 r1 in
    record {
      display = after_edit 9000 (lit "yz") (ok tt) s.display;
      pending = [];
      channel = insert s.channel (lit "2") (lit "yz");
    }

replaced :
    ((spawn_next_streaming_display_action 9000 r1).pending ≡ edit_message (lit "2") (lit "yz") ∷ [])
    × (finalize_check r2.display (lit "vwxyz") ≡ returned (ok tt))
    × (joined r2.channel ≡ lit "abcyz")
unfolding start new set_content set_final spawn_next_streaming_display_action
    next_streaming_display_action try_rollover_streaming_segment active_streaming_segment segment_of
    is_empty after_send after_edit get insert text_discrete lit finalize_check
replaced = (refl, refl, refl)
