-- ===== src/Display/Finalize.antt =====
-- `finalize_streaming_display` of src/run.rs: when it returns, and that it is not stuck.
use mathlib.Core.List.{append-nil}
use simple_claw.Base.{
  ◌≡◌, ◌≢◌, refl, sym, ap, ◌∙◌, ℕ, ◌+◌, ◌≤◌, Text, [], ◌∷◌, ◌++◌, Option, none, some, Bool, true,
  false, length, length-append, length-take, arith, ◌⊎◌, inl, inr, Bool-cases, Option-cases, eqb,
  ltb, is_empty, ◌==◌, text_eq_iff,
}
use simple_claw.Base.Dict.{Dict}
use simple_claw.Error.{Result, ok}
use simple_claw.Display.{
  StreamingDisplay, StreamingDisplayAction, send_initial, edit_message, returned, fallback, waiting,
  finalize_check, ended, is_some, shows, segment, segment_of, ActiveStreamingSegment,
  active_streaming_segment, visible_chars_of,
}
use simple_claw.Display.Steps.{System, Reach, start, spawn_next_streaming_display_action}
use simple_claw.Display.Shape.{
  joined, joined-append, shown_of, length-shown_of, segment_lem, state, Shape, idle, sending,
  open_message, editing, failed_send, failed_edit,
}
use simple_claw.Display.Next.{next-open}
use simple_claw.Display.Growth.{Reach-Shape, Shape-ShowsPrefix}

-- When the loop returns without an error: all is committed, or all of the rest is shown.
ended-ok :
    (d : StreamingDisplay) (content : Text)
    → ended d content ≡ returned (ok tt)
    → (d.committed_prefix_chars ≡ length content)
      ⊎ ((s : ActiveStreamingSegment) × (segment d ≡ some s)
          × (shows d.displayed_segment s.content ≡ true)
          × (d.committed_prefix_chars + s.visible_chars ≡ length content))
unfolding ended
ended-ok d content h = elim (Option-cases (segment d)) [
  | inl e ↦ inl (ground arith)
  | inr (s, e) ↦ elim (Bool-cases (eqb d.committed_prefix_chars (length content))) [
    | inl all ↦ inl (ground arith)
    | inr some_left ↦ inr (s, e, ground arith, ground arith)
  ]
]

all_of : (t a rest : Text) → t ≡ a ++ rest → length t ≤ length a → a ≡ t
all_of t a [] h k = sym (h ∙ append-nil a)
all_of t a (c ∷ rest) h k = absurd (omega (arith, ap length h, length-append a (c ∷ rest)))

channel_length :
    (older channel : Dict Text) (id content : Text)
    → channel ≡ older ++ (id, content) ∷ []
    → length (joined channel) ≡ length (joined older) + length content
channel_length older channel id content e =
    rw (e, joined-append older ((id, content) ∷ []), append-nil content)
      (length-append (joined older) content)

-- What is shown of an open message, when it shows its segment.
open_shown :
    (limit : Option ℕ) (latest a tail content : Text) (committed : ℕ) (s : ActiveStreamingSegment)
    → latest ≡ a ++ tail
    → committed ≡ length a
    → active_streaming_segment latest committed limit ≡ some s
    → (content == s.content) ≡ true
    → length content ≡ s.visible_chars
unfolding segment_of is_empty
open_shown limit latest a [] content committed s h k e same =
    let none_left = sym (segment_lem latest a [] committed limit h k) ∙ e in absurd (ground arith)
open_shown limit latest a (c ∷ t) content committed s h k e same =
    let found = sym (segment_lem latest a (c ∷ t) committed limit h k) ∙ e in
    let shown = length-shown_of limit (c ∷ t) in
    let is : content ≡ s.content = (text_eq_iff content s.content).0 same in
    let same_content : s.content ≡ shown_of limit (c ∷ t) = ground arith in
    let same_count : s.visible_chars ≡ visible_chars_of limit (c ∷ t) = ground arith in
    ap length (is ∙ same_content) ∙ shown ∙ sym same_count

done-length :
    {limit : Option ℕ} {s : System}
    → Shape limit s
    → finalize_check s.display s.display.latest_content ≡ returned (ok tt)
    → length s.display.latest_content ≤ length (joined s.channel)
unfolding finalize_check
done-length {limit} (idle {latest} {committed} {last} {final} older tail h k fit first) e =
    elim (ended-ok (state limit latest committed last final none false false false none) latest e) [
      | inl all ↦ omega (arith, all, k)
      | inr (s, found, shown, all) ↦ absurd (ground arith)
    ]
done-length (sending older content rest h k fit f) e = absurd (ground arith)
done-length {limit}
      (open_message {latest} {committed} {last} {final} {channel} older id content rest h k fit f
        fresh e)
      d =
    elim (ended-ok
      (state limit latest committed last final (some (id, content)) true false false none) latest
      d) [
        | inl all ↦ omega (arith, all, k, channel_length older channel id content e)
        | inr (s, found, shown, all) ↦ omega (
          arith,
          all,
          k,
          channel_length older channel id content e,
          open_shown limit latest (joined older) (content ++ rest) content committed s h k found
              shown,
        )
      ]
done-length (editing older id content rest next left h h' k fit f f' fresh e) d =
    absurd (ground arith)
done-length {limit} (failed_send {latest} {committed} {last} {final} error older tail h k fit) e =
    let d = state limit latest committed last final none true false false (some error) in
    elim (Bool-cases (ltb 0 committed)) [
      | inl begun ↦ absurd (ground arith)
      | inr none_sent ↦ elim (ended-ok d latest (ground arith)) [
        | inl all ↦ omega (arith, all, k)
        | inr (s, found, shown, all) ↦ absurd (ground arith)
      ]
    ]
done-length (failed_edit error older id content rest h k fit f e) d = absurd (ground arith)

-- While the content only grows: when the finalization of the whole content returns without an error,
-- the messages on the channel, in their order, say the content, all of it and nothing else.
pub finalize_check-returned :
    (now : ℕ) (limit : Option ℕ) (s : System)
    → Reach (start now limit) s
    → finalize_check s.display s.display.latest_content ≡ returned (ok tt)
    → joined s.channel ≡ s.display.latest_content
finalize_check-returned now limit s r e =
    let shape = Reach-Shape now limit r in
    let ((rest, h), fit) = Shape-ShowsPrefix shape in
    all_of s.display.latest_content (joined s.channel) rest h (done-length shape e)

ended-fallback :
    (d : StreamingDisplay) (content : Text)
    → ended d content ≡ fallback
    → (is_some d.message_id ≡ false) × (d.committed_prefix_chars ≢ length content)
unfolding ended
ended-fallback d content h = (ground arith, λ e. ground arith)

no_text : (t : Text) → length t ≡ 0 → t ≡ []
no_text [] h = refl
no_text (c ∷ t) h = absurd (omega arith)

empty_joined :
    (older : Dict Text) (committed : ℕ)
    → committed ≡ length (joined older)
    → ltb 0 committed ≡ false
    → joined older ≡ []
empty_joined older committed k h = no_text (joined older) (ground arith)

fallback-Shape :
    {limit : Option ℕ} {s : System}
    → Shape limit s
    → finalize_check s.display s.display.latest_content ≡ fallback
    → joined s.channel ≡ []
unfolding finalize_check
fallback-Shape (idle older tail h k fit first) e = rw first refl
fallback-Shape (sending older content rest h k fit f) e = absurd (ground arith)
fallback-Shape {limit}
      (open_message {latest} {committed} {last} {final} older id content rest h k fit f fresh e) d =
    absurd (
      ground (
        arith,
        ended-fallback
            (state limit latest committed last final (some (id, content)) true false false none)
            latest,
      ))
fallback-Shape (editing older id content rest next left h h' k fit f f' fresh e) d =
    absurd (ground arith)
fallback-Shape (failed_send {committed} error older tail h k fit) e =
    elim (Bool-cases (ltb 0 committed)) [
      | inl begun ↦ absurd (ground arith)
      | inr none_sent ↦ empty_joined older committed k none_sent
    ]
fallback-Shape (failed_edit error older id content rest h k fit f e) d = absurd (ground arith)

-- While the content only grows: the finalization sends the whole content in one message only when
-- nothing of it is on the channel.
pub finalize_check-fallback :
    (now : ℕ) (limit : Option ℕ) (s : System)
    → Reach (start now limit) s
    → finalize_check s.display s.display.latest_content ≡ fallback
    → joined s.channel ≡ []
finalize_check-fallback now limit s r e = fallback-Shape (Reach-Shape now limit r) e

-- An open message that shows all there is ends the loop.
ended-whole :
    (limit : Option ℕ) (latest a tail content id : Text) (committed last : ℕ) (final : Bool)
    → latest ≡ a ++ tail
    → committed ≡ length a
    → (tail ≡ []) ⊎ ((content ≡ shown_of limit tail) × (length tail ≤ visible_chars_of limit tail))
    → ended
        (state limit latest committed last final (some (id, content)) true false false none)
        latest
      ≡ returned (ok tt)
unfolding ended segment_of is_empty
ended-whole limit latest a tail content id committed last final h k (inl none_left) =
    let counted : length latest ≡ committed =
      omega (arith, ap length h, length-append a tail, ap length none_left, k) in
    ground arith
ended-whole limit latest a [] content id committed last final h k (inr (same, all)) =
    let counted : length latest ≡ committed = omega (arith, ap length h, length-append a [], k) in
    ground arith
ended-whole limit latest a (c ∷ t) content id committed last final h k (inr (same, all)) =
    let tail : Text = c ∷ t in
    let shown : (content == shown_of limit tail) ≡ true =
      (text_eq_iff content (shown_of limit tail)).1 same in
    let counted : length latest ≡ committed + visible_chars_of limit tail = omega (
      arith,
      ap length h,
      length-append a tail,
      k,
      all,
      length-shown_of limit tail,
      length-take (visible_chars_of limit tail) tail,
    ) in
    rw (segment_lem latest a tail committed limit h k, shown) (ground arith)

returned_not_waiting : {r : Result (Unit {0})} → returned r ≢ waiting
returned_not_waiting = λ h. cc

ended-waiting :
    (d : StreamingDisplay) (content : Text)
    → ended d content ≡ waiting
    → (d.message_id ≡ none) × (d.displayed_segment ≡ none)
    → ⊥
unfolding ended
ended-waiting d content h (no_id, nothing) = ground (arith, Option-cases (segment d))

progress-Shape :
    (now : ℕ) {limit : Option ℕ} {s : System}
    → Shape limit s
    → s.display.finalized ≡ true
    → s.pending ≡ []
    → finalize_check s.display s.display.latest_content ≡ waiting
    → (action : StreamingDisplayAction) × ((spawn_next_streaming_display_action now s).pending
        ≡ action ∷ [])
unfolding finalize_check spawn_next_streaming_display_action
progress-Shape now {limit} (idle {latest} {committed} {last} {final = fin} older tail h k fit first)
      final quiet e =
    absurd (
      ended-waiting (state limit latest committed last fin none false false false none) latest e
        (refl, refl))
progress-Shape now (sending older content rest h k fit f) final quiet e = absurd (ground arith)
progress-Shape now {limit}
      (open_message {latest} {committed} {last} {final = fin} older id content rest h k fit f fresh
        e)
      final quiet d =
    let d' = state limit latest committed last fin (some (id, content)) true false false none in
    elim (next-open now limit latest (joined older) committed last fin k id content
      (content ++ rest) h) [
        | inl (same, inl early) ↦ absurd (ground arith)
        | inl (same, inr whole) ↦ absurd (
            returned_not_waiting (
              sym (
                ended-whole limit latest (joined older) (content ++ rest) content id committed last
                  fin h k whole)
              ∙ d))
        | inr (inl edit) ↦ (edit_message id (shown_of limit (content ++ rest)), rw edit refl)
        | inr (inr (full, more, split, send)) ↦ (send_initial (shown_of limit more), rw send refl)
      ]
progress-Shape now (editing older id content rest next left h h' k fit f f' fresh e) final quiet d =
    absurd (ground arith)
progress-Shape now {limit}
      (failed_send {latest} {committed} {last} {final = fin} error older tail h k fit) final quiet
      e =
    elim (Bool-cases (ltb 0 committed)) [
      | inl begun ↦ absurd (ground arith)
      | inr none_sent ↦ absurd (
          ended-waiting (state limit latest committed last fin none true false false (some error))
            latest (ground arith) (refl, refl))
    ]
progress-Shape now (failed_edit error older id content rest h k fit f e) final quiet d =
    absurd (ground arith)

-- The finalization is not stuck: while the content only grows, when its loop waits with no call on its
-- way, the next round starts exactly one.
pub finalize_check-progress :
    (now now' : ℕ) (limit : Option ℕ) (s : System)
    → Reach (start now limit) s
    → s.display.finalized ≡ true
    → s.pending ≡ []
    → finalize_check s.display s.display.latest_content ≡ waiting
    → (action : StreamingDisplayAction) × ((spawn_next_streaming_display_action now' s).pending
        ≡ action ∷ [])
finalize_check-progress now now' limit s r final quiet e =
    progress-Shape now' (Reach-Shape now limit r) final quiet e
