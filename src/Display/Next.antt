-- ===== src/Display/Next.antt =====
-- What `next_streaming_display_action` of src/run.rs does in the states that a display reaches.
use mathlib.Core.List.{append_assoc, append-nil}
use simple_claw.Base.{
  ◌≡◌, refl, sym, ap, ◌∙◌, ℕ, zero, suc, ◌+◌, ◌≤◌, Text, [], ◌∷◌, ◌++◌, Option, none, some, Bool,
  true, false, ltb, length, length-append, take, drop, is_empty, arith, ◌==◌, ◌&&◌, ◌||◌,
  Bool-cases, Option-cases, ◌⊎◌, inl, inr, text_eq_iff, not, ◌<◌, ◌-◌, length-take,
}
use simple_claw.Display.{
  StreamingDisplay, send_initial, edit_message, visible_chars_of, active_streaming_segment,
  segment_of, segment, shows, streaming_edit_interval, ActiveStreamingSegment,
  next_streaming_display_action, try_rollover_streaming_segment,
}
use simple_claw.Display.Shape.{take-drop, shown_of, state, segment_lem}

not_empty : (a : Text) (c : ℕ) (t : Text) → is_empty (a ++ c ∷ t) ≡ false
unfolding is_empty
not_empty [] c t = refl
not_empty (b ∷ a) c t = refl

-- Without a message there is nothing to roll over.
rollover-idle :
    (limit : Option ℕ) (latest : Text) (committed last : ℕ) (final attempted sends : Bool)
    → let d = state limit latest committed last final none attempted sends false none in
      try_rollover_streaming_segment d ≡ (false, d)
unfolding try_rollover_streaming_segment
rollover-idle limit latest committed last final attempted sends =
    ground (arith, Option-cases (active_streaming_segment latest committed limit))

rollover-nothing :
    (d : StreamingDisplay) → segment d ≡ none → try_rollover_streaming_segment d ≡ (false, d)
unfolding try_rollover_streaming_segment
rollover-nothing d h = rw h (ground arith)

rollover-kept :
    (d : StreamingDisplay) (s : ActiveStreamingSegment)
    → segment d ≡ some s
    → (s.has_overflow && shows d.displayed_segment s.content) ≡ false
    → try_rollover_streaming_segment d ≡ (false, d)
unfolding try_rollover_streaming_segment
rollover-kept d s h k = rw h (ground arith)

rolled :
    (d : StreamingDisplay) (s : ActiveStreamingSegment)
    → segment d ≡ some s
    → (d.send_in_flight || d.edit_in_flight || d.terminal_failure) ≡ false
    → s.has_overflow ≡ true
    → shows d.displayed_segment s.content ≡ true
    → try_rollover_streaming_segment d ≡ (
      true,
      record d {
        committed_prefix_chars = d.committed_prefix_chars + s.visible_chars;
        displayed_segment = none;
        message_id = none;
        initial_send_attempted = false;
        error_message = none;
      },
    )
unfolding try_rollover_streaming_segment
rolled d s h k o e = rw (h, k, o, e) refl

-- A part of a text is left over when the text is longer.
left_over : (n : ℕ) (t : Text) → ltb n (length t) ≡ true → (c : ℕ) × (u : Text) × (drop n t ≡ c ∷ u)
left_over zero [] h = absurd (ground arith)
left_over zero (c ∷ t) h = (c, t, refl)
left_over (suc n) [] h = absurd (ground arith)
left_over (suc n) (c ∷ t) h = left_over n t (ground arith)

module _ (now : ℕ) (limit : Option ℕ) (latest a : Text) (committed last : ℕ) (final : Bool)
    (k : committed ≡ length a) where
  pub next-idle_none :
      latest ≡ a
      → let d = state limit latest committed last final none false false false none in
        next_streaming_display_action now d ≡ (none, d)
  unfolding next_streaming_display_action segment_of is_empty
  next-idle_none h =
      rw
        (
          rollover-idle limit latest committed last final false false,
          segment_lem latest a [] committed limit (h ∙ sym (append-nil a)) k,
        )
        (ground arith)

  pub next-idle_some :
      (c : ℕ) (t : Text)
      → latest ≡ a ++ c ∷ t
      → next_streaming_display_action now
          (state limit latest committed last final none false false false none)
        ≡ (
          some (send_initial (shown_of limit (c ∷ t))),
          state limit latest committed last final none true true false none,
        )
  unfolding next_streaming_display_action segment_of is_empty
  next-idle_some c t h =
      let full : is_empty latest ≡ false = rw h (not_empty a c t) in
      rw
        (
          rollover-idle limit latest committed last final false false,
          segment_lem latest a (c ∷ t) committed limit h k,
          full,
        )
        refl

  -- What becomes of an open message: nothing, an edit, or the next message.
  pub next-open :
      (id content tail : Text)
      → latest ≡ a ++ tail
      → let d =
          state limit latest committed last final (some (id, content)) true false false none in
        let shown = shown_of limit tail in
        ((next_streaming_display_action now d ≡ (none, d))
          × ((final ≡ false)
              ⊎ ((tail ≡ []) ⊎ ((content ≡ shown) × (length tail ≤ visible_chars_of limit tail)))))
        ⊎ ((next_streaming_display_action now d ≡ (
          some (edit_message id shown),
          state limit latest committed last final (some (id, content)) true false true none,
        ))
            ⊎ ((content ≡ shown)
                × (rest : Text) × (tail ≡ shown ++ rest)
                × (next_streaming_display_action now d ≡ (
                  some (send_initial (shown_of limit rest)),
                  state limit latest
                      (committed + visible_chars_of limit tail)
                      last
                      final
                      none
                      true
                      true
                      false
                      none,
                ))))
  unfolding next_streaming_display_action segment_of is_empty
  next-open id content [] h =
      let d = state limit latest committed last final (some (id, content)) true false false none in
      let nothing : segment d ≡ none = segment_lem latest a [] committed limit h k in
      inl (rw (rollover-nothing d nothing, nothing) (ground arith), inr (inl refl))
  next-open id content (c ∷ t) h =
      let d = state limit latest committed last final (some (id, content)) true false false none in
      let full : is_empty latest ≡ false = rw h (not_empty a c t) in
      let tail : Text = c ∷ t in
      let n = visible_chars_of limit tail in
      let found : segment d
          ≡ some (record {
            content = take n tail;
            visible_chars = n;
            has_overflow = ltb n (length tail);
          }) =
        segment_lem latest a tail committed limit h k in
      elim (Bool-cases (content == shown_of limit tail)) [
        | inl e ↦ elim (Bool-cases (ltb n (length tail))) [
          | inl more ↦
              let (b, u, rest) = left_over n tail more in
              let shown = shown_of limit tail in
              let whole : tail ≡ shown ++ b ∷ u = take-drop n tail ∙ ap (λ x. shown ++ x) rest in
              let split : latest ≡ (a ++ shown) ++ b ∷ u =
                h ∙ ap (λ x. a ++ x) whole ∙ sym (append_assoc a shown (b ∷ u)) in
              let below : n < length tail = ground arith in
              let counted : committed + n ≡ length (a ++ shown) =
                omega (arith, length-append a shown, k, length-take n tail) in
              let next_segment =
                segment_lem latest (a ++ shown) (b ∷ u) (committed + n) limit split counted in
              inr (
                inr (
                  (text_eq_iff content shown).0 e,
                  b ∷ u,
                  whole,
                  rw (rolled d _ found refl more e, full, next_segment) refl,
                ))
          | inr all ↦ inl (
            rw (rollover-kept d _ found (rw all refl), full, found, e) refl,
            inr (inr ((text_eq_iff content (shown_of limit tail)).0 e, ground arith)),
          )
        ]
        | inr e ↦
            let kept = rollover-kept d _ found (ground arith) in
            elim (Bool-cases (not final && ltb (now - last) streaming_edit_interval)) [
              | inl early ↦ inl (rw (kept, full, found, e, early) refl, inl (ground arith))
              | inr due ↦ inr (inl (rw (kept, full, found, e, due) refl))
            ]
      ]

  -- Nothing is started while a call is on its way.
  pub next-sending :
      let d = state limit latest committed last final none true true false none in
      next_streaming_display_action now d ≡ (none, d)
  unfolding next_streaming_display_action
  next-sending =
      rw (rollover-idle limit latest committed last final true true)
        (ground (arith, Option-cases (active_streaming_segment latest committed limit)))

  pub next-editing :
      (id content : Text)
      → let d = state limit latest committed last final (some (id, content)) true false true none in
        next_streaming_display_action now d ≡ (none, d)
  unfolding next_streaming_display_action try_rollover_streaming_segment
  next-editing id content =
      ground (arith, Option-cases (active_streaming_segment latest committed limit))
