-- ===== src/Sse/Chunks.antt =====
-- How a response of src/providers/gemini.rs is cut into chunks does not matter, as long as no
-- character is cut.
use mathlib.Core.Path.{fun_ext}
use mathlib.Core.List.{append_assoc, append-nil}
use simple_claw.Base.{
  ◌≡◌, refl, sym, ap, subst, ◌∙◌, ℕ, Text, List, [], ◌∷◌, ◌++◌, map, Option, none, some, ◌⊎◌, inl,
  inr, eqb, false, Bool-cases, arith,
}
use simple_claw.Error.{display, ok, err}
use simple_claw.Agent.{StreamEvent, failed}
use simple_claw.Sse.{
  Accumulator, Bytes, Pushed, follow, then_on, keep_buffer, after_push, sent_on, lines_of,
  extend_first, without_cr, received, process_lines, push_str, push_bytes, finish, generate_stream,
}

lines_and : List Text → List Text × Text → List Text × Text
lines_and first (lines, rest) = (first ++ lines, rest)

extended :
    (c : ℕ) (before : List Text × Text) (b : Text)
    → eqb c 10 ≡ false
    → extend_first c (lines_and before.0 (lines_of (before.1 ++ b)))
      ≡ lines_and (extend_first c before).0 (lines_of ((extend_first c before).1 ++ b))
unfolding lines_of lines_and extend_first
extended c ([], rest) b e = rw e refl
extended c (line ∷ lines, rest) b e = refl

-- The lines of a text whose beginning has been cut into lines before.
lines_of-append :
    (a b : Text) → lines_of (a ++ b) ≡ lines_and (lines_of a).0 (lines_of ((lines_of a).1 ++ b))
unfolding lines_of lines_and
lines_of-append [] b = refl
lines_of-append (c ∷ a) b = elim (Bool-cases (eqb c 10)) [
  | inl e ↦ rw (e, lines_of-append a b) refl
  | inr e ↦ rw (e, lines_of-append a b) (extended c (lines_of a) b e)
]

follow-then_on :
    {S T : Type 0} (events : List StreamEvent) (p : Pushed S) (g : S → Pushed T)
    → follow (then_on events p) g ≡ then_on events (follow p g)
unfolding follow then_on
follow-then_on events (more, err e) g = refl
follow-then_on events (more, ok s) g = ap (λ x. (x, (g s).1)) (append_assoc events more (g s).0)

-- A method that is followed by two others.
follow_assoc :
    {S T U : Type 0} (p : Pushed S) (f : S → Pushed T) (g : T → Pushed U)
    → follow (follow p f) g ≡ follow p (λ s. follow (f s) g)
unfolding follow
follow_assoc (events, err e) f g = refl
follow_assoc (events, ok s) f g = follow-then_on events (f s) g

-- Both end with the same failure, or they are the same.
abbrev last : List StreamEvent → Option StreamEvent
last [] = none
last (e ∷ []) = some e
last (e ∷ f ∷ es) = last (f ∷ es)

abbrev pub Agree : List StreamEvent → List StreamEvent → Type 0
Agree x y =
    (x ≡ y)
    ⊎ ((message : Text) × (last x ≡ some (failed message)) × (last y ≡ some (failed message)))

last-append : (x y : List StreamEvent) (e : StreamEvent) → last y ≡ some e → last (x ++ y) ≡ some e
last-append [] y e h = h
last-append (a ∷ []) [] e h = absurd (ground arith)
last-append (a ∷ []) (b ∷ y) e h = h
last-append (a ∷ b ∷ x) y e h = last-append (b ∷ x) y e h

Agree-trans : (x y z : List StreamEvent) → Agree x y → Agree y z → Agree x z
Agree-trans x y z (inl e) h = subst (λ w. Agree w z) (sym e) h
Agree-trans x y z h (inl e) = subst (λ w. Agree x w) e h
Agree-trans x y z (inr (m, h, k)) (inr (n, h', k')) = inr (n, h ∙ (sym k ∙ h'), k')

Agree-append : (a x y : List StreamEvent) → Agree x y → Agree (a ++ x) (a ++ y)
Agree-append a x y (inl e) = inl (ap (λ w. a ++ w) e)
Agree-append a x y (inr (m, h, k)) = inr (m, last-append a x _ h, last-append a y _ k)

continued :
    {S : Type 0} (events : List StreamEvent) (p : Pushed S) (rest : Text)
    (next : Text × S → List StreamEvent)
    → Agree
        (events ++ after_push (keep_buffer rest p) next)
        (after_push (keep_buffer rest (then_on events p)) next)
unfolding after_push keep_buffer then_on
continued events (more, ok s) rest next = inl (sym (append_assoc events more (next (rest, s))))
continued events (more, err e) rest next =
    inr (display e, last-append events (failed (display e) ∷ []) _ refl, refl)

-- Two pushes, and one push of both texts: an error in the second one loses the events of the first
-- only when they come in one chunk.
pushed_twice :
    {S : Type 0} (p : Pushed S) (f : S → Pushed S) (g : Text × S → Pushed (Text × S))
    (rest rest' : Text) (next : Text × S → List StreamEvent)
    → ((s : S) → g (rest, s) ≡ keep_buffer rest' (f s))
    → Agree
        (after_push (keep_buffer rest p) (λ state. after_push (g state) next))
        (after_push (keep_buffer rest' (follow p f)) next)
unfolding after_push keep_buffer follow
pushed_twice (events, err e) f g rest rest' next same = inl refl
pushed_twice (events, ok s) f g rest rest' next same =
    rw (same s) (continued events (f s) rest' next)

abbrev pub joined : List Text → Text
joined [] = []
joined (t ∷ ts) = t ++ joined ts

module _ {S : Type 0} (self : Accumulator S) where
  process_lines-append :
      (a b : List Text) (s : S)
      → process_lines self (a ++ b) s
        ≡ follow (process_lines self a s) (λ s'. process_lines self b s')
  unfolding process_lines follow then_on
  process_lines-append [] b s = refl
  process_lines-append (line ∷ a) b s =
      ap (follow (self.process_line s (without_cr line)))
        (fun_ext (λ s'. process_lines-append a b s'))
      ∙ sym (
          follow_assoc (self.process_line s (without_cr line)) (λ s'. process_lines self a s')
            (λ s'. process_lines self b s'))

  push_whole :
      (buffer a b : Text) (s : S)
      → let before = lines_of (buffer ++ a) in
        let after = lines_of (before.1 ++ b) in
        push_str self (buffer, s) (a ++ b)
        ≡ keep_buffer after.1
            (follow (process_lines self before.0 s) (λ s'. process_lines self after.0 s'))
  unfolding push_str lines_and
  push_whole buffer a b s =
      let before = lines_of (buffer ++ a) in
      let after = lines_of (before.1 ++ b) in
      let cut : lines_of (buffer ++ (a ++ b)) ≡ lines_and before.0 after =
        ap lines_of (sym (append_assoc buffer a b)) ∙ lines_of-append (buffer ++ a) b in
      ap (λ (x : List Text × Text). keep_buffer x.1 (process_lines self x.0 s)) cut
      ∙ ap (keep_buffer after.1) (process_lines-append before.0 after.0 s)

  push_twice :
      (state : Text × S) (a b : Text) (next : Text × S → List StreamEvent)
      → Agree
          (after_push (push_str self state a) (λ state'. after_push (push_str self state' b) next))
          (after_push (push_str self state (a ++ b)) next)
  unfolding push_str
  push_twice (buffer, s) a b next =
      let before = lines_of (buffer ++ a) in
      let after = lines_of (before.1 ++ b) in
      subst
        (λ p.
          Agree
            (after_push (push_str self (buffer, s) a)
              (λ state'. after_push (push_str self state' b) next))
            (after_push p next))
        (sym (push_whole buffer a b s))
        (pushed_twice (process_lines self before.0 s) (λ s'. process_lines self after.0 s')
          (λ state'. push_str self state' b) before.1 after.1 next (λ s'. refl))

  -- The texts of the chunks, in place of their bytes.
  drive : Text × S → List Text → List StreamEvent
  drive state [] = sent_on (finish self state)
  drive state (t ∷ ts) = after_push (push_str self state t) (λ state'. drive state' ts)

  drive-joined :
      (ts : List Text) (t : Text) (state : Text × S)
      → Agree (drive state (t ∷ ts)) (drive state ((t ++ joined ts) ∷ []))
  unfolding drive
  drive-joined [] t state = inl (ap (λ x. drive state (x ∷ [])) (sym (append-nil t)))
  drive-joined (u ∷ ts) t state =
      Agree-trans _ _ _ (push_twice state t u (λ state'. drive state' ts)) (
        subst (λ x. Agree (drive state ((t ++ u) ∷ ts)) (drive state (x ∷ [])))
          (append_assoc t u (joined ts)) (drive-joined ts (t ++ u) state))

  -- Each chunk is the bytes of whole characters.
  abbrev pub Decodes : List Bytes → List Text → Type 0
  Decodes [] [] = Unit
  Decodes (bytes ∷ chunks) (t ∷ ts) = (self.from_utf8 bytes ≡ inr t) × Decodes chunks ts
  Decodes _ _ = ⊥

  generate_stream-drive :
      (chunks : List Bytes) (ts : List Text) (state : Text × S)
      → Decodes chunks ts
      → generate_stream self state (map received chunks) ≡ drive state ts
  unfolding generate_stream drive push_bytes
  generate_stream-drive [] [] state h = refl
  generate_stream-drive [] (t ∷ ts) state h = elim h [ ]
  generate_stream-drive (bytes ∷ chunks) [] state h = elim h [ ]
  generate_stream-drive (bytes ∷ chunks) (t ∷ ts) state (h, hs) = rw h (
      ap (after_push (push_str self state t))
        (fun_ext (λ state'. generate_stream-drive chunks ts state' hs)))

  -- A response that comes in several chunks, each of whole characters, gives the events that it gives
  -- in one chunk; if one of the two fails, both end with the same failure.
  pub generate_stream-chunks :
      (state : Text × S) (bytes whole : Bytes) (chunks : List Bytes) (t : Text) (ts : List Text)
      → Decodes (bytes ∷ chunks) (t ∷ ts)
      → self.from_utf8 whole ≡ inr (t ++ joined ts)
      → Agree
          (generate_stream self state (map received (bytes ∷ chunks)))
          (generate_stream self state (received whole ∷ []))
  generate_stream-chunks state bytes whole chunks t ts h k =
      rw
        (
          generate_stream-drive (bytes ∷ chunks) (t ∷ ts) state h,
          generate_stream-drive (whole ∷ []) ((t ++ joined ts) ∷ []) state (k, tt),
        )
        (drive-joined ts t state)
