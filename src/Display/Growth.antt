-- ===== src/Display/Growth.antt =====
-- What a streaming display of src/run.rs shows while its content grows.
use mathlib.Core.List.{append_assoc, append-nil}
use simple_claw.Base.{
  ◌≡◌, refl, sym, ap, ◌∙◌, ℕ, ◌+◌, Text, [], ◌∷◌, ◌++◌, Option, Bool, true, length, length-append,
  drop, arith, inl, inr,
}
use simple_claw.Base.Dict.{Dict}
use simple_claw.Display.{visible_chars_of, new}
use simple_claw.Display.Steps.{
  System, Step, update, finalize, spawn, sent, send_failed, edited, edit_failed, Reach, here, later,
  start, spawn_next_streaming_display_action, set_content, set_final,
}
use simple_claw.Display.Shape.{
  joined, Fits, AllFit, joined-append, AllFit-append, take-drop, shown_of, length-shown_of,
  shown_of-Fits, Shape, idle, sending, open_message, editing, failed_send, failed_edit,
}
use simple_claw.Display.Calls.{sent-Shape, send_failed-Shape, edited-Shape, edit_failed-Shape}
use simple_claw.Display.Next.{next-idle_none, next-idle_some, next-open, next-sending, next-editing}

spawn-Shape :
    (now : ℕ) {limit : Option ℕ} {s : System}
    → Shape limit s
    → Shape limit (spawn_next_streaming_display_action now s)
unfolding spawn_next_streaming_display_action
spawn-Shape now {limit} (idle {latest} {committed} {last} {final} older [] h k fit first) =
    rw (next-idle_none now limit latest (joined older) committed last final k (h ∙ append-nil _))
      (idle older [] h k fit first)
spawn-Shape now {limit} (idle {latest} {committed} {last} {final} older (c ∷ t) h k fit first) =
    rw (next-idle_some now limit latest (joined older) committed last final k c t h) (
      sending older (shown_of limit (c ∷ t)) (drop (visible_chars_of limit (c ∷ t)) (c ∷ t))
        (h ∙ ap (λ x. joined older ++ x) (take-drop _ (c ∷ t))) k fit (shown_of-Fits limit (c ∷ t)))
spawn-Shape now {limit} (sending {latest} {committed} {last} {final} older content rest h k fit f) =
    rw (next-sending now limit latest (joined older) committed last final k)
      (sending older content rest h k fit f)
spawn-Shape now {limit}
      (open_message {latest} {committed} {last} {final} older id content rest h k fit f fresh e) =
    let tail = content ++ rest in
    elim (next-open now limit latest (joined older) committed last final k id content tail h) [
      | inl (same, why) ↦ rw same (open_message older id content rest h k fit f fresh e)
      | inr (inl edit) ↦
          let next = shown_of limit tail in
          let left = drop (visible_chars_of limit tail) tail in
          rw edit (
            editing older id content rest next left h
              (h ∙ ap (λ x. joined older ++ x) (take-drop _ tail)) k fit f
              (shown_of-Fits limit tail) fresh e)
      | inr (inr (full, more, split, send)) ↦
          let older' = older ++ (id, content) ∷ [] in
          let all : joined older' ≡ joined older ++ content =
            joined-append older ((id, content) ∷ [])
            ∙ ap (λ x. joined older ++ x) (append-nil content) in
          let whole : latest ≡ joined older' ++ more =
            h
            ∙ ap (λ x. joined older ++ x) (split ∙ ap (λ x. x ++ more) (sym full))
            ∙ sym (append_assoc (joined older) content more)
            ∙ ap (λ x. x ++ more) (sym all) in
          let counted : committed + visible_chars_of limit tail ≡ length (joined older') = omega (
            arith,
            k,
            ap length all,
            length-append (joined older) content,
            ap length full,
            length-shown_of limit tail,
          ) in
          rw (send, e)
            (sending older' (shown_of limit more) (drop (visible_chars_of limit more) more)
              (whole ∙ ap (λ x. joined older' ++ x) (take-drop _ more)) counted
              (AllFit-append limit older ((id, content) ∷ []) fit (f, tt))
              (shown_of-Fits limit more))
    ]
spawn-Shape now {limit}
      (editing {latest} {committed} {last} {final} older id content rest next left h h' k fit f f'
        fresh e) =
    rw (next-editing now limit latest (joined older) committed last final k id content)
      (editing older id content rest next left h h' k fit f f' fresh e)
spawn-Shape now (failed_send error older tail h k fit) = failed_send error older tail h k fit
spawn-Shape now (failed_edit error older id content rest h k fit f e) =
    failed_edit error older id content rest h k fit f e

-- What the content says goes on behind the old content.
extended : (latest a b more : Text) → latest ≡ a ++ b → latest ++ more ≡ a ++ (b ++ more)
extended latest a b more h = ap (λ x. x ++ more) h ∙ append_assoc a b more

grown :
    (latest a b c more : Text) → latest ≡ a ++ (b ++ c) → latest ++ more ≡ a ++ (b ++ (c ++ more))
grown latest a b c more h =
    extended latest a (b ++ c) more h ∙ ap (λ x. a ++ x) (append_assoc b c more)

-- A longer content keeps what has been shown, whether it is the last one or not.
content-Shape :
    (more : Text) (final : Bool) {limit : Option ℕ} {s : System}
    → Shape limit s
    → Shape limit (record s {
      display = record s.display {
        latest_content = s.display.latest_content ++ more;
        finalized = final;
      };
    })
content-Shape more final (idle older tail h k fit first) =
    idle older (tail ++ more) (extended _ (joined older) tail more h) k fit first
content-Shape more final (sending older content rest h k fit f) =
    sending older content (rest ++ more) (grown _ (joined older) content rest more h) k fit f
content-Shape more final (open_message older id content rest h k fit f fresh e) =
    open_message older id content (rest ++ more) (grown _ (joined older) content rest more h) k fit
      f fresh e
content-Shape more final (editing older id content rest next left h h' k fit f f' fresh e) =
    editing older id content (rest ++ more) next (left ++ more)
      (grown _ (joined older) content rest more h) (grown _ (joined older) next left more h') k fit
      f f' fresh e
content-Shape more final (failed_send error older tail h k fit) =
    failed_send error older (tail ++ more) (extended _ (joined older) tail more h) k fit
content-Shape more final (failed_edit error older id content rest h k fit f e) =
    failed_edit error older id content (rest ++ more) (grown _ (joined older) content rest more h) k
      fit f e

Step-Shape : {limit : Option ℕ} {s t : System} → Step s t → Shape limit s → Shape limit t
unfolding set_content set_final
Step-Shape {s} (update more) h = content-Shape more s.display.finalized h
Step-Shape (finalize more) h = content-Shape more true h
Step-Shape (spawn now) h = spawn-Shape now h
Step-Shape (sent now before after content id p fresh) h =
    sent-Shape now before after content id h p fresh
Step-Shape (send_failed now before after content e p) h =
    send_failed-Shape now before after content e h p
Step-Shape (edited now before after id content p) h = edited-Shape now before after id content h p
Step-Shape (edit_failed now before after id content e p) h =
    edit_failed-Shape now before after id content e h p

pub Reach-Shape :
    (now : ℕ) (limit : Option ℕ) {s : System} → Reach (start now limit) s → Shape limit s
unfolding start new
Reach-Shape now limit here = idle [] [] refl refl tt refl
Reach-Shape now limit (later r step) = Step-Shape step (Reach-Shape now limit r)

-- What is shown is a beginning of the content, and no message is too long.
abbrev pub ShowsPrefix : Option ℕ → System → Type 0
ShowsPrefix limit s =
    ((rest : Text) × (s.display.latest_content ≡ joined s.channel ++ rest)) × AllFit limit s.channel

one_more :
    (latest : Text) (older channel : Dict Text) (id content rest : Text) (limit : Option ℕ)
    → latest ≡ joined older ++ (content ++ rest)
    → channel ≡ older ++ (id, content) ∷ []
    → AllFit limit older
    → Fits limit content
    → ((rest : Text) × (latest ≡ joined channel ++ rest)) × AllFit limit channel
one_more latest older channel id content rest limit h e fit f = rw e (
  (
    rest,
    h
        ∙ sym (append_assoc (joined older) content rest)
        ∙ ap (λ x. (joined older ++ x) ++ rest) (sym (append-nil content))
        ∙ ap (λ x. x ++ rest) (sym (joined-append older ((id, content) ∷ []))),
  ),
  AllFit-append limit older ((id, content) ∷ []) fit (f, tt),
)

pub Shape-ShowsPrefix : {limit : Option ℕ} {s : System} → Shape limit s → ShowsPrefix limit s
Shape-ShowsPrefix (idle older tail h k fit first) = ((tail, h), fit)
Shape-ShowsPrefix (sending older content rest h k fit f) = ((content ++ rest, h), fit)
Shape-ShowsPrefix {limit} (open_message older id content rest h k fit f fresh e) =
    one_more _ older _ id content rest limit h e fit f
Shape-ShowsPrefix {limit} (editing older id content rest next left h h' k fit f f' fresh e) =
    one_more _ older _ id content rest limit h e fit f
Shape-ShowsPrefix (failed_send error older tail h k fit) = ((tail, h), fit)
Shape-ShowsPrefix {limit} (failed_edit error older id content rest h k fit f e) =
    one_more _ older _ id content rest limit h e fit f

-- Along the steps, of which the fallback's message is none: while the content only grows, whatever calls
-- fail and in whatever order the tasks run, the messages on the channel, in their order, are a beginning of
-- the content, and none is longer than the limit.
pub Reach-ShowsPrefix :
    (now : ℕ) (limit : Option ℕ) (s : System) → Reach (start now limit) s → ShowsPrefix limit s
Reach-ShowsPrefix now limit s r = Shape-ShowsPrefix (Reach-Shape now limit r)
