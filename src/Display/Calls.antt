-- ===== src/Display/Calls.antt =====
-- The ends of the calls to the channel that a streaming display of src/run.rs makes.
use simple_claw.Base.{
  ◌≡◌, ◌≢◌, sym, ap, subst, ◌∙◌, ℕ, Text, List, [], ◌∷◌, ◌++◌, Option, none, some, arith,
}
use simple_claw.Base.Dict.{get, insert}
use simple_claw.Error.{FrameworkError, display, ok, err}
use simple_claw.Display.{StreamingDisplayAction, send_initial, edit_message, after_send, after_edit}
use simple_claw.Display.Steps.{System}
use simple_claw.Display.Shape.{
  joined, Fits, insert-fresh, insert-last, Shape, idle, sending, open_message, editing, failed_send,
  failed_edit,
}

-- The call that has ended is the only one.
alone {ℓ} :
    {A : Type ℓ} (before after : List A) (a b : A)
    → a ∷ [] ≡ before ++ b ∷ after
    → (a ≡ b) × (before ++ after ≡ [])
alone [] after a b h = ground arith
alone (c ∷ []) after a b h = ground arith
alone (c ∷ d ∷ before) after a b h = ground arith

none_pending {ℓ} : {A : Type ℓ} (before after : List A) (b : A) → [] ≢ before ++ b ∷ after
none_pending [] after b = λ h. ground arith
none_pending (c ∷ before) after b = λ h. ground arith

sent_text : (a b : Text) → send_initial a ≡ send_initial b → a ≡ b
sent_text a b h = cc

edited_text : (i j a b : Text) → edit_message i a ≡ edit_message j b → (i ≡ j) × (a ≡ b)
edited_text i j a b h = (cc, cc)

edit_no_send : (i a b : Text) → edit_message i a ≢ send_initial b
edit_no_send i a b = λ h. cc

pub sent-Shape :
    (now : ℕ) (before after : List StreamingDisplayAction) (content id : Text) {limit : Option ℕ}
    {s : System}
    → Shape limit s
    → s.pending ≡ before ++ send_initial content ∷ after
    → get s.channel id ≡ none
    → Shape limit (record {
      display = after_send now content (ok (some id)) s.display;
      pending = before ++ after;
      channel = insert s.channel id content;
    })
unfolding after_send
sent-Shape now before after content id (idle older tail h k fit first) p fresh =
    absurd (none_pending before after _ p)
sent-Shape now before after content id (sending older content' rest h k fit f) p fresh =
    let (same, empty) = alone before after _ _ p in
    let is : content' ≡ content = sent_text content' content same in
    rw empty (
      open_message older id content rest (h ∙ ap (λ x. joined older ++ (x ++ rest)) is) k fit
        (subst (Fits _) is f) fresh (insert-fresh older id content fresh))
sent-Shape now before after content id (open_message older id' content' rest h k fit f g e) p
      fresh =
    absurd (none_pending before after _ p)
sent-Shape now before after content id
      (editing older id' content' rest next left h h' k fit f f' g e) p fresh =
    absurd (edit_no_send id' next content (alone before after _ _ p).0)
sent-Shape now before after content id (failed_send error older tail h k fit) p fresh =
    absurd (none_pending before after _ p)
sent-Shape now before after content id (failed_edit error older id' content' rest h k fit f e) p
      fresh =
    absurd (none_pending before after _ p)

pub send_failed-Shape :
    (now : ℕ) (before after : List StreamingDisplayAction) (content : Text) (e : FrameworkError)
    {limit : Option ℕ} {s : System}
    → Shape limit s
    → s.pending ≡ before ++ send_initial content ∷ after
    → Shape limit
        (record s { display = after_send now content (err e) s.display; pending = before ++ after })
unfolding after_send
send_failed-Shape now before after content e (idle older tail h k fit first) p =
    absurd (none_pending before after _ p)
send_failed-Shape now before after content e (sending older content' rest h k fit f) p =
    rw (alone before after _ _ p).1 (failed_send (display e) older (content' ++ rest) h k fit)
send_failed-Shape now before after content e (open_message older id' content' rest h k fit f g i)
      p =
    absurd (none_pending before after _ p)
send_failed-Shape now before after content e
      (editing older id' content' rest next left h h' k fit f f' g i) p =
    absurd (edit_no_send id' next content (alone before after _ _ p).0)
send_failed-Shape now before after content e (failed_send error older tail h k fit) p =
    absurd (none_pending before after _ p)
send_failed-Shape now before after content e (failed_edit error older id' content' rest h k fit f i)
      p =
    absurd (none_pending before after _ p)

pub edited-Shape :
    (now : ℕ) (before after : List StreamingDisplayAction) (id content : Text) {limit : Option ℕ}
    {s : System}
    → Shape limit s
    → s.pending ≡ before ++ edit_message id content ∷ after
    → Shape limit (record {
      display = after_edit now content (ok tt) s.display;
      pending = before ++ after;
      channel = insert s.channel id content;
    })
unfolding after_edit
edited-Shape now before after id content (idle older tail h k fit first) p =
    absurd (none_pending before after _ p)
edited-Shape now before after id content (sending older content' rest h k fit f) p =
    absurd (edit_no_send id content content' (sym (alone before after _ _ p).0))
edited-Shape now before after id content (open_message older id' content' rest h k fit f g e) p =
    absurd (none_pending before after _ p)
edited-Shape now before after id content
      (editing older id' content' rest next left h h' k fit f f' g e) p =
    let (same, empty) = alone before after _ _ p in
    let is : next ≡ content = (edited_text id' id next content same).1 in
    let there : id' ≡ id = (edited_text id' id next content same).0 in
    rw (empty, ← is, ← there, e)
      (open_message older id' next left h' k fit f' g (insert-last older id' content' next g))
edited-Shape now before after id content (failed_send error older tail h k fit) p =
    absurd (none_pending before after _ p)
edited-Shape now before after id content (failed_edit error older id' content' rest h k fit f e) p =
    absurd (none_pending before after _ p)

pub edit_failed-Shape :
    (now : ℕ) (before after : List StreamingDisplayAction) (id content : Text) (e : FrameworkError)
    {limit : Option ℕ} {s : System}
    → Shape limit s
    → s.pending ≡ before ++ edit_message id content ∷ after
    → Shape limit
        (record s { display = after_edit now content (err e) s.display; pending = before ++ after })
unfolding after_edit
edit_failed-Shape now before after id content e (idle older tail h k fit first) p =
    absurd (none_pending before after _ p)
edit_failed-Shape now before after id content e (sending older content' rest h k fit f) p =
    absurd (edit_no_send id content content' (sym (alone before after _ _ p).0))
edit_failed-Shape now before after id content e (open_message older id' content' rest h k fit f g i)
      p =
    absurd (none_pending before after _ p)
edit_failed-Shape now before after id content e
      (editing older id' content' rest next left h h' k fit f f' g i) p =
    rw (alone before after _ _ p).1 (failed_edit (display e) older id' content' rest h k fit f i)
edit_failed-Shape now before after id content e (failed_send error older tail h k fit) p =
    absurd (none_pending before after _ p)
edit_failed-Shape now before after id content e
      (failed_edit error older id' content' rest h k fit f i) p =
    absurd (none_pending before after _ p)
