-- ===== src/Display/Shape.antt =====
-- The states that a streaming display reaches: what has been committed, which message is open, and
-- which call is on its way.
use mathlib.Core.List.{append_assoc}
use simple_claw.Base.{
  ◌≡◌, refl, sym, ap, ℕ, zero, suc, ◌≤◌, Text, [], ◌∷◌, ◌++◌, Option, none, some, Bool, true, false,
  length, length-take, take, drop, arith, text_eq_refl,
}
use simple_claw.Base.Dict.{Dict, get, insert}
use simple_claw.Display.{
  StreamingDisplay, send_initial, edit_message, visible_chars_of, active_streaming_segment,
  segment_of, is_some,
}
use simple_claw.Display.Steps.{System}

-- What the messages of a channel say, in their order.
abbrev pub joined : Dict Text → Text
joined [] = []
joined ((id, content) ∷ m) = content ++ joined m

-- No longer than the channel allows.
abbrev pub Fits : Option ℕ → Text → Type 0
Fits none content = Unit
Fits (some limit) content = length content ≤ limit

abbrev pub AllFit : Option ℕ → Dict Text → Type 0
AllFit limit [] = Unit
AllFit limit ((id, content) ∷ m) = Fits limit content × AllFit limit m

pub joined-append : (a b : Dict Text) → joined (a ++ b) ≡ joined a ++ joined b
joined-append [] b = refl
joined-append ((id, c) ∷ a) b = rw (joined-append a b) (sym (append_assoc c (joined a) (joined b)))

pub AllFit-append :
    (limit : Option ℕ) (a b : Dict Text) → AllFit limit a → AllFit limit b → AllFit limit (a ++ b)
AllFit-append limit [] b h k = k
AllFit-append limit ((id, c) ∷ a) b (h, hs) k = (h, AllFit-append limit a b hs k)

pub insert-fresh :
    (m : Dict Text) (id content : Text)
    → get m id ≡ none
    → insert m id content ≡ m ++ (id, content) ∷ []
unfolding insert get
insert-fresh [] id content h = refl
insert-fresh ((j, w) ∷ m) id content h = ground (arith, insert-fresh m id content)

pub insert-last :
    (m : Dict Text) (id old content : Text)
    → get m id ≡ none
    → insert (m ++ (id, old) ∷ []) id content ≡ m ++ (id, content) ∷ []
unfolding insert get
insert-last [] id old content h = rw (text_eq_refl id) refl
insert-last ((j, w) ∷ m) id old content h = ground (arith, insert-last m id old content)

pub drop-append : (a b : Text) → drop (length a) (a ++ b) ≡ b
drop-append [] b = refl
drop-append (c ∷ a) b = drop-append a b

pub take-drop : (n : ℕ) (t : Text) → t ≡ take n t ++ drop n t
take-drop zero t = refl
take-drop (suc n) [] = refl
take-drop (suc n) (c ∷ t) = ap (λ s. c ∷ s) (take-drop n t)

-- The part of a tail that is shown.
abbrev pub shown_of : Option ℕ → Text → Text
shown_of limit tail = take (visible_chars_of limit tail) tail

pub shown_of-Fits : (limit : Option ℕ) (tail : Text) → Fits limit (shown_of limit tail)
shown_of-Fits none tail = tt
shown_of-Fits (some limit) tail =
    omega (arith, length-take (visible_chars_of (some limit) tail) tail)

pub length-shown_of :
    (limit : Option ℕ) (tail : Text) → length (shown_of limit tail) ≡ visible_chars_of limit tail
length-shown_of none tail = omega (arith, length-take (length tail) tail)
length-shown_of (some limit) tail =
    omega (arith, length-take (visible_chars_of (some limit) tail) tail)

pub segment_lem :
    (latest older tail : Text) (committed : ℕ) (limit : Option ℕ)
    → latest ≡ older ++ tail
    → committed ≡ length older
    → active_streaming_segment latest committed limit ≡ segment_of limit tail
unfolding active_streaming_segment
segment_lem latest older tail committed limit h k = rw (h, k, drop-append older tail) refl

abbrev content_of : Option (Text × Text) → Option Text
content_of none = none
content_of (some (id, content)) = some content

abbrev id_of : Option (Text × Text) → Option Text
id_of none = none
id_of (some (id, content)) = some id

-- The state of a display, by what is on its way, what it shows and how it has failed.
abbrev pub state :
    Option ℕ
    → Text
    → ℕ
    → ℕ
    → Bool
    → Option (Text × Text)
    → Bool
    → Bool
    → Bool
    → Option Text
    → StreamingDisplay
state limit latest committed last final shown attempted sends edits error = record {
  channel_limit = limit;
  latest_content = latest;
  committed_prefix_chars = committed;
  displayed_segment = content_of shown;
  message_id = id_of shown;
  last_edit = last;
  initial_send_attempted = attempted;
  send_in_flight = sends;
  edit_in_flight = edits;
  finalized = final;
  terminal_failure = is_some error;
  error_message = error;
}

-- `older` are the messages that are complete, and `tail` is what comes after them.
pub data Shape (limit : Option ℕ) : System → Type 0 where
  idle :
      {latest : Text} {committed last : ℕ} {final : Bool} (older : Dict Text) (tail : Text)
      → latest ≡ joined older ++ tail
      → committed ≡ length (joined older)
      → AllFit limit older
      → older ≡ []
      → Shape limit (record {
        display = state limit latest committed last final none false false false none;
        pending = [];
        channel = older;
      })
  sending :
      {latest : Text} {committed last : ℕ} {final : Bool} (older : Dict Text) (content rest : Text)
      → latest ≡ joined older ++ (content ++ rest)
      → committed ≡ length (joined older)
      → AllFit limit older
      → Fits limit content
      → Shape limit (record {
        display = state limit latest committed last final none true true false none;
        pending = send_initial content ∷ [];
        channel = older;
      })
  open_message :
      {latest : Text} {committed last : ℕ} {final : Bool} {channel : Dict Text} (older : Dict Text)
      (id content rest : Text)
      → latest ≡ joined older ++ (content ++ rest)
      → committed ≡ length (joined older)
      → AllFit limit older
      → Fits limit content
      → get older id ≡ none
      → channel ≡ older ++ (id, content) ∷ []
      → Shape limit (record {
        display =
            state limit latest committed last final (some (id, content)) true false false none;
        pending = [];
        channel = channel;
      })
  editing :
      {latest : Text} {committed last : ℕ} {final : Bool} {channel : Dict Text} (older : Dict Text)
      (id content rest next left : Text)
      → latest ≡ joined older ++ (content ++ rest)
      → latest ≡ joined older ++ (next ++ left)
      → committed ≡ length (joined older)
      → AllFit limit older
      → Fits limit content
      → Fits limit next
      → get older id ≡ none
      → channel ≡ older ++ (id, content) ∷ []
      → Shape limit (record {
        display = state limit latest committed last final (some (id, content)) true false true none;
        pending = edit_message id next ∷ [];
        channel = channel;
      })
  failed_send :
      {latest : Text} {committed last : ℕ} {final : Bool} (error : Text) (older : Dict Text)
      (tail : Text)
      → latest ≡ joined older ++ tail
      → committed ≡ length (joined older)
      → AllFit limit older
      → Shape limit (record {
        display = state limit latest committed last final none true false false (some error);
        pending = [];
        channel = older;
      })
  failed_edit :
      {latest : Text} {committed last : ℕ} {final : Bool} {channel : Dict Text} (error : Text)
      (older : Dict Text) (id content rest : Text)
      → latest ≡ joined older ++ (content ++ rest)
      → committed ≡ length (joined older)
      → AllFit limit older
      → Fits limit content
      → channel ≡ older ++ (id, content) ∷ []
      → Shape limit (record {
        display =
            state limit latest committed last final
              (some (id, content))
              true
              false
              false
              (some error);
        pending = [];
        channel = channel;
      })
