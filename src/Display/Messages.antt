-- ===== src/Display/Messages.antt =====
-- All messages that a streaming display of src/run.rs sends, that of the fallback included.
use mathlib.Core.List.{append_assoc, append-nil}
use simple_claw.Base.{
  ◌≡◌, refl, sym, ap, ◌∙◌, ◌⊎◌, inl, inr, ℕ, Text, List, [], ◌∷◌, ◌++◌, Option, All,
}
use simple_claw.Base.Dict.{Dict}
use simple_claw.Display.Steps.{System, contents, Sent, streamed, fell_back}
use simple_claw.Display.Shape.{joined, Fits, AllFit}
use simple_claw.Display.Growth.{Reach-ShowsPrefix}
use simple_claw.Display.Finalize.{finalize_check-fallback}

-- What messages say, in their order.
abbrev pub said : List Text → Text
said [] = []
said (m ∷ ms) = m ++ said ms

said-contents : (m : Dict Text) → said (contents m) ≡ joined m
said-contents [] = refl
said-contents ((id, content) ∷ m) = ap (λ t. content ++ t) (said-contents m)

said-append : (a b : List Text) → said (a ++ b) ≡ said a ++ said b
said-append [] b = refl
said-append (x ∷ a) b = ap (λ t. x ++ t) (said-append a b) ∙ sym (append_assoc x (said a) (said b))

contents-Fits : (limit : Option ℕ) (m : Dict Text) → AllFit limit m → All (Fits limit) (contents m)
contents-Fits limit [] h = tt
contents-Fits limit ((id, content) ∷ m) (h, hs) = (h, contents-Fits limit m hs)

-- The messages are a beginning of the content, each within the limit; or the last one is the whole content, and
-- those before it say nothing.
abbrev pub Shown : Option ℕ → Text → List Text → Type 0
Shown limit content messages =
    (((rest : Text) × (content ≡ said messages ++ rest)) × All (Fits limit) messages)
    ⊎ ((before : List Text) × (messages ≡ before ++ content ∷ [])
        × (said before ≡ [])
        × (said messages ≡ content)
        × All (Fits limit) before)

-- While the content only grows, whatever calls fail and in whatever order the tasks run: the messages on the
-- channel, in their order, are a beginning of the content, and none is longer than the limit; unless the
-- finalization has fallen back, when the last message is the whole content, whatever its length, and those
-- before it say nothing and are within the limit.
pub Sent-Shown :
    (now : ℕ) (limit : Option ℕ) (s : System) (messages : List Text)
    → Sent now limit s messages
    → Shown limit s.display.latest_content messages
Sent-Shown now limit s messages (streamed r e) =
    let ((rest, begins), fit) = Reach-ShowsPrefix now limit s r in
    inl (
      (rest, begins ∙ ap (λ t. t ++ rest) (sym (ap said e ∙ said-contents s.channel))),
      rw e (contents-Fits limit s.channel fit),
    )
Sent-Shown now limit s messages (fell_back r final falls e) =
    let content = s.display.latest_content in
    let quiet = said-contents s.channel ∙ finalize_check-fallback now limit s r falls in
    let (begins, fit) = Reach-ShowsPrefix now limit s r in
    inr (
      contents s.channel,
      e,
      quiet,
      ap said e
          ∙ said-append (contents s.channel) (content ∷ [])
          ∙ ap (λ t. t ++ said (content ∷ [])) quiet
          ∙ append-nil content,
      contents-Fits limit s.channel fit,
    )
