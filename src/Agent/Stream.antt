-- ===== src/Agent/Stream.antt =====
-- `provider_response_to_stream` of src/providers/types.rs and `generate_provider_response` of
-- src/react.rs: a response as a stream of events, and what is read back from a stream. A stream that
-- ends is the list of its events.
use mathlib.Core.List.{append_assoc, append-nil}
use simple_claw.Base.{
  ◌≡◌, refl, sym, ap, Text, List, [], ◌∷◌, ◌++◌, map, Option, none, some, arith, is_empty,
  if◌then◌else◌,
}
use simple_claw.Error.{provider, Result, ok, err, ok-injective}
use simple_claw.Agent.{
  ToolCall, ProviderResponse, StreamEvent, text_delta, tool_call_complete, finished, failed,
}

text_events : Option Text → List StreamEvent
text_events none = []
text_events (some t) = if is_empty t then [] else text_delta t ∷ []

unfoldable pub provider_response_to_stream : ProviderResponse → List StreamEvent
unfolding text_events
provider_response_to_stream response =
    text_events response.output_text
    ++ (map tool_call_complete response.tool_calls ++ finished ∷ [])

-- `(!text.is_empty()).then_some(text)`
unfoldable pub non_empty : Text → Option Text
non_empty t = if is_empty t then none else some t

-- What a stream reports to `on_text_delta`, and what it amounts to.
abbrev pub Streamed : Type 0
Streamed = List Text × Result ProviderResponse

report : Text → Streamed → Streamed
report t (texts, r) = (t ∷ texts, r)

-- The loop over the events, with the text and the calls so far.
unfoldable pub read_stream : List StreamEvent → Text → List ToolCall → Streamed
unfolding report non_empty
read_stream [] output_text tool_calls =
    ([], ok (record { output_text = non_empty output_text; tool_calls = tool_calls }))
read_stream (text_delta delta ∷ events) output_text tool_calls =
    let output_text' = output_text ++ delta in
    report output_text' (read_stream events output_text' tool_calls)
read_stream (tool_call_complete call ∷ events) output_text tool_calls =
    read_stream events output_text (tool_calls ++ call ∷ [])
read_stream (finished ∷ events) output_text tool_calls =
    ([], ok (record { output_text = non_empty output_text; tool_calls = tool_calls }))
read_stream (failed message ∷ events) output_text tool_calls = ([], err (provider message))

-- The provided `generate_stream`: the events of the whole response.
unfoldable pub stream_of : Result ProviderResponse → Result (List StreamEvent)
unfolding provider_response_to_stream
stream_of (err e) = err e
stream_of (ok response) = ok (provider_response_to_stream response)

unfoldable pub streamed : Result (List StreamEvent) → Streamed
unfolding read_stream
streamed (err e) = ([], err e)
streamed (ok events) = read_stream events [] []

-- A response whose empty text is no text.
abbrev without_empty_text : Option Text → Option Text
without_empty_text none = none
without_empty_text (some t) = non_empty t

abbrev pub shortened : Result ProviderResponse → Result ProviderResponse
shortened (err e) = err e
shortened (ok response) =
    ok (record response { output_text = without_empty_text response.output_text })

read_stream-calls :
    (calls done : List ToolCall) (t : Text)
    → read_stream (map tool_call_complete calls ++ finished ∷ []) t done
      ≡ ([], ok (record { output_text = non_empty t; tool_calls = done ++ calls }))
unfolding read_stream
read_stream-calls [] done t = simp (append-nil)
read_stream-calls (call ∷ calls) done t =
    rw (read_stream-calls calls (done ++ call ∷ []) t, append_assoc done (call ∷ []) calls) refl

read_stream-text :
    (t : Option Text) (calls : List ToolCall)
    → (read_stream (text_events t ++ (map tool_call_complete calls ++ finished ∷ [])) [] []).1
      ≡ ok (record { output_text = without_empty_text t; tool_calls = calls })
unfolding read_stream text_events non_empty is_empty
read_stream-text none calls = rw (read_stream-calls calls [] []) refl
read_stream-text (some []) calls = rw (read_stream-calls calls [] []) refl
read_stream-text (some (c ∷ t)) calls = rw (read_stream-calls calls [] (c ∷ t)) refl

-- Reading back the stream of a response gives the response, but that an empty text is lost; an error
-- of the provider stays that error.
pub streamed-stream_of : (r : Result ProviderResponse) → (streamed (stream_of r)).1 ≡ shortened r
unfolding streamed stream_of provider_response_to_stream
streamed-stream_of (err e) = refl
streamed-stream_of (ok response) = read_stream-text response.output_text response.tool_calls

-- Each text extends the one before it, from the given one on, and `last` is the last of them.
abbrev pub Grows : Text → List Text → Text → Type 0
Grows t [] last = last ≡ t
Grows t (u ∷ us) last = ((delta : Text) × (u ≡ t ++ delta)) × Grows u us last

-- What is reported while a stream is read only grows, and the response has the text reported last.
pub read_stream-Grows :
    (events : List StreamEvent) (t : Text) (calls : List ToolCall)
    → (last : Text) × Grows t (read_stream events t calls).0 last
      × ((r : ProviderResponse)
          → (read_stream events t calls).1 ≡ ok r
          → r.output_text ≡ non_empty last)
unfolding read_stream
read_stream-Grows [] t calls =
    (t, refl, λ r h. ap (λ (x : ProviderResponse). x.output_text) (sym (ok-injective _ r h)))
read_stream-Grows (text_delta delta ∷ events) t calls =
    let (last, grows, same) = read_stream-Grows events (t ++ delta) calls in
    (last, ((delta, refl), grows), same)
read_stream-Grows (tool_call_complete call ∷ events) t calls =
    read_stream-Grows events t (calls ++ call ∷ [])
read_stream-Grows (finished ∷ events) t calls =
    (t, refl, λ r h. ap (λ (x : ProviderResponse). x.output_text) (sym (ok-injective _ r h)))
read_stream-Grows (failed message ∷ events) t calls = (t, refl, λ r h. ground arith)
