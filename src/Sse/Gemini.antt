-- ===== src/Sse/Gemini.antt =====
-- `GeminiStreamAccumulator` and the reading of responses of src/providers/gemini.rs. `V` is the type of
-- JSON values.
use simple_claw.Base.{
  Text, lit, List, [], ◌∷◌, ◌++◌, map, Option, none, some, ◌⊎◌, inl, inr, ◌==◌, trim, trim_start,
  is_empty, starts_with, drop, if◌then◌else◌, ◌≡◌, refl, ◌∙◌, ap, Option-cases,
}
use simple_claw.Error.{provider, ok, err}
use simple_claw.Json.{JsonReader}
use simple_claw.Agent.{ToolCall, ProviderResponse, StreamEvent, text_delta, tool_call_complete}
use simple_claw.Sse.{Bytes, Pushed, Accumulator}
use simple_claw.Sse.Calls.{Recorded, record_tool_call, IsIndexed, record_tool_call-upsert, upsert}

-- The fields but for `line_buffer`.
pub record EventBuffer : Type 0 where
  pub event_data_lines : List Text
  pub recorded : Recorded

-- `lines.join("\n")`
join_lines : List Text → Text
join_lines [] = []
join_lines (line ∷ []) = line
join_lines (line ∷ next ∷ lines) = line ++ lit "\n" ++ join_lines (next ∷ lines)

abbrev or_else {ℓ} : {A : Type ℓ} → Option A → Option A → Option A
or_else (some a) other = some a
or_else none other = other

abbrev and_then {ℓ κ} : {A : Type ℓ} {B : Type κ} → Option A → (A → Option B) → Option B
and_then none f = none
and_then (some a) f = f a

first : {A : Type 0} → List A → Option A
first [] = none
first (a ∷ rest) = some a

abbrev text_or_empty : Option Text → Text
text_or_empty none = []
text_or_empty (some t) = t

record_part : Recorded → Option ToolCall → Recorded
record_part recorded none = recorded
record_part recorded (some call) = record_tool_call recorded call

add_text : Option Text → Option Text → Option Text
add_text output none = output
add_text none (some text) = some text
add_text (some []) (some text) = some text
add_text (some (c ∷ existing)) (some text) = some ((c ∷ existing) ++ lit "\n" ++ text)

add_call : List ToolCall → Option ToolCall → List ToolCall
add_call calls none = calls
add_call calls (some call) = calls ++ call ∷ []

call_first : Option ToolCall → List ToolCall → List ToolCall
call_first none calls = calls
call_first (some call) calls = call ∷ calls

-- The specification of what is recorded: each call is put in its place, one after the other.
pub upsert_all : List ToolCall → List ToolCall → List ToolCall
upsert_all [] calls = calls
upsert_all (call ∷ more) calls = upsert_all more (upsert call calls)

-- `GeminiStreamAccumulator::default()`, with an empty `line_buffer`.
unfoldable pub gemini_default : Text × EventBuffer
gemini_default = (
  [],
  record {
    event_data_lines = [];
    recorded = record { tool_call_indices_by_id = []; tool_calls = [] };
  },
)

-- The text of a whole response: the parts on lines of their own.
module _ {V : Type 0} (json : JsonReader V) where
  args_or_empty : Option V → V
  args_or_empty none = json.empty_object
  args_or_empty (some args) = args

  call_of : V → Option ToolCall
  unfolding args_or_empty
  call_of function_call =
      let name = text_or_empty (and_then (json.get function_call (lit "name")) json.as_str) in
      let id =
        and_then
          (or_else (json.get function_call (lit "id")) (json.get function_call (lit "callId")))
          json.as_str in
      let args = args_or_empty (json.get function_call (lit "args")) in
      if is_empty name
      then none
      else some (record { id = id; name = name; args_json = json.print args })

  unfoldable pub parse_tool_call_part : V → Option ToolCall
  unfolding call_of
  parse_tool_call_part part = and_then (json.get part (lit "functionCall")) call_of

  -- `candidates[0].content.parts`
  parts_of : V → Option (List V)
  unfolding first
  parts_of value =
      and_then
        (and_then (and_then (and_then (json.get value (lit "candidates")) json.as_array) first)
          λ c. and_then (json.get c (lit "content")) λ d. json.get d (lit "parts"))
        json.as_array

  delta_of : V → List StreamEvent
  delta_of part = elim (and_then (json.get part (lit "text")) json.as_str) [
    | none ↦ []
    | some text ↦ if is_empty text then [] else text_delta text ∷ []
  ]

  unfoldable pub read_parts : List V → Recorded → List StreamEvent × Recorded
  unfolding delta_of record_part
  read_parts [] recorded = ([], recorded)
  read_parts (part ∷ parts) recorded =
      let (events, recorded') =
        read_parts parts (record_part recorded (parse_tool_call_part part)) in
      (delta_of part ++ events, recorded')

  read_value : Recorded → Option (List V) → Pushed EventBuffer
  unfolding read_parts
  read_value recorded none = ([], ok (record { event_data_lines = []; recorded = recorded }))
  read_value recorded (some parts) =
      let (events, recorded') = read_parts parts recorded in
      (events, ok (record { event_data_lines = []; recorded = recorded' }))

  read_payload : Recorded → Text ⊎ V → Pushed EventBuffer
  unfolding read_value parts_of
  read_payload recorded (inl error) =
      ([], err (provider (lit "invalid gemini stream event: " ++ error)))
  read_payload recorded (inr value) = read_value recorded (parts_of value)

  flush_lines : Recorded → List Text → Pushed EventBuffer
  unfolding read_payload join_lines
  flush_lines recorded [] = ([], ok (record { event_data_lines = []; recorded = recorded }))
  flush_lines recorded (line ∷ lines) =
      let payload = join_lines (line ∷ lines) in
      if trim payload == lit "[DONE]"
      then ([], ok (record { event_data_lines = []; recorded = recorded }))
      else read_payload recorded (json.parse payload)

  unfoldable pub flush_event : EventBuffer → Pushed EventBuffer
  unfolding flush_lines
  flush_event self = flush_lines self.recorded self.event_data_lines

  unfoldable pub process_line : EventBuffer → Text → Pushed EventBuffer
  unfolding flush_event
  process_line self [] = flush_event self
  process_line self (c ∷ line) =
      if starts_with (c ∷ line) (lit "data:")
      then (
        [],
        ok (record self {
          event_data_lines = self.event_data_lines ++ trim_start (drop 5 (c ∷ line)) ∷ [];
        }),
      )
      else ([], ok self)

  unfoldable pub gemini_accumulator : (Bytes → Text ⊎ Text) → Accumulator EventBuffer
  gemini_accumulator from_utf8 = record {
    from_utf8 = from_utf8;
    process_line = process_line;
    flush_event = flush_event;
    tool_calls = λ self. map tool_call_complete self.recorded.tool_calls;
    name = lit "gemini";
  }

  parsed_parts : Option Text → List ToolCall → List V → ProviderResponse
  unfolding add_text add_call
  parsed_parts output calls [] = record { output_text = output; tool_calls = calls }
  parsed_parts output calls (part ∷ parts) =
      parsed_parts (add_text output (and_then (json.get part (lit "text")) json.as_str))
        (add_call calls (parse_tool_call_part part)) parts

  unfoldable pub parse_provider_response : V → ProviderResponse
  unfolding parsed_parts parts_of
  parse_provider_response value = elim (parts_of value) [
    | none ↦ record { output_text = none; tool_calls = [] }
    | some parts ↦ parsed_parts none [] parts
  ]

  -- The calls of the parts, in their order.
  unfoldable pub calls_of : List V → List ToolCall
  unfolding call_first
  calls_of [] = []
  calls_of (part ∷ parts) = call_first (parse_tool_call_part part) (calls_of parts)

  -- Reading the parts of an event keeps the calls and the table of their places together: each call takes
  -- the place of the one with its id, if there is one, and comes last otherwise.
  pub read_parts-upsert :
      (parts : List V) (recorded : Recorded)
      → IsIndexed recorded
      → ((read_parts parts recorded).1.tool_calls ≡ upsert_all (calls_of parts) recorded.tool_calls)
        × IsIndexed (read_parts parts recorded).1
  unfolding read_parts calls_of upsert_all record_part
  read_parts-upsert [] recorded h = (refl, h)
  read_parts-upsert (part ∷ parts) recorded h = elim (Option-cases (parse_tool_call_part part)) [
    | inl e ↦ rw e (read_parts-upsert parts recorded h)
    | inr (call, e) ↦
        let (same, indexed) = record_tool_call-upsert recorded call h in
        let (rest, kept) = read_parts-upsert parts (record_tool_call recorded call) indexed in
        rw e (rest ∙ ap (upsert_all (calls_of parts)) same, kept)
  ]
