-- ===== src/Sse/Tests.antt =====
-- A small JSON reader, in which each text is a part that has itself as its text, and the theorems applied
-- to a response in two chunks.
use simple_claw.Base.{
  ◌≡◌, refl, Text, lit, [], ◌∷◌, map, some, inr, ◌⊎◌, text_discrete, is_empty, trim, trim_start,
  is_whitespace, starts_with,
}
use simple_claw.Base.Dict.{get, insert}
use simple_claw.Json.{JsonReader}
use simple_claw.Agent.{ToolCall, StreamEvent, text_delta, tool_call_complete}
use simple_claw.Sse.{Bytes, received, generate_stream, lines_of, without_cr, Accumulator}
use simple_claw.Sse.Chunks.{Agree, generate_stream-chunks}
use simple_claw.Sse.Calls.{Recorded, record_tool_call, set_at, index_of, IsIndexed}
use simple_claw.Sse.Gemini.{
  EventBuffer, gemini_accumulator, gemini_default, read_parts, read_parts-upsert, calls_of,
  upsert_all, process_line, flush_event, parse_tool_call_part,
}

abbrev json : JsonReader Text
json = record {
  parse = λ t. inr t;
  get = λ v key. some v;
  as_array = λ v. some (v ∷ []);
  as_str = λ v. some v;
  print = λ v. v;
  empty_object = [];
}

abbrev from_utf8 : Bytes → Text ⊎ Text
from_utf8 bytes = inr bytes

abbrev self : Accumulator EventBuffer
self = gemini_accumulator json from_utf8

abbrev call_a : ToolCall
call_a = record { id = some (lit "ab"); name = lit "ab"; args_json = lit "ab" }

reads :
    generate_stream self gemini_default
      (received (lit "data: a") ∷ received (lit "b\r\n\r\nda") ∷ received (lit "ta:ab\n") ∷ [])
    ≡ text_delta (lit "ab")
      ∷ text_delta (lit "ab")
      ∷ tool_call_complete call_a
      ∷ StreamEvent.finished
      ∷ []
unfolding generate_stream gemini_accumulator gemini_default process_line flush_event read_parts
    parse_tool_call_part lines_of without_cr lit text_discrete is_empty trim trim_start
    is_whitespace starts_with get insert record_tool_call set_at
reads = refl

generate_stream-chunks_example :
    Agree
      (generate_stream self gemini_default (map received (lit "data: a" ∷ lit "b\n\n" ∷ [])))
      (generate_stream self gemini_default (received (lit "data: ab\n\n") ∷ []))
unfolding lit gemini_accumulator
generate_stream-chunks_example =
    generate_stream-chunks self gemini_default (lit "data: a") (lit "data: ab\n\n")
      (lit "b\n\n" ∷ []) (lit "data: a") (lit "b\n\n" ∷ []) (refl, (refl, tt)) refl

abbrev nothing : Recorded
nothing = record { tool_call_indices_by_id = []; tool_calls = [] }

empty_IsIndexed : IsIndexed nothing
unfolding get index_of
empty_IsIndexed id = refl

read_parts-upsert_example :
    ((read_parts json (lit "a" ∷ lit "b" ∷ lit "a" ∷ []) nothing).1.tool_calls
      ≡ upsert_all (calls_of json (lit "a" ∷ lit "b" ∷ lit "a" ∷ [])) [])
    × IsIndexed (read_parts json (lit "a" ∷ lit "b" ∷ lit "a" ∷ []) nothing).1
read_parts-upsert_example =
    read_parts-upsert json (lit "a" ∷ lit "b" ∷ lit "a" ∷ []) nothing empty_IsIndexed
