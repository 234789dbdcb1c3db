-- ===== src/Agent/Xml.antt =====
-- `XmlDispatcher` of src/dispatch.rs, for providers without native tool calls. The matches of its
-- regular expression, as pairs of the two groups, are an input.
use simple_claw.Base.{Text, lit, List, [], ◌∷◌, ◌++◌, map, Option, none, some, trim, false}
use simple_claw.Json.{Json, parse_or_empty}
use simple_claw.Agent.{
  assistant, user, Message, text, ToolDefinition, ProviderResponse, ParsedToolCall,
  ToolExecutionStatus, succeeded, accepted, tool_error, ToolExecutionResult, call_result,
  DispatchAction, tool_calls_action, final_response, empty_response,
}
use simple_claw.Agent.Dispatch.{ToolDispatcher}

-- The status as the results spell it, which is not `as_str`.
xml_status : ToolExecutionStatus → Text
xml_status succeeded = lit "ok"
xml_status accepted = lit "accepted"
xml_status tool_error = lit "error"

unfoldable pub format_results_xml : List ToolExecutionResult → Text
unfolding xml_status
format_results_xml [] = []
format_results_xml (r ∷ rs) =
    lit "<tool_result>\n<name>"
    ++ (call_result r).name
    ++ lit "</name>\n<status>"
    ++ xml_status (call_result r).status
    ++ lit "</status>\n<output>"
    ++ (call_result r).output
    ++ lit "</output>\n</tool_result>\n"
    ++ format_results_xml rs

tool_instructions : List ToolDefinition → Text
tool_instructions [] = []
tool_instructions (tool ∷ tools) =
    lit "### "
    ++ tool.name
    ++ lit "\n\n"
    ++ tool.description
    ++ lit "\n\n**Parameters:**\n```json\n"
    ++ tool.input_schema_json
    ++ lit "\n```\n\n"
    ++ tool_instructions tools

unfoldable pub xml_prompt_instructions : List ToolDefinition → Text
unfolding tool_instructions
xml_prompt_instructions tools =
    lit
      "\n\n# Tool Calling Protocol\n\nYou have access to tools. To call a tool, include XML tags in your response:\n\n```xml\n<tool_call>\n<name>tool_name</name>\n<arguments>{\"key\": \"value\"}</arguments>\n</tool_call>\n```\n\nYou may call multiple tools in one response by including multiple `<tool_call>` blocks.\n\nTool results will be provided in this format:\n\n```xml\n<tool_result>\n<name>tool_name</name>\n<status>ok</status>\n<output>result text</output>\n</tool_result>\n```\n\n## Available Tools\n\n"
    ++ tool_instructions tools

module _ {V : Type 0} (json : Json V) (captures : Text → List (Text × Text)) where
  parsed_capture : Text × Text → ParsedToolCall V
  parsed_capture (name, args_raw) = record {
    name = trim name;
    arguments = parse_or_empty json (trim args_raw);
    tool_call_id = none;
  }

  unfoldable pub parse_tool_calls_from_text : Text → List (ParsedToolCall V)
  unfolding parsed_capture
  parse_tool_calls_from_text t = map parsed_capture (captures t)

  unfoldable pub format_calls_xml : List (ParsedToolCall V) → Text
  format_calls_xml [] = []
  format_calls_xml (call ∷ calls) =
      lit "<tool_call>\n<name>"
      ++ call.name
      ++ lit "</name>\n<arguments>"
      ++ json.to_string call.arguments
      ++ lit "</arguments>\n</tool_call>\n"
      ++ format_calls_xml calls

  xml_calls : Text → List (ParsedToolCall V) → DispatchAction V
  xml_calls t [] = final_response t
  xml_calls t (call ∷ calls) = tool_calls_action (call ∷ calls)

  xml_text : Option Text → DispatchAction V
  unfolding xml_calls parse_tool_calls_from_text
  xml_text none = empty_response
  xml_text (some t) = xml_calls t (parse_tool_calls_from_text t)

  unfoldable pub xml_parse_response : ProviderResponse → DispatchAction V
  unfolding xml_text
  xml_parse_response response = xml_text response.output_text

  unfoldable pub xml_format_for_history :
      List (ParsedToolCall V) → List ToolExecutionResult → List (Message V)
  unfolding format_calls_xml format_results_xml
  xml_format_for_history calls results =
      text assistant (format_calls_xml calls) ∷ text user (format_results_xml results) ∷ []

  -- `XmlDispatcher`
  abbrev pub xml_dispatcher : ToolDispatcher V
  xml_dispatcher = record {
    parse_response = xml_parse_response;
    format_for_history = xml_format_for_history;
    prompt_instructions = xml_prompt_instructions;
    should_send_tool_specs = false;
  }
