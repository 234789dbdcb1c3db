-- ===== src/Agent/Dispatch.antt =====
-- src/dispatch.rs: the execution of a response's tool calls, which both dispatchers share, and the
-- dispatcher of providers that call tools natively.
use simple_claw.Base.{ℕ, ◌+◌, Text, lit, List, [], ◌∷◌, ◌++◌, map, Option, none, some, Bool, true}
use simple_claw.Error.{FrameworkError, display, Result, ok, err}
use simple_claw.Json.{Json, parse_or_empty}
use simple_claw.Tools.{
  ToolExecEnv, ToolExecutionOutcome, completed_with, async_started, AgentToolEntry, authorize,
}
use simple_claw.Tools.Executor.{Effect, execute}
use simple_claw.Tools.Registry.{AgentToolRegistry, get}
use simple_claw.Agent.{
  ToolCall, ToolResult, Message, assistant_tool_calls, tool_results, ToolDefinition,
  ProviderResponse, ParsedToolCall, ToolExecutionStatus, succeeded, accepted, tool_error,
  execution_status_as_str, ToolExecutionResult, executed, NestedCalls, no_calls, call_result,
  ToolRunOutput, DispatchAction, tool_calls_action, final_response, empty_response, accepted_output,
}

-- What the two dispatchers do differently.
pub record ToolDispatcher (V : Type 0) : Type 0 where
  pub parse_response : ProviderResponse → DispatchAction V
  pub format_for_history : List (ParsedToolCall V) → List ToolExecutionResult → List (Message V)
  pub prompt_instructions : List ToolDefinition → Text
  pub should_send_tool_specs : Bool

-- The output, the nested calls and the status of a call.
abbrev pub Observed : Type 0
Observed = Text × NestedCalls × ToolExecutionStatus

failure_text : FrameworkError → Text
failure_text e = lit "tool_error: " ++ display e

module _ {V : Type 0} (json : Json V) where
  observed : Result (ToolExecutionOutcome ToolRunOutput) → Observed
  unfolding failure_text accepted_output
  observed (ok (completed_with o)) = (o.output, o.nested_tool_calls, succeeded)
  observed (ok (async_started started)) = (accepted_output json started, no_calls, accepted)
  observed (err e) = (failure_text e, no_calls, tool_error)

module _ {P V : Type 0} (json : Json V) where
  unfoldable pub authorized_call :
      AgentToolEntry P ToolRunOutput
      → ToolExecEnv
      → Text
      → Text
      → Result {0} Unit
      → List Effect × Observed
  unfolding observed failure_text
  authorized_call entry ctx args_json session_id (err e) =
      ([], (failure_text e, no_calls, tool_error))
  authorized_call entry ctx args_json session_id (ok u) =
      let (effects, outcome) = execute entry ctx args_json session_id in
      (effects, observed json outcome)

  unfoldable pub found_call :
      ToolExecEnv
      → Text
      → Text
      → Text
      → Option (AgentToolEntry P ToolRunOutput)
      → List Effect × Observed
  unfolding authorized_call
  found_call ctx name args_json session_id none =
      ([], (lit "tool_error: unknown tool: " ++ name, no_calls, tool_error))
  found_call ctx name args_json session_id (some entry) =
      authorized_call entry ctx args_json session_id (authorize entry ctx)

  -- One call, with what it does outside; the time that it takes is an input.
  unfoldable pub execute_tool_call :
      AgentToolRegistry P ToolRunOutput
      → ToolExecEnv
      → Text
      → ℕ
      → ParsedToolCall V
      → List Effect × ToolExecutionResult
  unfolding found_call
  execute_tool_call active_tools ctx session_id elapsed_ms call =
      let args_json = json.to_string call.arguments in
      let (effects, (output, nested, status)) =
        found_call ctx call.name args_json session_id (get active_tools call.name) in
      (
        effects,
        executed
            (record {
              name = call.name;
              args_json = args_json;
              output = output;
              status = status;
              elapsed_ms = elapsed_ms;
              tool_call_id = call.tool_call_id;
            })
            nested,
      )

  -- `join_all` runs the calls side by side, and gives their results in the order of the calls;
  -- `elapsed` has the times, from the number of the first call on.
  unfoldable pub execute_tool_calls :
      AgentToolRegistry P ToolRunOutput
      → ToolExecEnv
      → Text
      → (ℕ → ℕ)
      → ℕ
      → List (ParsedToolCall V)
      → List (List Effect × ToolExecutionResult)
  unfolding execute_tool_call
  execute_tool_calls active_tools ctx session_id elapsed i [] = []
  execute_tool_calls active_tools ctx session_id elapsed i (call ∷ calls) =
      execute_tool_call active_tools ctx session_id (elapsed i) call
      ∷ execute_tool_calls active_tools ctx session_id elapsed (i + 1) calls

module _ {V : Type 0} (json : Json V) where
  parsed_from_provider_call : ToolCall → ParsedToolCall V
  parsed_from_provider_call tc = record {
    name = tc.name;
    arguments = parse_or_empty json tc.args_json;
    tool_call_id = tc.id;
  }

  native_text : Option Text → DispatchAction V
  native_text none = empty_response
  native_text (some t) = final_response t

  native_calls : Option Text → List ToolCall → DispatchAction V
  unfolding parsed_from_provider_call native_text
  native_calls output_text [] = native_text output_text
  native_calls output_text (call ∷ calls) =
      tool_calls_action (map parsed_from_provider_call (call ∷ calls))

  unfoldable pub native_parse_response : ProviderResponse → DispatchAction V
  unfolding native_calls
  native_parse_response response = native_calls response.output_text response.tool_calls

  unfoldable pub provider_call : ParsedToolCall V → ToolCall
  provider_call c = record {
    id = c.tool_call_id;
    name = c.name;
    args_json = json.to_string c.arguments;
  }

  unfoldable pub provider_result : ToolExecutionResult → ToolResult V
  provider_result r = record {
    call_id = (call_result r).tool_call_id;
    name = (call_result r).name;
    response = json.object (
        (lit "status", json.string (execution_status_as_str (call_result r).status))
        ∷ (lit "content", json.string (call_result r).output)
        ∷ []);
  }

  unfoldable pub native_format_for_history :
      List (ParsedToolCall V) → List ToolExecutionResult → List (Message V)
  unfolding provider_call provider_result
  native_format_for_history calls results =
      assistant_tool_calls (map provider_call calls)
      ∷ tool_results (map provider_result results)
      ∷ []

  -- `NativeDispatcher`
  abbrev pub native_dispatcher : ToolDispatcher V
  native_dispatcher = record {
    parse_response = native_parse_response;
    format_for_history = native_format_for_history;
    prompt_instructions = λ tools. [];
    should_send_tool_specs = true;
  }
