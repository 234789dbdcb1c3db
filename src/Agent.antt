-- ===== src/Agent.antt =====
-- src/providers/types.rs and the types of src/dispatch.rs: what the agent loop exchanges with a model
-- provider, and what it keeps of a tool call. `V` is the type of JSON values.
pub mod ReplyPolicy
pub mod Dispatch
pub mod Xml
pub mod Stream
pub mod React
pub mod Calls
pub mod Loop
pub mod History
mod Tests
use simple_claw.Base.{ℕ, Text, lit, List, [], ◌∷◌, Option, Bool, true, false}
use simple_claw.Runs.{StartedAsyncToolRun, kind_as_str}
use simple_claw.Json.{Json}

pub data Role : Type 0 where
  system user assistant tool_role : Role

pub record ToolCall : Type 0 where
  pub id : Option Text
  pub name : Text
  pub args_json : Text

pub record ToolResult (V : Type 0) : Type 0 where
  pub call_id : Option Text
  pub name : Text
  pub response : V

pub record Message (V : Type 0) : Type 0 where
  pub role : Role
  pub content : Text
  pub tool_calls : List ToolCall
  pub tool_results : List (ToolResult V)

module _ {V : Type 0} where
  unfoldable pub text : Role → Text → Message V
  text role content = record { role = role; content = content; tool_calls = []; tool_results = [] }

  unfoldable pub assistant_tool_calls : List ToolCall → Message V
  assistant_tool_calls tool_calls = record {
    role = assistant;
    content = [];
    tool_calls = tool_calls;
    tool_results = [];
  }

  unfoldable pub tool_results : List (ToolResult V) → Message V
  tool_results results = record {
    role = tool_role;
    content = [];
    tool_calls = [];
    tool_results = results;
  }

pub record ToolDefinition : Type 0 where
  pub name : Text
  pub description : Text
  pub input_schema_json : Text

pub record ProviderResponse : Type 0 where
  pub output_text : Option Text
  pub tool_calls : List ToolCall

pub data StreamEvent : Type 0 where
  text_delta : Text → StreamEvent
  tool_call_complete : ToolCall → StreamEvent
  finished : StreamEvent
  failed : Text → StreamEvent

pub record ParsedToolCall (V : Type 0) : Type 0 where
  pub name : Text
  pub arguments : V
  pub tool_call_id : Option Text

pub data ToolExecutionStatus : Type 0 where
  succeeded accepted tool_error : ToolExecutionStatus

unfoldable pub execution_status_as_str : ToolExecutionStatus → Text
execution_status_as_str succeeded = lit "ok"
execution_status_as_str accepted = lit "accepted"
execution_status_as_str tool_error = lit "tool_error"

unfoldable pub is_success : ToolExecutionStatus → Bool
is_success tool_error = false
is_success _ = true

-- A `ToolExecutionResult` but for its nested tool calls.
pub record CallResult : Type 0 where
  pub name : Text
  pub args_json : Text
  pub output : Text
  pub status : ToolExecutionStatus
  pub elapsed_ms : ℕ
  pub tool_call_id : Option Text

mutual
  pub data ToolExecutionResult : Type 0 where
    executed : CallResult → NestedCalls → ToolExecutionResult

  pub data NestedCalls : Type 0 where
    no_calls : NestedCalls
    call_then : ToolExecutionResult → NestedCalls → NestedCalls

abbrev pub call_result : ToolExecutionResult → CallResult
call_result (executed c nested) = c

pub record ToolRunOutput : Type 0 where
  pub output : Text
  pub nested_tool_calls : NestedCalls

pub data DispatchAction (V : Type 0) : Type 0 where
  tool_calls_action : List (ParsedToolCall V) → DispatchAction V
  final_response : Text → DispatchAction V
  empty_response : DispatchAction V

-- `StartedAsyncToolRun::accepted_output` of src/tools/async_tool_manager.rs
unfoldable pub accepted_output : {V : Type 0} → Json V → StartedAsyncToolRun → Text
accepted_output json started = json.to_string (
    json.object (
      (lit "status", json.string (lit "accepted"))
      ∷ (lit "runId", json.string started.run_id)
      ∷ (lit "tool", json.string started.tool_name)
      ∷ (lit "kind", json.string (kind_as_str started.kind))
      ∷ []))
