-- ===== src/Agent/Tests.antt =====
-- An agent with one tool and a provider that calls it once, and the theorems applied to their runs.
use simple_claw.Base.{
  ◌≡◌, ◌≤◌, refl, ℕ, zero, suc, Text, lit, List, [], ◌∷◌, length, none, some, true, false, All,
  text_discrete,
}
use simple_claw.Base.Dict
use simple_claw.Error.{ok}
use simple_claw.Approval.{approved}
use simple_claw.Json.{Json}
use simple_claw.Tools.{
  ToolExecEnv, RegisteredTool, direct_tool, direct, completed_with, AgentToolEntry, tool_name,
  authorize,
}
use simple_claw.Tools.Registry.{AgentToolRegistry, index, get, without}
use simple_claw.Tools.Executor.{execute}
use simple_claw.Agent.{
  user, ToolCall, Message, text, ToolDefinition, ProviderResponse, no_calls, ToolRunOutput,
}
use simple_claw.Agent.Dispatch.{
  execute_tool_calls, native_dispatcher, native_parse_response, native_format_for_history,
  provider_call,
}
use simple_claw.Agent.Stream.{streamed, stream_of, shortened, streamed-stream_of}
use simple_claw.Agent.React.{
  Provider, Round, RoundInputs, Behaviour, tool_at, entry_at, values_at, registry_at, turn_of, Turn,
  RunParams, respond, act, generate_provider_response, LoopRun, run_rounds, run_loop, turn_tools_of,
}
use simple_claw.Agent.Calls.{AllAnswered}
use simple_claw.Agent.Loop.{Ended, run_rounds-Ended}
use simple_claw.Agent.History.{Allowed, run_loop-AllAnswered, run_loop-Permitted}

-- JSON values as their texts.
abbrev json : Json Text
json = record { string = λ t. t; object = λ fields. []; to_string = λ v. v; from_str = λ t. some t }

abbrev env : ToolExecEnv
env = record {
  agent_id = 97 ∷ [];
  agent_name = 65 ∷ [];
  user_id = 117 ∷ [];
  owner_ids = (117 ∷ []) ∷ [];
  approval_requester = λ request. ok approved;
}

-- A tool that gives its arguments back, for the owner only.
abbrev echo : AgentToolEntry Unit ToolRunOutput
echo = record {
  tool = direct_tool (record {
    name = 101 ∷ [];
    execute_with_trace = λ args session.
        ok (completed_with (record { output = args; nested_tool_calls = no_calls }));
  });
  execution_kind = direct;
  owner_restricted = true;
}

abbrev tools : AgentToolRegistry Unit ToolRunOutput
tools = record { ordered = echo ∷ []; by_name = index (echo ∷ []) [] }

abbrev call : ToolCall
call = record { id = some (49 ∷ []); name = 101 ∷ []; args_json = 120 ∷ [] }

-- What the provider answers in each round: a call, and then a text.
abbrev response : ℕ → ProviderResponse
response zero = record { output_text = none; tool_calls = call ∷ [] }
response (suc i) = record { output_text = some (100 ∷ []); tool_calls = [] }

abbrev provider : ℕ → Provider Text
provider i = record {
  generate = λ prompt history specs. ok (response i);
  generate_stream = λ prompt history specs. stream_of (ok (response i));
}

abbrev round : ℕ → Round Unit Text
round i = record { provider = provider i; turn_tools = tools; elapsed = λ n. n }

-- The tools behave in each round as they are.
abbrev unchanged : Behaviour Unit ToolRunOutput
unchanged = record {
  web_at = λ name t. t;
  file_at = λ name t. t;
  exec_at = λ t. t;
  plain_at = λ t. t.execute_with_trace;
}

abbrev round_inputs : ℕ → RoundInputs Unit Text
round_inputs i = record { provider = provider i; behaviour = unchanged; elapsed = λ n. n }

abbrev definition : RegisteredTool Unit ToolRunOutput → ToolDefinition
definition tool = record { name = tool_name tool; description = []; input_schema_json = [] }

abbrev params : RunParams
params = record {
  system_prompt = 112 ∷ [];
  session_id = 115 ∷ [];
  max_steps = 3;
  source_message_id = none;
  streaming = false;
}

abbrev question : List (Message Text)
question = text user (113 ∷ []) ∷ []

abbrev run : LoopRun Text
run = run_loop json definition (native_dispatcher json) params env tools round_inputs question

-- The run asks twice, and ends with four messages.
run_ends : (length run.asked ≡ 2) × (length run.history ≡ 4)
unfolding run_loop run_rounds respond act generate_provider_response execute_tool_calls
    turn_tools_of turn_of tool_at entry_at values_at registry_at without get index Dict.insert
    Dict.get text_discrete lit authorize execute native_parse_response native_format_for_history
    provider_call tool_name
run_ends = (refl, refl)

run_loop-AllAnswered_example : All AllAnswered run.asked × AllAnswered run.history
unfolding text
run_loop-AllAnswered_example =
    run_loop-AllAnswered json definition params env tools round_inputs question (tt, tt)

run_loop-Permitted_example :
    All (Allowed (turn_tools_of none tools) round_inputs env (115 ∷ []) 3) run.made
run_loop-Permitted_example =
    run_loop-Permitted json definition (native_dispatcher json) params env tools round_inputs
      question

abbrev turn : Turn Unit Text
turn = record {
  json = json;
  dispatcher = native_dispatcher json;
  system_prompt = 112 ∷ [];
  tool_specs = [];
  session_id = 115 ∷ [];
  streaming = true;
  tool_env = env;
}

run_rounds-Ended_example :
    (length (run_rounds turn round 0 3 (question, [])).asked ≤ 3)
    × Ended turn round 0 3 (run_rounds turn round 0 3 (question, []))
run_rounds-Ended_example = run_rounds-Ended turn round 0 3 (question, [])

streamed-stream_of_example :
    (streamed (stream_of (ok (response 0)))).1 ≡ shortened (ok (response 0))
streamed-stream_of_example = streamed-stream_of (ok (response 0))
