-- ===== src/Agent/React.antt =====
-- `run_loop` of src/react.rs. A round is one turn of the provider; what the provider and the tools do
-- in a round is an input, so that they may keep state of their own. The logs and the times are left
-- out, except for the times that results report.
use simple_claw.Base.{
  ℕ, zero, suc, ◌+◌, Text, lit, List, [], ◌∷◌, ◌++◌, map, Option, none, some, Bool, true, false,
  is_empty, if◌then◌else◌,
}
use simple_claw.Error.{Result, ok, err}
use simple_claw.Json.{Json}
use simple_claw.Base.Dict.{Dict}
use simple_claw.Tools.{
  ToolExecEnv, RegisteredTool, AgentToolEntry, WebTool, FileTool, ExecTool, PlainTool,
  ToolExecutionOutcome, web_search, web_fetch, read, edit, glob, grep, list, exec, summon, task,
  direct_tool,
}
use simple_claw.Tools.Executor.{Effect}
use simple_claw.Tools.Registry.{AgentToolRegistry, without}
use simple_claw.Agent.{
  assistant, Message, text, ToolDefinition, ProviderResponse, StreamEvent, ToolExecutionResult,
  ToolRunOutput, DispatchAction, tool_calls_action, final_response, empty_response,
}
use simple_claw.Agent.ReplyPolicy.{no_reply_prompt_instruction}
use simple_claw.Agent.Dispatch.{ToolDispatcher, execute_tool_calls}
use simple_claw.Agent.Stream.{Streamed, streamed}

pub record Provider (V : Type 0) : Type 0 where
  pub generate : Text → List (Message V) → List ToolDefinition → Result ProviderResponse
  pub generate_stream : Text → List (Message V) → List ToolDefinition → Result (List StreamEvent)

unfoldable pub generate_provider_response :
    {V : Type 0} → Provider V → Text → List (Message V) → List ToolDefinition → Bool → Streamed
unfolding streamed
generate_provider_response provider system_prompt history tool_specs false =
    ([], provider.generate system_prompt history tool_specs)
generate_provider_response provider system_prompt history tool_specs true =
    streamed (provider.generate_stream system_prompt history tool_specs)

pub record RunOutcome : Type 0 where
  pub reply : Text
  pub tool_calls : List ToolExecutionResult
  pub memory_recall_used : Bool
  pub memory_recall_short_hits : ℕ
  pub memory_recall_long_hits : ℕ

unfoldable pub outcome : Text → List ToolExecutionResult → RunOutcome
outcome reply tool_calls = record {
  reply = reply;
  tool_calls = tool_calls;
  memory_recall_used = false;
  memory_recall_short_hits = 0;
  memory_recall_long_hits = 0;
}

abbrev pub exhausted_reply : Text
exhausted_reply = lit "max_steps reached without final response"

-- How the methods of the tools behave at some time; the first argument is a tool's name. What a tool is
-- (its constructor and its name) does not change.
pub record Behaviour (P O : Type 0) : Type 0 where
  pub web_at : Text → WebTool P O → WebTool P O
  pub file_at : Text → FileTool P O → FileTool P O
  pub exec_at : ExecTool P O → ExecTool P O
  pub plain_at : PlainTool O → Text → Text → Result (ToolExecutionOutcome O)

module _ {P O : Type 0} (b : Behaviour P O) where
  abbrev plain_tool_at : PlainTool O → PlainTool O
  plain_tool_at t = record { name = t.name; execute_with_trace = b.plain_at t }

  unfoldable pub tool_at : RegisteredTool P O → RegisteredTool P O
  tool_at (web_search t) = web_search (b.web_at (lit "web_search") t)
  tool_at (web_fetch t) = web_fetch (b.web_at (lit "web_fetch") t)
  tool_at (read t) = read (b.file_at (lit "read") t)
  tool_at (edit t) = edit (b.file_at (lit "edit") t)
  tool_at (glob t) = glob (b.file_at (lit "glob") t)
  tool_at (grep t) = grep (b.file_at (lit "grep") t)
  tool_at (list t) = list (b.file_at (lit "list") t)
  tool_at (exec t) = exec (b.exec_at t)
  tool_at (summon t) = summon (plain_tool_at t)
  tool_at (task t) = task (plain_tool_at t)
  tool_at (direct_tool t) = direct_tool (plain_tool_at t)

  unfoldable pub entry_at : AgentToolEntry P O → AgentToolEntry P O
  unfolding tool_at
  entry_at entry = record entry { tool = tool_at entry.tool }

  unfoldable pub values_at : Dict (AgentToolEntry P O) → Dict (AgentToolEntry P O)
  unfolding entry_at
  values_at [] = []
  values_at ((name, entry) ∷ entries) = (name, entry_at entry) ∷ values_at entries

  -- The same tools, with the same restrictions, as they behave then.
  unfoldable pub registry_at : AgentToolRegistry P O → AgentToolRegistry P O
  unfolding entry_at values_at
  registry_at registry = record {
    ordered = map entry_at registry.ordered;
    by_name = values_at registry.by_name;
  }

-- What one round meets: the provider, how the tools behave then, and the times of the calls.
pub record RoundInputs (P V : Type 0) : Type 0 where
  pub provider : Provider V
  pub behaviour : Behaviour P ToolRunOutput
  pub elapsed : ℕ → ℕ

-- A round with its tools.
pub record Round (P V : Type 0) : Type 0 where
  pub provider : Provider V
  pub turn_tools : AgentToolRegistry P ToolRunOutput
  pub elapsed : ℕ → ℕ

-- What does not change over the rounds; `streaming` is whether there is an `on_text_delta`.
pub record Turn (P V : Type 0) : Type 0 where
  pub json : Json V
  pub dispatcher : ToolDispatcher V
  pub system_prompt : Text
  pub tool_specs : List ToolDefinition
  pub session_id : Text
  pub streaming : Bool
  pub tool_env : ToolExecEnv

-- The result of the loop, the history after it, the histories that the provider was asked with, and
-- the calls in their order, each with what it did outside and its result.
pub record LoopRun (V : Type 0) : Type 0 where
  pub result : Result RunOutcome
  pub history : List (Message V)
  pub asked : List (List (Message V))
  pub made : List (List Effect × ToolExecutionResult)

module _ {P V : Type 0} (turn : Turn P V) where
  -- The history and the calls executed so far.
  abbrev pub Progress : Type 0
  Progress = List (Message V) × List ToolExecutionResult

  abbrev stopped : Result RunOutcome → List (Message V) → LoopRun V
  stopped result history = record { result = result; history = history; asked = []; made = [] }

  abbrev pub did : List (List Effect × ToolExecutionResult) → LoopRun V → LoopRun V
  did done run = record run { made = done ++ run.made }

  abbrev pub asked_with : List (Message V) → LoopRun V → LoopRun V
  asked_with history run = record run { asked = history ∷ run.asked }

  -- What a round does with the action that the dispatcher reads off a response; `rest` are the rounds
  -- after it.
  unfoldable pub act : Round P V → (Progress → LoopRun V) → Progress → DispatchAction V → LoopRun V
  unfolding outcome
  act round rest (history, executed) (tool_calls_action calls) =
      let done =
        execute_tool_calls turn.json round.turn_tools turn.tool_env turn.session_id round.elapsed 0
          calls in
      let results = map (λ (d : List Effect × ToolExecutionResult). d.1) done in
      did done
        (rest (history ++ turn.dispatcher.format_for_history calls results, executed ++ results))
  act round rest (history, executed) (final_response t) =
      stopped (ok (outcome t executed)) (history ++ text assistant t ∷ [])
  act round rest (history, executed) empty_response = rest (history, executed)

  unfoldable pub respond :
      Round P V → (Progress → LoopRun V) → Progress → Result ProviderResponse → LoopRun V
  unfolding act
  respond round rest progress (err e) = stopped (err e) progress.0
  respond round rest progress (ok response) =
      act round rest progress (turn.dispatcher.parse_response response)

  -- `for _ in 0..max_steps`; `i` is the number of the round.
  unfoldable pub run_rounds : (ℕ → Round P V) → ℕ → ℕ → Progress → LoopRun V
  unfolding respond outcome
  run_rounds rounds i zero (history, executed) =
      stopped (ok (outcome exhausted_reply executed)) history
  run_rounds rounds i (suc steps) (history, executed) = asked_with history (
      respond (rounds i) (λ progress. run_rounds rounds (i + 1) steps progress) (history, executed)
        (generate_provider_response (rounds i).provider turn.system_prompt history turn.tool_specs
          turn.streaming).1)

-- `definition` is `entry.tool.definition()`.
module _ {P : Type 0} (definition : RegisteredTool P ToolRunOutput → ToolDefinition) where
  unfoldable pub definitions : AgentToolRegistry P ToolRunOutput → List ToolDefinition
  definitions registry =
      map (λ (entry : AgentToolEntry P ToolRunOutput). definition entry.tool) registry.ordered

module _ {P : Type 0} where
  -- The tool that reacts to the source message is left out when there is none.
  unfoldable pub turn_tools_of :
      Option Text → AgentToolRegistry P ToolRunOutput → AgentToolRegistry P ToolRunOutput
  unfolding without
  turn_tools_of none active_tools = without active_tools (lit "react")
  turn_tools_of (some id) active_tools = active_tools

unfoldable pub effective_system_prompt : Text → Text → Text
unfolding no_reply_prompt_instruction
effective_system_prompt system_prompt extra_instructions =
    if is_empty extra_instructions
    then system_prompt ++ no_reply_prompt_instruction
    else system_prompt ++ extra_instructions ++ no_reply_prompt_instruction

-- `RunParams`, as far as the loop reads them.
pub record RunParams : Type 0 where
  pub system_prompt : Text
  pub session_id : Text
  pub max_steps : ℕ
  pub source_message_id : Option Text
  pub streaming : Bool

module _ {P V : Type 0} (json : Json V)
    (definition : RegisteredTool P ToolRunOutput → ToolDefinition) where
  unfoldable pub turn_of :
      ToolDispatcher V → RunParams → ToolExecEnv → List ToolDefinition → Turn P V
  unfolding effective_system_prompt
  turn_of dispatcher params tool_env defs = record {
    json = json;
    dispatcher = dispatcher;
    system_prompt =
        effective_system_prompt params.system_prompt (dispatcher.prompt_instructions defs);
    tool_specs = if dispatcher.should_send_tool_specs then defs else [];
    session_id = params.session_id;
    streaming = params.streaming;
    tool_env = tool_env;
  }

  -- Each round has the same tools, as they behave then.
  unfoldable pub run_loop :
      ToolDispatcher V
      → RunParams
      → ToolExecEnv
      → AgentToolRegistry P ToolRunOutput
      → (ℕ → RoundInputs P V)
      → List (Message V)
      → LoopRun V
  unfolding turn_of definitions turn_tools_of registry_at
  run_loop dispatcher params tool_env active_tools rounds history =
      run_rounds
        (turn_of dispatcher params tool_env
          (definitions definition (turn_tools_of params.source_message_id active_tools)))
        (λ i. record {
          provider = (rounds i).provider;
          turn_tools =
              registry_at (rounds i).behaviour
                (turn_tools_of params.source_message_id active_tools);
          elapsed = (rounds i).elapsed;
        })
        0 params.max_steps (history, [])

-- `native` and `xml` are the two dispatchers.
unfoldable pub resolve_dispatcher :
    {V : Type 0} → ToolDispatcher V → ToolDispatcher V → Bool → ToolDispatcher V
resolve_dispatcher native xml supports_native_tools = if supports_native_tools then native else xml
