-- ===== src/Agent/History.antt =====
-- What holds of the history along the loop of src/react.rs, and of the calls that the loop makes.
use simple_claw.Base.{
  ◌≡◌, ◌≢◌, ◌⊎◌, inl, inr, some, none, false, Bool-cases, ◌==◌, ap, sym, subst, refl, ◌≤◌, ◌<◌,
  arith, ℕ, zero, suc, ◌+◌, Text, List, [], ◌∷◌, All, All-append,
}
use simple_claw.Base.Dict
use simple_claw.Base.Dict.{Dict}
use simple_claw.Error.{Result, ok, err}
use simple_claw.Json.{Json}
use simple_claw.Tools.{ToolExecEnv, RegisteredTool, AgentToolEntry, direct, authorize}
use simple_claw.Tools.Escalation.{Guarded}
use simple_claw.Tools.Executor.{Effect, execute}
use simple_claw.Tools.Registry.{AgentToolRegistry, get}
use simple_claw.Agent.{
  assistant, Message, text, ToolDefinition, ProviderResponse, ToolExecutionResult, call_result,
  ToolRunOutput, DispatchAction, tool_calls_action, final_response, empty_response,
}
use simple_claw.Agent.Dispatch.{ToolDispatcher, native_dispatcher}
use simple_claw.Agent.React.{
  Round, RoundInputs, Behaviour, entry_at, values_at, registry_at, Turn, LoopRun, Progress,
  RunParams, run_rounds, run_loop, turn_of, turn_tools_of, respond, act,
}
use simple_claw.Agent.Calls.{
  Permitted, execute_tool_calls-Permitted, AllAnswered, AllAnswered-append,
  native_format_for_history-AllAnswered,
}
use simple_claw.Agent.Loop.{answer, Kept, run_rounds-Everywhere}

module _ {P : Type 0} where
  -- A call that is permitted by the tools of one of the first rounds.
  abbrev pub PermittedWithin :
      (ℕ → AgentToolRegistry P ToolRunOutput)
      → ToolExecEnv
      → Text
      → ℕ
      → List Effect × ToolExecutionResult
      → Type 0
  PermittedWithin tools tool_env session limit done =
      (j : ℕ) × (j < limit) × Permitted (tools j) tool_env session done

  within :
      (tools : ℕ → AgentToolRegistry P ToolRunOutput) (tool_env : ToolExecEnv) (session : Text)
      (limit i : ℕ) (runs : List (List Effect × ToolExecutionResult))
      → i < limit
      → All (Permitted (tools i) tool_env session) runs
      → All (PermittedWithin tools tool_env session limit) runs
  within tools tool_env session limit i [] lt h = tt
  within tools tool_env session limit i (done ∷ runs) lt (may, hs) =
      ((i, lt, may), within tools tool_env session limit i runs lt hs)

module _ {P V : Type 0} (turn : Turn P V) where
  abbrev Within : (ℕ → Round P V) → ℕ → List Effect × ToolExecutionResult → Type 0
  Within rounds limit =
      PermittedWithin (λ j. (rounds j).turn_tools) turn.tool_env turn.session_id limit

  abbrev PermittedBelow : (ℕ → Round P V) → ℕ → LoopRun V → Type 0
  PermittedBelow rounds limit run = All (Within rounds limit) run.made

  act-Permitted :
      (rounds : ℕ → Round P V) (limit i : ℕ) (rest : Progress turn → LoopRun V)
      (progress : Progress turn) (action : DispatchAction V)
      → i < limit
      → ((next : Progress turn) → PermittedBelow rounds limit (rest next))
      → PermittedBelow rounds limit (act turn (rounds i) rest progress action)
  unfolding act
  act-Permitted rounds limit i rest (h, ex) (tool_calls_action calls) lt after =
      All-append (Within rounds limit) _ _
        (within (λ j. (rounds j).turn_tools) turn.tool_env turn.session_id limit i _ lt
          (execute_tool_calls-Permitted turn.json (rounds i).turn_tools turn.tool_env
            turn.session_id (rounds i).elapsed 0 calls))
        (after _)
  act-Permitted rounds limit i rest (h, ex) (final_response t) lt after = tt
  act-Permitted rounds limit i rest (h, ex) empty_response lt after = after (h, ex)

  respond-Permitted :
      (rounds : ℕ → Round P V) (limit i : ℕ) (rest : Progress turn → LoopRun V)
      (progress : Progress turn) (r : Result ProviderResponse)
      → i < limit
      → ((next : Progress turn) → PermittedBelow rounds limit (rest next))
      → PermittedBelow rounds limit (respond turn (rounds i) rest progress r)
  unfolding respond
  respond-Permitted rounds limit i rest (h, ex) (ok response) lt after =
      act-Permitted rounds limit i rest (h, ex) (turn.dispatcher.parse_response response) lt after
  respond-Permitted rounds limit i rest (h, ex) (err e) lt after = tt

  pub run_rounds-Permitted :
      (rounds : ℕ → Round P V) (limit i steps : ℕ) (progress : Progress turn)
      → i + steps ≤ limit
      → PermittedBelow rounds limit (run_rounds turn rounds i steps progress)
  unfolding run_rounds
  run_rounds-Permitted rounds limit i zero (h, ex) le = tt
  run_rounds-Permitted rounds limit i (suc steps) (h, ex) le =
      respond-Permitted rounds limit i (λ next. run_rounds turn rounds (i + 1) steps next) (h, ex)
        (answer turn (rounds i) h) (omega arith)
        (λ next. run_rounds-Permitted rounds limit (i + 1) steps next (omega arith))

module _ {P V : Type 0} (turn : Turn P V) where
  text_answered : (t : Text) → AllAnswered {V = V} (text assistant t ∷ [])
  unfolding text
  text_answered t = (tt, tt)

  native-Kept :
      (rounds : ℕ → Round P V)
      → turn.dispatcher ≡ native_dispatcher turn.json
      → Kept turn AllAnswered rounds
  native-Kept rounds native = record {
    by_calls = λ i h calls before. AllAnswered-append h _ before (
        rw native (
          native_format_for_history-AllAnswered turn.json (rounds i).turn_tools turn.tool_env
            turn.session_id (rounds i).elapsed 0 calls));
    by_text = λ h t before. AllAnswered-append h (text assistant t ∷ []) before (text_answered t);
  }

  run_rounds-AllAnswered :
      (rounds : ℕ → Round P V) (i steps : ℕ) (progress : Progress turn)
      → turn.dispatcher ≡ native_dispatcher turn.json
      → AllAnswered progress.0
      → All AllAnswered (run_rounds turn rounds i steps progress).asked
        × AllAnswered (run_rounds turn rounds i steps progress).history
  run_rounds-AllAnswered rounds i steps progress native h =
      run_rounds-Everywhere turn AllAnswered rounds i steps progress (native-Kept rounds native) h

module _ {P V : Type 0} (json : Json V)
    (definition : RegisteredTool P ToolRunOutput → ToolDefinition) where
  -- With the native dispatcher, when each message with tool calls in the history before is followed by
  -- a message with as many results, of the same ids and names in the same order, so it is in each
  -- history that the provider is asked with and in the history after.
  pub run_loop-AllAnswered :
      (params : RunParams) (tool_env : ToolExecEnv)
      (active_tools : AgentToolRegistry P ToolRunOutput) (rounds : ℕ → RoundInputs P V)
      (history : List (Message V))
      → AllAnswered history
      → All AllAnswered
          (run_loop json definition
            (native_dispatcher json)
            params
            tool_env
            active_tools
            rounds
            history).asked
        × AllAnswered
            (run_loop json definition
              (native_dispatcher json)
              params
              tool_env
              active_tools
              rounds
              history).history
  unfolding run_loop
  run_loop-AllAnswered params tool_env active_tools rounds history h =
      run_rounds-AllAnswered _ _ 0 params.max_steps (history, []) refl h

some-injective : {A : Type 0} (x y : A) → some x ≡ some y → x ≡ y
some-injective x y h = ap (λ o. elim o [ some z ↦ z | none ↦ x ]) h

-- The tools at some time have the names and the restrictions of the tools.
module _ {P O : Type 0} (b : Behaviour P O) where
  get-values_at :
      (entries : Dict (AgentToolEntry P O)) (name : Text) (found : AgentToolEntry P O)
      → Dict.get (values_at b entries) name ≡ some found
      → (entry : AgentToolEntry P O) × (Dict.get entries name ≡ some entry)
        × (found ≡ entry_at b entry)
  unfolding Dict.get values_at
  get-values_at [] name found h = absurd (ground arith)
  get-values_at ((key, entry) ∷ entries) name found h = elim (Bool-cases (key == name)) [
    | inl e ↦ rw e (entry, refl, sym (some-injective (entry_at b entry) found (rw e at h)))
    | inr e ↦ rw e (get-values_at entries name found (rw e at h))
  ]

  get-registry_at :
      (tools : AgentToolRegistry P O) (name : Text) (found : AgentToolEntry P O)
      → get (registry_at b tools) name ≡ some found
      → (entry : AgentToolEntry P O) × (get tools name ≡ some entry) × (found ≡ entry_at b entry)
  unfolding get registry_at
  get-registry_at tools name found h = get-values_at tools.by_name name found h

module _ {P V : Type 0} where
  -- A call did nothing outside, or the tool of its name is among the tools, the user may call it, what was done
  -- is what this tool does with the arguments of the call at the time of a round below the limit, and, if it is
  -- configured to be sandboxed, it ran outside the sandbox only after an approval.
  abbrev pub Allowed :
      AgentToolRegistry P ToolRunOutput
      → (ℕ → RoundInputs P V)
      → ToolExecEnv
      → Text
      → ℕ
      → List Effect × ToolExecutionResult
      → Type 0
  Allowed tools rounds ctx session limit (effects, result) =
      (effects ≡ [])
      ⊎ ((entry : AgentToolEntry P ToolRunOutput) × (j : ℕ) × (get tools (call_result result).name
            ≡ some entry)
          × (authorize entry ctx ≡ ok tt)
          × (j < limit)
          × (effects
              ≡ (execute (entry_at (rounds j).behaviour entry) ctx (call_result result).args_json
                  session).0)
          × (entry.execution_kind ≢ direct → Guarded false effects))

  Permitted-Allowed :
      (tools : AgentToolRegistry P ToolRunOutput) (rounds : ℕ → RoundInputs P V) (ctx : ToolExecEnv)
      (session : Text) (limit : ℕ) (done : List Effect × ToolExecutionResult)
      → PermittedWithin (λ j. registry_at (rounds j).behaviour tools) ctx session limit done
      → Allowed tools rounds ctx session limit done
  unfolding entry_at authorize
  Permitted-Allowed tools rounds ctx session limit (effects, result) (j, lt, inl none_done) =
      inl none_done
  Permitted-Allowed tools rounds ctx session limit (effects, result)
        (j, lt, inr (found, there, may, did, guarded)) =
      let (entry, e, same) =
        get-registry_at (rounds j).behaviour tools (call_result result).name found there in
      inr (
        entry,
        j,
        e,
        subst (λ x. authorize x ctx ≡ ok tt) same may,
        lt,
        subst (λ x. effects ≡ (execute x ctx (call_result result).args_json session).0) same did,
        subst
            (λ (x : AgentToolEntry P ToolRunOutput).
              x.execution_kind ≢ direct → Guarded false effects)
            same guarded,
      )

  all_Allowed :
      (tools : AgentToolRegistry P ToolRunOutput) (rounds : ℕ → RoundInputs P V) (ctx : ToolExecEnv)
      (session : Text) (limit : ℕ) (made : List (List Effect × ToolExecutionResult))
      → All (PermittedWithin (λ j. registry_at (rounds j).behaviour tools) ctx session limit) made
      → All (Allowed tools rounds ctx session limit) made
  all_Allowed tools rounds ctx session limit [] h = tt
  all_Allowed tools rounds ctx session limit (done ∷ made) (h, hs) = (
    Permitted-Allowed tools rounds ctx session limit done h,
    all_Allowed tools rounds ctx session limit made hs,
  )

module _ {P V : Type 0} (json : Json V)
    (definition : RegisteredTool P ToolRunOutput → ToolDefinition) where
  -- Each call of the loop either did nothing outside, or the tool of the call's name is one of the turn's tools
  -- (`turn_tools_of` leaves out `react` when there is no message to react to), the user may call it, and what
  -- was done is what this tool does with the call's arguments, as it behaves in a round below the step limit; a
  -- tool that is configured to be sandboxed then ran outside the sandbox only after an approval.
  pub run_loop-Permitted :
      (dispatcher : ToolDispatcher V) (params : RunParams) (tool_env : ToolExecEnv)
      (active_tools : AgentToolRegistry P ToolRunOutput) (rounds : ℕ → RoundInputs P V)
      (history : List (Message V))
      → All
          (Allowed
            (turn_tools_of params.source_message_id active_tools)
            rounds
            tool_env
            params.session_id
            params.max_steps)
          (run_loop json definition dispatcher params tool_env active_tools rounds history).made
  unfolding run_loop turn_of
  run_loop-Permitted dispatcher params tool_env active_tools rounds history =
      all_Allowed (turn_tools_of params.source_message_id active_tools) rounds tool_env
        params.session_id params.max_steps _
        (run_rounds-Permitted _ _ params.max_steps 0 params.max_steps (history, []) (omega arith))
