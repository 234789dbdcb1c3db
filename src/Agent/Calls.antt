-- ===== src/Agent/Calls.antt =====
-- What one tool call may do, and how calls and results correspond in the history.
use simple_claw.Base.{
  ◌≡◌, ◌≢◌, ◌⊎◌, inl, inr, refl, ap, ℕ, ◌+◌, Text, List, [], ◌∷◌, ◌++◌, map, Option, some, false,
  All, Option-cases,
}
use simple_claw.Error.{ok, Result-cases}
use simple_claw.Json.{Json}
use simple_claw.Tools.{ToolExecEnv, direct, AgentToolEntry, authorize}
use simple_claw.Tools.Executor.{Effect, execute}
use simple_claw.Tools.Escalation.{Guarded, execute-Guarded}
use simple_claw.Tools.Registry.{AgentToolRegistry, get}
use simple_claw.Agent.{
  ToolCall, ToolResult, Message, ParsedToolCall, ToolExecutionResult, ToolRunOutput,
  assistant_tool_calls, tool_results, call_result,
}
use simple_claw.Agent.Dispatch.{
  execute_tool_call, execute_tool_calls, found_call, authorized_call, native_format_for_history,
  provider_call, provider_result,
}

module _ {P : Type 0} where
  -- A call did nothing outside, or the tool of its name is in the registry, the user may call it, what was
  -- done is what this tool does with the arguments of the call, and, if it is configured to be sandboxed, it
  -- ran outside the sandbox only after an approval.
  abbrev pub Permitted :
      AgentToolRegistry P ToolRunOutput
      → ToolExecEnv
      → Text
      → List Effect × ToolExecutionResult
      → Type 0
  Permitted active_tools ctx session (effects, result) =
      (effects ≡ [])
      ⊎ ((entry : AgentToolEntry P ToolRunOutput) × (get active_tools (call_result result).name
            ≡ some entry)
          × (authorize entry ctx ≡ ok tt)
          × (effects ≡ (execute entry ctx (call_result result).args_json session).0)
          × (entry.execution_kind ≢ direct → Guarded false effects))

module _ {P V : Type 0} (json : Json V) where
  pub execute_tool_call-Permitted :
      (active_tools : AgentToolRegistry P ToolRunOutput) (ctx : ToolExecEnv) (session : Text)
      (elapsed : ℕ) (call : ParsedToolCall V)
      → Permitted active_tools ctx session
          (execute_tool_call json active_tools ctx session elapsed call)
  unfolding execute_tool_call found_call authorized_call
  execute_tool_call-Permitted active_tools ctx session elapsed call =
      elim (Option-cases (get active_tools call.name)) [
        | inl e ↦ rw e (inl refl)
        | inr (entry, e) ↦ elim (Result-cases (authorize entry ctx)) [
          | inl (u, may) ↦
              rw (e, may)
                (inr (
                  entry,
                  refl,
                  may,
                  refl,
                  λ h. execute-Guarded entry ctx (json.to_string call.arguments) session h,
                ))
          | inr (x, refused) ↦ rw (e, refused) (inl refl)
        ]
      ]

  pub execute_tool_calls-Permitted :
      (active_tools : AgentToolRegistry P ToolRunOutput) (ctx : ToolExecEnv) (session : Text)
      (elapsed : ℕ → ℕ) (i : ℕ) (calls : List (ParsedToolCall V))
      → All
          (Permitted active_tools ctx session)
          (execute_tool_calls json active_tools ctx session elapsed i calls)
  unfolding execute_tool_calls
  execute_tool_calls-Permitted active_tools ctx session elapsed i [] = tt
  execute_tool_calls-Permitted active_tools ctx session elapsed i (call ∷ calls) = (
    execute_tool_call-Permitted active_tools ctx session (elapsed i) call,
    execute_tool_calls-Permitted active_tools ctx session elapsed (i + 1) calls,
  )

-- The id and the name by which a call and its result are matched.
abbrev pub Key : Type 0
Key = Option Text × Text

abbrev pub call_keys : List ToolCall → List Key
call_keys calls = map (λ (c : ToolCall). (c.id, c.name)) calls

abbrev pub result_keys : {V : Type 0} → List (ToolResult V) → List Key
result_keys {V} results = map (λ (r : ToolResult V). (r.call_id, r.name)) results

module _ {V : Type 0} where
  -- The calls are answered by the next message: as many results, with their ids and names, in order.
  abbrev pub Answered : List ToolCall → List (Message V) → Type 0
  Answered [] ms = Unit
  Answered (c ∷ cs) [] = ⊥
  Answered (c ∷ cs) (m ∷ ms) = call_keys (c ∷ cs) ≡ result_keys m.tool_results

  -- Each message with tool calls is followed by a message with their results.
  abbrev pub AllAnswered : List (Message V) → Type 0
  AllAnswered [] = Unit
  AllAnswered (m ∷ ms) = Answered m.tool_calls ms × AllAnswered ms

  Answered-append :
      (calls : List ToolCall) (xs ys : List (Message V))
      → Answered calls xs
      → Answered calls (xs ++ ys)
  Answered-append [] xs ys h = tt
  Answered-append (c ∷ cs) [] ys h = absurd h
  Answered-append (c ∷ cs) (x ∷ xs) ys h = h

  key_eq-Answered :
      (calls : List ToolCall) (m : Message V)
      → call_keys calls ≡ result_keys m.tool_results
      → Answered calls (m ∷ [])
  key_eq-Answered [] m h = tt
  key_eq-Answered (c ∷ cs) m h = h

  pub AllAnswered-append :
      (xs ys : List (Message V)) → AllAnswered xs → AllAnswered ys → AllAnswered (xs ++ ys)
  AllAnswered-append [] ys h k = k
  AllAnswered-append (x ∷ xs) ys (h, hs) k =
      (Answered-append x.tool_calls xs ys h, AllAnswered-append xs ys hs k)

module _ {P V : Type 0} (json : Json V) where
  -- There is one result for each call, in the order of the calls.
  execute_tool_calls-keys :
      (active_tools : AgentToolRegistry P ToolRunOutput) (ctx : ToolExecEnv) (session : Text)
      (elapsed : ℕ → ℕ) (i : ℕ) (calls : List (ParsedToolCall V))
      → call_keys (map (provider_call json) calls)
        ≡ result_keys (
            map (provider_result json) (
              map
                (λ (d : List Effect × ToolExecutionResult). d.1)
                (execute_tool_calls json active_tools ctx session elapsed i calls)))
  unfolding execute_tool_calls execute_tool_call provider_call provider_result
  execute_tool_calls-keys active_tools ctx session elapsed i [] = refl
  execute_tool_calls-keys active_tools ctx session elapsed i (call ∷ calls) =
      ap (λ ks. (call.tool_call_id, call.name) ∷ ks)
        (execute_tool_calls-keys active_tools ctx session elapsed (i + 1) calls)

  -- What a native round adds to the history is answered in itself.
  pub native_format_for_history-AllAnswered :
      (active_tools : AgentToolRegistry P ToolRunOutput) (ctx : ToolExecEnv) (session : Text)
      (elapsed : ℕ → ℕ) (i : ℕ) (calls : List (ParsedToolCall V))
      → AllAnswered (
          native_format_for_history json calls (
            map
              (λ (d : List Effect × ToolExecutionResult). d.1)
              (execute_tool_calls json active_tools ctx session elapsed i calls)))
  unfolding native_format_for_history assistant_tool_calls tool_results
  native_format_for_history-AllAnswered active_tools ctx session elapsed i calls = (
    key_eq-Answered (map (provider_call json) calls) _
        (execute_tool_calls-keys active_tools ctx session elapsed i calls),
    (tt, tt),
  )
