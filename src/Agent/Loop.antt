-- ===== src/Agent/Loop.antt =====
-- The bounded loop of src/react.rs: how it ends, and what holds of the history and of the calls along
-- it.
use simple_claw.Base.{
  ◌≡◌, ◌⊎◌, inl, inr, refl, ℕ, zero, suc, ◌+◌, ◌≤◌, ◌<◌, Text, List, [], ◌∷◌, ◌++◌, map, length,
  All, arith,
}
use simple_claw.Error.{FrameworkError, Result, ok, err}
use simple_claw.Tools.Executor.{Effect}
use simple_claw.Agent.{
  assistant, Message, text, ProviderResponse, ToolExecutionResult, DispatchAction,
  tool_calls_action, final_response, empty_response, ParsedToolCall,
}
use simple_claw.Agent.Dispatch.{execute_tool_calls}
use simple_claw.Agent.React.{
  Round, Turn, LoopRun, Progress, outcome, exhausted_reply, run_rounds, respond, act, asked_with,
  did, generate_provider_response,
}

module _ {P V : Type 0} (turn : Turn P V) where
  -- What the provider of a round answers to a history.
  abbrev pub answer : Round P V → List (Message V) → Result ProviderResponse
  answer round history =
      (generate_provider_response round.provider turn.system_prompt history turn.tool_specs
        turn.streaming).1

  -- How a loop ends: with the text of a response, which the history ends with; with an error of the
  -- provider; or with all its steps used.
  abbrev pub Ended : (ℕ → Round P V) → ℕ → ℕ → LoopRun V → Type 0
  Ended rounds i steps run =
      ((j : ℕ) × (h : List (Message V)) × (response : ProviderResponse) × (t : Text)
        × (executed : List ToolExecutionResult) × (j < i + steps)
        × (answer (rounds j) h ≡ ok response)
        × (turn.dispatcher.parse_response response ≡ final_response t)
        × (run.history ≡ h ++ text assistant t ∷ [])
        × (run.result ≡ ok (outcome t executed)))
      ⊎ ((j : ℕ) × (h : List (Message V)) × (e : FrameworkError) × (j < i + steps)
          × (answer (rounds j) h ≡ err e)
          × (run.history ≡ h)
          × (run.result ≡ err e))
      ⊎ ((executed : List ToolExecutionResult) × (run.result
            ≡ ok (outcome exhausted_reply executed))
          × (length run.asked ≡ steps))

  abbrev Bounded : (ℕ → Round P V) → ℕ → ℕ → LoopRun V → Type 0
  Bounded rounds i steps run = (length run.asked ≤ steps) × Ended rounds i steps run

  -- A round that goes on to the next one.
  goes_on :
      (rounds : ℕ → Round P V) (i steps : ℕ) (h : List (Message V))
      (effects : List (List Effect × ToolExecutionResult)) (run : LoopRun V)
      → Bounded rounds (i + 1) steps run
      → Bounded rounds i (suc steps) (asked_with turn h (did turn effects run))
  goes_on rounds i steps h effects run (few, inl (j, k, r, t, ex, lt, q, p, l, e)) =
      (omega arith, inl (j, k, r, t, ex, omega arith, q, p, l, e))
  goes_on rounds i steps h effects run (few, inr (inl (j, k, e, lt, q, l, r))) =
      (omega arith, inr (inl (j, k, e, omega arith, q, l, r)))
  goes_on rounds i steps h effects run (few, inr (inr (ex, e, all))) =
      (omega arith, inr (inr (ex, e, omega arith)))

  abbrev calls_done : Round P V → List (ParsedToolCall V) → List (List Effect × ToolExecutionResult)
  calls_done round calls =
      execute_tool_calls turn.json round.turn_tools turn.tool_env turn.session_id round.elapsed 0
        calls

  -- The progress after the calls of a round.
  abbrev called : Round P V → List (ParsedToolCall V) → Progress turn → Progress turn
  called round calls (h, ex) =
      let results = map (λ (d : List Effect × ToolExecutionResult). d.1) (calls_done round calls) in
      (h ++ turn.dispatcher.format_for_history calls results, ex ++ results)

  act-Bounded :
      (rounds : ℕ → Round P V) (i steps : ℕ) (progress : Progress turn)
      (response : ProviderResponse) (action : DispatchAction V)
      → answer (rounds i) progress.0 ≡ ok response
      → turn.dispatcher.parse_response response ≡ action
      → ((next : Progress turn)
          → Bounded rounds (i + 1) steps (run_rounds turn rounds (i + 1) steps next))
      → Bounded rounds i (suc steps) (
          asked_with turn progress.0 (
            act turn
              (rounds i)
              (λ next. run_rounds turn rounds (i + 1) steps next)
              progress
              action))
  unfolding act
  act-Bounded rounds i steps (h, ex) response (tool_calls_action calls) q p rest =
      goes_on rounds i steps h (calls_done (rounds i) calls)
        (run_rounds turn rounds (i + 1) steps (called (rounds i) calls (h, ex)))
        (rest (called (rounds i) calls (h, ex)))
  act-Bounded rounds i steps (h, ex) response (final_response t) q p rest =
      (omega arith, inl (i, h, response, t, ex, omega arith, q, p, refl, refl))
  act-Bounded rounds i steps (h, ex) response empty_response q p rest =
      goes_on rounds i steps h [] (run_rounds turn rounds (i + 1) steps (h, ex)) (rest (h, ex))

  respond-Bounded :
      (rounds : ℕ → Round P V) (i steps : ℕ) (progress : Progress turn)
      (r : Result ProviderResponse)
      → answer (rounds i) progress.0 ≡ r
      → ((next : Progress turn)
          → Bounded rounds (i + 1) steps (run_rounds turn rounds (i + 1) steps next))
      → Bounded rounds i (suc steps) (
          asked_with turn progress.0 (
            respond turn (rounds i) (λ next. run_rounds turn rounds (i + 1) steps next) progress r))
  unfolding respond
  respond-Bounded rounds i steps (h, ex) (ok response) q rest =
      act-Bounded rounds i steps (h, ex) response (turn.dispatcher.parse_response response) q refl
        rest
  respond-Bounded rounds i steps (h, ex) (err e) q rest =
      (omega arith, inr (inl (i, h, e, omega arith, q, refl, refl)))

  -- The loop asks the provider at most once for each of its steps, and ends with the text of a
  -- response, which the history then ends with, with an error of the provider, or with all its steps
  -- used.
  pub run_rounds-Ended :
      (rounds : ℕ → Round P V) (i steps : ℕ) (progress : Progress turn)
      → (length (run_rounds turn rounds i steps progress).asked ≤ steps)
        × Ended rounds i steps (run_rounds turn rounds i steps progress)
  unfolding run_rounds
  run_rounds-Ended rounds i zero (h, ex) = (omega arith, inr (inr (ex, refl, refl)))
  run_rounds-Ended rounds i (suc steps) (h, ex) =
      respond-Bounded rounds i steps (h, ex) (answer (rounds i) h) refl
        (λ next. run_rounds-Ended rounds (i + 1) steps next)

module _ {P V : Type 0} (turn : Turn P V) (Inv : List (Message V) → Type 0) where
  -- What an invariant of the history has to survive: the messages of a round with tool calls, and a
  -- final text.
  pub record Kept (rounds : ℕ → Round P V) : Type 0 where
    pub by_calls :
        (i : ℕ) (h : List (Message V)) (calls : List (ParsedToolCall V))
        → Inv h
        → Inv (
            h
            ++ turn.dispatcher.format_for_history calls (
                map
                  (λ (d : List Effect × ToolExecutionResult). d.1)
                  (execute_tool_calls turn.json
                    (rounds i).turn_tools
                    turn.tool_env
                    turn.session_id
                    (rounds i).elapsed
                    0
                    calls)))
    pub by_text : (h : List (Message V)) (t : Text) → Inv h → Inv (h ++ text assistant t ∷ [])

  abbrev Everywhere : LoopRun V → Type 0
  Everywhere run = All Inv run.asked × Inv run.history

  act-Everywhere :
      (rounds : ℕ → Round P V) (i : ℕ) (rest : Progress turn → LoopRun V) (progress : Progress turn)
      (action : DispatchAction V)
      → Kept rounds
      → Inv progress.0
      → ((next : Progress turn) → Inv next.0 → Everywhere (rest next))
      → Everywhere (act turn (rounds i) rest progress action)
  unfolding act
  act-Everywhere rounds i rest (h, ex) (tool_calls_action calls) kept inv after =
      after _ (kept.by_calls i h calls inv)
  act-Everywhere rounds i rest (h, ex) (final_response t) kept inv after =
      (tt, kept.by_text h t inv)
  act-Everywhere rounds i rest (h, ex) empty_response kept inv after = after (h, ex) inv

  respond-Everywhere :
      (rounds : ℕ → Round P V) (i : ℕ) (rest : Progress turn → LoopRun V) (progress : Progress turn)
      (r : Result ProviderResponse)
      → Kept rounds
      → Inv progress.0
      → ((next : Progress turn) → Inv next.0 → Everywhere (rest next))
      → Everywhere (respond turn (rounds i) rest progress r)
  unfolding respond
  respond-Everywhere rounds i rest (h, ex) (ok response) kept inv after =
      act-Everywhere rounds i rest (h, ex) (turn.dispatcher.parse_response response) kept inv after
  respond-Everywhere rounds i rest (h, ex) (err e) kept inv after = (tt, inv)

  pub run_rounds-Everywhere :
      (rounds : ℕ → Round P V) (i steps : ℕ) (progress : Progress turn)
      → Kept rounds
      → Inv progress.0
      → All Inv (run_rounds turn rounds i steps progress).asked
        × Inv (run_rounds turn rounds i steps progress).history
  unfolding run_rounds
  run_rounds-Everywhere rounds i zero (h, ex) kept inv = (tt, inv)
  run_rounds-Everywhere rounds i (suc steps) (h, ex) kept inv =
      let (before, last) =
        respond-Everywhere rounds i (λ next. run_rounds turn rounds (i + 1) steps next) (h, ex)
          (answer turn (rounds i) h) kept inv
          (λ next inv'. run_rounds-Everywhere rounds (i + 1) steps next kept inv') in
      ((inv, before), last)
