-- ===== src/Tools/Executor.antt =====
-- `DefaultToolExecutor::execute` of src/tools/mod.rs, with what it does outside as a trace: a run of
-- a tool, by where it runs, and a request for approval with its answer.
use simple_claw.Base.{Text, lit, List, [], ◌∷◌, ◌++◌, Option, none, some}
use simple_claw.Error.{
  SandboxCapability, capability_as_str, SandboxPermissionDenied, FrameworkError, tool,
  approval_denied, as_sandbox_permission_denied, Result, ok, err,
}
use simple_claw.Approval.{ApprovalRequest, ApprovalDecision, approved, denied, timed_out}
use simple_claw.Tools.{
  ToolExecutionKind, direct, wasm_sandbox, host_sandbox, kind_debug, ToolExecEnv, FileToolRoute,
  file_sandboxed, file_needs_approval, ExecToolRoute, exec_sandboxed, exec_needs_approval,
  ToolExecutionOutcome, completed_with, WebTool, FileTool, ExecTool, PlainTool, RegisteredTool,
  web_search, web_fetch, read, edit, glob, grep, list, exec, summon, task, direct_tool, tool_name,
  AgentToolEntry,
}

pub data Effect : Type 0 where
  ran_direct ran_sandboxed : Effect
  asked : ApprovalRequest → Result ApprovalDecision → Effect

-- What a call does outside, and its result.
abbrev pub Traced {ℓ} : Type ℓ → Type ℓ
Traced A = List Effect × Result A

abbrev and_then {ℓ κ} : {A : Type ℓ} {B : Type κ} → Result A → (A → Traced B) → Traced B
and_then (ok a) f = f a
and_then (err e) f = ([], err e)

abbrev pub after_effect {ℓ} : {A : Type ℓ} → Effect → Traced A → Traced A
after_effect x (xs, r) = (x ∷ xs, r)

abbrev map_result {ℓ κ} : {A : Type ℓ} {B : Type κ} → (A → B) → Result A → Result B
map_result f (ok a) = ok (f a)
map_result f (err e) = err e

denial_error : Text → Option SandboxPermissionDenied → FrameworkError → FrameworkError
denial_error name none e = e
denial_error name (some d) e = tool (
    lit "sandbox invariant violated for "
    ++ name
    ++ lit ": preflight classified target as in-sandbox but wasm denied "
    ++ capability_as_str d.capability
    ++ lit " access to "
    ++ d.target
    ++ lit " ("
    ++ d.diagnostic
    ++ lit ")")

unfoldable pub invariant_sandbox_denial : Text → FrameworkError → FrameworkError
unfolding denial_error as_sandbox_permission_denied
invariant_sandbox_denial name e = denial_error name (as_sandbox_permission_denied e) e

unfoldable pub escalation_request :
    ToolExecEnv → Text → Text → SandboxCapability → Text → Text → ApprovalRequest
escalation_request ctx session_id name capability target reason = record {
  agent_id = ctx.agent_id;
  agent_name = ctx.agent_name;
  session_id = session_id;
  requesting_user_id = ctx.user_id;
  tool_name = name;
  execution_kind = lit "preflight_escalation";
  capability = capability;
  reason = reason;
  action_summary = target;
  diagnostic = lit "preflight escalation required: tool=" ++ name ++ lit " target=" ++ target;
}

decided : Text → Result ApprovalDecision → Result {0} Unit
decided name (err e) = err e
decided name (ok approved) = ok tt
decided name (ok denied) = err (
    approval_denied (record {
      approval_id = lit "denied";
      tool_name = name;
      reason = lit "user denied sandbox escalation";
    }))
decided name (ok timed_out) = err (
    approval_denied (record {
      approval_id = lit "timed-out";
      tool_name = name;
      reason = lit "approval timed out";
    }))

unfoldable pub answered : Text → ApprovalRequest → Result ApprovalDecision → Traced {0} Unit
unfolding decided
answered name request answer = (asked request answer ∷ [], decided name answer)

unfoldable pub request_tool_escalation :
    ToolExecEnv → Text → Text → SandboxCapability → Text → Text → Traced {0} Unit
unfolding escalation_request answered
request_tool_escalation ctx session_id name capability target reason =
    let request = escalation_request ctx session_id name capability target reason in
    answered name request (ctx.approval_requester request)

module _ {O : Type 0} where
  -- What follows a request for approval: nothing, if it gave an error.
  unfoldable pub when_approved :
      Traced {0} Unit → Traced (ToolExecutionOutcome O) → Traced (ToolExecutionOutcome O)
  when_approved (xs, ok u) (ys, r) = (xs ++ ys, r)
  when_approved (xs, err e) rest = (xs, err e)

  -- `map_err(|err| invariant_sandbox_denial(name, err))?`
  unfoldable pub checked_wasm : Text → Result O → Result (ToolExecutionOutcome O)
  unfolding invariant_sandbox_denial
  checked_wasm name (ok o) = ok (completed_with o)
  checked_wasm name (err e) = err (invariant_sandbox_denial name e)

  plain_direct : PlainTool O → Text → Text → Traced (ToolExecutionOutcome O)
  plain_direct t args session_id = (ran_direct ∷ [], t.execute_with_trace args session_id)

module _ {P O : Type 0} where
  web_direct : WebTool P O → Text → Traced (ToolExecutionOutcome O)
  web_direct t args =
      and_then (t.plan args)
        λ plan. (ran_direct ∷ [], map_result completed_with (t.execute_direct plan))

  unfoldable pub web_wasm : WebTool P O → Text → Traced (ToolExecutionOutcome O)
  web_wasm t args =
      and_then (t.plan args)
        λ plan. (ran_sandboxed ∷ [], map_result completed_with (t.execute_wasm plan))

  file_direct : FileTool P O → Text → Traced (ToolExecutionOutcome O)
  file_direct t args =
      and_then (t.plan args)
        λ plan. (ran_direct ∷ [], map_result completed_with (t.execute_direct plan))

  unfoldable pub file_routed :
      ToolExecEnv → Text → Text → FileTool P O → P → FileToolRoute → Traced (ToolExecutionOutcome O)
  unfolding checked_wasm request_tool_escalation when_approved
  file_routed ctx session_id name t p (file_sandboxed guest dirs) =
      (ran_sandboxed ∷ [], checked_wasm name (t.execute_wasm (file_sandboxed guest dirs, p)))
  file_routed ctx session_id name t p (file_needs_approval capability target reason) =
      when_approved (request_tool_escalation ctx session_id name capability target reason) (
        ran_direct ∷ [],
        map_result completed_with
            (t.execute_direct (file_needs_approval capability target reason, p)),
      )

  unfoldable pub file_wasm :
      ToolExecEnv → Text → Text → FileTool P O → Text → Traced (ToolExecutionOutcome O)
  unfolding file_routed
  file_wasm ctx session_id name t args =
      and_then (t.plan args) λ (route, p). file_routed ctx session_id name t p route

  exec_direct : Text → ExecTool P O → Text → Traced (ToolExecutionOutcome O)
  exec_direct session_id t args =
      and_then (t.plan args) λ plan. (ran_direct ∷ [], t.execute_direct plan session_id)

  unfoldable pub after_denial :
      ToolExecEnv
      → Text
      → ExecTool P O
      → ExecToolRoute × P
      → FrameworkError
      → Option SandboxPermissionDenied
      → Traced (ToolExecutionOutcome O)
  unfolding request_tool_escalation when_approved
  after_denial ctx session_id t plan e none = ([], err e)
  after_denial ctx session_id t plan e (some d) =
      when_approved
        (request_tool_escalation ctx session_id d.tool_name d.capability d.target (
          d.tool_name
          ++ lit " requires unsandboxed "
          ++ capability_as_str d.capability
          ++ lit " access"))
        (ran_direct ∷ [], t.execute_direct plan session_id)

  unfoldable pub after_host :
      ToolExecEnv
      → Text
      → ExecTool P O
      → ExecToolRoute × P
      → Result (ToolExecutionOutcome O)
      → Traced (ToolExecutionOutcome O)
  unfolding after_denial
  after_host ctx session_id t plan (ok outcome) = ([], ok outcome)
  after_host ctx session_id t plan (err e) =
      after_denial ctx session_id t plan e (as_sandbox_permission_denied e)

  unfoldable pub exec_routed :
      ToolExecEnv → Text → ExecTool P O → P → ExecToolRoute → Traced (ToolExecutionOutcome O)
  unfolding after_host
  exec_routed ctx session_id t p exec_sandboxed = after_effect ran_sandboxed (
      after_host ctx session_id t (exec_sandboxed, p)
        (t.execute_host_sandboxed (exec_sandboxed, p) session_id))
  exec_routed ctx session_id t p (exec_needs_approval capability target reason) =
      when_approved (request_tool_escalation ctx session_id (lit "exec") capability target reason) (
        ran_direct ∷ [],
        t.execute_direct (exec_needs_approval capability target reason, p) session_id,
      )

  unfoldable pub exec_host :
      ToolExecEnv → Text → ExecTool P O → Text → Traced (ToolExecutionOutcome O)
  unfolding exec_routed
  exec_host ctx session_id t args =
      and_then (t.plan args) λ (route, p). exec_routed ctx session_id t p route

  unfoldable pub unsupported :
      RegisteredTool P O → ToolExecutionKind → Traced (ToolExecutionOutcome O)
  unsupported t kind = (
    [],
    err (
        tool (
          lit "unsupported execution kind "
          ++ kind_debug kind
          ++ lit " for tool '"
          ++ tool_name t
          ++ lit "'")),
  )

  unfoldable pub run_on :
      ToolExecEnv
      → Text
      → Text
      → RegisteredTool P O
      → ToolExecutionKind
      → Traced (ToolExecutionOutcome O)
  unfolding web_direct web_wasm file_direct file_wasm exec_direct exec_host plain_direct unsupported
  run_on ctx args session_id (web_search t) direct = web_direct t args
  run_on ctx args session_id (web_search t) wasm_sandbox = web_wasm t args
  run_on ctx args session_id (web_fetch t) direct = web_direct t args
  run_on ctx args session_id (web_fetch t) wasm_sandbox = web_wasm t args
  run_on ctx args session_id (read t) direct = file_direct t args
  run_on ctx args session_id (read t) wasm_sandbox = file_wasm ctx session_id (lit "read") t args
  run_on ctx args session_id (edit t) direct = file_direct t args
  run_on ctx args session_id (edit t) wasm_sandbox = file_wasm ctx session_id (lit "edit") t args
  run_on ctx args session_id (glob t) direct = file_direct t args
  run_on ctx args session_id (glob t) wasm_sandbox = file_wasm ctx session_id (lit "glob") t args
  run_on ctx args session_id (grep t) direct = file_direct t args
  run_on ctx args session_id (grep t) wasm_sandbox = file_wasm ctx session_id (lit "grep") t args
  run_on ctx args session_id (list t) direct = file_direct t args
  run_on ctx args session_id (list t) wasm_sandbox = file_wasm ctx session_id (lit "list") t args
  run_on ctx args session_id (exec t) direct = exec_direct session_id t args
  run_on ctx args session_id (exec t) host_sandbox = exec_host ctx session_id t args
  run_on ctx args session_id (summon t) direct = plain_direct t args session_id
  run_on ctx args session_id (task t) direct = plain_direct t args session_id
  run_on ctx args session_id (direct_tool t) direct = plain_direct t args session_id
  run_on ctx args session_id t kind = unsupported t kind

  unfoldable pub execute :
      AgentToolEntry P O → ToolExecEnv → Text → Text → Traced (ToolExecutionOutcome O)
  unfolding run_on
  execute entry ctx args_json session_id =
      run_on ctx args_json session_id entry.tool entry.execution_kind
