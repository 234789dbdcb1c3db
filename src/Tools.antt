-- ===== src/Tools.antt =====
-- src/tools/mod.rs: registered tools, who may call them, and the executor that runs a call. `P` is
-- what a plan holds besides its route, `O` a tool's output. The tools' own methods are the fields of
-- the tools.
pub mod Executor
pub mod Escalation
pub mod Denials
pub mod Owners
pub mod Registry
pub mod Lookup
mod Tests
use simple_claw.Base.{
  Text, lit, List, [], ◌∷◌, ◌++◌, any, Option, none, some, Bool, true, false, not, ◌&&◌, ◌==◌,
  if◌then◌else◌,
}
use simple_claw.Error.{SandboxCapability, FrameworkError, tool, Result, ok, err}
use simple_claw.Approval.{ApprovalRequest, ApprovalDecision}
use simple_claw.Runs.{StartedAsyncToolRun}

pub data ToolExecutionKind : Type 0 where
  direct wasm_sandbox host_sandbox : ToolExecutionKind

-- The `{:?}` of a kind.
unfoldable pub kind_debug : ToolExecutionKind → Text
kind_debug direct = lit "Direct"
kind_debug wasm_sandbox = lit "WasmSandbox"
kind_debug host_sandbox = lit "HostSandbox"

-- The fields of `ToolExecEnv` that the executor itself reads; the tools' methods are applied to it.
pub record ToolExecEnv : Type 0 where
  pub agent_id : Text
  pub agent_name : Text
  pub user_id : Text
  pub owner_ids : List Text
  pub approval_requester : ApprovalRequest → Result ApprovalDecision

pub record WasmPreopenedDir : Type 0 where
  pub host_path : Text
  pub guest_path : Text

pub data FileToolRoute : Type 0 where
  file_sandboxed : Text → List WasmPreopenedDir → FileToolRoute
  file_needs_approval : SandboxCapability → Text → Text → FileToolRoute

pub data ExecToolRoute : Type 0 where
  exec_sandboxed : ExecToolRoute
  exec_needs_approval : SandboxCapability → Text → Text → ExecToolRoute

pub data ToolExecutionOutcome (O : Type 0) : Type 0 where
  completed_with : O → ToolExecutionOutcome O
  async_started : StartedAsyncToolRun → ToolExecutionOutcome O

pub record WebTool (P O : Type 0) : Type 0 where
  pub plan : Text → Result P
  pub execute_direct : P → Result O
  pub execute_wasm : P → Result O

pub record FileTool (P O : Type 0) : Type 0 where
  pub plan : Text → Result (FileToolRoute × P)
  pub execute_direct : FileToolRoute × P → Result O
  pub execute_wasm : FileToolRoute × P → Result O

pub record ExecTool (P O : Type 0) : Type 0 where
  pub plan : Text → Result (ExecToolRoute × P)
  pub execute_direct : ExecToolRoute × P → Text → Result (ToolExecutionOutcome O)
  pub execute_host_sandboxed : ExecToolRoute × P → Text → Result (ToolExecutionOutcome O)
  pub execute_with_trace : Text → Text → Result (ToolExecutionOutcome O)

-- A tool that only runs directly, with its name.
pub record PlainTool (O : Type 0) : Type 0 where
  pub name : Text
  pub execute_with_trace : Text → Text → Result (ToolExecutionOutcome O)

-- The shared pointers of the source are left out.
pub data RegisteredTool (P O : Type 0) : Type 0 where
  web_search web_fetch : WebTool P O → RegisteredTool P O
  read edit glob grep list : FileTool P O → RegisteredTool P O
  exec : ExecTool P O → RegisteredTool P O
  summon task direct_tool : PlainTool O → RegisteredTool P O

pub record AgentToolEntry (P O : Type 0) : Type 0 where
  pub tool : RegisteredTool P O
  pub execution_kind : ToolExecutionKind
  pub owner_restricted : Bool

module _ {P O : Type 0} where
  unfoldable pub tool_name : RegisteredTool P O → Text
  tool_name (web_search t) = lit "web_search"
  tool_name (web_fetch t) = lit "web_fetch"
  tool_name (read t) = lit "read"
  tool_name (edit t) = lit "edit"
  tool_name (glob t) = lit "glob"
  tool_name (grep t) = lit "grep"
  tool_name (list t) = lit "list"
  tool_name (exec t) = lit "exec"
  tool_name (summon t) = t.name
  tool_name (task t) = t.name
  tool_name (direct_tool t) = t.name

-- `owner_ids.is_empty()`
abbrev pub no_owners : List Text → Bool
no_owners [] = true
no_owners (id ∷ ids) = false

unfoldable pub owner_allowed : Text → List Text → Bool
owner_allowed user_id owner_ids =
    not (no_owners owner_ids) && any (λ owner_id. owner_id == user_id) owner_ids

unfoldable pub owner_checked : ToolExecEnv → Result {0} Unit
unfolding owner_allowed
owner_checked ctx =
    if no_owners ctx.owner_ids
    then err (tool (lit "owner restriction misconfigured: runtime.owner_ids is empty"))
    else if owner_allowed ctx.user_id ctx.owner_ids
    then ok tt
    else err (tool (lit "permission denied: this tool is restricted to the owner"))

module _ {P O : Type 0} where
  unfoldable pub authorize : AgentToolEntry P O → ToolExecEnv → Result {0} Unit
  unfolding owner_checked
  authorize entry ctx = if not entry.owner_restricted then ok tt else owner_checked ctx

-- `==` on the kinds.
unfoldable pub kind_eq : ToolExecutionKind → ToolExecutionKind → Bool
kind_eq direct direct = true
kind_eq wasm_sandbox wasm_sandbox = true
kind_eq host_sandbox host_sandbox = true
kind_eq _ _ = false
