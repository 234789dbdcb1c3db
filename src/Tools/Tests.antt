-- ===== src/Tools/Tests.antt =====
-- A concrete command tool and file tool, and the theorems applied to them.
use simple_claw.Base.{◌≡◌, ◌⊎◌, ◌↔◌, refl, arith, Text, lit, [], ◌∷◌, none, some, false, true, In}
use simple_claw.Error.{
  FrameworkError, exec, sandbox_permission_denied, SandboxPermissionDenied, ok, err,
  as_sandbox_permission_denied,
}
use simple_claw.Approval.{approved}
use simple_claw.Tools.{
  ToolExecEnv, FileTool, ExecTool, file_sandboxed, exec_sandboxed, completed_with, AgentToolEntry,
  host_sandbox, direct, authorize, tool_name,
}
use simple_claw.Tools.Executor.{ran_sandboxed, execute, file_wasm}
use simple_claw.Tools.Escalation.{Guarded, execute-Guarded, file_wasm-sandboxed}
use simple_claw.Tools.Registry.{
  AgentToolRegistry, index, ToolMethods, ToolsConfig, ToolFactory, register_builtin, pushed,
}
use simple_claw.Tools.Owners.{authorize_iff}

abbrev env : ToolExecEnv
env = record {
  agent_id = 97 ∷ [];
  agent_name = 65 ∷ [];
  user_id = 117 ∷ [];
  owner_ids = (117 ∷ []) ∷ [];
  approval_requester = λ request. ok approved;
}

abbrev refusal : SandboxPermissionDenied
refusal = record {
  tool_name = 120 ∷ [];
  execution_kind = 104 ∷ [];
  capability = exec;
  target = 116 ∷ [];
  diagnostic = 100 ∷ [];
}

-- A command that the sandbox refuses.
abbrev command : ExecTool Text Text
command = record {
  plan = λ args. ok (exec_sandboxed, args);
  execute_direct = λ plan session. ok (completed_with plan.1);
  execute_host_sandboxed = λ plan session. err (sandbox_permission_denied refusal);
  execute_with_trace = λ args session. ok (completed_with args);
}

-- A file tool that the sandbox refuses, against its plan.
abbrev reader : FileTool Text Text
reader = record {
  plan = λ args. ok (file_sandboxed args [], args);
  execute_direct = λ plan. ok plan.1;
  execute_wasm = λ plan. err (sandbox_permission_denied refusal);
}

abbrev entry : AgentToolEntry Text Text
entry = record {
  tool = simple_claw.Tools.exec command;
  execution_kind = host_sandbox;
  owner_restricted = true;
}

execute-Guarded_example : Guarded false (execute entry env (1 ∷ []) (2 ∷ [])).0
execute-Guarded_example = execute-Guarded entry env (1 ∷ []) (2 ∷ []) (λ h. ground arith)

file_wasm-sandboxed_example :
    ((file_wasm env (2 ∷ []) (3 ∷ []) reader (1 ∷ [])).0 ≡ ran_sandboxed ∷ [])
    × ((e : FrameworkError)
        → (file_wasm env (2 ∷ []) (3 ∷ []) reader (1 ∷ [])).1 ≡ err e
        → as_sandbox_permission_denied e ≡ none)
file_wasm-sandboxed_example =
    file_wasm-sandboxed env (2 ∷ []) (3 ∷ []) reader (1 ∷ []) (1 ∷ []) [] (1 ∷ []) refl

authorize_iff_example :
    (authorize entry env ≡ ok tt)
    ↔ ((entry.owner_restricted ≡ false) ⊎ In env.user_id env.owner_ids)
authorize_iff_example = authorize_iff entry env

abbrev registry : AgentToolRegistry Text Text
registry = record { ordered = entry ∷ []; by_name = index (entry ∷ []) [] }

abbrev methods : ToolMethods Text Text Text
methods = record {
  configure_clone = λ tool value. ok tool;
  supported_execution_kinds = λ tool. direct ∷ host_sandbox ∷ [];
}

-- One enabled tool, in its sandbox and for everyone.
abbrev settings : ToolsConfig Text
settings = record {
  enabled_tool_names = lit "exec" ∷ [];
  config_for_tool = λ name. ok none;
  owner_restricted_for_tool = λ name. some false;
  sandbox_enabled = λ name. true;
}

abbrev factory : ToolFactory Text Text
factory = register_builtin (record { builtins = []; by_name = [] }) (simple_claw.Tools.exec command)

abbrev built : AgentToolRegistry Text Text
built =
    (pushed ([], record { ordered = []; by_name = [] }) (lit "exec")
      (record {
        tool = simple_claw.Tools.exec command;
        execution_kind = host_sandbox;
        owner_restricted = false;
      })).1
