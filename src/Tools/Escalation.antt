-- ===== src/Tools/Escalation.antt =====
-- No tool that is configured to be sandboxed runs outside the sandbox without an approval.
use simple_claw.Base.{
  ◌≡◌, ◌≢◌, inl, inr, refl, Text, lit, List, [], ◌∷◌, Option, none, some, Bool, true, false, arith,
}
use simple_claw.Error.{
  SandboxCapability, FrameworkError, Result, ok, err, Result-cases, as_sandbox_permission_denied,
  SandboxPermissionDenied,
}
use simple_claw.Approval.{ApprovalRequest, ApprovalDecision, approved, denied, timed_out}
use simple_claw.Tools.{
  ToolExecutionKind, direct, wasm_sandbox, host_sandbox, ToolExecEnv, FileToolRoute, file_sandboxed,
  file_needs_approval, exec_sandboxed, exec_needs_approval, ExecToolRoute, ToolExecutionOutcome,
  WasmPreopenedDir, web_search, web_fetch, read, edit, glob, grep, list, exec, summon, task,
  direct_tool, WebTool, FileTool, ExecTool, RegisteredTool, AgentToolEntry,
}
use simple_claw.Tools.Executor.{
  Effect, ran_direct, ran_sandboxed, asked, execute, file_wasm, exec_host, when_approved,
  request_tool_escalation, escalation_request, answered, web_wasm, file_routed, after_denial,
  after_host, exec_routed, run_on, checked_wasm, unsupported, invariant_sandbox_denial,
}

-- Each run outside the sandbox comes after an approval (`b`: there was one).
abbrev pub Guarded : Bool → List Effect → Type 0
Guarded b [] = Unit
Guarded b (ran_direct ∷ xs) = (b ≡ true) × Guarded b xs
Guarded b (ran_sandboxed ∷ xs) = Guarded b xs
Guarded b (asked request (ok approved) ∷ xs) = Guarded true xs
Guarded b (asked request _ ∷ xs) = Guarded b xs

module _ {O : Type 0} where
  Guarded-answered :
      (name : Text) (request : ApprovalRequest) (answer : Result ApprovalDecision)
      (r : Result (ToolExecutionOutcome O))
      → Guarded false (when_approved (answered name request answer) (ran_direct ∷ [], r)).0
  unfolding when_approved answered
  Guarded-answered name request (ok approved) r = (refl, tt)
  Guarded-answered name request (ok denied) r = tt
  Guarded-answered name request (ok timed_out) r = tt
  Guarded-answered name request (err e) r = tt

  Guarded-escalation :
      (ctx : ToolExecEnv) (session name : Text) (capability : SandboxCapability)
      (target reason : Text) (r : Result (ToolExecutionOutcome O))
      → Guarded false
          (when_approved
            (request_tool_escalation ctx session name capability target reason)
            (ran_direct ∷ [], r)).0
  unfolding request_tool_escalation
  Guarded-escalation ctx session name capability target reason r =
      let request = escalation_request ctx session name capability target reason in
      Guarded-answered name request (ctx.approval_requester request) r

  checked_wasm-err :
      (name : Text) (r : Result O) (e : FrameworkError)
      → checked_wasm name r ≡ err e
      → as_sandbox_permission_denied e ≡ none
  unfolding checked_wasm invariant_sandbox_denial as_sandbox_permission_denied
  checked_wasm-err name r e h = ground arith

module _ {P O : Type 0} where
  Guarded-web : (t : WebTool P O) (args : Text) → Guarded false (web_wasm t args).0
  unfolding web_wasm
  Guarded-web t args = elim (Result-cases (t.plan args)) [
    | inl (plan, e) ↦ rw e tt
    | inr (x, e) ↦ rw e tt
  ]

  Guarded-file_routed :
      (ctx : ToolExecEnv) (session name : Text) (t : FileTool P O) (p : P) (route : FileToolRoute)
      → Guarded false (file_routed ctx session name t p route).0
  unfolding file_routed
  Guarded-file_routed ctx session name t p (file_sandboxed guest dirs) = tt
  Guarded-file_routed ctx session name t p (file_needs_approval capability target reason) =
      Guarded-escalation ctx session name capability target reason _

  Guarded-file :
      (ctx : ToolExecEnv) (session name : Text) (t : FileTool P O) (args : Text)
      → Guarded false (file_wasm ctx session name t args).0
  unfolding file_wasm
  Guarded-file ctx session name t args = elim (Result-cases (t.plan args)) [
    | inl ((route, p), e) ↦ rw e (Guarded-file_routed ctx session name t p route)
    | inr (x, e) ↦ rw e tt
  ]

  Guarded-after_denial :
      (ctx : ToolExecEnv) (session : Text) (t : ExecTool P O) (plan : ExecToolRoute × P)
      (e : FrameworkError) (denial : Option SandboxPermissionDenied)
      → Guarded false (after_denial ctx session t plan e denial).0
  unfolding after_denial
  Guarded-after_denial ctx session t plan e none = tt
  Guarded-after_denial ctx session t plan e (some d) =
      Guarded-escalation ctx session d.tool_name d.capability d.target _ _

  Guarded-after_host :
      (ctx : ToolExecEnv) (session : Text) (t : ExecTool P O) (plan : ExecToolRoute × P)
      (r : Result (ToolExecutionOutcome O))
      → Guarded false (after_host ctx session t plan r).0
  unfolding after_host
  Guarded-after_host ctx session t plan (ok outcome) = tt
  Guarded-after_host ctx session t plan (err e) =
      Guarded-after_denial ctx session t plan e (as_sandbox_permission_denied e)

  Guarded-exec_routed :
      (ctx : ToolExecEnv) (session : Text) (t : ExecTool P O) (p : P) (route : ExecToolRoute)
      → Guarded false (exec_routed ctx session t p route).0
  unfolding exec_routed
  Guarded-exec_routed ctx session t p exec_sandboxed =
      Guarded-after_host ctx session t (exec_sandboxed, p)
        (t.execute_host_sandboxed (exec_sandboxed, p) session)
  Guarded-exec_routed ctx session t p (exec_needs_approval capability target reason) =
      Guarded-escalation ctx session (lit "exec") capability target reason _

  Guarded-exec :
      (ctx : ToolExecEnv) (session : Text) (t : ExecTool P O) (args : Text)
      → Guarded false (exec_host ctx session t args).0
  unfolding exec_host
  Guarded-exec ctx session t args = elim (Result-cases (t.plan args)) [
    | inl ((route, p), e) ↦ rw e (Guarded-exec_routed ctx session t p route)
    | inr (x, e) ↦ rw e tt
  ]

  run_on-Guarded :
      (ctx : ToolExecEnv) (args session : Text) (t : RegisteredTool P O) (kind : ToolExecutionKind)
      → kind ≢ direct
      → Guarded false (run_on ctx args session t kind).0
  unfolding run_on unsupported
  run_on-Guarded ctx args session (web_search t) direct h = absurd (h refl)
  run_on-Guarded ctx args session (web_search t) wasm_sandbox h = Guarded-web t args
  run_on-Guarded ctx args session (web_search t) host_sandbox h = tt
  run_on-Guarded ctx args session (web_fetch t) direct h = absurd (h refl)
  run_on-Guarded ctx args session (web_fetch t) wasm_sandbox h = Guarded-web t args
  run_on-Guarded ctx args session (web_fetch t) host_sandbox h = tt
  run_on-Guarded ctx args session (read t) direct h = absurd (h refl)
  run_on-Guarded ctx args session (read t) wasm_sandbox h =
      Guarded-file ctx session (lit "read") t args
  run_on-Guarded ctx args session (read t) host_sandbox h = tt
  run_on-Guarded ctx args session (edit t) direct h = absurd (h refl)
  run_on-Guarded ctx args session (edit t) wasm_sandbox h =
      Guarded-file ctx session (lit "edit") t args
  run_on-Guarded ctx args session (edit t) host_sandbox h = tt
  run_on-Guarded ctx args session (glob t) direct h = absurd (h refl)
  run_on-Guarded ctx args session (glob t) wasm_sandbox h =
      Guarded-file ctx session (lit "glob") t args
  run_on-Guarded ctx args session (glob t) host_sandbox h = tt
  run_on-Guarded ctx args session (grep t) direct h = absurd (h refl)
  run_on-Guarded ctx args session (grep t) wasm_sandbox h =
      Guarded-file ctx session (lit "grep") t args
  run_on-Guarded ctx args session (grep t) host_sandbox h = tt
  run_on-Guarded ctx args session (list t) direct h = absurd (h refl)
  run_on-Guarded ctx args session (list t) wasm_sandbox h =
      Guarded-file ctx session (lit "list") t args
  run_on-Guarded ctx args session (list t) host_sandbox h = tt
  run_on-Guarded ctx args session (exec t) direct h = absurd (h refl)
  run_on-Guarded ctx args session (exec t) wasm_sandbox h = tt
  run_on-Guarded ctx args session (exec t) host_sandbox h = Guarded-exec ctx session t args
  run_on-Guarded ctx args session (summon t) direct h = absurd (h refl)
  run_on-Guarded ctx args session (summon t) wasm_sandbox h = tt
  run_on-Guarded ctx args session (summon t) host_sandbox h = tt
  run_on-Guarded ctx args session (task t) direct h = absurd (h refl)
  run_on-Guarded ctx args session (task t) wasm_sandbox h = tt
  run_on-Guarded ctx args session (task t) host_sandbox h = tt
  run_on-Guarded ctx args session (direct_tool t) direct h = absurd (h refl)
  run_on-Guarded ctx args session (direct_tool t) wasm_sandbox h = tt
  run_on-Guarded ctx args session (direct_tool t) host_sandbox h = tt

  -- A call of a tool whose configured kind is a sandbox runs the tool outside the sandbox only after
  -- it asked for an approval and got it, whatever the plan and whatever the sandbox answered.
  pub execute-Guarded :
      (entry : AgentToolEntry P O) (ctx : ToolExecEnv) (args session : Text)
      → entry.execution_kind ≢ direct
      → Guarded false (execute entry ctx args session).0
  unfolding execute
  execute-Guarded entry ctx args session h =
      run_on-Guarded ctx args session entry.tool entry.execution_kind h

  -- A sandboxed file plan runs in the sandbox and nowhere else, and what it fails with is never a
  -- sandbox denial, which a caller could take as a reason to escalate.
  pub file_wasm-sandboxed :
      (ctx : ToolExecEnv) (session name : Text) (t : FileTool P O) (args guest : Text)
      (dirs : List WasmPreopenedDir) (p : P)
      → t.plan args ≡ ok (file_sandboxed guest dirs, p)
      → ((file_wasm ctx session name t args).0 ≡ ran_sandboxed ∷ [])
        × ((e : FrameworkError)
            → (file_wasm ctx session name t args).1 ≡ err e
            → as_sandbox_permission_denied e ≡ none)
  unfolding file_wasm file_routed
  file_wasm-sandboxed ctx session name t args guest dirs p planned =
      rw planned
        (refl, λ e h. checked_wasm-err name (t.execute_wasm (file_sandboxed guest dirs, p)) e h)
