-- ===== src/Tools/Denials.antt =====
-- What a denial by the host sandbox leads to.
use simple_claw.Base.{◌≡◌, ◌≢◌, refl, Text, lit, [], ◌∷◌, ◌++◌, arith}
use simple_claw.Error.{
  FrameworkError, Result, ok, err, as_sandbox_permission_denied, SandboxPermissionDenied,
  sandbox_permission_denied, capability_as_str,
}
use simple_claw.Approval.{ApprovalRequest, ApprovalDecision, approved, denied, timed_out}
use simple_claw.Tools.{ToolExecEnv, exec_sandboxed, ExecToolRoute, ToolExecutionOutcome, ExecTool}
use simple_claw.Tools.Executor.{
  ran_direct, ran_sandboxed, asked, Traced, exec_host, when_approved, request_tool_escalation,
  escalation_request, answered, after_denial, after_host, exec_routed, after_effect,
}

module _ {P O : Type 0} where
  -- What an answer to an escalation leads to: the tool's run outside the sandbox after an approval,
  -- and nothing but an error otherwise.
  abbrev pub Escalated :
      ExecTool P O
      → ExecToolRoute × P
      → Text
      → ApprovalRequest
      → Result ApprovalDecision
      → Traced (ToolExecutionOutcome O)
      → Type 0
  Escalated t plan session request answer done =
      (answer ≡ ok approved
        → done
          ≡ (ran_sandboxed ∷ asked request answer ∷ ran_direct ∷ [], t.execute_direct plan session))
      × (answer ≢ ok approved
          → (e : FrameworkError) × (done ≡ (ran_sandboxed ∷ asked request answer ∷ [], err e)))

  escalated :
      (t : ExecTool P O) (plan : ExecToolRoute × P) (session name : Text)
      (request : ApprovalRequest) (answer : Result ApprovalDecision)
      → Escalated t plan session request answer (
          after_effect ran_sandboxed (
            when_approved
              (answered name request answer)
              (ran_direct ∷ [], t.execute_direct plan session)))
  unfolding when_approved answered
  escalated t plan session name request (ok approved) = (λ h. refl, λ h. absurd (h refl))
  escalated t plan session name request (ok denied) = (λ h. ground arith, λ h. (_, refl))
  escalated t plan session name request (ok timed_out) = (λ h. ground arith, λ h. (_, refl))
  escalated t plan session name request (err e) = (λ h. ground arith, λ h. (e, refl))

  -- When the host sandbox denies a command a permission, the command runs outside the sandbox
  -- exactly after the user approved the denied permission; otherwise the call fails.
  pub exec_host-escalates :
      (ctx : ToolExecEnv) (session : Text) (t : ExecTool P O) (args : Text) (p : P)
      (d : SandboxPermissionDenied)
      → t.plan args ≡ ok (exec_sandboxed, p)
      → t.execute_host_sandboxed (exec_sandboxed, p) session ≡ err (sandbox_permission_denied d)
      → let request = escalation_request ctx session d.tool_name d.capability d.target (
          d.tool_name
          ++ lit " requires unsandboxed "
          ++ capability_as_str d.capability
          ++ lit " access") in
        Escalated t
          (exec_sandboxed, p)
          session
          request
          (ctx.approval_requester request)
          (exec_host ctx session t args)
  unfolding exec_host exec_routed after_host as_sandbox_permission_denied after_denial
      request_tool_escalation
  exec_host-escalates ctx session t args p d planned refused =
      rw (planned, refused)
        (escalated t (exec_sandboxed, p) session d.tool_name
          (escalation_request ctx session d.tool_name d.capability d.target (
            d.tool_name
            ++ lit " requires unsandboxed "
            ++ capability_as_str d.capability
            ++ lit " access"))
          (ctx.approval_requester (
            escalation_request ctx session d.tool_name d.capability d.target (
              d.tool_name
              ++ lit " requires unsandboxed "
              ++ capability_as_str d.capability
              ++ lit " access"))))
