-- ===== src/Paths/Routes.antt =====
-- Which root an access is routed to.
use simple_claw.Base.{
  ◌≡◌, ◌⊎◌, inl, inr, ℕ, Text, List, [], ◌∷◌, ◌++◌, none, some, true, All, Bool-cases, Option-cases,
  arith,
}
use simple_claw.Error.{SandboxCapability, FrameworkError, Result, ok, err, Result-cases}
use simple_claw.Tools.{file_sandboxed, file_needs_approval, WasmPreopenedDir}
use simple_claw.Paths.{
  PathBuf, strip_prefix, display_path, normalize_absolute_path, persona_relative_path_allowed,
  workspace_root_text, persona_root_text,
}
use simple_claw.Paths.Guest.{strip_prefix-some}
use simple_claw.Paths.Access.{
  ToolSandboxConfig, normalize_workspace_root, sandbox_paths_for_capability,
  find_matching_extra_root, mounted, extra_mount, extra_route, persona_route, workspace_route,
  allowed_relative, classify_file_tool_access,
}
use simple_claw.Paths.Roots.{
  Covered, find_matching_extra_root-Covered, Configured, find_matching_extra_root-Configured,
  GrantedFor, Configured-GrantedFor,
}

failed : {A : Type 0} {x : FrameworkError} (a : A) → ¬ (err x ≡ ok a)
failed {A} {x} a h = ground arith

asked_for :
    {c : SandboxCapability} {t r g : Text} {d : List WasmPreopenedDir}
    → ¬ (ok (file_needs_approval c t r) ≡ ok (file_sandboxed g d))
asked_for {c} {t} {r} {g} {d} h = ground arith

sandboxed-injective :
    (g g' : Text) (d d' : List WasmPreopenedDir)
    → ok (file_sandboxed g d) ≡ ok (file_sandboxed g' d')
    → (g' ≡ g) × (d' ≡ d)
sandboxed-injective g g' d d' h = ground arith

module _ (cwd : Result PathBuf) (host_path workspace_root persona_root : PathBuf)
    (sandbox : ToolSandboxConfig) (capability : SandboxCapability) where
  abbrev target : PathBuf
  target = normalize_absolute_path host_path

  -- The path is below this root, once it is normalized.
  abbrev UnderRoot : PathBuf → PathBuf → Type 0
  UnderRoot root relative =
      (absolute : PathBuf) × (normalize_workspace_root cwd root ≡ ok absolute)
      × (target ≡ normalize_absolute_path absolute ++ relative)

  -- An access to a path below the workspace, below the persona root where the names there allow it, or
  -- below one of the extra roots that are configured for the capability (the readable ones and, to write, the
  -- writable ones), of which no other that the path is below is deeper; with the mount of the root in front of the path below it.
  abbrev pub InExtra : Text → List WasmPreopenedDir → Type 0
  InExtra guest_path dirs =
      (index : ℕ) × (root : PathBuf) × (relative : PathBuf) × Configured cwd 0
        (sandbox_paths_for_capability sandbox capability) index root
      × GrantedFor cwd sandbox capability root
      × All (Covered cwd target (some (index, root, relative)))
          (sandbox_paths_for_capability sandbox capability)
      × (target ≡ root ++ relative)
      × (guest_path ≡ mounted (extra_mount index) relative)
      × (dirs ≡ record { host_path = display_path root; guest_path = extra_mount index } ∷ [])

  abbrev pub InPersonaOrExtra : Text → List WasmPreopenedDir → Type 0
  InPersonaOrExtra guest_path dirs =
      ((relative : PathBuf) × UnderRoot persona_root relative
        × (persona_relative_path_allowed relative ≡ true)
        × (guest_path ≡ mounted persona_root_text relative)
        × (dirs ≡ []))
      ⊎ InExtra guest_path dirs

  abbrev pub Confined : Text → List WasmPreopenedDir → Type 0
  Confined guest_path dirs =
      ((relative : PathBuf) × UnderRoot workspace_root relative
        × (guest_path ≡ mounted workspace_root_text relative)
        × (dirs ≡ []))
      ⊎ InPersonaOrExtra guest_path dirs

  extra :
      {guest_path : Text} {dirs : List WasmPreopenedDir} (workspace persona : PathBuf)
      → persona_route cwd sandbox capability target workspace persona none
        ≡ ok (file_sandboxed guest_path dirs)
      → InExtra guest_path dirs
  unfolding persona_route extra_route
  extra workspace persona h =
      let roots = sandbox_paths_for_capability sandbox capability in
      elim (Result-cases (find_matching_extra_root cwd target roots)) [
        | inr (x, e) ↦ absurd (failed _ (rw e at h))
        | inl (none, e) ↦ absurd (asked_for (rw e at h))
        | inl (some (index, root, relative), e) ↦
            let (below, deepest) =
              find_matching_extra_root-Covered cwd target roots (some (index, root, relative)) e in
            let configured =
              find_matching_extra_root-Configured cwd target roots (some (index, root, relative))
                e in
            let (g, d) = sandboxed-injective _ _ _ _ (rw e at h) in
            (
              index,
              root,
              relative,
              configured,
              Configured-GrantedFor cwd sandbox capability index root configured,
              deepest,
              strip_prefix-some target root relative below,
              g,
              d,
            )
      ]

  -- What the code does past the check of the workspace.
  beyond_workspace :
      {guest_path : Text} {dirs : List WasmPreopenedDir} (workspace persona : PathBuf)
      → normalize_workspace_root cwd persona_root ≡ ok persona
      → persona_route cwd sandbox capability target workspace
          (normalize_absolute_path persona)
          (allowed_relative (strip_prefix target (normalize_absolute_path persona)))
        ≡ ok (file_sandboxed guest_path dirs)
      → InPersonaOrExtra guest_path dirs
  unfolding persona_route allowed_relative extra_route
  beyond_workspace workspace persona f h =
      let at = normalize_absolute_path persona in
      elim (Option-cases (strip_prefix target at)) [
        | inr (relative, s) ↦ elim (Bool-cases (persona_relative_path_allowed relative)) [
          | inl may ↦
              let (g, d) = sandboxed-injective _ _ _ _ (rw (s, may) at h) in
              inl (relative, (persona, f, strip_prefix-some target at relative s), may, g, d)
          | inr may_not ↦ inr (extra workspace at (rw (s, may_not) at h))
        ]
        | inl outside ↦ inr (extra workspace at (rw outside at h))
      ]

  -- An access that is sandboxed is to a normalized path below the workspace, or below the persona root and
  -- allowed there, or below one of the extra roots that are configured for the capability, the deepest that the
  -- path is below; the guest path is the mount of that root with the path below it, and an extra root is the
  -- only directory that is opened.
  pub classify_file_tool_access-Confined :
      (guest_path : Text) (dirs : List WasmPreopenedDir)
      → classify_file_tool_access cwd host_path workspace_root persona_root sandbox capability
        ≡ ok (file_sandboxed guest_path dirs)
      → Confined guest_path dirs
  unfolding classify_file_tool_access workspace_route
  classify_file_tool_access-Confined guest_path dirs h =
      elim (Result-cases (normalize_workspace_root cwd workspace_root)) [
        | inr (x, e) ↦ absurd (failed _ (rw e at h))
        | inl (workspace, e) ↦
            elim (Option-cases (strip_prefix target (normalize_absolute_path workspace))) [
              | inr (relative, s) ↦
                  let (g, d) = sandboxed-injective _ _ _ _ (rw (e, s) at h) in
                  inl (
                    relative,
                    (
                      workspace,
                      e,
                      strip_prefix-some target (normalize_absolute_path workspace) relative s,
                    ),
                    g,
                    d,
                  )
              | inl outside ↦ elim (Result-cases (normalize_workspace_root cwd persona_root)) [
                | inr (x, f) ↦ absurd (failed _ (rw (e, outside, f) at h))
                | inl (persona, f) ↦ inr (
                    beyond_workspace (normalize_absolute_path workspace) persona f
                      (rw (e, outside, f) at h))
              ]
            ]
      ]
