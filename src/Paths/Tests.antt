-- ===== src/Paths/Tests.antt =====
-- The theorems on paths at concrete paths.
use simple_claw.Base.{◌≡◌, refl, lit, [], ◌∷◌, trim, text_discrete, is_empty}
use simple_claw.Error.{write, ok, Result}
use simple_claw.Paths.{
  root_dir, parent_dir, normal, PathBuf, components, is_absolute, join, display_path,
  normalize_absolute_path, resolve_guest_path, strip_prefix, path_starts_with,
}
use simple_claw.Paths.Guest.{InGuest, resolve_guest_path-InGuest}
use simple_claw.Paths.Access.{
  ToolSandboxConfig, classify_file_tool_access, mounted, normalize_workspace_root,
}
use simple_claw.Paths.Routes.{Confined, classify_file_tool_access-Confined}

-- `/a/../../b`
abbrev climbing : PathBuf
climbing = root_dir ∷ normal (97 ∷ []) ∷ parent_dir ∷ parent_dir ∷ normal (98 ∷ []) ∷ []

climbs : normalize_absolute_path climbing ≡ root_dir ∷ normal (98 ∷ []) ∷ []
unfolding normalize_absolute_path
climbs = refl

abbrev in_workspace : PathBuf
in_workspace = root_dir ∷ normal (lit "workspace") ∷ normal (98 ∷ []) ∷ []

resolve_guest_path-InGuest_example :
    InGuest in_workspace × (components (display_path in_workspace) ≡ in_workspace)
unfolding resolve_guest_path lit trim is_empty components join normalize_absolute_path strip_prefix
    text_discrete path_starts_with
resolve_guest_path-InGuest_example = resolve_guest_path-InGuest (lit " a/../b ") in_workspace refl

-- The path `/d/e/f` below the extra roots `/d` and `/d/e`.
abbrev file : PathBuf
file = root_dir ∷ normal (100 ∷ []) ∷ normal (101 ∷ []) ∷ normal (102 ∷ []) ∷ []

abbrev outer : PathBuf
outer = root_dir ∷ normal (100 ∷ []) ∷ []

abbrev inner : PathBuf
inner = root_dir ∷ normal (100 ∷ []) ∷ normal (101 ∷ []) ∷ []

abbrev nowhere : Result PathBuf
nowhere = ok (root_dir ∷ [])

abbrev sandbox : ToolSandboxConfig
sandbox = record { extra_readable_paths = []; extra_writable_paths = [] }

classify_file_tool_access-Confined_example :
    Confined nowhere file outer
      (root_dir ∷ [])
      sandbox
      write
      (mounted (lit "/workspace") (normal (101 ∷ []) ∷ normal (102 ∷ []) ∷ []))
      []
unfolding classify_file_tool_access normalize_workspace_root normalize_absolute_path strip_prefix
    text_discrete is_absolute
classify_file_tool_access-Confined_example =
    classify_file_tool_access-Confined nowhere file outer (root_dir ∷ []) sandbox write
      (mounted (lit "/workspace") (normal (101 ∷ []) ∷ normal (102 ∷ []) ∷ [])) [] refl
