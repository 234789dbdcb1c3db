-- ===== src/Paths/Access.antt =====
-- src/tools/builtin/file_access.rs: where a file tool's access runs, and `normalize_workspace_root` of
-- src/sandbox/wasm.rs. The working directory is an input.
use simple_claw.Base.{
  ℕ, ◌+◌, Text, lit, List, [], ◌∷◌, ◌++◌, map, length, Option, none, some, leb, show, if◌then◌else◌,
}
use simple_claw.Error.{SandboxCapability, write, Result, ok, ◌>>=◌}
use simple_claw.Tools.{FileToolRoute, file_sandboxed, file_needs_approval}
use simple_claw.Paths.{
  PathBuf, slash, components, is_absolute, join, strip_prefix, display_relative, display_path,
  normalize_absolute_path, persona_relative_path_allowed, workspace_root_text, persona_root_text,
}

pub record ToolSandboxConfig : Type 0 where
  pub extra_readable_paths : List Text
  pub extra_writable_paths : List Text

unfoldable pub normalize_workspace_root : Result PathBuf → PathBuf → Result PathBuf
normalize_workspace_root cwd workspace_root =
    if is_absolute workspace_root
    then ok workspace_root
    else cwd >>= λ dir. ok (join dir workspace_root)

unfoldable pub sandbox_paths_for_capability : ToolSandboxConfig → SandboxCapability → List PathBuf
sandbox_paths_for_capability sandbox write =
    map components sandbox.extra_readable_paths ++ map components sandbox.extra_writable_paths
sandbox_paths_for_capability sandbox _ = map components sandbox.extra_readable_paths

-- The place of a root in the list, the root, and the path below it.
abbrev pub Match : Type 0
Match = ℕ × PathBuf × PathBuf

-- The best match so far, with its depth.
abbrev pub Best : Type 0
Best = Option Match × ℕ

-- A root that the path is below.
unfoldable pub deeper : ℕ → PathBuf → Best → Option PathBuf → Best
deeper index root best none = best
deeper index root (best, best_depth) (some relative) =
    if leb best_depth (length root)
    then (some (index, root, relative), length root)
    else (best, best_depth)

-- The loop over the roots.
unfoldable pub match_from :
    Result PathBuf → PathBuf → ℕ → List PathBuf → Best → Result (Option Match)
unfolding deeper
match_from cwd normalized_path index [] best = ok best.0
match_from cwd normalized_path index (root ∷ roots) best =
    normalize_workspace_root cwd root >>= λ absolute.
    match_from cwd normalized_path (index + 1) roots (
      deeper index (normalize_absolute_path absolute) best
        (strip_prefix normalized_path (normalize_absolute_path absolute)))

unfoldable pub find_matching_extra_root :
    Result PathBuf → PathBuf → List PathBuf → Result (Option Match)
unfolding match_from
find_matching_extra_root cwd normalized_path extra_roots =
    match_from cwd normalized_path 0 extra_roots (none, 0)

-- `Path::new(mount).join(relative)`: an empty path adds a slash too.
unfoldable pub mounted : Text → PathBuf → Text
mounted mount relative = mount ++ slash ∷ display_relative relative

unfoldable pub extra_mount : ℕ → Text
extra_mount index = lit "/__extra/" ++ show index

unfoldable pub extra_route :
    SandboxCapability → PathBuf → PathBuf → PathBuf → Option Match → FileToolRoute
unfolding mounted extra_mount
extra_route capability path workspace persona (some (index, root, relative)) =
    file_sandboxed (mounted (extra_mount index) relative)
      (record { host_path = display_path root; guest_path = extra_mount index } ∷ [])
extra_route capability path workspace persona none =
    file_needs_approval capability (display_path path) (
      lit "target is outside the configured sandbox roots: path="
      ++ display_path path
      ++ lit " workspace="
      ++ display_path workspace
      ++ lit " persona="
      ++ display_path persona)

-- Below the persona root, if the names there allow it.
unfoldable pub allowed_relative : Option PathBuf → Option PathBuf
allowed_relative none = none
allowed_relative (some relative) =
    if persona_relative_path_allowed relative then some relative else none

unfoldable pub persona_route :
    Result PathBuf
    → ToolSandboxConfig
    → SandboxCapability
    → PathBuf
    → PathBuf
    → PathBuf
    → Option PathBuf
    → Result FileToolRoute
unfolding mounted extra_route
persona_route cwd sandbox capability path workspace persona (some relative) =
    ok (file_sandboxed (mounted persona_root_text relative) [])
persona_route cwd sandbox capability path workspace persona none =
    find_matching_extra_root cwd path (sandbox_paths_for_capability sandbox capability) >>= λ found.
    ok (extra_route capability path workspace persona found)

unfoldable pub workspace_route :
    Result PathBuf
    → ToolSandboxConfig
    → SandboxCapability
    → PathBuf
    → PathBuf
    → PathBuf
    → Option PathBuf
    → Result FileToolRoute
unfolding mounted persona_route
workspace_route cwd sandbox capability path workspace persona_root (some relative) =
    ok (file_sandboxed (mounted workspace_root_text relative) [])
workspace_route cwd sandbox capability path workspace persona_root none =
    normalize_workspace_root cwd persona_root >>= λ absolute.
    persona_route cwd sandbox capability path workspace (normalize_absolute_path absolute)
      (allowed_relative (strip_prefix path (normalize_absolute_path absolute)))

unfoldable pub classify_file_tool_access :
    Result PathBuf
    → PathBuf
    → PathBuf
    → PathBuf
    → ToolSandboxConfig
    → SandboxCapability
    → Result FileToolRoute
unfolding workspace_route
classify_file_tool_access cwd host_path workspace_root persona_root sandbox capability =
    normalize_workspace_root cwd workspace_root >>= λ absolute.
    workspace_route cwd sandbox capability (normalize_absolute_path host_path)
      (normalize_absolute_path absolute) persona_root
      (strip_prefix (normalize_absolute_path host_path) (normalize_absolute_path absolute))
