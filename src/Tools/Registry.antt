-- ===== src/Tools/Registry.antt =====
-- `AgentToolRegistry`, `ToolFactory` and `select_execution_kind` of src/tools/mod.rs. `V` is the type
-- of a tool's configuration; the configuration, and what a tool says of itself, are interfaces.
use simple_claw.Base.{
  Text, lit, List, [], ◌∷◌, ◌++◌, any, Option, none, some, Bool, true, false, ◌==◌, if◌then◌else◌,
}
use simple_claw.Base.Dict
use simple_claw.Base.Dict.{Dict}
use simple_claw.Error.{config, Result, ok, err, ◌>>=◌, ok_or}
use simple_claw.Tools.{
  ToolExecutionKind, direct, wasm_sandbox, host_sandbox, kind_debug, RegisteredTool, direct_tool,
  PlainTool, AgentToolEntry, tool_name, kind_eq,
}

-- `sandbox_enabled name` is `<name>.clone().unwrap_or_default().sandbox.enabled`.
pub record ToolsConfig (V : Type 0) : Type 0 where
  pub enabled_tool_names : List Text
  pub config_for_tool : Text → Result (Option V)
  pub owner_restricted_for_tool : Text → Option Bool
  pub sandbox_enabled : Text → Bool

-- `configure_clone`, and `metadata().supported_execution_kinds`.
pub record ToolMethods (P O V : Type 0) : Type 0 where
  pub configure_clone : RegisteredTool P O → Option V → Result (RegisteredTool P O)
  pub supported_execution_kinds : RegisteredTool P O → List ToolExecutionKind

-- The tools whose sandbox is a WebAssembly guest.
abbrev pub wasm_tools : List Text
wasm_tools =
    lit "read"
    ∷ lit "edit"
    ∷ lit "glob"
    ∷ lit "grep"
    ∷ lit "list"
    ∷ lit "web_search"
    ∷ lit "web_fetch"
    ∷ []

module _ {V : Type 0} where
  -- The source returns it in `Ok`, without any error.
  unfoldable pub select_execution_kind : Text → ToolsConfig V → ToolExecutionKind
  select_execution_kind name tools_config =
      if any (λ w. w == name) wasm_tools
      then if tools_config.sandbox_enabled name then wasm_sandbox else direct
      else if lit "exec" == name
      then if tools_config.sandbox_enabled name then host_sandbox else direct
      else direct

pub record AgentToolRegistry (P O : Type 0) : Type 0 where
  pub ordered : List (AgentToolEntry P O)
  pub by_name : Dict (AgentToolEntry P O)

module _ {P O : Type 0} where
  unfoldable pub get : AgentToolRegistry P O → Text → Option (AgentToolEntry P O)
  get self name = Dict.get self.by_name name

  -- The loop that inserts each entry under its tool's name, as `collect` does.
  unfoldable pub index :
      List (AgentToolEntry P O) → Dict (AgentToolEntry P O) → Dict (AgentToolEntry P O)
  unfolding tool_name
  index [] m = m
  index (e ∷ es) m = index es (Dict.insert m (tool_name e.tool) e)

  unfoldable pub others : Text → List (AgentToolEntry P O) → List (AgentToolEntry P O)
  unfolding tool_name
  others name [] = []
  others name (e ∷ es) =
      let rest = others name es in if tool_name e.tool == name then rest else e ∷ rest

  unfoldable pub without : AgentToolRegistry P O → Text → AgentToolRegistry P O
  unfolding others index
  without self name =
      let ordered = others name self.ordered in
      record { ordered = ordered; by_name = index ordered [] }

  unfoldable pub without_names : AgentToolRegistry P O → List Text → AgentToolRegistry P O
  unfolding without
  without_names self [] = self
  without_names self (name ∷ names) = without_names (without self name) names

pub record ToolFactory (P O : Type 0) : Type 0 where
  pub builtins : List (RegisteredTool P O)
  pub by_name : Dict (RegisteredTool P O)

module _ {P O : Type 0} where
  -- The first tool of that name is replaced; without one, the tool is pushed.
  replaced : List (RegisteredTool P O) → RegisteredTool P O → List (RegisteredTool P O)
  unfolding tool_name
  replaced [] tool = tool ∷ []
  replaced (t ∷ ts) tool =
      let rest = replaced ts tool in if tool_name t == tool_name tool then tool ∷ ts else t ∷ rest

  unfoldable pub register_builtin : ToolFactory P O → RegisteredTool P O → ToolFactory P O
  unfolding replaced tool_name
  register_builtin self tool = record {
    builtins = replaced self.builtins tool;
    by_name = Dict.insert self.by_name (tool_name tool) tool;
  }

-- The names seen so far, and the registry so far.
abbrev pub Building : Type 0 → Type 0 → Type 0
Building P O = List Text × AgentToolRegistry P O

module _ {P O : Type 0} where
  -- `seen.insert(name)`, `ordered.push(entry)` and `by_name.insert(name, entry)`
  unfoldable pub pushed : Building P O → Text → AgentToolEntry P O → Building P O
  pushed (seen, self) name e = (
    name ∷ seen,
    record { ordered = self.ordered ++ e ∷ []; by_name = Dict.insert self.by_name name e },
  )

  abbrev pub skill_entry : PlainTool O → AgentToolEntry P O
  skill_entry t = record { tool = direct_tool t; execution_kind = direct; owner_restricted = false }

  unfoldable pub add_skill : PlainTool O → Building P O → Building P O
  unfolding pushed
  add_skill t building =
      if any (λ s. s == t.name) building.0 then building else pushed building t.name (skill_entry t)

  unfoldable pub add_skills : List (PlainTool O) → Building P O → Building P O
  unfolding add_skill
  add_skills [] building = building
  add_skills (t ∷ ts) building = add_skills ts (add_skill t building)

module _ {P O V : Type 0} (methods : ToolMethods P O V) (tools_config : ToolsConfig V) where
  abbrev restricted : Option Bool → Bool
  restricted none = true
  restricted (some b) = b

  unfoldable pub entry_of : Text → RegisteredTool P O → AgentToolEntry P O
  unfolding select_execution_kind
  entry_of name tool = record {
    tool = tool;
    execution_kind = select_execution_kind name tools_config;
    owner_restricted = restricted (tools_config.owner_restricted_for_tool name);
  }

  unfoldable pub supports : AgentToolEntry P O → Bool
  unfolding kind_eq
  supports e = any (λ k. kind_eq k e.execution_kind) (methods.supported_execution_kinds e.tool)

  unfoldable pub supported_entry : Text → AgentToolEntry P O → Result (AgentToolEntry P O)
  unfolding supports kind_debug
  supported_entry name e =
      if supports e
      then ok e
      else err (
          config (
            lit "tool '"
            ++ name
            ++ lit "' does not support execution kind "
            ++ kind_debug e.execution_kind))

  -- The entry of one enabled tool, or the error that ends the loop.
  unfoldable pub entry_for : ToolFactory P O → Text → Result (AgentToolEntry P O)
  unfolding supported_entry entry_of
  entry_for self name = do
    template ←
        ok_or (Dict.get self.by_name name) (config (lit "unknown tool in tools map: " ++ name))
    value ← tools_config.config_for_tool name
    tool ← methods.configure_clone template value
    supported_entry name (entry_of name tool)

  unfoldable pub add_enabled : ToolFactory P O → Text → Building P O → Result (Building P O)
  unfolding entry_for pushed
  add_enabled self name building =
      if any (λ s. s == name) building.0
      then ok building
      else (entry_for self name >>= λ e. ok (pushed building name e))

  unfoldable pub add_all_enabled :
      ToolFactory P O → List Text → Building P O → Result (Building P O)
  unfolding add_enabled
  add_all_enabled self [] building = ok building
  add_all_enabled self (name ∷ names) building =
      add_enabled self name building >>= add_all_enabled self names

  unfoldable pub build_registry :
      ToolFactory P O → List (PlainTool O) → Result (AgentToolRegistry P O)
  unfolding add_all_enabled add_skills
  build_registry self skill_tools =
      add_all_enabled self tools_config.enabled_tool_names
        ([], record { ordered = []; by_name = [] })
      >>= λ building. ok (add_skills skill_tools building).1
