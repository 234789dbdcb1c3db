-- ===== src/Tools/Lookup.antt =====
-- What a look-up in a registry finds: after tools were taken out, and after it was built.
use simple_claw.Base.{
  ◌≡◌, ◌⊎◌, inl, inr, refl, sym, lit, ◌++◌, arith, Text, List, [], ◌∷◌, any, Option, none, some,
  Bool, true, ◌==◌, if◌then◌else◌, subst, text_discrete, Bool-cases,
}
use simple_claw.Base.Dict
use simple_claw.Base.Dict.{get-insert}
use simple_claw.Error.{ok, chain-ok, ok-injective, config, ok_or, ◌>>=◌}
use simple_claw.Tools.{AgentToolEntry, PlainTool, RegisteredTool, tool_name}
use simple_claw.Tools.Registry.{
  AgentToolRegistry, ToolsConfig, ToolMethods, ToolFactory, get, index, others, without,
  without_names, Building, pushed, skill_entry, add_skill, add_skills, supported_entry, entry_of,
  entry_for, add_enabled, add_all_enabled, build_registry, supports,
}

-- The condition of a conditional that is known.
unseen :
    {A : Type 0} (x y z : A) {c d : Bool}
    → c ≡ d
    → (if c then x else y) ≡ z
    → (if d then x else y) ≡ z
unseen x y z e h = subst (λ k. (if k then x else y) ≡ z) e h

module _ {P O : Type 0} where
  -- The last entry of a name, or the given one.
  last_of :
      List (AgentToolEntry P O) → Text → Option (AgentToolEntry P O) → Option (AgentToolEntry P O)
  last_of [] k o = o
  last_of (e ∷ es) k o = last_of es k (if tool_name e.tool == k then some e else o)

  get-index :
      (es : List (AgentToolEntry P O)) (m : Dict.Dict (AgentToolEntry P O)) (k : Text)
      → Dict.get (index es m) k ≡ last_of es k (Dict.get m k)
  unfolding index last_of
  get-index [] m k = refl
  get-index (e ∷ es) m k =
      rw (get-index es (Dict.insert m (tool_name e.tool) e) k, get-insert m (tool_name e.tool) k e)
        refl

  last_of-others :
      (name : Text) (es : List (AgentToolEntry P O)) (k : Text) (o : Option (AgentToolEntry P O))
      → last_of (others name es) k o ≡ (if name == k then o else last_of es k o)
  unfolding last_of others
  last_of-others name [] k o = ground arith
  last_of-others name (e ∷ es) k o = ground (
    arith,
    last_of-others name es k o,
    last_of-others name es k (if tool_name e.tool == k then some e else o),
  )

  -- The map holds what the list gives by name.
  abbrev pub Indexed : AgentToolRegistry P O → Type 0
  Indexed r = (k : Text) → get r k ≡ Dict.get (index r.ordered []) k

  get-without :
      (r : AgentToolRegistry P O) (name k : Text)
      → Indexed r
      → get (without r name) k ≡ (if name == k then none else get r k)
  unfolding get without Dict.get
  get-without r name k h = ground (
    arith,
    h k,
    get-index r.ordered [] k,
    get-index (others name r.ordered) [] k,
    last_of-others name r.ordered k none,
  )

  without-Indexed : (r : AgentToolRegistry P O) (name : Text) → Indexed (without r name)
  unfolding get without
  without-Indexed r name k = refl

  -- When the map of a registry holds what its list gives by name, tools that are taken out of it
  -- are not found in it, and all others are found as before.
  pub get-without_names :
      (r : AgentToolRegistry P O) (names : List Text) (k : Text)
      → Indexed r
      → get (without_names r names) k ≡ (if any (λ n. n == k) names then none else get r k)
  unfolding without_names
  get-without_names r [] k h = refl
  get-without_names r (name ∷ names) k h = ground (
    arith,
    get-without r name k h,
    get-without_names (without r name) names k (without-Indexed r name),
  )

module _ {P O V : Type 0} (methods : ToolMethods P O V) (tools_config : ToolsConfig V) where
  -- The entry is of a skill of that name, or has the kind and the restriction that the configuration
  -- gives the name, in a tool that supports the kind.
  abbrev pub Configured : Text → AgentToolEntry P O → Type 0
  Configured name e =
      ((t : PlainTool O) × (e ≡ skill_entry t) × (t.name ≡ name))
      ⊎ ((tool : RegisteredTool P O) × (e ≡ entry_of methods tools_config name tool)
          × (supports methods tools_config e ≡ true))

  abbrev AllConfigured : Building P O → Type 0
  AllConfigured b =
      (name : Text) (e : AgentToolEntry P O)
      → Dict.get b.1.by_name name ≡ some e
      → Configured name e

  pushed-AllConfigured :
      (b : Building P O) (name : Text) (e : AgentToolEntry P O)
      → AllConfigured b
      → Configured name e
      → AllConfigured (pushed b name e)
  unfolding pushed
  pushed-AllConfigured b name e h c name' e' there = elim (text_discrete name name') [
    | yes here ↦
        subst (λ n. Configured n e') here
          (subst (λ x. Configured name x) (ground (arith, get-insert b.1.by_name name name' e)) c)
    | no elsewhere ↦ h name' e' (ground (arith, get-insert b.1.by_name name name' e))
  ]

  add_skill-AllConfigured :
      (t : PlainTool O) (b : Building P O) → AllConfigured b → AllConfigured (add_skill t b)
  unfolding add_skill
  add_skill-AllConfigured t b h = elim (Bool-cases (any (λ s. s == t.name) b.0)) [
    | inl e ↦ rw (e, add_skill) h
    | inr e ↦
        rw (e, add_skill) (pushed-AllConfigured b t.name (skill_entry t) h (inl (t, refl, refl)))
  ]

  add_skills-AllConfigured :
      (ts : List (PlainTool O)) (b : Building P O)
      → AllConfigured b
      → AllConfigured (add_skills ts b)
  unfolding add_skills
  add_skills-AllConfigured [] b h = h
  add_skills-AllConfigured (t ∷ ts) b h =
      add_skills-AllConfigured ts (add_skill t b) (add_skill-AllConfigured t b h)

  supported_entry-ok :
      (name : Text) (e e' : AgentToolEntry P O)
      → supported_entry methods tools_config name e ≡ ok e'
      → (e' ≡ e) × (supports methods tools_config e' ≡ true)
  unfolding supported_entry
  supported_entry-ok name e e' h = elim (Bool-cases (supports methods tools_config e)) [
    | inl s ↦
        let same = ok-injective e e' (unseen _ _ _ s h) in
        (sym same, subst (λ x. supports methods tools_config x ≡ true) same s)
    | inr s ↦ ground arith
  ]

  entry_for-Configured :
      (f : ToolFactory P O) (name : Text) (e : AgentToolEntry P O)
      → entry_for methods tools_config f name ≡ ok e
      → Configured name e
  unfolding entry_for
  entry_for-Configured f name e h =
      let finish = λ (tool : RegisteredTool P O).
        supported_entry methods tools_config name (entry_of methods tools_config name tool) in
      let unknown = config (lit "unknown tool in tools map: " ++ name) in
      let (template, there, h₁) =
        chain-ok (ok_or (Dict.get f.by_name name) unknown)
          (λ template. tools_config.config_for_tool name >>= λ value.
            methods.configure_clone template value >>= finish)
          e h in
      let (value, given, h₂) =
        chain-ok (tools_config.config_for_tool name)
          (λ value. methods.configure_clone template value >>= finish) e h₁ in
      let (tool, configured, h₃) = chain-ok (methods.configure_clone template value) finish e h₂ in
      let (same, able) = supported_entry-ok name (entry_of methods tools_config name tool) e h₃ in
      inr (tool, same, able)

  add_enabled-AllConfigured :
      (f : ToolFactory P O) (name : Text) (b b' : Building P O)
      → AllConfigured b
      → add_enabled methods tools_config f name b ≡ ok b'
      → AllConfigured b'
  unfolding add_enabled
  add_enabled-AllConfigured f name b b' h done = elim (Bool-cases (any (λ s. s == name) b.0)) [
    | inl seen ↦ subst AllConfigured (ok-injective b b' (unseen _ _ _ seen done)) h
    | inr new ↦
        let (e, made, rest) =
          chain-ok (entry_for methods tools_config f name) (λ x. ok (pushed b name x)) b'
            (unseen _ _ _ new done) in
        subst AllConfigured (ok-injective (pushed b name e) b' rest)
          (pushed-AllConfigured b name e h (entry_for-Configured f name e made))
  ]

  add_all_enabled-AllConfigured :
      (f : ToolFactory P O) (names : List Text) (b b' : Building P O)
      → AllConfigured b
      → add_all_enabled methods tools_config f names b ≡ ok b'
      → AllConfigured b'
  unfolding add_all_enabled
  add_all_enabled-AllConfigured f [] b b' h done = subst AllConfigured (ok-injective b b' done) h
  add_all_enabled-AllConfigured f (name ∷ names) b b' h done =
      let (c, first, rest) = chain-ok (add_enabled methods tools_config f name b) _ b' done in
      add_all_enabled-AllConfigured f names c b' (add_enabled-AllConfigured f name b c h first) rest

  empty-AllConfigured : AllConfigured ([], record { ordered = []; by_name = [] })
  unfolding Dict.get
  empty-AllConfigured name e h = ground arith

  -- In a registry that `build_registry` makes, each name finds a skill of that name, which runs
  -- directly, or a tool with the execution kind and the restriction that the configuration gives
  -- the name, and which supports the kind.
  pub build_registry-Configured :
      (f : ToolFactory P O) (skills : List (PlainTool O)) (r : AgentToolRegistry P O) (name : Text)
      (e : AgentToolEntry P O)
      → build_registry methods tools_config f skills ≡ ok r
      → get r name ≡ some e
      → Configured name e
  unfolding build_registry get
  build_registry-Configured f skills r name e built there =
      let start : Building P O = ([], record { ordered = []; by_name = [] }) in
      let (b, made, rest) =
        chain-ok (add_all_enabled methods tools_config f tools_config.enabled_tool_names start)
          (λ building. ok (add_skills skills building).1) r built in
      let same = ok-injective (add_skills skills b).1 r rest in
      add_skills-AllConfigured skills b
        (add_all_enabled-AllConfigured f tools_config.enabled_tool_names start b empty-AllConfigured
          made)
        name e (subst (λ x. Dict.get x.by_name name ≡ some e) (sym same) there)
