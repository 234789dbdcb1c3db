-- ===== src/Paths.antt =====
-- sandbox/common/src/lib.rs: the paths that a sandboxed tool may name. A path of `std::path`, on Unix,
-- is the list of its components; there are no prefixes of Windows.
pub mod Normal
pub mod Names
pub mod Guest
pub mod Access
pub mod Roots
pub mod Routes
pub mod Extra
pub mod Expansion
mod Tests
use simple_claw.Base.{
  ℕ, Text, lit, List, [], ◌∷◌, ◌++◌, any, Option, none, some, Bool, true, false, ◌==◌, eqb, ◌||◌,
  ◌&&◌, ◌⊎◌, inl, inr, trim, is_empty, if◌then◌else◌,
}
use mathlib.Core.List.{reverse}

pub data Component : Type 0 where
  root_dir cur_dir parent_dir : Component
  normal : Text → Component

abbrev pub PathBuf : Type 0
PathBuf = List Component

-- `/`
abbrev pub slash : ℕ
slash = 47

abbrev onto_first : ℕ → List Text → List Text
onto_first c [] = (c ∷ []) ∷ []
onto_first c (w ∷ ws) = (c ∷ w) ∷ ws

-- The parts of a text between slashes, of which there is always one.
unfoldable pub split_slash : Text → List Text
split_slash [] = [] ∷ []
split_slash (c ∷ s) =
    let rest = split_slash s in if eqb c slash then [] ∷ rest else onto_first c rest

-- Empty parts and single dots are no components.
unfoldable pub component : Text → PathBuf → PathBuf
component part rest =
    if is_empty part || part == lit "."
    then rest
    else if part == lit ".."
    then parent_dir ∷ rest
    else normal part ∷ rest

unfoldable pub parts : List Text → PathBuf
unfolding component
parts [] = []
parts (w ∷ ws) = component w (parts ws)

-- A dot in front of a relative path is a component.
relative_parts : List Text → PathBuf
unfolding parts
relative_parts [] = []
relative_parts (w ∷ ws) = if w == lit "." then cur_dir ∷ parts ws else parts (w ∷ ws)

-- `PathBuf::from` and `components`
unfoldable pub components : Text → PathBuf
unfolding relative_parts split_slash
components [] = []
components (c ∷ s) =
    if eqb c slash then root_dir ∷ parts (split_slash s) else relative_parts (split_slash (c ∷ s))

unfoldable pub is_absolute : PathBuf → Bool
is_absolute (root_dir ∷ path) = true
is_absolute _ = false

without_dot : PathBuf → PathBuf
without_dot (cur_dir ∷ path) = path
without_dot path = path

joined_to : PathBuf → PathBuf → PathBuf
unfolding without_dot
joined_to [] path = path
joined_to (c ∷ base) path = c ∷ base ++ without_dot path

-- `join`
unfoldable pub join : PathBuf → PathBuf → PathBuf
unfolding is_absolute joined_to
join base path = if is_absolute path then path else joined_to base path

unfoldable pub component_eq : Component → Component → Bool
component_eq root_dir root_dir = true
component_eq cur_dir cur_dir = true
component_eq parent_dir parent_dir = true
component_eq (normal a) (normal b) = a == b
component_eq _ _ = false

-- `strip_prefix`; `starts_with` is whether it succeeds.
unfoldable pub strip_prefix : PathBuf → PathBuf → Option PathBuf
unfolding component_eq
strip_prefix path [] = some path
strip_prefix [] (b ∷ base) = none
strip_prefix (c ∷ path) (b ∷ base) =
    let rest = strip_prefix path base in if component_eq c b then rest else none

component_text : Component → Text
component_text root_dir = lit "/"
component_text cur_dir = lit "."
component_text parent_dir = lit ".."
component_text (normal t) = t

-- A relative path as a text.
unfoldable pub display_relative : PathBuf → Text
unfolding component_text
display_relative [] = []
display_relative (c ∷ []) = component_text c
display_relative (c ∷ d ∷ path) = component_text c ++ slash ∷ display_relative (d ∷ path)

-- `display`
unfoldable pub display_path : PathBuf → Text
unfolding display_relative
display_path (root_dir ∷ path) = slash ∷ display_relative path
display_path path = display_relative path

-- The path so far is kept with its last component first; its root is not popped.
unfoldable pub pop : PathBuf → PathBuf
pop [] = []
pop (root_dir ∷ path) = root_dir ∷ path
pop (c ∷ path) = path

unfoldable pub normalize_from : PathBuf → PathBuf → PathBuf
unfolding pop
normalize_from normalized [] = normalized
normalize_from normalized (root_dir ∷ path) = normalize_from (root_dir ∷ []) path
normalize_from normalized (cur_dir ∷ path) = normalize_from normalized path
normalize_from normalized (parent_dir ∷ path) = normalize_from (pop normalized) path
normalize_from normalized (normal part ∷ path) = normalize_from (normal part ∷ normalized) path

unfoldable pub normalize_absolute_path : PathBuf → PathBuf
unfolding normalize_from
normalize_absolute_path path = reverse (normalize_from [] path)

abbrev pub workspace_root_text : Text
workspace_root_text = lit "/workspace"

abbrev pub persona_root_text : Text
persona_root_text = lit "/persona"

-- `Path::new(WORKSPACE_ROOT)` and `Path::new(PERSONA_ROOT)`
abbrev pub guest_workspace : PathBuf
guest_workspace = root_dir ∷ normal (lit "workspace") ∷ []

abbrev pub guest_persona : PathBuf
guest_persona = root_dir ∷ normal (lit "persona") ∷ []

abbrev pub prompt_files : List Text
prompt_files =
    lit "IDENTITY.md" ∷ lit "AGENT.md" ∷ lit "USER.md" ∷ lit "MEMORY.md" ∷ lit "SOUL.md" ∷ []

-- A first name under the persona root, and what follows it.
persona_name_allowed : Text → PathBuf → Bool
persona_name_allowed first [] = first == lit "skills" || any (λ file. first == file) prompt_files
persona_name_allowed first (c ∷ rest) = first == lit "skills"

unfoldable pub persona_relative_path_allowed : PathBuf → Bool
unfolding persona_name_allowed
persona_relative_path_allowed (normal first ∷ rest) =
    if first == lit ".simpleclaw" then false else persona_name_allowed first rest
persona_relative_path_allowed _ = false

persona_stripped : Option PathBuf → Bool
persona_stripped none = false
persona_stripped (some relative) = persona_relative_path_allowed relative

unfoldable pub guest_persona_path_allowed : PathBuf → Bool
unfolding persona_stripped
guest_persona_path_allowed path =
    persona_stripped (strip_prefix (normalize_absolute_path path) guest_persona)

unfoldable pub path_starts_with : PathBuf → PathBuf → Bool
path_starts_with path base = elim (strip_prefix path base) [ none ↦ false | some rest ↦ true ]

denied_message : PathBuf → Text
denied_message path =
    lit "path denied by sandbox: path="
    ++ display_path path
    ++ lit " workspace="
    ++ workspace_root_text
    ++ lit " persona="
    ++ persona_root_text

-- The checks of a guest path that is absolute and normalized.
unfoldable pub guest_checked : PathBuf → Text ⊎ PathBuf
unfolding denied_message
guest_checked normalized =
    if path_starts_with normalized guest_workspace
    then inr normalized
    else if path_starts_with normalized guest_persona && guest_persona_path_allowed normalized
    then inr normalized
    else inl (denied_message normalized)

-- The error is a text.
unfoldable pub resolve_guest_path : Text → Text ⊎ PathBuf
unfolding guest_checked
resolve_guest_path raw_path =
    let trimmed = trim raw_path in
    if is_empty trimmed
    then inl (lit "path must be non-empty")
    else guest_checked (normalize_absolute_path (join guest_workspace (components trimmed)))
