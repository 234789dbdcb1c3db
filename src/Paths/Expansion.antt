-- ===== src/Paths/Expansion.antt =====
-- `resolve_path_for_read` of src/tools/builtin/file_access.rs: the variables and the home directory in
-- the text of a path. The environment is an input, as a function from names to texts.
use simple_claw.Base.{
  ◌≡◌, refl, ap, ℕ, zero, suc, ◌+◌, Text, lit, [], ◌∷◌, ◌++◌, length, Option, none, some, Bool,
  true, false, ◌&&◌, ◌||◌, leb, eqb, Lacks, trim, is_empty, if◌then◌else◌, arith, inl, inr,
  Bool-cases, subst,
}
use simple_claw.Error.{tool, Result, ok, err, ok-injective}
use simple_claw.Paths.{PathBuf, components, is_absolute, join, normalize_absolute_path}
use simple_claw.Paths.Normal.{IsNormal, normalize_absolute_path-IsNormal}

abbrev pub Env : Type 0
Env = Text → Option Text

-- A letter or an underscore, and the same or a digit.
is_name_start : ℕ → Bool
is_name_start c = (leb 65 c && leb c 90) || (leb 97 c && leb c 122) || eqb c 95

unfoldable pub is_env_name_char : ℕ → Bool → Bool
unfolding is_name_start
is_env_name_char c first =
    if first then is_name_start c else is_name_start c || (leb 48 c && leb c 57)

all_name_chars : Text → Bool
unfolding is_env_name_char
all_name_chars [] = true
all_name_chars (c ∷ s) = is_env_name_char c false && all_name_chars s

unfoldable pub is_valid_env_name : Text → Bool
unfolding all_name_chars is_env_name_char
is_valid_env_name [] = false
is_valid_env_name (c ∷ s) = is_env_name_char c true && all_name_chars s

-- The characters before the first `}`, if there is one.
unfoldable pub until_close : Text → Option Text
until_close [] = none
until_close (c ∷ s) =
    let rest = until_close s in
    if eqb c b'}' then some [] else elim rest [ none ↦ none | some key ↦ some (c ∷ key) ]

unfoldable pub name_run : Bool → Text → Text
unfolding is_env_name_char
name_run first [] = []
name_run first (c ∷ s) =
    let rest = name_run false s in if is_env_name_char c first then c ∷ rest else []

braced : Option Text → Option (Text × ℕ)
unfolding is_valid_env_name
braced none = none
braced (some key) = if is_valid_env_name key then some (key, length key + 2) else none

named : Text → Option (Text × ℕ)
named [] = none
named (c ∷ key) = some (c ∷ key, length (c ∷ key))

-- The variable that follows a `$`, with the number of characters that it takes.
unfoldable pub variable : Text → Option (Text × ℕ)
unfolding braced named until_close name_run
variable [] = none
variable (c ∷ s) = if eqb c b'{' then braced (until_close s) else named (name_run true (c ∷ s))

abbrev taken : Option (Text × ℕ) → ℕ
taken none = 0
taken (some (key, n)) = n

value_of : Option Text → Text
value_of none = []
value_of (some value) = value

replacement : Env → Option (Text × ℕ) → Text
unfolding value_of
replacement env none = lit "$"
replacement env (some (key, n)) = value_of (env key)

-- The number counts what is left of a variable.
unfoldable pub expand_from : Env → ℕ → Text → Text
unfolding variable replacement
expand_from env k [] = []
expand_from env (suc k) (c ∷ s) = expand_from env k s
expand_from env zero (c ∷ s) =
    if eqb c b'$'
    then replacement env (variable s) ++ expand_from env (taken (variable s)) s
    else c ∷ expand_from env 0 s

unfoldable pub expand_env_vars : Env → Text → Text
unfolding expand_from
expand_env_vars env input = expand_from env 0 input

or_else : Option Text → Option Text → Option Text
or_else (some home) other = some home
or_else none other = other

unfoldable pub home_dir : Env → Option PathBuf
unfolding or_else
home_dir env = elim (or_else (env (lit "HOME")) (env (lit "USERPROFILE"))) [
  | none ↦ none
  | some home ↦ some (components home)
]

under_home : Text → Option PathBuf → Option PathBuf
under_home remainder none = none
under_home [] (some home) = some home
under_home (c ∷ remainder) (some home) = some (join home (components (c ∷ remainder)))

unfoldable pub expand_home_dir : Env → Text → Option PathBuf
unfolding home_dir under_home
expand_home_dir env [] = none
expand_home_dir env (c ∷ []) = if eqb c b'~' then home_dir env else none
expand_home_dir env (c ∷ d ∷ remainder) =
    if eqb c b'~' && (eqb d b'/' || eqb d 92) then under_home remainder (home_dir env) else none

expanded : Text → Option PathBuf → PathBuf
expanded text none = components text
expanded text (some path) = path

unfoldable pub resolve_path_for_read : Env → Text → PathBuf → Result PathBuf
unfolding expand_env_vars expand_home_dir expanded
resolve_path_for_read env raw_path workspace_root =
    let trimmed = trim raw_path in
    let input = expand_env_vars env trimmed in
    let path = expanded input (expand_home_dir env input) in
    if is_empty trimmed
    then err (tool (lit "read requires a non-empty path"))
    else ok (normalize_absolute_path (if is_absolute path then path else join workspace_root path))

expand_from-Lacks : (env : Env) (t : Text) → Lacks b'$' t → expand_from env 0 t ≡ t
unfolding expand_from
expand_from-Lacks env [] h = refl
expand_from-Lacks env (c ∷ t) (n, h) =
    let rest = expand_from-Lacks env t h in
    elim (Bool-cases (eqb c b'$')) [
      | inl e ↦ absurd (n (ground arith))
      | inr e ↦ rw e (ap (λ s. c ∷ s) rest)
    ]

-- A text without a dollar sign has nothing to expand.
pub expand_env_vars-Lacks : (env : Env) (t : Text) → Lacks b'$' t → expand_env_vars env t ≡ t
unfolding expand_env_vars
expand_env_vars-Lacks env t h = expand_from-Lacks env t h

-- A path that is resolved has no `.` and no `..`, whatever the variables hold.
pub resolve_path_for_read-IsNormal :
    (env : Env) (raw : Text) (workspace_root p : PathBuf)
    → resolve_path_for_read env raw workspace_root ≡ ok p
    → IsNormal p
unfolding resolve_path_for_read
resolve_path_for_read-IsNormal env raw workspace_root p h =
    elim (Bool-cases (is_empty (trim raw))) [
      | inl e ↦
          let refused : err (tool (lit "read requires a non-empty path")) ≡ ok p = rw e at h in
          absurd (cc)
      | inr e ↦
          subst IsNormal (ok-injective _ p (rw e at h)) ((normalize_absolute_path-IsNormal _).0)
    ]
