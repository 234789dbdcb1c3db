-- ===== src/Secrets.antt =====
-- src/secrets.rs: references to secrets in the configuration, and their values. The environment, the
-- file and the YAML reader are inputs.
pub mod References
mod Tests
use mathlib.Core.List.{reverse}
use simple_claw.Base.{
  ℕ, ◌-◌, Text, lit, List, [], ◌∷◌, ◌++◌, length, take, drop, Option, none, some, Bool, true, false,
  not, ◌&&◌, ◌||◌, leb, eqb, starts_with, is_empty, trim, if◌then◌else◌,
}
use simple_claw.Base.Dict
use simple_claw.Base.Dict.{Dict}
use simple_claw.Error.{FrameworkError, io, config, display, Result, ok, err, ◌>>=◌, map_err}

-- `Secret<String>`
pub record Secret : Type 0 where
  pub name : Text
  pub resolved : Option Text

unfoldable pub from_name : Text → Secret
from_name name = record { name = name; resolved = none }

pub record SecretResolver : Type 0 where
  pub file_secrets : Dict Text
  pub secrets_path_display : Text

-- What `SecretResolver::new` meets: the file's content, if it exists, and the YAML reader.
pub record SecretsFile : Type 0 where
  pub path : Text
  pub exists : Bool
  pub read_to_string : Result Text
  pub from_yaml : Text → Result (Dict Text)

-- The error of the reader, as the resolver passes it on.
yaml_error : Text → FrameworkError → FrameworkError
yaml_error path e = config (lit "failed to parse secrets file " ++ path ++ lit ": " ++ display e)

file_content : SecretsFile → Text → Result (Dict Text)
unfolding yaml_error
file_content file content =
    if is_empty (trim content)
    then ok []
    else map_err (yaml_error file.path) (file.from_yaml content)

unfoldable pub new : SecretsFile → Result SecretResolver
unfolding file_content
new file = (if file.exists then file.read_to_string >>= file_content file else ok []) >>= λ secrets.
    ok (record { file_secrets = secrets; secrets_path_display = file.path })

unfoldable pub ensure_nonempty : Text → Text → Text → Text → Result Text
ensure_nonempty value source name secrets_path_display =
    if is_empty (trim value)
    then err (
        config (
          lit "secret '"
          ++ name
          ++ lit "' resolved from "
          ++ source
          ++ lit " is empty; expected a non-empty value (searched env first, then "
          ++ secrets_path_display
          ++ lit ")"))
    else ok value

from_file : SecretResolver → Text → Option Text → Result Text
unfolding ensure_nonempty
from_file self name (some value) =
    ensure_nonempty value (lit "secrets file " ++ self.secrets_path_display) name
      self.secrets_path_display
from_file self name none = err (
    config (
      lit "secret '"
      ++ name
      ++ lit "' not found in environment variable '"
      ++ name
      ++ lit "' or secrets file "
      ++ self.secrets_path_display))

from_env : SecretResolver → Text → Option Text → Result Text
unfolding from_file ensure_nonempty
from_env self name (some value) =
    ensure_nonempty value (lit "environment variable '" ++ name ++ lit "'") name
      self.secrets_path_display
from_env self name none = from_file self name (Dict.get self.file_secrets name)

-- `env` is `std::env::var`.
unfoldable pub resolve : (Text → Option Text) → SecretResolver → Text → Result Text
unfolding from_env
resolve env self name =
    if is_empty (trim name)
    then err (config (lit "secret name cannot be empty"))
    else from_env self name (env name)

with_value : Secret → Result Text → Result Secret
with_value secret (ok value) = ok (record secret { resolved = some value })
with_value secret (err e) = err e

-- `Secret::resolve`
unfoldable pub resolve_secret :
    (Text → Option Text) → SecretResolver → Text → Secret → Result Secret
unfolding resolve with_value
resolve_secret env resolver field_path secret = with_value secret (
    map_err (λ e. config (field_path ++ lit " failed to resolve: " ++ display e))
      (resolve env resolver secret.name))

abbrev pub prefix : Text
prefix = lit "${secret:"

abbrev pub suffix : Text
suffix = lit "}"

-- `serialize`
unfoldable pub serialize : Secret → Text
serialize secret = prefix ++ secret.name ++ suffix

-- `ends_with`
unfoldable pub ends_with : Text → Text → Bool
ends_with s t = starts_with (reverse s) (reverse t)

between : ℕ → ℕ → ℕ → Bool
between low high c = leb low c && leb c high

-- `is_ascii_alphanumeric`, an underscore, a dash or a dot
unfoldable pub is_secret_char : ℕ → Bool
unfolding between
is_secret_char c =
    between 48 57 c || between 65 90 c || between 97 122 c || eqb c 95 || eqb c 45 || eqb c 46

unfoldable pub is_valid_secret_name : Text → Bool
unfolding is_secret_char
is_valid_secret_name [] = true
is_valid_secret_name (c ∷ name) = is_secret_char c && is_valid_secret_name name

-- The name in a reference, if it is one.
unfoldable pub checked_name : Text → Text → Text → Result Text
unfolding is_valid_secret_name
checked_name field_path trimmed name =
    if is_empty name || not (is_valid_secret_name name)
    then err (
        config (
          field_path
          ++ lit " has invalid secret reference '"
          ++ trimmed
          ++ lit "'; expected ${secret:<name>} with [A-Za-z0-9_.-]+"))
    else ok name

unfoldable pub parse_secret_reference : Text → Text → Result Text
unfolding ends_with checked_name
parse_secret_reference field_path raw =
    let trimmed = trim raw in
    if not (starts_with trimmed prefix) || not (ends_with trimmed suffix)
    then err (config (field_path ++ lit " must use secret reference syntax ${secret:<name>}"))
    else checked_name field_path trimmed
        (take ((length trimmed - length suffix) - length prefix) (drop (length prefix) trimmed))

-- `deserialize`, of the text that is read
unfoldable pub deserialize : Text → Result Secret
unfolding parse_secret_reference from_name
deserialize raw = parse_secret_reference (lit "secret") raw >>= λ name. ok (from_name name)
