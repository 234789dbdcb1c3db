-- ===== src/Secrets/Tests.antt =====
-- A resolver with one secret in its file, and the theorems applied to it.
use simple_claw.Base.{◌≡◌, refl, Text, [], ◌∷◌, none, some, is_empty, Option, lit}
use simple_claw.Error.{ok}
use simple_claw.Secrets.{
  Secret, SecretResolver, from_name, serialize, deserialize, is_valid_secret_name,
}
use simple_claw.Secrets.References.{deserialize-serialize}

-- The secret `k` is in the file only.
abbrev resolver : SecretResolver
resolver = record { file_secrets = (107 ∷ [], 118 ∷ []) ∷ []; secrets_path_display = 102 ∷ [] }

abbrev no_env : Text → Option Text
no_env name = none

abbrev key : Secret
key = record { name = lit "gemini_api_key"; resolved = some (118 ∷ []) }

deserialize-serialize_example : deserialize (serialize key) ≡ ok (from_name (lit "gemini_api_key"))
unfolding lit is_empty is_valid_secret_name
deserialize-serialize_example = deserialize-serialize key refl refl
