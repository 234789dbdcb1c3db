-- ===== src/Secrets/References.antt =====
-- References to secrets as texts, and the values that they resolve to.
use mathlib.Core.List.{reverse-append}
use simple_claw.Base.{
  ◌≡◌, refl, ap, ◌∙◌, inl, inr, ◌⊎◌, ◌-◌, Text, lit, [], ◌∷◌, ◌++◌, length, length-append, take,
  Option, none, some, true, false, starts_with, is_empty, is_whitespace, trim, trim-visible,
  Bool-cases, Option-cases, arith,
}
use simple_claw.Base.Dict
use simple_claw.Error.{FrameworkError, ok, err}
use simple_claw.Secrets.{
  Secret, SecretResolver, from_name, serialize, deserialize, is_valid_secret_name, ends_with,
  checked_name, resolve, ensure_nonempty,
}

refused : {e : FrameworkError} {t : Text} → ¬ (err e ≡ ok t)
refused {e} {t} h = ground arith

ensure_nonempty-ok :
    (v source name path value : Text)
    → ensure_nonempty v source name path ≡ ok value
    → (is_empty (trim value) ≡ false) × (v ≡ value)
unfolding ensure_nonempty
ensure_nonempty-ok v source name path value h = ground arith

-- When a name resolves to a value, neither is blank, and the value is that of the environment or, if
-- the environment has none, that of the file.
pub resolve-ok :
    (env : Text → Option Text) (resolver : SecretResolver) (name value : Text)
    → resolve env resolver name ≡ ok value
    → (is_empty (trim value) ≡ false)
      × (is_empty (trim name) ≡ false)
      × ((env name ≡ some value)
          ⊎ ((env name ≡ none) × (Dict.get resolver.file_secrets name ≡ some value)))
unfolding resolve
resolve-ok env resolver name value h = elim (Bool-cases (is_empty (trim name))) [
  | inl blank ↦ absurd (refused (rw blank at h))
  | inr there ↦ elim (Option-cases (env name)) [
    | inr (v, e) ↦
        let (visible, same) = ensure_nonempty-ok v _ name _ value (rw (there, e) at h) in
        (visible, there, inl (e ∙ ap some same))
    | inl missing ↦ elim (Option-cases (Dict.get resolver.file_secrets name)) [
      | inr (v, e) ↦
          let (visible, same) = ensure_nonempty-ok v _ name _ value (rw (there, missing, e) at h) in
          (visible, there, inr (missing, e ∙ ap some same))
      | inl none_there ↦ absurd (refused (rw (there, missing, none_there) at h))
    ]
  ]
]

take-length : (t u : Text) → take (length t) (t ++ u) ≡ t
take-length [] u = refl
take-length (c ∷ t) u = ap (λ s. c ∷ s) (take-length t u)

-- `}` at the end
ends_with-suffixed : (t : Text) → ends_with (t ++ 125 ∷ []) (lit "}") ≡ true
unfolding ends_with lit starts_with
ends_with-suffixed t = rw (reverse-append t) refl

-- The text of a reference has the name between its nine and its one character.
name_length : (name : Text) → (length (serialize (from_name name)) - 1) - 9 ≡ length name
unfolding serialize lit from_name
name_length name = omega (arith, length-append name (125 ∷ []))

reference-trimmed : (name : Text) → trim (serialize (from_name name)) ≡ serialize (from_name name)
unfolding serialize lit from_name is_whitespace
reference-trimmed name =
    trim-visible 36 (123 ∷ 115 ∷ 101 ∷ 99 ∷ 114 ∷ 101 ∷ 116 ∷ 58 ∷ name) 125 refl refl

-- A reference with a valid name is read back as the secret with this name, whose value is not known
-- yet.
pub deserialize-serialize :
    (secret : Secret)
    → is_empty secret.name ≡ false
    → is_valid_secret_name secret.name ≡ true
    → deserialize (serialize secret) ≡ ok (from_name secret.name)
unfolding deserialize serialize from_name lit starts_with checked_name
deserialize-serialize secret named valid =
    rw
      (
        reference-trimmed secret.name,
        ends_with-suffixed (36 ∷ 123 ∷ 115 ∷ 101 ∷ 99 ∷ 114 ∷ 101 ∷ 116 ∷ 58 ∷ secret.name),
        name_length secret.name,
        take-length secret.name (125 ∷ []),
        named,
        valid,
      )
      refl
