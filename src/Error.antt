-- ===== src/Error.antt =====
-- src/error.rs: the framework's errors, and chains of fallible steps.
use simple_claw.Base.{
  ◌≡◌, refl, arith, ◌⊎◌, inl, inr, Text, Option, none, some, Bool, true, false, ◌++◌, lit,
}

pub data SandboxCapability : Type 0 where
  read write network exec unknown : SandboxCapability

unfoldable pub capability_as_str : SandboxCapability → Text
capability_as_str read = lit "read"
capability_as_str write = lit "write"
capability_as_str network = lit "network"
capability_as_str exec = lit "exec"
capability_as_str unknown = lit "unknown"

pub record SandboxPermissionDenied : Type 0 where
  pub tool_name : Text
  pub execution_kind : Text
  pub capability : SandboxCapability
  pub target : Text
  pub diagnostic : Text

pub record ApprovalDenied : Type 0 where
  pub approval_id : Text
  pub tool_name : Text
  pub reason : Text

-- The errors of other libraries (`io`, `yaml`, `db`) are kept by their message.
pub data FrameworkError : Type 0 where
  io yaml db provider tool : Text → FrameworkError
  sandbox_permission_denied : SandboxPermissionDenied → FrameworkError
  approval_denied : ApprovalDenied → FrameworkError
  config : Text → FrameworkError

-- The `#[error(…)]` texts.
unfoldable pub display : FrameworkError → Text
unfolding capability_as_str
display (io m) = lit "io error: " ++ m
display (yaml m) = lit "yaml parse error: " ++ m
display (db m) = lit "database error: " ++ m
display (provider m) = lit "provider error: " ++ m
display (tool m) = lit "tool error: " ++ m
display (sandbox_permission_denied d) =
    lit "sandbox permission denied: tool="
    ++ d.tool_name
    ++ lit " execution_kind="
    ++ d.execution_kind
    ++ lit " capability="
    ++ capability_as_str d.capability
    ++ lit " target="
    ++ d.target
    ++ lit " diagnostic="
    ++ d.diagnostic
display (approval_denied d) =
    lit "approval denied: tool="
    ++ d.tool_name
    ++ lit " approval_id="
    ++ d.approval_id
    ++ lit " reason="
    ++ d.reason
display (config m) = lit "configuration error: " ++ m

unfoldable pub as_sandbox_permission_denied : FrameworkError → Option SandboxPermissionDenied
as_sandbox_permission_denied (sandbox_permission_denied d) = some d
as_sandbox_permission_denied _ = none

-- `Result<A, FrameworkError>`; `?` and the early returns are `>>=`.
pub data Result {ℓ} (A : Type ℓ) : Type ℓ where
  ok : A → Result A
  err : FrameworkError → Result A

infixl 5 ◌>>=◌ ◌>>◌
abbrev pub ◌>>=◌ {ℓ κ} : {A : Type ℓ} {B : Type κ} → Result A → (A → Result B) → Result B
ok a >>= f = f a
err e >>= f = err e

abbrev pub ◌>>◌ {ℓ κ} : {A : Type ℓ} {B : Type κ} → Result A → Result B → Result B
m >> k = m >>= λ _. k

abbrev pub map_err {ℓ} : {A : Type ℓ} → (FrameworkError → FrameworkError) → Result A → Result A
map_err f (ok a) = ok a
map_err f (err e) = err (f e)

abbrev pub ok_or {ℓ} : {A : Type ℓ} → Option A → FrameworkError → Result A
ok_or none e = err e
ok_or (some a) e = ok a

abbrev pub is_ok {ℓ} : {A : Type ℓ} → Result A → Bool
is_ok (ok a) = true
is_ok (err e) = false

-- To split on a computed result and keep the equation.
pub Result-cases {ℓ} :
    {A : Type ℓ} (r : Result A) → ((a : A) × (r ≡ ok a)) ⊎ ((e : FrameworkError) × (r ≡ err e))
Result-cases (ok a) = inl (a, refl)
Result-cases (err e) = inr (e, refl)

-- A chain that succeeds has a first step that does.
pub chain-ok {ℓ κ} :
    {A : Type ℓ} {B : Type κ} (r : Result A) (f : A → Result B) (b : B)
    → (r >>= f) ≡ ok b
    → (a : A) × (r ≡ ok a) × (f a ≡ ok b)
chain-ok (ok a) f b h = (a, refl, h)
chain-ok (err e) f b h = ground arith

pub ok-injective {ℓ} : {A : Type ℓ} (a b : A) → ok a ≡ ok b → a ≡ b
ok-injective a b h = ground arith
