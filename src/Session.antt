-- ===== src/Session.antt =====
-- src/gateway/session.rs: the keys of session scopes, and the store of the active sessions.
-- The SQLite table is a dictionary by its primary key; a failure of the database is an input of
-- the call (`Faults`), and a statement that fails changes nothing. `Utc::now()` is an argument.
pub mod Keys
pub mod Rotation
mod Tests
use simple_claw.Base.{
  [], ℕ, ◌+◌, ◌%◌, ◌^◌, Text, ◌++◌, Option, none, some, Bool, show_i64, lit, if◌then◌else◌,
}
use simple_claw.Base.Dict
use simple_claw.Base.Dict.{Dict}
use simple_claw.Error.{FrameworkError, db, Result, ok, err}
use simple_claw.Channels.{GatewayChannelKind, discord}

unfoldable pub build_session_scope_key : Text → Bool → GatewayChannelKind → Text → Text
build_session_scope_key agent_id is_dm discord channel_id =
    if is_dm
    then lit "agent:" ++ agent_id ++ lit ":main"
    else lit "agent:" ++ agent_id ++ lit ":discord:" ++ channel_id

unfoldable pub format_session_id : Text → ℕ → Text
format_session_id scope_key sequence = scope_key ++ lit ":session:" ++ show_i64 sequence

-- A row of `active_sessions`; the sequence is an `i64`, kept as its bit pattern.
pub record SessionRow : Type 0 where
  pub active_session_id : Text
  pub active_sequence : ℕ
  pub updated_at : Text

pub record SessionStore : Type 0 where
  pub active_sessions : Dict SessionRow

unfoldable pub empty_store : SessionStore
empty_store = record { active_sessions = [] }

-- Which of a call's two statements fails, with the database's message.
pub record Faults : Type 0 where
  pub on_select : Option Text
  pub on_write : Option Text

abbrev pub no_faults : Faults
no_faults = record { on_select = none; on_write = none }

pub record SessionRotation : Type 0 where
  pub previous_session_id : Text
  pub session_id : Text

select_active_session : Faults → SessionStore → Text → Result (Option SessionRow)
select_active_session faults store scope_key = elim faults.on_select [
  | some m ↦ err (db m)
  | none ↦ ok (Dict.get store.active_sessions scope_key)
]

-- The `INSERT` and the upsert: `a` is what the caller returns when the statement succeeds.
write_row {ℓ} :
    {A : Type ℓ} → Faults → SessionStore → Text → SessionRow → A → Result A × SessionStore
write_row faults store scope_key row a = elim faults.on_write [
  | some m ↦ (err (db m), store)
  | none ↦
      (ok a, record store { active_sessions = Dict.insert store.active_sessions scope_key row })
]

create_session : Faults → Text → SessionStore → Text → Result Text × SessionStore
unfolding write_row
create_session faults now store scope_key =
    let session_id = format_session_id scope_key 1 in
    write_row faults store scope_key
      (record { active_session_id = session_id; active_sequence = 1; updated_at = now }) session_id

current_from :
    Faults → Text → SessionStore → Text → Result (Option SessionRow) → Result Text × SessionStore
unfolding create_session
current_from faults now store scope_key (err e) = (err e, store)
current_from faults now store scope_key (ok (some row)) = (ok row.active_session_id, store)
current_from faults now store scope_key (ok none) = create_session faults now store scope_key

unfoldable pub current_or_create : Faults → Text → SessionStore → Text → Result Text × SessionStore
unfolding current_from select_active_session
current_or_create faults now store scope_key =
    current_from faults now store scope_key (select_active_session faults store scope_key)

advance : Faults → Text → SessionStore → Text → Text → ℕ → Result SessionRotation × SessionStore
unfolding write_row
advance faults now store scope_key previous_session_id previous_sequence =
    let next_sequence = (previous_sequence + 1) % 2 ^ 64 in
    let session_id = format_session_id scope_key next_sequence in
    write_row faults store scope_key
      (record { active_session_id = session_id; active_sequence = next_sequence; updated_at = now })
      (record { previous_session_id = previous_session_id; session_id = session_id })

rotate_from :
    Faults
    → Text
    → SessionStore
    → Text
    → Result (Option SessionRow)
    → Result SessionRotation × SessionStore
unfolding advance
rotate_from faults now store scope_key (err e) = (err e, store)
rotate_from faults now store scope_key (ok (some row)) =
    advance faults now store scope_key row.active_session_id row.active_sequence
rotate_from faults now store scope_key (ok none) =
    advance faults now store scope_key (format_session_id scope_key 1) 1

unfoldable pub rotate : Faults → Text → SessionStore → Text → Result SessionRotation × SessionStore
unfolding rotate_from select_active_session
rotate faults now store scope_key =
    rotate_from faults now store scope_key (select_active_session faults store scope_key)
