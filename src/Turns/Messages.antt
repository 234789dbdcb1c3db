-- ===== src/Turns/Messages.antt =====
-- The messages of src/memory/mod.rs that a turn writes and reads: the tables `sessions` and `messages`. The
-- table of the embeddings is left out, but for the error of its statement. A statement that fails changes
-- nothing; the statements before it stay done.
use simple_claw.Base.{
  ℕ, zero, suc, Text, [], ◌∷◌, ◌++◌, List, Option, none, some, Bool, true, false, ◌&&◌, ◌==◌, any,
  take, trim, is_empty, if◌then◌else◌,
}
use simple_claw.Error.{FrameworkError, Result, ok, err}
use simple_claw.Turns.Sections.{StoredRole, user, assistant}

pub record StoredMessage : Type 0 where
  pub role : StoredRole
  pub content : Text
  pub username : Option Text

-- The rows, the newest message first.
pub record MemoryStore : Type 0 where
  pub sessions : List Text
  pub messages : List (Text × StoredMessage)

-- The errors that the connection and the statements of a call give.
pub record AppendFaults : Type 0 where
  pub on_connection : Option FrameworkError
  pub on_session : Option FrameworkError
  pub on_message : Option FrameworkError
  pub on_embedding : Option FrameworkError

unfoldable pub named : Option Text → Option Text
unfolding trim is_empty
named none = none
named (some username) = if is_empty (trim username) then none else some (trim username)

abbrev pub with_session : MemoryStore → Text → MemoryStore
with_session memory session_id =
    if any (λ s. s == session_id) memory.sessions
    then memory
    else record { sessions = memory.sessions ++ session_id ∷ []; messages = memory.messages }

abbrev pub with_message : MemoryStore → Text → StoredMessage → MemoryStore
with_message memory session_id message = record {
  sessions = memory.sessions;
  messages = (session_id, message) ∷ memory.messages;
}

abbrev pub Appended : Type 0
Appended = MemoryStore × Result (Unit {0})

abbrev pub embedded : Option FrameworkError → MemoryStore → Appended
embedded none memory = (memory, ok tt)
embedded (some e) memory = (memory, err e)

abbrev pub insert_message :
    AppendFaults → Option FrameworkError → Text → StoredMessage → MemoryStore → Appended
insert_message faults (some e) session_id message memory = (memory, err e)
insert_message faults none session_id message memory =
    embedded faults.on_embedding (with_message memory session_id message)

abbrev pub insert_session :
    AppendFaults → Option FrameworkError → Text → StoredMessage → MemoryStore → Appended
insert_session faults (some e) session_id message memory = (memory, err e)
insert_session faults none session_id message memory =
    insert_message faults faults.on_message session_id message (with_session memory session_id)

abbrev pub connected :
    AppendFaults → Option FrameworkError → Text → StoredMessage → MemoryStore → Appended
connected faults (some e) session_id message memory = (memory, err e)
connected faults none session_id message memory =
    insert_session faults faults.on_session session_id message memory

unfoldable pub append_message :
    AppendFaults → MemoryStore → Text → StoredRole → Text → Option Text → Appended
unfolding named
append_message faults memory session_id role content username =
    connected faults faults.on_connection session_id
      (record { role = role; content = content; username = named username }) memory

-- `role = 'user' OR role = 'assistant'`
abbrev pub is_spoken : StoredRole → Bool
is_spoken user = true
is_spoken assistant = true
is_spoken _ = false

-- The rows that the query of `recent_messages` selects, the newest first.
unfoldable pub rows_of : Text → List (Text × StoredMessage) → List StoredMessage
rows_of session_id [] = []
rows_of session_id ((session, message) ∷ rows) =
    let rest = rows_of session_id rows in
    if session == session_id && is_spoken message.role then message ∷ rest else rest

unfoldable pub reverse : List StoredMessage → List StoredMessage
reverse [] = []
reverse (m ∷ ms) = reverse ms ++ m ∷ []

abbrev pub read_rows : Option FrameworkError → List StoredMessage → Result (List StoredMessage)
unfolding reverse
read_rows (some e) rows = err e
read_rows none rows = ok (reverse rows)

-- With the error, if any, of the connection or the query.
unfoldable pub recent_messages :
    Option FrameworkError → MemoryStore → Text → ℕ → Result (List StoredMessage)
unfolding rows_of reverse
recent_messages on_query memory session_id zero = ok []
recent_messages on_query memory session_id (suc limit) =
    read_rows on_query (take (suc limit) (rows_of session_id memory.messages))
