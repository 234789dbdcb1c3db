-- ===== src/Turns/History.antt =====
-- What a model reads of a conversation, by src/turn/prepare.rs and src/memory/mod.rs.
use mathlib.Core.List.{append_assoc}
use simple_claw.Base.{
  ◌≡◌, ◌≢◌, refl, sym, ap, subst, ◌∙◌, ℕ, zero, suc, ◌≤◌, Text, List, [], ◌∷◌, ◌++◌, Option,
  Option-cases, none, some, true, length, length-append, length-take, take, arith, ◌⊎◌, inl, inr,
  ◌==◌, text_eq_refl, text_eq_iff, Bool-cases,
}
use simple_claw.Error.{FrameworkError, Result, ok, err}
use simple_claw.Channels.{InboundMessage}
use simple_claw.Agent.{Message, text, Role}
use simple_claw.Turns.Sections.{StoredRole, user, assistant, system, tool}
use simple_claw.Turns.Messages.{
  StoredMessage, MemoryStore, AppendFaults, Appended, append_message, recent_messages, rows_of,
  reverse, named, with_session, is_spoken,
}
use simple_claw.Turns.Prepare.{
  TurnAgent, PrepareInputs, PreparedTurn, Prepared, finished, prepare_turn, after_append,
  after_history, PromptBuild, seeded_history, seeded_from, prepared_with, seeded, seeded_one,
  labelled,
}

length-reverse : (ms : List StoredMessage) → length (reverse ms) ≡ length ms
unfolding reverse
length-reverse [] = refl
length-reverse (m ∷ ms) = omega (arith, length-append (reverse ms) (m ∷ []), length-reverse ms)

ok-injective : {A : Type 0} (a b : A) → ok a ≡ ok b → a ≡ b
ok-injective a b h = ap (λ r. elim r [ ok x ↦ x | err _ ↦ a ]) h

module _ (V : Type 0) where
  length-seeded_one : (r : StoredRole) (m : StoredMessage) → length (seeded_one {V = V} r m) ≤ 1
  unfolding seeded_one
  length-seeded_one user m = omega arith
  length-seeded_one assistant m = omega arith
  length-seeded_one system m = omega arith
  length-seeded_one tool m = omega arith

  length-seeded : (ms : List StoredMessage) → length (seeded {V = V} ms) ≤ length ms
  unfolding seeded
  length-seeded [] = omega arith
  length-seeded (m ∷ ms) = omega (
    arith,
    length-append (seeded_one {V = V} m.role m) (seeded {V = V} ms),
    length-seeded_one m.role m,
    length-seeded ms,
  )

  seeded-append :
      (xs ys : List StoredMessage)
      → seeded {V = V} (xs ++ ys) ≡ seeded {V = V} xs ++ seeded {V = V} ys
  unfolding seeded
  seeded-append [] ys = refl
  seeded-append (x ∷ xs) ys =
      ap (λ t. seeded_one x.role x ++ t) (seeded-append xs ys)
      ∙ sym (append_assoc (seeded_one {V = V} x.role x) (seeded xs) (seeded ys))

abbrev pub row_of : StoredRole → Text → Option Text → StoredMessage
row_of role content username = record { role = role; content = content; username = named username }

with_session-messages :
    (memory : MemoryStore) (session_id : Text)
    → (with_session memory session_id).messages ≡ memory.messages
with_session-messages memory session_id = ground arith

append_message-messages :
    (faults : AppendFaults) (memory : MemoryStore) (session_id content : Text) (role : StoredRole)
    (username : Option Text)
    → ((append_message faults memory session_id role content username).0.messages
        ≡ (session_id, row_of role content username) ∷ memory.messages)
      ⊎ (((append_message faults memory session_id role content username).0.messages
            ≡ memory.messages)
          × (e : FrameworkError) × ((append_message faults memory session_id role content
                username).1
              ≡ err e))
unfolding append_message
append_message-messages faults memory session_id content role username =
    elim (Option-cases faults.on_connection) [
      | inr (e, h) ↦ rw h (inr (refl, e, refl))
      | inl h ↦ elim (Option-cases faults.on_session) [
        | inr (e, k) ↦ rw (h, k) (inr (refl, e, refl))
        | inl k ↦ elim (Option-cases faults.on_message) [
          | inr (e, l) ↦ rw (h, k, l) (inr (with_session-messages memory session_id, e, refl))
          | inl l ↦ elim (Option-cases faults.on_embedding) [
            | inr (e, m) ↦
                rw (h, k, l, m)
                  (inl (
                    ap (λ ms. (session_id, row_of role content username) ∷ ms)
                      (with_session-messages memory session_id)))
            | inl m ↦
                rw (h, k, l, m)
                  (inl (
                    ap (λ ms. (session_id, row_of role content username) ∷ ms)
                      (with_session-messages memory session_id)))
          ]
        ]
      ]
    ]

row-own :
    (session_id : Text) (m : StoredMessage) (rows : List (Text × StoredMessage))
    → is_spoken m.role ≡ true
    → rows_of session_id ((session_id, m) ∷ rows) ≡ m ∷ rows_of session_id rows
unfolding rows_of
row-own session_id m rows k = rw (text_eq_refl session_id, k) refl

row-other :
    (session_id other : Text) (m : StoredMessage) (rows : List (Text × StoredMessage))
    → session_id ≢ other
    → rows_of other ((session_id, m) ∷ rows) ≡ rows_of other rows
unfolding rows_of
row-other session_id other m rows h = elim (Bool-cases (session_id == other)) [
  | inl e ↦ absurd (h ((text_eq_iff session_id other).0 e))
  | inr e ↦ rw e refl
]

pub append_message-others :
    (faults : AppendFaults) (memory : MemoryStore) (session_id other content : Text)
    (role : StoredRole) (username : Option Text)
    → session_id ≢ other
    → rows_of other (append_message faults memory session_id role content username).0.messages
      ≡ rows_of other memory.messages
unfolding rows_of
append_message-others faults memory session_id other content role username h =
    elim (append_message-messages faults memory session_id content role username) [
      | inl e ↦ ap (rows_of other) e ∙ row-other session_id other _ memory.messages h
      | inr (e, _, _) ↦ ap (rows_of other) e
    ]

-- The rows that are read after a message is stored, in their order.
recent_messages-last :
    (faults : AppendFaults) (memory : MemoryStore) (session_id content : Text) (role : StoredRole)
    (username : Option Text) (limit : ℕ)
    → (append_message faults memory session_id role content username).1 ≡ ok tt
    → is_spoken role ≡ true
    → recent_messages none
        (append_message faults memory session_id role content username).0
        session_id
        (suc limit)
      ≡ ok (
          reverse (take limit (rows_of session_id memory.messages))
          ++ row_of role content username ∷ [])
unfolding recent_messages reverse
recent_messages-last faults memory session_id content role username limit h k =
    elim (append_message-messages faults memory session_id content role username) [
      | inl e ↦ rw (e, row-own session_id (row_of role content username) memory.messages k) refl
      | inr (_, x, e) ↦ absurd (ground (arith, h, e))
    ]

module _ {S : Type 0} (V : Type 0) (print : S → Text) (inputs : PrepareInputs S) (agent : TurnAgent)
    (inbound : InboundMessage) (session_id : Text) where
  history_of : Prepared V → List (Message V)
  history_of (finished (ok p)) = p.history
  history_of _ = []

  prepared_with-ok :
      (history : List (Message V)) (o : Option PromptBuild) (p : PreparedTurn V)
      → prepared_with print inbound history o ≡ finished (ok p)
      → ok history ≡ ok p.history
  unfolding history_of prepared_with
  prepared_with-ok history none p h = absurd (ground arith)
  prepared_with-ok history (some build) p h = ap (λ x. ok (history_of x)) h

  after_history-ok :
      (r : Result (List (Message V))) (p : PreparedTurn V)
      → after_history print inputs agent inbound r ≡ finished (ok p)
      → r ≡ ok p.history
  unfolding after_history
  after_history-ok (err e) p h = absurd (ground arith)
  after_history-ok (ok history) p h = prepared_with-ok history _ p h

  after_append-ok :
      (a : Appended) (p : PreparedTurn V)
      → (after_append print inputs agent inbound session_id a).1 ≡ finished (ok p)
      → (a.1 ≡ ok tt) × (seeded_history inputs.on_query agent a.0 session_id ≡ ok p.history)
  unfolding after_append
  after_append-ok (memory, err e) p h = absurd (ground arith)
  after_append-ok (memory, ok x) p h = (refl, after_history-ok _ p h)

-- A history that is read has no more messages than allowed, and ends with the message that was stored.
history-last :
    (V : Type 0) (on_query : Option FrameworkError) (agent : TurnAgent) (faults : AppendFaults)
    (memory : MemoryStore) (session_id content : Text) (username : Option Text) (limit : ℕ)
    (history : List (Message V))
    → agent.history_messages ≡ suc limit
    → (append_message faults memory session_id user content username).1 ≡ ok tt
    → seeded_history on_query agent
        (append_message faults memory session_id user content username).0
        session_id
      ≡ ok history
    → (length history ≤ suc limit)
      × (before : List (Message V)) × (history
          ≡ before ++ text Role.user (labelled (row_of user content username)) ∷ [])
unfolding seeded_history seeded_from recent_messages seeded seeded_one
history-last V (some x) agent faults memory session_id content username limit history e h k =
    let stored = (append_message faults memory session_id user content username).0 in
    let read : seeded_from {V = V} (recent_messages (some x) stored session_id (suc limit))
        ≡ ok history =
      subst (λ n. seeded_from {V = V} (recent_messages (some x) stored session_id n) ≡ ok history) e
        k in
    absurd (ground arith)
history-last V none agent faults memory session_id content username limit history e h k =
    let stored = (append_message faults memory session_id user content username).0 in
    let older = reverse (take limit (rows_of session_id memory.messages)) in
    let row = row_of user content username in
    let read : seeded_from {V = V} (recent_messages none stored session_id (suc limit))
        ≡ ok history =
      subst (λ n. seeded_from {V = V} (recent_messages none stored session_id n) ≡ ok history) e
        k in
    let rows = recent_messages-last faults memory session_id content user username limit h refl in
    let all : seeded {V = V} (older ++ row ∷ []) ≡ history =
      ok-injective _ history (sym (ap (λ r. seeded_from {V = V} r) rows) ∙ read) in
    (
      subst (λ t. length t ≤ suc limit) all
          (omega (
            arith,
            length-seeded V (older ++ row ∷ []),
            length-append older (row ∷ []),
            length-reverse (take limit (rows_of session_id memory.messages)),
            length-take limit (rows_of session_id memory.messages),
          )),
      seeded older,
      sym all ∙ seeded-append V older (row ∷ []),
    )

-- For an agent that keeps messages in its history: when the preparation of a turn succeeds, the history has at
-- most that many messages, and ends with the message of the user, under the trimmed name.
pub prepare_turn-history :
    {S : Type 0} (V : Type 0) (print : S → Text) (inputs : PrepareInputs S) (agent : TurnAgent)
    (memory : MemoryStore) (inbound : InboundMessage) (session_id : Text) (limit : ℕ)
    (p : PreparedTurn V)
    → agent.history_messages ≡ suc limit
    → (prepare_turn print inputs agent memory inbound session_id).1 ≡ finished (ok p)
    → (length p.history ≤ agent.history_messages)
      × (before : List (Message V)) × (p.history
          ≡ before
            ++ text Role.user (labelled (row_of user inbound.content (some inbound.username))) ∷ [])
unfolding prepare_turn
prepare_turn-history V print inputs agent memory inbound session_id limit p e h =
    let (stored, read) = after_append-ok V print inputs agent inbound session_id _ p h in
    let last =
      history-last V inputs.on_query agent inputs.faults memory session_id inbound.content
        (some inbound.username) limit p.history e stored read in
    (omega (arith, e, last.0), last.1, last.2)

after_append-store :
    {S : Type 0} (V : Type 0) (print : S → Text) (inputs : PrepareInputs S) (agent : TurnAgent)
    (inbound : InboundMessage) (session_id : Text) (a : Appended)
    → (after_append {V = V} print inputs agent inbound session_id a).0 ≡ a.0
unfolding after_append
after_append-store V print inputs agent inbound session_id (memory, err e) = refl
after_append-store V print inputs agent inbound session_id (memory, ok x) = refl

recent_messages-rows :
    (a b : MemoryStore) (session_id : Text) (limit : ℕ)
    → rows_of session_id a.messages ≡ rows_of session_id b.messages
    → recent_messages none a session_id limit ≡ recent_messages none b session_id limit
unfolding recent_messages
recent_messages-rows a b session_id zero h = refl
recent_messages-rows a b session_id (suc limit) h =
    ap (λ rows. ok (reverse (take (suc limit) rows))) h

-- Whatever fails, a preparation leaves what the other sessions read as it was.
pub prepare_turn-others :
    {S : Type 0} (V : Type 0) (print : S → Text) (inputs : PrepareInputs S) (agent : TurnAgent)
    (memory : MemoryStore) (inbound : InboundMessage) (session_id other : Text) (limit : ℕ)
    → session_id ≢ other
    → recent_messages none
        (prepare_turn {V = V} print inputs agent memory inbound session_id).0
        other
        limit
      ≡ recent_messages none memory other limit
unfolding prepare_turn
prepare_turn-others V print inputs agent memory inbound session_id other limit h =
    let stored =
      append_message inputs.faults memory session_id user inbound.content (some inbound.username) in
    recent_messages-rows (prepare_turn {V = V} print inputs agent memory inbound session_id).0
      memory other limit
      (ap (λ m. rows_of other m.messages)
          (after_append-store V print inputs agent inbound session_id stored)
        ∙ append_message-others inputs.faults memory session_id other inbound.content user
            (some inbound.username) h)
