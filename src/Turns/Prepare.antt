-- ===== src/Turns/Prepare.antt =====
-- src/turn/prepare.rs and src/turn/finalize.rs. What the recall's query of the memory finds is an input;
-- no other task acts on the memory during a preparation. `V` is the type of JSON values.
use simple_claw.Base.{
  ℕ, Text, lit, [], ◌∷◌, ◌++◌, List, Option, none, some, Bool, false, ◌&&◌, ◌||◌, ◌==◌, ltb, ◌+◌,
  trim, is_empty, if◌then◌else◌, words,
}
use simple_claw.Error.{FrameworkError, Result, ok, err}
use simple_claw.Channels.{InboundMessage, GatewayChannelKind, discord}
use simple_claw.Agent.{Message, text, Role}
use simple_claw.Agent.ReplyPolicy.{is_no_reply}
use simple_claw.Agent.React.{RunOutcome}
use simple_claw.Turns.Query.{
  Normalized, normalized, panicked, out_of_rounds, normalize_recall_query,
}
use simple_claw.Turns.Sections.{
  StoredRole, user, assistant, system, tool, MemoryRecallHit, PromptBuildMemorySection,
  format_recalled_memory,
}
use simple_claw.Turns.Messages.{
  StoredMessage, MemoryStore, AppendFaults, Appended, append_message, recent_messages,
}

-- `MemoryRecallConfig`, but for the fields that only the query reads.
pub record MemoryRecallConfig : Type 0 where
  pub enabled : Bool
  pub recall_word_count_threshold : ℕ
  pub long_term_max_chars : ℕ
  pub short_term_max_chars : ℕ

unfoldable pub clamp : ℕ → ℕ → ℕ → ℕ
clamp n low high = if ltb n low then low else if ltb high n then high else n

unfoldable pub normalized_config : MemoryRecallConfig → MemoryRecallConfig
unfolding clamp
normalized_config self = record {
  enabled = self.enabled;
  recall_word_count_threshold = clamp self.recall_word_count_threshold 1 10;
  long_term_max_chars = clamp self.long_term_max_chars 100 4000;
  short_term_max_chars = clamp self.short_term_max_chars 100 4000;
}

-- What a turn uses of the agent's configuration.
pub record TurnAgent : Type 0 where
  pub agent_id : Text
  pub agent_name : Text
  pub system_prompt : Text
  pub history_messages : ℕ
  pub memory_recall : MemoryRecallConfig

pub record PromptBuild : Type 0 where
  pub system_prompt : Text
  pub memory_recall_short_hits : ℕ
  pub memory_recall_long_hits : ℕ

unfoldable pub without_recall : Text → PromptBuild
without_recall system_prompt = record {
  system_prompt = system_prompt;
  memory_recall_short_hits = 0;
  memory_recall_long_hits = 0;
}

-- The content under which the model reads a message of a user.
unfoldable pub labelled : StoredMessage → Text
unfolding trim is_empty lit
labelled item = elim item.username [
  | none ↦ item.content
  | some username ↦
      if is_empty (trim username)
      then item.content
      else lit "[" ++ trim username ++ lit "] " ++ item.content
]

module _ {V : Type 0} where
  -- The message for the model, if the role is one of the two that the loop does not pass over.
  unfoldable pub seeded_one : StoredRole → StoredMessage → List (Message V)
  unfolding labelled text
  seeded_one user item = text Role.user (labelled item) ∷ []
  seeded_one assistant item = text Role.assistant item.content ∷ []
  seeded_one system item = []
  seeded_one tool item = []

  unfoldable pub seeded : List StoredMessage → List (Message V)
  unfolding seeded_one
  seeded [] = []
  seeded (item ∷ stored) = seeded_one item.role item ++ seeded stored

  unfoldable pub seeded_from : Result (List StoredMessage) → Result (List (Message V))
  unfolding seeded
  seeded_from (err e) = err e
  seeded_from (ok stored) = ok (seeded stored)

  unfoldable pub seeded_history :
      Option FrameworkError → TurnAgent → MemoryStore → Text → Result (List (Message V))
  unfolding seeded_from recent_messages
  seeded_history on_query agent memory session_id =
      seeded_from (recent_messages on_query memory session_id agent.history_messages)

module _ {S : Type 0} (print : S → Text) where
  abbrev pub with_section : Text → PromptBuildMemorySection → PromptBuild
  unfolding without_recall is_empty lit
  with_section system_prompt recalled =
      if is_empty recalled.section then without_recall system_prompt else record {
        system_prompt = system_prompt ++ lit "\n\n" ++ recalled.section;
        memory_recall_short_hits = recalled.short_hits;
        memory_recall_long_hits = recalled.long_hits;
      }

  -- An error of the query, or nothing found, leaves the prompt as it is.
  abbrev pub with_hits : Text → MemoryRecallConfig → Result (List (MemoryRecallHit S)) → PromptBuild
  unfolding without_recall with_section format_recalled_memory
  with_hits system_prompt config (err e) = without_recall system_prompt
  with_hits system_prompt config (ok []) = without_recall system_prompt
  with_hits system_prompt config (ok (hit ∷ hits)) = with_section system_prompt (
      format_recalled_memory print (hit ∷ hits) config.long_term_max_chars
        config.short_term_max_chars)

  abbrev pub with_query :
      TurnAgent
      → MemoryRecallConfig
      → (Text → Result (List (MemoryRecallHit S)))
      → Normalized
      → Option PromptBuild
  unfolding without_recall with_hits words is_empty
  with_query agent config query_recall_hits (normalized query) =
      if is_empty query || ltb (words false query) config.recall_word_count_threshold
      then some (without_recall agent.system_prompt)
      else some (with_hits agent.system_prompt config (query_recall_hits query))
  with_query agent config query_recall_hits panicked = none
  with_query agent config query_recall_hits out_of_rounds = none

  -- none where the normalization of the query panics.
  unfoldable pub build_turn_system_prompt :
      TurnAgent → (Text → Result (List (MemoryRecallHit S))) → Text → Option PromptBuild
  unfolding normalized_config without_recall with_query normalize_recall_query
  build_turn_system_prompt agent query_recall_hits query =
      let config = normalized_config agent.memory_recall in
      if config.enabled
      then with_query agent config query_recall_hits
          (normalize_recall_query agent.agent_name agent.agent_id query)
      else some (without_recall agent.system_prompt)

abbrev pub line_of : Text → Option Text → Text
line_of label none = []
line_of label (some value) = label ++ value

-- `GatewayChannelKind::as_str`
unfoldable pub platform : GatewayChannelKind → Text
unfolding lit
platform discord = lit "discord"

unfoldable pub inject_caller_context : Text → InboundMessage → Text
unfolding lit platform
inject_caller_context base inbound =
    base
    ++ lit "\n\n# CURRENT CONTEXT\nchat_type: "
    ++ (if inbound.is_dm then lit "dm" else lit "group")
    ++ lit "\nplatform: "
    ++ platform inbound.source_channel
    ++ lit "\nchannel_id: "
    ++ inbound.channel_id
    ++ line_of (lit "\nguild_id: ") inbound.guild_id
    ++ line_of (lit "\nmessage_id: ") inbound.source_message_id
    ++ (if inbound.user_id == lit "system" && inbound.username == lit "cron"
        then lit "\ntrigger: scheduled_cron"
        else [])
    ++ lit "\nSpeaker: **"
    ++ inbound.username
    ++ lit "** (id: "
    ++ inbound.user_id
    ++ lit ")"

unfoldable pub record_context : AppendFaults → MemoryStore → InboundMessage → Text → Appended
unfolding append_message
record_context faults memory inbound session_id =
    append_message faults memory session_id user inbound.content (some inbound.username)

pub record PreparedTurn (V : Type 0) : Type 0 where
  pub system_prompt : Text
  pub history : List (Message V)
  pub memory_recall_short_hits : ℕ
  pub memory_recall_long_hits : ℕ

-- A result, or a panic.
pub data Prepared (V : Type 0) : Type 0 where
  finished : Result (PreparedTurn V) → Prepared V
  prepare_panicked : Prepared V

-- What the calls that a turn makes of other parts give: the errors of the statements, and what the recall
-- finds for a query.
pub record PrepareInputs (S : Type 0) : Type 0 where
  pub faults : AppendFaults
  pub on_query : Option FrameworkError
  pub query_recall_hits : Text → Result (List (MemoryRecallHit S))

module _ {S V : Type 0} (print : S → Text) where
  unfoldable pub prepared_with : InboundMessage → List (Message V) → Option PromptBuild → Prepared V
  unfolding inject_caller_context
  prepared_with inbound history none = prepare_panicked
  prepared_with inbound history (some build) = finished (
      ok (record {
        system_prompt = inject_caller_context build.system_prompt inbound;
        history = history;
        memory_recall_short_hits = build.memory_recall_short_hits;
        memory_recall_long_hits = build.memory_recall_long_hits;
      }))

  unfoldable pub after_history :
      PrepareInputs S → TurnAgent → InboundMessage → Result (List (Message V)) → Prepared V
  unfolding build_turn_system_prompt prepared_with
  after_history inputs agent inbound (err e) = finished (err e)
  after_history inputs agent inbound (ok history) =
      prepared_with inbound history
        (build_turn_system_prompt print agent inputs.query_recall_hits inbound.content)

  unfoldable pub after_append :
      PrepareInputs S → TurnAgent → InboundMessage → Text → Appended → MemoryStore × Prepared V
  unfolding seeded_history after_history
  after_append inputs agent inbound session_id (memory, err e) = (memory, finished (err e))
  after_append inputs agent inbound session_id (memory, ok _) = (
    memory,
    after_history inputs agent inbound (seeded_history inputs.on_query agent memory session_id),
  )

  unfoldable pub prepare_turn :
      PrepareInputs S → TurnAgent → MemoryStore → InboundMessage → Text → MemoryStore × Prepared V
  unfolding append_message after_append
  prepare_turn inputs agent memory inbound session_id =
      after_append inputs agent inbound session_id (
        append_message inputs.faults memory session_id user inbound.content (some inbound.username))

-- The outcome with the counts of the recalled memories is also what the caller gets.
pub data TurnDisposition : Type 0 where
  context_recorded : TurnDisposition
  no_reply : TurnDisposition
  replied : RunOutcome → TurnDisposition

unfoldable pub with_recall : RunOutcome → ℕ → ℕ → RunOutcome
with_recall outcome short_hits long_hits = record {
  reply = outcome.reply;
  tool_calls = outcome.tool_calls;
  memory_recall_used = ltb 0 (short_hits + long_hits);
  memory_recall_short_hits = short_hits;
  memory_recall_long_hits = long_hits;
}

abbrev pub stored_reply : RunOutcome → Appended → MemoryStore × Result TurnDisposition
stored_reply outcome (memory, err e) = (memory, err e)
stored_reply outcome (memory, ok _) = (memory, ok (replied outcome))

unfoldable pub finalize_turn :
    AppendFaults → MemoryStore → Text → RunOutcome → ℕ → ℕ → MemoryStore × Result TurnDisposition
unfolding with_recall is_no_reply append_message
finalize_turn faults memory session_id outcome short_hits long_hits =
    if is_no_reply outcome.reply
    then (memory, ok no_reply)
    else stored_reply (with_recall outcome short_hits long_hits)
        (append_message faults memory session_id assistant outcome.reply none)
