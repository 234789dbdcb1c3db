-- ===== src/Turns/Tests.antt =====
-- Queries, sections and preparations at concrete inputs, and the theorems applied to them.
use simple_claw.Base.{
  ◌≡◌, ◌≢◌, refl, ◌≤◌, ◌+◌, ℕ, Text, lit, List, [], ◌∷◌, ◌++◌, none, some, Bool, true, false,
  text_discrete, is_whitespace, is_empty, trim, trim_start, length, arith,
}
use simple_claw.Error.{ok}
use simple_claw.Channels.{InboundMessage, discord}
use simple_claw.Agent.{Message, text, Role}
use simple_claw.Turns.Bytes.{byte_len, len_utf8, split_at, eq_ignore_ascii_case, to_ascii_lowercase}
use simple_claw.Turns.Query.{
  unchanged, normalized, panicked, normalize_recall_query, strip_loop, go_on, strip_addressing,
  strip_leading_discord_mention, strip_leading_at_name, strip_leading_name_token,
  starts_with_name_token, strip_prefix, after_close, ends_name, is_separator, trim_separators,
}
use simple_claw.Turns.Clean.{Strips, normalize_recall_query-clean}
use simple_claw.Turns.Ascii.{Ascii, normalize_recall_query-returns}
use simple_claw.Turns.Sections.{user, MemoryRecallHit, long_term, format_recalled_memory}
use simple_claw.Turns.Bound.{format_recalled_memory-bound}
use simple_claw.Turns.Messages.{
  MemoryStore, recent_messages, append_message, named, rows_of, reverse,
}
use simple_claw.Turns.Prepare.{
  TurnAgent, PrepareInputs, PreparedTurn, finished, prepare_turn, labelled, after_append,
  seeded_history, seeded_from, seeded, seeded_one, after_history, build_turn_system_prompt,
  normalized_config, clamp, without_recall, prepared_with, inject_caller_context, platform,
}
use simple_claw.Turns.History.{prepare_turn-history, prepare_turn-others, row_of}

abbrev greeting : Text
greeting = lit "@Bot, hi there"

-- The name of the agent is taken off, and the separators after it.
taken_off : normalize_recall_query (lit "bot") (lit "b") greeting ≡ normalized (lit "hi there")
unfolding normalize_recall_query strip_loop go_on strip_addressing strip_leading_discord_mention
    strip_leading_at_name strip_leading_name_token starts_with_name_token strip_prefix after_close
    ends_name is_separator trim_separators byte_len len_utf8 split_at eq_ignore_ascii_case
    to_ascii_lowercase lit text_discrete is_whitespace is_empty trim trim_start
taken_off = refl

-- The third byte of this query is inside its third character.
slices_inside : normalize_recall_query (lit "bot") (lit "b") (97 ∷ 98 ∷ 233 ∷ []) ≡ panicked
unfolding normalize_recall_query strip_loop go_on strip_addressing strip_leading_discord_mention
    strip_leading_at_name strip_leading_name_token starts_with_name_token strip_prefix after_close
    ends_name is_separator trim_separators byte_len len_utf8 split_at eq_ignore_ascii_case
    to_ascii_lowercase lit text_discrete is_whitespace is_empty trim trim_start
slices_inside = refl

normalize_recall_query-clean_example :
    Strips (lit "bot") (lit "b") (lit "hi there") (trim greeting)
    × (strip_addressing (lit "bot") (lit "b") (lit "hi there") ≡ unchanged)
    × (trim (lit "hi there") ≡ lit "hi there")
normalize_recall_query-clean_example =
    normalize_recall_query-clean (lit "bot") (lit "b") greeting (lit "hi there") taken_off

greeting-Ascii : Ascii greeting
unfolding lit
greeting-Ascii = ground arith

normalize_recall_query-returns_example :
    (t : Text) × (normalize_recall_query (lit "bot") (lit "b") greeting ≡ normalized t)
normalize_recall_query-returns_example =
    normalize_recall_query-returns (lit "bot") (lit "b") greeting greeting-Ascii

abbrev print : Bool → Text
print _ = lit "0.90"

abbrev hit : MemoryRecallHit Bool
hit = record {
  store = long_term;
  content = lit "likes tea";
  kind = none;
  context_messages = none;
  raw_similarity = true;
}

format_recalled_memory-bound_example :
    byte_len (format_recalled_memory print (hit ∷ []) 720 480).section ≤ 720 + 2 + 480
format_recalled_memory-bound_example = format_recalled_memory-bound print (hit ∷ []) 720 480

abbrev agent : TurnAgent
agent = record {
  agent_id = lit "b";
  agent_name = lit "bot";
  system_prompt = lit "Help.";
  history_messages = 5;
  memory_recall = record {
    enabled = false;
    recall_word_count_threshold = 3;
    long_term_max_chars = 720;
    short_term_max_chars = 480;
  };
}

abbrev inbound : InboundMessage
inbound = record {
  trace_id = lit "t";
  source_channel = discord;
  target_agent_id = lit "b";
  session_key = lit "k";
  source_message_id = none;
  channel_id = lit "c";
  guild_id = none;
  is_dm = true;
  user_id = lit "u";
  username = lit "ann";
  mentioned_bot = true;
  invoke = true;
  content = lit "hi";
}

abbrev inputs : PrepareInputs Bool
inputs = record {
  faults = record {
    on_connection = none;
    on_session = none;
    on_message = none;
    on_embedding = none;
  };
  on_query = none;
  query_recall_hits = λ query. ok (hit ∷ []);
}

abbrev memory : MemoryStore
memory = record { sessions = []; messages = [] }

abbrev prepared : PreparedTurn ℕ
prepared = record {
  system_prompt =
      lit "Help."
      ++ lit
          "\n\n# CURRENT CONTEXT\nchat_type: dm\nplatform: discord\nchannel_id: c\nSpeaker: **ann** (id: u)";
  history = text Role.user (lit "[ann] hi") ∷ [];
  memory_recall_short_hits = 0;
  memory_recall_long_hits = 0;
}

prepares : (prepare_turn print inputs agent memory inbound (lit "s")).1 ≡ finished (ok prepared)
unfolding prepare_turn append_message named after_append seeded_history seeded_from seeded
    seeded_one labelled recent_messages rows_of reverse after_history build_turn_system_prompt
    normalized_config clamp without_recall prepared_with inject_caller_context platform lit
    text_discrete is_whitespace is_empty trim trim_start text
prepares = refl

prepare_turn-history_example :
    (length prepared.history ≤ 5)
    × (before : List (Message ℕ)) × (prepared.history
        ≡ before ++ text Role.user (labelled (row_of user (lit "hi") (some (lit "ann")))) ∷ [])
prepare_turn-history_example =
    prepare_turn-history ℕ print inputs agent memory inbound (lit "s") 4 prepared refl prepares

sessions_differ : lit "s" ≢ lit "r"
unfolding lit
sessions_differ e = ground arith

prepare_turn-others_example :
    recent_messages none
      (prepare_turn {V = ℕ} print inputs agent memory inbound (lit "s")).0
      (lit "r")
      5
    ≡ recent_messages none memory (lit "r") 5
prepare_turn-others_example =
    prepare_turn-others ℕ print inputs agent memory inbound (lit "s") (lit "r") 5 sessions_differ
