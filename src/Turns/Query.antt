-- ===== src/Turns/Query.antt =====
-- The query of the memory recall, of src/turn/prepare.rs: what the user wrote, without the mention or the
-- name of the agent that it begins with. A slice that is not at the border of a character panics.
use simple_claw.Base.{
  ℕ, zero, suc, Text, lit, [], ◌∷◌, Option, none, some, Bool, ◌||◌, eqb, ltb, if◌then◌else◌, ◌==◌,
  is_empty, is_whitespace, trim, length,
}
use simple_claw.Turns.Bytes.{byte_len, split_at, eq_ignore_ascii_case}

-- What a `strip_` function gives: nothing, the rest, or a panic.
pub data Stripped : Type 0 where
  unchanged : Stripped
  stripped : Text → Stripped
  slice_panic : Stripped

unfoldable pub strip_prefix : Text → Text → Option Text
strip_prefix [] s = some s
strip_prefix (p ∷ ps) [] = none
strip_prefix (p ∷ ps) (c ∷ s) = let rest = strip_prefix ps s in if eqb c p then rest else none

-- The text after the first `>`.
unfoldable pub after_close : Text → Stripped
after_close [] = unchanged
after_close (c ∷ t) = let rest = after_close t in if eqb c 62 then stripped t else rest

abbrev pub mention_after : Option Text → Stripped
unfolding after_close
mention_after none = unchanged
mention_after (some rest) = after_close rest

unfoldable pub strip_leading_discord_mention : Text → Stripped
unfolding strip_prefix lit
strip_leading_discord_mention value = mention_after (strip_prefix (lit "<@") value)

-- `matches!(next, ':' | ',' | '!' | '?' | '.')`
unfoldable pub ends_name : ℕ → Bool
ends_name c = eqb c 58 || eqb c 44 || eqb c 33 || eqb c 63 || eqb c 46

abbrev pub at_border : Text → Stripped
unfolding ends_name is_whitespace
at_border [] = stripped []
at_border (next ∷ rest) =
    if is_whitespace next || ends_name next then stripped (next ∷ rest) else unchanged

abbrev pub name_token : Text → Option (Text × Text) → Stripped
unfolding eq_ignore_ascii_case
name_token name none = slice_panic
name_token name (some (head, rest)) =
    if eq_ignore_ascii_case head name then at_border rest else unchanged

-- The length that the function gives is here the text after it.
unfoldable pub starts_with_name_token : Text → Text → Stripped
unfolding byte_len split_at
starts_with_name_token value name =
    if ltb (byte_len value) (byte_len name)
    then unchanged
    else name_token name (split_at (byte_len name) value)

unfoldable pub strip_leading_name_token : Text → Text → Stripped
unfolding starts_with_name_token trim is_empty
strip_leading_name_token value name =
    let trimmed_name = trim name in
    if is_empty trimmed_name then unchanged else starts_with_name_token value trimmed_name

abbrev pub name_after : Text → Option Text → Stripped
unfolding strip_leading_name_token
name_after name none = unchanged
name_after name (some rest) = strip_leading_name_token rest name

unfoldable pub strip_leading_at_name : Text → Text → Stripped
unfolding strip_prefix lit trim is_empty
strip_leading_at_name value name =
    let trimmed_name = trim name in
    if is_empty trimmed_name
    then unchanged
    else name_after trimmed_name (strip_prefix (lit "@") value)

-- `Option::or_else`
abbrev pub or_else : Stripped → Stripped → Stripped
or_else unchanged next = next
or_else first next = first

-- What the loop ends with, for a number of rounds.
pub data Normalized : Type 0 where
  normalized : Text → Normalized
  panicked : Normalized
  out_of_rounds : Normalized

-- `matches!(ch, ':' | ',' | '!' | '?' | '.' | ';' | '-')`, or a blank.
unfoldable pub is_separator : ℕ → Bool
unfolding is_whitespace ends_name
is_separator c = is_whitespace c || ends_name c || eqb c 59 || eqb c 45

unfoldable pub trim_separators : Text → Text
unfolding is_separator
trim_separators [] = []
trim_separators (c ∷ t) = let rest = trim_separators t in if is_separator c then rest else c ∷ t

unfoldable pub go_on : (Text → Normalized) → Text → Stripped → Normalized
unfolding trim_separators is_empty
go_on again remaining unchanged = normalized remaining
go_on again remaining slice_panic = panicked
go_on again remaining (stripped rest) =
    let next = trim_separators rest in
    if rest == remaining
    then normalized remaining
    else (if is_empty next then normalized next else again next)

abbrev pub trimmed : Normalized → Normalized
unfolding trim
trimmed (normalized t) = normalized (trim t)
trimmed panicked = panicked
trimmed out_of_rounds = out_of_rounds

module _ (agent_name agent_id : Text) where
  unfoldable pub strip_addressing : Text → Stripped
  unfolding strip_leading_discord_mention strip_leading_at_name strip_leading_name_token
  strip_addressing remaining = or_else (strip_leading_discord_mention remaining) (
      or_else (strip_leading_at_name remaining agent_name) (
        or_else (strip_leading_name_token remaining agent_name)
          (strip_leading_name_token remaining agent_id)))

  -- The loop, for a number of rounds.
  unfoldable pub strip_loop : ℕ → Text → Normalized
  unfolding go_on strip_addressing
  strip_loop zero remaining = out_of_rounds
  strip_loop (suc rounds) remaining =
      go_on (strip_loop rounds) remaining (strip_addressing remaining)

  -- A round drops a character, so that a round for each is enough.
  unfoldable pub normalize_recall_query : Text → Normalized
  unfolding strip_loop is_empty trim
  normalize_recall_query query =
      let remaining = trim query in
      if is_empty remaining
      then normalized []
      else trimmed (strip_loop (suc (length remaining)) remaining)
