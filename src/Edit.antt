-- ===== src/Edit.antt =====
-- `apply_edit_at_path` of src/tools/builtin/edit.rs, which the guest program of sandbox/edit_tool
-- repeats. The outcomes of reading and writing the file are inputs.
pub mod Replace
mod Tests
use simple_claw.Base.{
  ℕ, zero, suc, ◌+◌, ◌-◌, Text, lit, List, [], ◌∷◌, ◌++◌, length, Option, none, some, Bool, true,
  false, not, ◌&&◌, ltb, eqb, ◌==◌, starts_with, is_empty, drop, ◌⊎◌, inl, inr, if◌then◌else◌,
}
use simple_claw.Error.{FrameworkError, io, tool, Result, ok, err}

pub record EditArgs : Type 0 where
  pub file_path : Text
  pub old_string : Text
  pub new_string : Text
  pub replace_all : Bool

-- `match_indices(pattern).count()`: matches from the left on, which do not overlap; `skip` is what is
-- left of a match. A match of an empty pattern is not asked for.
unfoldable pub count_matches : Text → ℕ → Text → ℕ
count_matches pattern skip [] = 0
count_matches pattern (suc skip) (c ∷ s) = count_matches pattern skip s
count_matches pattern zero (c ∷ s) =
    if starts_with (c ∷ s) pattern
    then 1 + count_matches pattern (length pattern - 1) s
    else count_matches pattern 0 s

-- `replace(pattern, new)`
unfoldable pub replace_from : Text → Text → ℕ → Text → Text
replace_from pattern new skip [] = []
replace_from pattern new (suc skip) (c ∷ s) = replace_from pattern new skip s
replace_from pattern new zero (c ∷ s) =
    if starts_with (c ∷ s) pattern
    then new ++ replace_from pattern new (length pattern - 1) s
    else c ∷ replace_from pattern new 0 s

-- `replacen(pattern, new, 1)`
unfoldable pub replace_first : Text → Text → Text → Text
replace_first pattern new [] = []
replace_first pattern new (c ∷ s) =
    let rest = replace_first pattern new s in
    if starts_with (c ∷ s) pattern then new ++ drop (length pattern) (c ∷ s) else c ∷ rest

-- The line endings of one system and of the other.
abbrev pub crlf : Text
crlf = 13 ∷ 10 ∷ []

abbrev pub lf : Text
lf = 10 ∷ []

unfoldable pub normalize_line_endings : Text → Text
unfolding replace_from
normalize_line_endings text = replace_from crlf lf 0 text

-- The text contains `\r\n`: there is a match.
unfoldable pub detect_line_ending : Text → Text
unfolding count_matches
detect_line_ending text = if ltb 0 (count_matches crlf 0 text) then crlf else lf

unfoldable pub convert_to_line_ending : Text → Text → Text
unfolding replace_from
convert_to_line_ending text ending = if ending == lf then text else replace_from lf crlf 0 text

-- What a string of the arguments is in a file with these line endings.
unfoldable pub adapted : Text → Text → Text
unfolding normalize_line_endings convert_to_line_ending detect_line_ending
adapted original text =
    convert_to_line_ending (normalize_line_endings text) (detect_line_ending original)

-- The outcomes of making the parent directory, of reading and of writing.
pub record FileIo : Type 0 where
  pub create_dir_all : Option Text
  pub read_to_string : Text ⊎ Text
  pub write : Option Text

-- The answer, and the text that is written to the file.
abbrev pub Edited : Type 0
Edited = Result Text × Option Text

abbrev pub applied : Text
applied = lit "Edit applied successfully."

written : Option Text → Text → Edited
written none content = (ok applied, some content)
written (some e) content = (err (io e), none)

created : FileIo → Text → Option Text → Edited
unfolding written
created file content none = written file.write content
created file content (some e) = (err (io e), none)

abbrev pub no_match : FrameworkError
no_match = tool (
    lit
      "Could not find oldString in the file. It must match exactly, including whitespace, indentation, and line endings.")

abbrev pub many_matches : FrameworkError
many_matches = tool (
    lit
      "Found multiple matches for oldString. Provide more surrounding context to make the match unique.")

unfoldable pub replaced : FileIo → EditArgs → Text → Text → Text → ℕ → Edited
unfolding written
replaced file args original old new occurrences =
    if eqb occurrences 0
    then (err no_match, none)
    else if ltb 1 occurrences && not args.replace_all
    then (err many_matches, none)
    else written file.write (
        if args.replace_all
        then replace_from old new 0 original
        else replace_first old new original)

opened : Text → FileIo → EditArgs → Text ⊎ Text → Edited
unfolding replaced adapted
opened path file args (inl e) = (err (tool (lit "File " ++ path ++ lit " not found: " ++ e)), none)
opened path file args (inr original) =
    let old = adapted original args.old_string in
    let new = adapted original args.new_string in
    replaced file args original old new (count_matches old 0 original)

-- `path` is the text of the path.
unfoldable pub apply_edit_at_path : Text → FileIo → EditArgs → Edited
unfolding created opened
apply_edit_at_path path file args =
    if is_empty args.old_string
    then created file args.new_string file.create_dir_all
    else opened path file args file.read_to_string
