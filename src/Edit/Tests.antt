-- ===== src/Edit/Tests.antt =====
-- An edit of a small file, and the theorem applied to it.
use simple_claw.Base.{
  ◌≡◌, refl, ◌<◌, Text, [], ◌∷◌, ◌++◌, none, some, false, inr, text_discrete, is_empty, starts_with,
}
use simple_claw.Error.{FrameworkError, ok, err}
use simple_claw.Edit.{EditArgs, FileIo, replace_first, applied, apply_edit_at_path, count_matches}
use simple_claw.Edit.Replace.{old_text, new_text, apply_edit_at_path_lem}

-- The file `x a` with the line ending `\r\n`.
abbrev original : Text
original = 120 ∷ 97 ∷ 13 ∷ 10 ∷ []

abbrev file : FileIo
file = record { create_dir_all = none; read_to_string = inr original; write = none }

-- `a` and a line break become `b` and a line break.
abbrev args : EditArgs
args = record {
  file_path = 102 ∷ [];
  old_string = 97 ∷ 10 ∷ [];
  new_string = 98 ∷ 10 ∷ [];
  replace_all = false;
}

edits : apply_edit_at_path (102 ∷ []) file args ≡ (ok applied, some (120 ∷ 98 ∷ 13 ∷ 10 ∷ []))
unfolding apply_edit_at_path starts_with is_empty text_discrete replace_first
edits = refl

apply_edit_at_path_lem_example :
    (count_matches (old_text (102 ∷ []) file args original) 0 original ≡ 0
      → (e : FrameworkError) × (apply_edit_at_path (102 ∷ []) file args ≡ (err e, none)))
    × (1 < count_matches (old_text (102 ∷ []) file args original) 0 original
        → false ≡ false
        → (e : FrameworkError) × (apply_edit_at_path (102 ∷ []) file args ≡ (err e, none)))
    × (count_matches (old_text (102 ∷ []) file args original) 0 original ≡ 1
        → (pre : Text) × (post : Text) × (original
            ≡ pre ++ old_text (102 ∷ []) file args original ++ post)
          × (apply_edit_at_path (102 ∷ []) file args
              ≡ (ok applied, some (pre ++ new_text (102 ∷ []) file args original ++ post))))
unfolding is_empty
apply_edit_at_path_lem_example = apply_edit_at_path_lem (102 ∷ []) file args original refl refl refl
