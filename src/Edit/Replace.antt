-- ===== src/Edit/Replace.antt =====
-- What an edit makes of a text.
use simple_claw.Base.{
  ◌≡◌, ◌≢◌, refl, ap, sym, ◌∙◌, inl, inr, ℕ, zero, suc, ◌+◌, ◌-◌, ◌<◌, Text, [], ◌∷◌, ◌++◌, length,
  none, some, true, false, ◌==◌, starts_with, is_empty, drop, Bool-cases, arith,
}
use simple_claw.Error.{FrameworkError, ok, err}
use simple_claw.Edit.{
  EditArgs, FileIo, crlf, lf, normalize_line_endings, convert_to_line_ending, detect_line_ending,
  count_matches, replace_from, replace_first, adapted, apply_edit_at_path, applied, replaced,
  no_match, many_matches,
}

starts_with-drop : (s p : Text) → starts_with s p ≡ true → s ≡ p ++ drop (length p) s
unfolding starts_with
starts_with-drop s [] h = refl
starts_with-drop [] (c ∷ p) h = ground arith
starts_with-drop (d ∷ s) (c ∷ p) h = ground (arith, starts_with-drop s p)

one_more : (n : ℕ) → ¬ (1 + n ≡ 0)
one_more n h = omega arith

only_one : (n : ℕ) → 1 + n ≡ 1 → n ≡ 0
only_one n h = omega arith

suc-minus_one : (n : ℕ) → suc n - 1 ≡ n
suc-minus_one n = omega arith

drop-pattern :
    (p : Text) (c : ℕ) (s : Text)
    → is_empty p ≡ false
    → drop (length p) (c ∷ s) ≡ drop (length p - 1) s
unfolding is_empty
drop-pattern [] c s h = ground arith
drop-pattern (d ∷ p) c s h = rw (suc-minus_one (length p)) refl

-- Where there is no match, nothing is replaced.
replace_from-none :
    (p new : Text) (k : ℕ) (s : Text) → count_matches p k s ≡ 0 → replace_from p new k s ≡ drop k s
unfolding count_matches replace_from
replace_from-none p new zero [] h = refl
replace_from-none p new (suc k) [] h = refl
replace_from-none p new (suc k) (c ∷ s) h = replace_from-none p new k s h
replace_from-none p new zero (c ∷ s) h = elim (Bool-cases (starts_with (c ∷ s) p)) [
  | inl e ↦ absurd (one_more (count_matches p (length p - 1) s) (rw e at h))
  | inr e ↦ rw e (ap (λ t. c ∷ t) (replace_from-none p new 0 s (rw e at h)))
]

-- With one match, replacing all is replacing the first.
replace_first-eq-replace_from :
    (p new s : Text)
    → is_empty p ≡ false
    → count_matches p 0 s ≡ 1
    → replace_first p new s ≡ replace_from p new 0 s
unfolding count_matches replace_first replace_from
replace_first-eq-replace_from p new [] ne h = refl
replace_first-eq-replace_from p new (c ∷ s) ne h = elim (Bool-cases (starts_with (c ∷ s) p)) [
  | inl e ↦
      rw
        (
          e,
          drop-pattern p c s ne,
          ← replace_from-none p new (length p - 1) s
              (only_one (count_matches p (length p - 1) s) (rw e at h)),
        )
        refl
  | inr e ↦ rw e (ap (λ t. c ∷ t) (replace_first-eq-replace_from p new s ne (rw e at h)))
]

-- The first match is where it is replaced.
replace_first-split :
    (p new s : Text)
    → count_matches p 0 s ≢ 0
    → (pre : Text) × (post : Text) × (s ≡ pre ++ p ++ post)
      × (replace_first p new s ≡ pre ++ new ++ post)
unfolding count_matches replace_first
replace_first-split p new [] h = absurd (h refl)
replace_first-split p new (c ∷ s) h = elim (Bool-cases (starts_with (c ∷ s) p)) [
  | inl e ↦ ([], drop (length p) (c ∷ s), starts_with-drop (c ∷ s) p e, rw e refl)
  | inr e ↦
      let (pre, post, parts, done) = replace_first-split p new s (rw e at h) in
      (c ∷ pre, post, ap (λ t. c ∷ t) parts, rw e (ap (λ t. c ∷ t) done))
]

replaced-no_match :
    (file : FileIo) (args : EditArgs) (original old new : Text) (n : ℕ)
    → n ≡ 0
    → replaced file args original old new n ≡ (err no_match, none)
unfolding replaced
replaced-no_match file args original old new n h = rw h refl

replaced-many_matches :
    (file : FileIo) (args : EditArgs) (original old new : Text) (n : ℕ)
    → 1 < n
    → args.replace_all ≡ false
    → replaced file args original old new n ≡ (err many_matches, none)
unfolding replaced
replaced-many_matches file args original old new n h one = rw one (ground arith)

replaced-one :
    (file : FileIo) (args : EditArgs) (original old new : Text) (n : ℕ)
    → n ≡ 1
    → file.write ≡ none
    → replace_from old new 0 original ≡ replace_first old new original
    → replaced file args original old new n ≡ (ok applied, some (replace_first old new original))
unfolding replaced
replaced-one file args original old new n h writes same = elim (Bool-cases args.replace_all) [
  | inl e ↦ rw (h, writes, e, same) refl
  | inr e ↦ rw (h, writes, e) refl
]

append-not_empty : (t u : Text) → is_empty t ≡ false → is_empty (t ++ u) ≡ false
unfolding is_empty
append-not_empty [] u h = ground arith
append-not_empty (c ∷ t) u h = refl

replace_from-not_empty :
    (p new t : Text)
    → is_empty new ≡ false
    → is_empty t ≡ false
    → is_empty (replace_from p new 0 t) ≡ false
unfolding replace_from is_empty
replace_from-not_empty p new [] n h = h
replace_from-not_empty p new (c ∷ t) n h = elim (Bool-cases (starts_with (c ∷ t) p)) [
  | inl e ↦ rw e (append-not_empty new (replace_from p new (length p - 1) t) n)
  | inr e ↦ rw e refl
]

adapted-not_empty : (original t : Text) → is_empty t ≡ false → is_empty (adapted original t) ≡ false
unfolding adapted normalize_line_endings convert_to_line_ending is_empty
adapted-not_empty original t h =
    let once = replace_from-not_empty crlf lf t refl h in
    elim (Bool-cases (detect_line_ending original == lf)) [
      | inl e ↦ rw e once
      | inr e ↦ rw e (replace_from-not_empty lf crlf (replace_from crlf lf 0 t) refl once)
    ]

module _ (path : Text) (file : FileIo) (args : EditArgs) (original : Text) where
  -- The strings of the arguments as the file has them.
  abbrev pub old_text : Text
  old_text = adapted original args.old_string

  abbrev pub new_text : Text
  new_text = adapted original args.new_string

  opening :
      is_empty args.old_string ≡ false
      → file.read_to_string ≡ inr original
      → apply_edit_at_path path file args
        ≡ replaced file args original old_text new_text (count_matches old_text 0 original)
  unfolding apply_edit_at_path
  opening asked reads = rw (asked, reads) refl

  -- An edit of a file that can be read and written, with a string to be replaced: without a match it
  -- is refused, with several it is refused unless all are to be replaced, and with one match exactly
  -- that match is replaced, whether all are to be replaced or not. A refused edit writes nothing.
  pub apply_edit_at_path_lem :
      is_empty args.old_string ≡ false
      → file.read_to_string ≡ inr original
      → file.write ≡ none
      → (count_matches old_text 0 original ≡ 0
          → (e : FrameworkError) × (apply_edit_at_path path file args ≡ (err e, none)))
        × (1 < count_matches old_text 0 original
            → args.replace_all ≡ false
            → (e : FrameworkError) × (apply_edit_at_path path file args ≡ (err e, none)))
        × (count_matches old_text 0 original ≡ 1
            → (pre : Text) × (post : Text) × (original ≡ pre ++ old_text ++ post)
              × (apply_edit_at_path path file args ≡ (ok applied, some (pre ++ new_text ++ post))))
  apply_edit_at_path_lem asked reads writes =
      let occurrences = count_matches old_text 0 original in
      (
        λ none_found. (
          no_match,
          opening asked reads
              ∙ replaced-no_match file args original old_text new_text occurrences none_found,
        ),
        λ several one. (
          many_matches,
          opening asked reads
              ∙ replaced-many_matches file args original old_text new_text occurrences several one,
        ),
        λ found.
            let same =
              replace_first-eq-replace_from old_text new_text original
                (adapted-not_empty original args.old_string asked) found in
            let (pre, post, parts, done) =
              replace_first-split old_text new_text original (λ e. omega arith) in
            (
              pre,
              post,
              parts,
              opening asked reads
                  ∙ replaced-one file args original old_text new_text occurrences found writes
                      (sym same)
                  ∙ ap (λ t. (ok applied, some t)) done,
            ),
      )
