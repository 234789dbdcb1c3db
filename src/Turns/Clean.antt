-- ===== src/Turns/Clean.antt =====
-- What `normalize_recall_query` of src/turn/prepare.rs leaves of a query.
use simple_claw.Base.{
  ◌≡◌, refl, sym, ap, subst, ◌∙◌, ◌⊎◌, ℕ, zero, suc, ltb, Text, lit, [], ◌∷◌, true, false, is_empty,
  is_whitespace, trim, ◌++◌, ◌<◌, StartVisible, EndVisible, EndVisible-tail, trim-StartVisible,
  trim-EndVisible, trim-same, length, arith, Bool-cases, inl, inr, ◌==◌, text_eq_iff,
}
use simple_claw.Turns.Bytes.{byte_len}
use simple_claw.Turns.Query.{
  Stripped, unchanged, stripped, slice_panic, strip_prefix, strip_leading_discord_mention,
  starts_with_name_token, strip_leading_name_token, strip_leading_at_name, Normalized, normalized,
  panicked, out_of_rounds, trim_separators, go_on, trimmed, strip_addressing, strip_loop,
  normalize_recall_query, after_close, is_separator,
}
use simple_claw.Turns.Fronts.{Addressing, Took, strip_addressing-Addressing}
use simple_claw.Turns.Shorter.{Shorter, byte_len-positive, strip_addressing-Shorter}

token-nil : (name : Text) → strip_leading_name_token [] name ≡ unchanged
unfolding strip_leading_name_token starts_with_name_token byte_len
token-nil name = elim (Bool-cases (is_empty (trim name))) [
  | inl e ↦ rw e refl
  | inr e ↦
      let longer : ltb 0 (byte_len (trim name)) ≡ true =
        ground (arith, byte_len-positive (trim name) e) in
      rw (e, longer) refl
]

at_name-nil : (name : Text) → strip_leading_at_name [] name ≡ unchanged
unfolding strip_leading_at_name lit strip_prefix strip_leading_name_token
at_name-nil name = elim (Bool-cases (is_empty (trim name))) [
  | inl e ↦ rw e refl
  | inr e ↦ rw e refl
]

strip_addressing-nil : (name id : Text) → strip_addressing name id [] ≡ unchanged
unfolding strip_addressing strip_leading_discord_mention lit strip_prefix after_close
strip_addressing-nil name id = rw (at_name-nil name, token-nil name, token-nil id) refl

normalized-injective : (a b : Text) → normalized a ≡ normalized b → a ≡ b
normalized-injective a b h = ground arith

is_empty-nil : (t : Text) → is_empty t ≡ true → t ≡ []
unfolding is_empty
is_empty-nil [] h = refl
is_empty-nil (c ∷ t) h = absurd (ground arith)

-- How a round after a removal ends.
go_on-cases :
    (again : Text → Normalized) (s rest r : Text)
    → go_on again s (stripped rest) ≡ normalized r
    → (rest ≡ s)
      ⊎ ((r ≡ []) × (trim_separators rest ≡ []))
      ⊎ (again (trim_separators rest) ≡ normalized r)
unfolding go_on
go_on-cases again s rest r h = elim (Bool-cases (rest == s)) [
  | inl e ↦ inl ((text_eq_iff rest s).0 e)
  | inr e ↦ elim (Bool-cases (is_empty (trim_separators rest))) [
    | inl k ↦
        let gone = is_empty-nil (trim_separators rest) k in
        inr (inl (sym (normalized-injective _ r (rw (sym h, e, k) refl)) ∙ gone, gone))
    | inr k ↦ inr (inr (rw (sym h, e, k) refl))
  ]
]

-- A text is left of another one when addressings are taken off its front, and the separators after each,
-- until none is found.
pub data Strips (name id r : Text) : Text → Type 0 where
  ends : strip_addressing name id r ≡ unchanged → Strips name id r r
  goes_on :
      {s : Text} (front rest : Text)
      → s ≡ front ++ rest
      → length rest < length s
      → Addressing name id front rest
      → Strips name id r (trim_separators rest)
      → Strips name id r s

trim_separators-StartVisible : (t : Text) → StartVisible (trim_separators t)
unfolding trim_separators is_separator
trim_separators-StartVisible [] = tt
trim_separators-StartVisible (c ∷ t) = elim (Bool-cases (is_separator c)) [
  | inl e ↦ rw e (trim_separators-StartVisible t)
  | inr e ↦ let visible : is_whitespace c ≡ false = ground arith in rw e visible
]

trim_separators-EndVisible : (t : Text) → EndVisible t → EndVisible (trim_separators t)
unfolding trim_separators
trim_separators-EndVisible [] h = tt
trim_separators-EndVisible (c ∷ t) h = elim (Bool-cases (is_separator c)) [
  | inl e ↦ rw e (trim_separators-EndVisible t (EndVisible-tail c t h))
  | inr e ↦ rw e h
]

rest-EndVisible : (front rest : Text) → EndVisible (front ++ rest) → EndVisible rest
rest-EndVisible [] rest h = h
rest-EndVisible (c ∷ front) rest h =
    rest-EndVisible front rest (EndVisible-tail c (front ++ rest) h)

module _ (name id : Text) where
  -- What is left, with no blanks at its ends.
  abbrev Left : Text → Text → Type 0
  Left s r = Strips name id r s × StartVisible r × EndVisible r

  go_on-Left :
      (again : Text → Normalized) (s : Text) (x : Stripped) (r : Text)
      → strip_addressing name id s ≡ x
      → StartVisible s
      → EndVisible s
      → ((t : Text) → StartVisible t → EndVisible t → again t ≡ normalized r → Left t r)
      → go_on again s x ≡ normalized r
      → Left s r
  unfolding go_on
  go_on-Left again s unchanged r e begins stops h k =
      subst (Left s) (normalized-injective s r k) (ends e, begins, stops)
  go_on-Left again s slice_panic r e begins stops h k = absurd (ground arith)
  go_on-Left again s (stripped rest) r e begins stops h k =
      let less : Shorter (length s) (stripped rest) =
        subst (Shorter (length s)) e (strip_addressing-Shorter name id s) in
      let took : Took (Addressing name id) s (stripped rest) =
        subst (Took (Addressing name id) s) e (strip_addressing-Addressing name id s) in
      let (front, split, addressing) = took in
      let rest_stops : EndVisible rest =
        rest-EndVisible front rest (subst (λ t. EndVisible t) split stops) in
      elim (go_on-cases again s rest r k) [
        | inl q ↦ absurd (omega (arith, less, ap length q))
        | inr (inl (q, gone)) ↦
            let none_left : Strips name id r (trim_separators rest) =
              subst (λ t. Strips name id r t) (q ∙ sym gone)
                (ends (
                  subst (λ t. strip_addressing name id t ≡ unchanged) (sym q)
                    (strip_addressing-nil name id))) in
            (goes_on front rest split less addressing none_left, rw q tt, rw q tt)
        | inr (inr q) ↦
            let (strips, starts, finishes) =
              h (trim_separators rest) (trim_separators-StartVisible rest)
                (trim_separators-EndVisible rest rest_stops) q in
            (goes_on front rest split less addressing strips, starts, finishes)
      ]

  strip_loop-Left :
      (rounds : ℕ) (s r : Text)
      → StartVisible s
      → EndVisible s
      → strip_loop name id rounds s ≡ normalized r
      → Left s r
  unfolding strip_loop
  strip_loop-Left zero s r begins stops h = absurd (ground arith)
  strip_loop-Left (suc rounds) s r begins stops h =
      go_on-Left (strip_loop name id rounds) s _ r refl begins stops
        (λ t starts finishes k. strip_loop-Left rounds t r starts finishes k) h

  Strips-unchanged : {r s : Text} → Strips name id r s → strip_addressing name id r ≡ unchanged
  Strips-unchanged (ends e) = e
  Strips-unchanged (goes_on front rest e less addressing strips) = Strips-unchanged strips

trimmed-normalized :
    (x : Normalized) (r : Text)
    → trimmed x ≡ normalized r
    → (t : Text) × (x ≡ normalized t) × (r ≡ trim t)
unfolding trim
trimmed-normalized (normalized t) r h = (t, refl, sym (normalized-injective (trim t) r h))
trimmed-normalized panicked r h = absurd (ground arith)
trimmed-normalized out_of_rounds r h = absurd (ground arith)

-- When the normalization of a query gives a text, it is what is left of the trimmed query when addressings (a
-- mention, the name of the agent with or without an `@`, or its id) are taken off its front, and the separators
-- after each; the functions that strip find no other in front of it, and it is trimmed.
pub normalize_recall_query-clean :
    (agent_name agent_id query r : Text)
    → normalize_recall_query agent_name agent_id query ≡ normalized r
    → Strips agent_name agent_id r (trim query)
      × (strip_addressing agent_name agent_id r ≡ unchanged)
      × (trim r ≡ r)
unfolding normalize_recall_query
normalize_recall_query-clean name id query r h =
    let s = trim query in
    elim (Bool-cases (is_empty s)) [
      | inl e ↦
          let gone : r ≡ [] = sym (normalized-injective [] r (rw (sym h, e) refl)) in
          let none_found = strip_addressing-nil name id in
          (
            rw (is_empty-nil s e, gone) (ends none_found),
            rw gone none_found,
            rw gone (trim-same [] tt tt),
          )
      | inr e ↦
          let (left, found, last) =
            trimmed-normalized (strip_loop name id (suc (length s)) s) r (rw (sym h, e) refl) in
          let (strips, starts, finishes) =
            strip_loop-Left name id (suc (length s)) s left (trim-StartVisible query)
              (trim-EndVisible query) found in
          let same : r ≡ left = last ∙ trim-same left starts finishes in
          rw same (strips, Strips-unchanged name id strips, trim-same left starts finishes)
    ]
