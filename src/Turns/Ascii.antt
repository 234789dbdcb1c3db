-- ===== src/Turns/Ascii.antt =====
-- `normalize_recall_query` of src/turn/prepare.rs on a query of ASCII characters: no slice panics.
use simple_claw.Base.{
  ◌≡◌, ◌≢◌, refl, ℕ, zero, suc, leb, ltb, eqb, ◌-◌, is_whitespace, ◌<◌, ◌≤◌, Text, lit, [], ◌∷◌,
  Option, none, some, Bool, true, false, is_empty, trim, length, arith, Bool-cases, inl, inr,
  if◌then◌else◌, All, trim-All, ◌==◌,
}
use simple_claw.Turns.Bytes.{byte_len, len_utf8, split_at, under, eq_ignore_ascii_case}
use simple_claw.Turns.Query.{
  Stripped, unchanged, stripped, slice_panic, strip_prefix, after_close, mention_after,
  strip_leading_discord_mention, at_border, name_token, starts_with_name_token,
  strip_leading_name_token, name_after, strip_leading_at_name, or_else, Normalized, normalized,
  panicked, out_of_rounds, trim_separators, go_on, trimmed, strip_addressing, strip_loop,
  normalize_recall_query, ends_name, is_separator,
}
use simple_claw.Turns.Shorter.{normalize_recall_query-ends}

abbrev IsAscii : ℕ → Type 0
IsAscii c = c < 128

abbrev pub Ascii : Text → Type 0
Ascii t = All IsAscii t

abbrev Safe : Stripped → Type 0
Safe unchanged = Unit
Safe (stripped rest) = Ascii rest
Safe slice_panic = ⊥

Safe-if : (b : Bool) (x y : Stripped) → Safe x → Safe y → Safe (if b then x else y)
Safe-if true x y h k = h
Safe-if false x y h k = k

Safe-or_else : (x y : Stripped) → Safe x → Safe y → Safe (or_else x y)
Safe-or_else unchanged y h k = k
Safe-or_else (stripped rest) y h k = h
Safe-or_else slice_panic y h k = absurd h

after_close-Safe : (t : Text) → Ascii t → Safe (after_close t)
unfolding after_close
after_close-Safe [] h = tt
after_close-Safe (c ∷ t) (h, hs) = Safe-if (eqb c 62) (stripped t) _ hs (after_close-Safe t hs)

at_border-Safe : (t : Text) → Ascii t → Safe (at_border t)
unfolding is_whitespace ends_name
at_border-Safe [] h = tt
at_border-Safe (c ∷ t) h = Safe-if _ (stripped (c ∷ t)) unchanged h tt

abbrev Whole : Option (Text × Text) → Type 0
Whole none = ⊥
Whole (some (head, rest)) = Ascii rest

under-Whole : (c : ℕ) (o : Option (Text × Text)) → Whole o → Whole (under c o)
under-Whole c none h = absurd h
under-Whole c (some (head, rest)) h = h

len_utf8-ascii : (c : ℕ) → c < 128 → len_utf8 c ≡ 1
unfolding len_utf8
len_utf8-ascii c h = ground arith

split_at-Whole : (n : ℕ) (t : Text) → n ≤ byte_len t → Ascii t → Whole (split_at n t)
unfolding split_at byte_len
split_at-Whole zero t h k = k
split_at-Whole (suc n) [] h k = absurd (omega (arith, h))
split_at-Whole (suc n) (c ∷ t) h (k, ks) = elim (Bool-cases (leb (len_utf8 c) (suc n))) [
  | inl e ↦ rw e (under-Whole c _ (split_at-Whole (suc n - len_utf8 c) t (omega (arith, h)) ks))
  | inr e ↦ absurd (ground (arith, len_utf8-ascii c k))
]

name_token-Safe : (name : Text) (o : Option (Text × Text)) → Whole o → Safe (name_token name o)
unfolding eq_ignore_ascii_case
name_token-Safe name none h = absurd h
name_token-Safe name (some (head, rest)) h =
    Safe-if (eq_ignore_ascii_case head name) _ unchanged (at_border-Safe rest h) tt

token-Safe : (s name : Text) → Ascii s → Safe (strip_leading_name_token s name)
unfolding strip_leading_name_token starts_with_name_token
token-Safe s name h =
    Safe-if (is_empty (trim name)) unchanged _ tt
      (elim (Bool-cases (ltb (byte_len s) (byte_len (trim name)))) [
        | inl e ↦ rw e tt
        | inr e ↦ rw e (name_token-Safe (trim name) _ (split_at-Whole _ s (ground arith) h))
      ])

abbrev AsciiRest : Option Text → Type 0
AsciiRest none = Unit
AsciiRest (some rest) = Ascii rest

AsciiRest-if : (b : Bool) (o : Option Text) → AsciiRest o → AsciiRest (if b then o else none)
AsciiRest-if true o h = h
AsciiRest-if false o h = tt

strip_prefix-Ascii : (p s : Text) → Ascii s → AsciiRest (strip_prefix p s)
unfolding strip_prefix
strip_prefix-Ascii [] s h = h
strip_prefix-Ascii (p ∷ ps) [] h = tt
strip_prefix-Ascii (p ∷ ps) (c ∷ s) (h, hs) = AsciiRest-if (eqb c p) _ (strip_prefix-Ascii ps s hs)

mention_after-Safe : (o : Option Text) → AsciiRest o → Safe (mention_after o)
unfolding after_close
mention_after-Safe none h = tt
mention_after-Safe (some rest) h = after_close-Safe rest h

name_after-Safe : (name : Text) (o : Option Text) → AsciiRest o → Safe (name_after name o)
unfolding strip_leading_name_token
name_after-Safe name none h = tt
name_after-Safe name (some rest) h = token-Safe rest name h

strip_addressing-Safe : (name id s : Text) → Ascii s → Safe (strip_addressing name id s)
unfolding strip_addressing strip_leading_discord_mention strip_leading_at_name
strip_addressing-Safe name id s h =
    Safe-or_else _ _ (mention_after-Safe _ (strip_prefix-Ascii (lit "<@") s h)) (
      Safe-or_else _ _
        (Safe-if (is_empty (trim name)) unchanged _ tt
          (name_after-Safe (trim name) _ (strip_prefix-Ascii (lit "@") s h)))
        (Safe-or_else _ _ (token-Safe s name h) (token-Safe s id h)))

trim_separators-Ascii : (t : Text) → Ascii t → Ascii (trim_separators t)
unfolding trim_separators
trim_separators-Ascii [] h = tt
trim_separators-Ascii (c ∷ t) (h, hs) = elim (Bool-cases (is_separator c)) [
  | inl e ↦ rw e (trim_separators-Ascii t hs)
  | inr e ↦ rw e (h, hs)
]

abbrev Returned : Normalized → Type 0
Returned (normalized t) = Unit
Returned panicked = ⊥
Returned out_of_rounds = Unit

go_on-Returned :
    (again : Text → Normalized) (s : Text) (x : Stripped)
    → Safe x
    → ((t : Text) → Ascii t → Returned (again t))
    → Returned (go_on again s x)
unfolding go_on
go_on-Returned again s unchanged h k = tt
go_on-Returned again s slice_panic h k = absurd h
go_on-Returned again s (stripped rest) h k = elim (Bool-cases (rest == s)) [
  | inl e ↦ rw e tt
  | inr e ↦ elim (Bool-cases (is_empty (trim_separators rest))) [
    | inl d ↦ rw (e, d) tt
    | inr d ↦ rw (e, d) (k (trim_separators rest) (trim_separators-Ascii rest h))
  ]
]

strip_loop-Returned :
    (name id : Text) (rounds : ℕ) (s : Text) → Ascii s → Returned (strip_loop name id rounds s)
unfolding strip_loop
strip_loop-Returned name id zero s h = tt
strip_loop-Returned name id (suc rounds) s h =
    go_on-Returned (strip_loop name id rounds) s _ (strip_addressing-Safe name id s h)
      (strip_loop-Returned name id rounds)

trimmed-Returned : (x : Normalized) → Returned x → Returned (trimmed x)
unfolding trim
trimmed-Returned (normalized t) h = tt
trimmed-Returned panicked h = h
trimmed-Returned out_of_rounds h = tt

returned : (x : Normalized) → Returned x → x ≢ out_of_rounds → (t : Text) × (x ≡ normalized t)
returned (normalized t) h k = (t, refl)
returned panicked h k = absurd h
returned out_of_rounds h k = absurd (k refl)

-- For a query of ASCII characters, whatever the name and the id: the normalization ends with a text, within
-- its rounds and without a panic.
pub normalize_recall_query-returns :
    (agent_name agent_id query : Text)
    → Ascii query
    → (t : Text) × (normalize_recall_query agent_name agent_id query ≡ normalized t)
unfolding normalize_recall_query
normalize_recall_query-returns name id query h =
    returned _
      (elim (Bool-cases (is_empty (trim query))) [
        | inl e ↦ rw e tt
        | inr e ↦ rw e (
            trimmed-Returned _ (
              strip_loop-Returned name id (suc (length (trim query))) (trim query)
                (trim-All IsAscii query h)))
      ])
      (normalize_recall_query-ends name id query)
