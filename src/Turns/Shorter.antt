-- ===== src/Turns/Shorter.antt =====
-- The loop of `normalize_recall_query` of src/turn/prepare.rs ends.
use simple_claw.Base.{
  ◌≡◌, ◌≢◌, refl, ℕ, zero, suc, leb, ltb, eqb, ◌-◌, is_whitespace, ◌<◌, ◌≤◌, Text, lit, [], ◌∷◌,
  Option, none, some, Bool, true, false, is_empty, trim, length, arith, Bool-cases, inl, inr,
  if◌then◌else◌,
}
use simple_claw.Turns.Bytes.{byte_len, len_utf8, split_at, under, eq_ignore_ascii_case}
use simple_claw.Turns.Query.{
  Stripped, unchanged, stripped, slice_panic, strip_prefix, after_close, mention_after,
  strip_leading_discord_mention, at_border, name_token, starts_with_name_token,
  strip_leading_name_token, name_after, strip_leading_at_name, or_else, Normalized, normalized,
  panicked, out_of_rounds, trim_separators, go_on, trimmed, strip_addressing, strip_loop,
  normalize_recall_query, ends_name,
}

-- What is left is shorter than a length, and at most as long.
abbrev pub Shorter : ℕ → Stripped → Type 0
Shorter n unchanged = Unit
Shorter n slice_panic = Unit
Shorter n (stripped rest) = length rest < n

Shorter-if :
    (b : Bool) (n : ℕ) (x y : Stripped) → Shorter n x → Shorter n y → Shorter n (if b then x else y)
Shorter-if true n x y h k = h
Shorter-if false n x y h k = k

Shorter-weaken : (m n : ℕ) (x : Stripped) → m ≤ n → Shorter m x → Shorter n x
Shorter-weaken m n unchanged h k = tt
Shorter-weaken m n slice_panic h k = tt
Shorter-weaken m n (stripped rest) h k = omega (arith, h, k)

Shorter-or_else : (n : ℕ) (x y : Stripped) → Shorter n x → Shorter n y → Shorter n (or_else x y)
Shorter-or_else n unchanged y h k = k
Shorter-or_else n (stripped rest) y h k = h
Shorter-or_else n slice_panic y h k = h

after_close-Shorter : (t : Text) → Shorter (suc (length t)) (after_close t)
unfolding after_close
after_close-Shorter [] = tt
after_close-Shorter (c ∷ t) = ground (arith, after_close-Shorter t)

at_border-Shorter : (t : Text) → Shorter (suc (length t)) (at_border t)
unfolding is_whitespace ends_name
at_border-Shorter [] = omega arith
at_border-Shorter (c ∷ t) = ground arith

-- A part of a text that is not empty leaves less.
abbrev Left : ℕ → Option (Text × Text) → Type 0
Left n none = Unit
Left n (some (head, rest)) = length rest ≤ n

Left-weaken : (c n : ℕ) (o : Option (Text × Text)) → Left n o → Left (suc n) (under c o)
Left-weaken c n none h = tt
Left-weaken c n (some (head, rest)) h = omega (arith, h)

under-Left : (c n : ℕ) (o : Option (Text × Text)) → Left n o → Left n (under c o)
under-Left c n none h = tt
under-Left c n (some (head, rest)) h = h

split_at-Left : (n : ℕ) (t : Text) → Left (length t) (split_at n t)
unfolding split_at
split_at-Left zero t = omega arith
split_at-Left (suc n) [] = tt
split_at-Left (suc n) (c ∷ t) = elim (Bool-cases (leb (len_utf8 c) (suc n))) [
  | inl e ↦ rw e (Left-weaken c (length t) _ (split_at-Left (suc n - len_utf8 c) t))
  | inr e ↦ rw e tt
]

name_token-Shorter :
    (n : ℕ) (name : Text) (o : Option (Text × Text))
    → Left n o
    → Shorter (suc n) (name_token name o)
unfolding eq_ignore_ascii_case
name_token-Shorter n name none h = tt
name_token-Shorter n name (some (head, rest)) h =
    Shorter-if (eq_ignore_ascii_case head name) (suc n) _ unchanged
      (Shorter-weaken (suc (length rest)) (suc n) _ (omega (arith, h)) (at_border-Shorter rest)) tt

len_utf8-positive : (c : ℕ) → 0 < len_utf8 c
unfolding len_utf8
len_utf8-positive c = ground arith

-- A slice of at least one byte takes a character.
split_at-Shorter :
    (n : ℕ) (t name : Text) → 0 < n → Shorter (length t) (name_token name (split_at n t))
unfolding split_at eq_ignore_ascii_case
split_at-Shorter zero t name h = absurd (omega (arith, h))
split_at-Shorter (suc n) [] name h = tt
split_at-Shorter (suc n) (c ∷ t) name h = elim (Bool-cases (leb (len_utf8 c) (suc n))) [
  | inl e ↦ rw e (
      name_token-Shorter (length t) name _
        (under-Left c (length t) _ (split_at-Left (suc n - len_utf8 c) t)))
  | inr e ↦ rw e tt
]

trim_separators-length : (t : Text) → length (trim_separators t) ≤ length t
unfolding trim_separators
trim_separators-length [] = omega arith
trim_separators-length (c ∷ t) = ground (arith, trim_separators-length t)

pub byte_len-positive : (t : Text) → is_empty t ≡ false → 0 < byte_len t
unfolding byte_len is_empty
byte_len-positive [] h = absurd (ground arith)
byte_len-positive (c ∷ t) h = omega (arith, len_utf8-positive c)

token-Shorter : (value name : Text) → Shorter (length value) (strip_leading_name_token value name)
unfolding strip_leading_name_token starts_with_name_token
token-Shorter value name = elim (Bool-cases (is_empty (trim name))) [
  | inl e ↦ rw e tt
  | inr e ↦ rw e (
      Shorter-if (ltb (byte_len value) (byte_len (trim name))) (length value) unchanged _ tt
        (split_at-Shorter _ value (trim name) (byte_len-positive (trim name) e)))
]

abbrev AtMost : ℕ → Option Text → Type 0
AtMost n none = Unit
AtMost n (some rest) = length rest ≤ n

AtMost-if : (b : Bool) (n : ℕ) (o : Option Text) → AtMost n o → AtMost n (if b then o else none)
AtMost-if true n o h = h
AtMost-if false n o h = tt

AtMost-weaken : (n : ℕ) (o : Option Text) → AtMost n o → AtMost (suc n) o
AtMost-weaken n none h = tt
AtMost-weaken n (some rest) h = omega (arith, h)

strip_prefix-AtMost : (p s : Text) → AtMost (length s) (strip_prefix p s)
unfolding strip_prefix
strip_prefix-AtMost [] s = omega arith
strip_prefix-AtMost (p ∷ ps) [] = tt
strip_prefix-AtMost (p ∷ ps) (c ∷ s) =
    AtMost-if (eqb c p) _ _ (AtMost-weaken (length s) _ (strip_prefix-AtMost ps s))

name_after-Shorter :
    (n : ℕ) (name : Text) (o : Option Text) → AtMost n o → Shorter (suc n) (name_after name o)
unfolding strip_leading_name_token
name_after-Shorter n name none h = tt
name_after-Shorter n name (some rest) h =
    Shorter-weaken (length rest) (suc n) _ (omega (arith, h)) (token-Shorter rest name)

mention_after-Shorter : (n : ℕ) (o : Option Text) → AtMost n o → Shorter (suc n) (mention_after o)
unfolding after_close
mention_after-Shorter n none h = tt
mention_after-Shorter n (some rest) h =
    Shorter-weaken (suc (length rest)) (suc n) _ (omega (arith, h)) (after_close-Shorter rest)

-- A prefix that begins with a character takes one.
taken-Shorter :
    (f : Option Text → Stripped)
    → (f none ≡ unchanged)
    → ((n : ℕ) (o : Option Text) → AtMost n o → Shorter (suc n) (f o))
    → (p : ℕ) (ps s : Text) → Shorter (length s) (f (strip_prefix (p ∷ ps) s))
unfolding strip_prefix
taken-Shorter f e h p ps [] = rw e tt
taken-Shorter f e h p ps (c ∷ s) =
    h (length s) _ (AtMost-if (eqb c p) (length s) _ (strip_prefix-AtMost ps s))

mention-Shorter : (s : Text) → Shorter (length s) (strip_leading_discord_mention s)
unfolding strip_leading_discord_mention lit after_close
mention-Shorter s = taken-Shorter mention_after refl mention_after-Shorter 60 (64 ∷ []) s

at_name-Shorter : (s name : Text) → Shorter (length s) (strip_leading_at_name s name)
unfolding strip_leading_at_name lit strip_leading_name_token
at_name-Shorter s name =
    Shorter-if (is_empty (trim name)) (length s) unchanged _ tt
      (taken-Shorter (name_after (trim name)) refl (λ n. name_after-Shorter n (trim name)) 64 [] s)

-- Each round of the loop drops a character.
pub strip_addressing-Shorter : (name id s : Text) → Shorter (length s) (strip_addressing name id s)
unfolding strip_addressing
strip_addressing-Shorter name id s = Shorter-or_else _ _ _ (mention-Shorter s) (
    Shorter-or_else _ _ _ (at_name-Shorter s name)
      (Shorter-or_else _ _ _ (token-Shorter s name) (token-Shorter s id)))

go_on-ends :
    (again : Text → Normalized) (s : Text) (x : Stripped)
    → Shorter (length s) x
    → ((t : Text) → length t < length s → again t ≢ out_of_rounds)
    → go_on again s x ≢ out_of_rounds
unfolding go_on
go_on-ends again s unchanged h k e = ground arith
go_on-ends again s slice_panic h k e = ground arith
go_on-ends again s (stripped rest) h k e =
    ground (arith, k (trim_separators rest) (omega (arith, h, trim_separators-length rest)))

strip_loop-ends :
    (name id : Text) (rounds : ℕ) (s : Text)
    → length s < rounds
    → strip_loop name id rounds s ≢ out_of_rounds
unfolding strip_loop
strip_loop-ends name id zero s h = absurd (omega (arith, h))
strip_loop-ends name id (suc rounds) s h =
    go_on-ends (strip_loop name id rounds) s _ (strip_addressing-Shorter name id s)
      (λ t k. strip_loop-ends name id rounds t (omega (arith, h, k)))

trimmed-ends : (r : Normalized) → r ≢ out_of_rounds → trimmed r ≢ out_of_rounds
unfolding trim
trimmed-ends (normalized t) h e = ground arith
trimmed-ends panicked h e = ground arith
trimmed-ends out_of_rounds h e = h refl

-- The rounds are enough for every query, name and id: the loop ends.
pub normalize_recall_query-ends :
    (agent_name agent_id query : Text)
    → normalize_recall_query agent_name agent_id query ≢ out_of_rounds
unfolding normalize_recall_query
normalize_recall_query-ends name id query = elim (Bool-cases (is_empty (trim query))) [
  | inl e ↦ rw e (λ h. ground arith)
  | inr e ↦ rw e (
      trimmed-ends _
        (strip_loop-ends name id (suc (length (trim query))) (trim query) (omega arith)))
]
