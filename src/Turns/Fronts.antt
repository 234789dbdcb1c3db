-- ===== src/Turns/Fronts.antt =====
-- What the functions of src/turn/prepare.rs that strip a query take off its front.
use mathlib.Core.List.{append_assoc}
use simple_claw.Base.{
  ◌≡◌, ◌≢◌, ◌⊎◌, inl, inr, refl, sym, ap, subst, ◌∙◌, ℕ, zero, suc, leb, ltb, eqb, ◌-◌, ◌||◌, Text,
  lit, [], ◌∷◌, ◌++◌, Option, none, some, Bool, true, false, is_empty, is_whitespace, trim,
  trim-same, trim-StartVisible, trim-EndVisible, Lacks, arith, Bool-cases, if◌then◌else◌,
}
use simple_claw.Turns.Bytes.{byte_len, len_utf8, split_at, under, eq_ignore_ascii_case}
use simple_claw.Turns.Query.{
  Stripped, unchanged, stripped, slice_panic, strip_prefix, after_close, mention_after,
  strip_leading_discord_mention, at_border, name_token, starts_with_name_token,
  strip_leading_name_token, name_after, strip_leading_at_name, or_else, strip_addressing, ends_name,
}

-- A mention of a user of Discord.
abbrev pub Mention : Text → Text → Type 0
Mention front rest = (x : Text) × Lacks 62 x × (front ≡ lit "<@" ++ (x ++ 62 ∷ []))

abbrev pub Border : Text → Type 0
Border [] = Unit
Border (c ∷ rest) = (is_whitespace c || ends_name c) ≡ true

-- A name, but for the case of its letters, that is not part of a longer word.
abbrev pub Named : Text → Text → Text → Type 0
Named name front rest = (eq_ignore_ascii_case front name ≡ true) × Border rest

abbrev pub AtNamed : Text → Text → Text → Type 0
AtNamed name front rest = (x : Text) × Named name x rest × (front ≡ lit "@" ++ x)

-- What may be taken off before a rest: a mention, the name with or without an `@`, or the id.
abbrev pub Addressing : Text → Text → Text → Text → Type 0
Addressing name id front rest =
    Mention front rest
    ⊎ AtNamed (trim name) front rest
    ⊎ Named (trim name) front rest
    ⊎ Named (trim id) front rest

-- If a rest is left of a text, a front that is allowed before it was taken off.
abbrev pub Took : (Text → Text → Type 0) → Text → Stripped → Type 0
Took Q s unchanged = Unit
Took Q s slice_panic = Unit
Took Q s (stripped rest) = (front : Text) × (s ≡ front ++ rest) × Q front rest

Took-if :
    (Q : Text → Text → Type 0) (s : Text) (b : Bool) (x y : Stripped)
    → Took Q s x
    → Took Q s y
    → Took Q s (if b then x else y)
Took-if Q s true x y h k = h
Took-if Q s false x y h k = k

Took-or_else :
    (Q : Text → Text → Type 0) (s : Text) (x y : Stripped)
    → Took Q s x
    → Took Q s y
    → Took Q s (or_else x y)
Took-or_else Q s unchanged y h k = k
Took-or_else Q s (stripped rest) y h k = h
Took-or_else Q s slice_panic y h k = tt

Took-weaken :
    (Q R : Text → Text → Type 0) (s : Text) (x : Stripped)
    → ((front rest : Text) → Q front rest → R front rest)
    → Took Q s x
    → Took R s x
Took-weaken Q R s unchanged f h = tt
Took-weaken Q R s slice_panic f h = tt
Took-weaken Q R s (stripped rest) f (front, e, q) = (front, e, f front rest q)

-- A text before what is stripped is taken off with it.
Took-before :
    (Q R : Text → Text → Type 0) (a s t : Text) (x : Stripped)
    → t ≡ a ++ s
    → ((front rest : Text) → Q front rest → R (a ++ front) rest)
    → Took Q s x
    → Took R t x
Took-before Q R a s t unchanged e f h = tt
Took-before Q R a s t slice_panic e f h = tt
Took-before Q R a s t (stripped rest) e f (front, k, q) =
    (a ++ front, e ∙ (ap (λ u. a ++ u) k ∙ sym (append_assoc a front rest)), f front rest q)

abbrev Closed : Text → Text → Type 0
Closed front rest = (x : Text) × Lacks 62 x × (front ≡ x ++ 62 ∷ [])

eqb-ne : (a b : ℕ) → eqb a b ≡ false → a ≢ b
eqb-ne a b h = ground arith

after_close-Closed : (t : Text) → Took Closed t (after_close t)
unfolding after_close
after_close-Closed [] = tt
after_close-Closed (c ∷ t) = elim (Bool-cases (eqb c 62)) [
  | inl e ↦ let is : c ≡ 62 = ground arith in rw e (c ∷ [], refl, ([], tt, ap (λ d. d ∷ []) is))
  | inr e ↦ rw e (
      Took-before Closed Closed (c ∷ []) t (c ∷ t) (after_close t) refl
        (λ front rest h. (c ∷ h.0, (eqb-ne c 62 e, h.1), ap (λ u. c ∷ u) h.2))
        (after_close-Closed t))
]

name_border :
    (name s head rest : Text)
    → s ≡ head ++ rest
    → eq_ignore_ascii_case head name ≡ true
    → Took (Named name) s (at_border rest)
unfolding is_whitespace ends_name
name_border name s head [] e h = (head, e, (h, tt))
name_border name s head (c ∷ rest) e h = elim (Bool-cases (is_whitespace c || ends_name c)) [
  | inl k ↦ rw k (head, e, (h, k))
  | inr k ↦ rw k tt
]

abbrev Split : Text → Option (Text × Text) → Type 0
Split t none = Unit
Split t (some (head, rest)) = t ≡ head ++ rest

under-Split : (c : ℕ) (t : Text) (o : Option (Text × Text)) → Split t o → Split (c ∷ t) (under c o)
under-Split c t none h = tt
under-Split c t (some (head, rest)) h = ap (λ u. c ∷ u) h

split_at-Split : (n : ℕ) (t : Text) → Split t (split_at n t)
unfolding split_at
split_at-Split zero t = refl
split_at-Split (suc n) [] = tt
split_at-Split (suc n) (c ∷ t) = elim (Bool-cases (leb (len_utf8 c) (suc n))) [
  | inl e ↦ rw e (under-Split c t _ (split_at-Split (suc n - len_utf8 c) t))
  | inr e ↦ rw e tt
]

name_token-Named :
    (name s : Text) (o : Option (Text × Text)) → Split s o → Took (Named name) s (name_token name o)
unfolding eq_ignore_ascii_case
name_token-Named name s none h = tt
name_token-Named name s (some (head, rest)) h = elim (Bool-cases (eq_ignore_ascii_case head name)) [
  | inl e ↦ rw e (name_border name s head rest h e)
  | inr e ↦ rw e tt
]

token-Named : (s name : Text) → Took (Named (trim name)) s (strip_leading_name_token s name)
unfolding strip_leading_name_token starts_with_name_token
token-Named s name = Took-if _ s (is_empty (trim name)) unchanged _ tt (
    Took-if _ s (ltb (byte_len s) (byte_len (trim name))) unchanged _ tt
      (name_token-Named (trim name) s _ (split_at-Split (byte_len (trim name)) s)))

abbrev After : Text → Text → Option Text → Type 0
After p s none = Unit
After p s (some rest) = s ≡ p ++ rest

After-cons :
    (p c : ℕ) (ps s : Text) (o : Option Text) → c ≡ p → After ps s o → After (p ∷ ps) (c ∷ s) o
After-cons p c ps s none e h = tt
After-cons p c ps s (some rest) e h = ap (λ d. d ∷ s) e ∙ ap (λ u. p ∷ u) h

strip_prefix-After : (p s : Text) → After p s (strip_prefix p s)
unfolding strip_prefix
strip_prefix-After [] s = refl
strip_prefix-After (p ∷ ps) [] = tt
strip_prefix-After (p ∷ ps) (c ∷ s) = elim (Bool-cases (eqb c p)) [
  | inl e ↦
      let same : c ≡ p = ground arith in
      rw e (After-cons p c ps s (strip_prefix ps s) same (strip_prefix-After ps s))
  | inr e ↦ rw e tt
]

mention_after-Mention :
    (s : Text) (o : Option Text) → After (lit "<@") s o → Took Mention s (mention_after o)
unfolding after_close
mention_after-Mention s none h = tt
mention_after-Mention s (some rest) h =
    Took-before Closed Mention (lit "<@") rest s (after_close rest) h
      (λ front r closed. (closed.0, closed.1, ap (λ u. lit "<@" ++ u) closed.2))
      (after_close-Closed rest)

trim-trim : (name : Text) → trim (trim name) ≡ trim name
trim-trim name = trim-same (trim name) (trim-StartVisible name) (trim-EndVisible name)

name_after-AtNamed :
    (name s : Text) (o : Option Text)
    → After (lit "@") s o
    → Took (AtNamed (trim name)) s (name_after (trim name) o)
unfolding strip_leading_name_token
name_after-AtNamed name s none h = tt
name_after-AtNamed name s (some rest) h =
    Took-before (Named (trim name)) (AtNamed (trim name)) (lit "@") rest s
      (strip_leading_name_token rest (trim name)) h (λ front r named. (front, named, refl))
      (subst (λ n. Took (Named n) rest (strip_leading_name_token rest (trim name))) (trim-trim name)
        (token-Named rest (trim name)))

-- What is taken off in a round is an addressing.
pub strip_addressing-Addressing :
    (name id s : Text) → Took (Addressing name id) s (strip_addressing name id s)
unfolding strip_addressing strip_leading_discord_mention strip_leading_at_name
strip_addressing-Addressing name id s =
    let A = Addressing name id in
    Took-or_else A s _ _
      (Took-weaken Mention A s _ (λ front rest h. inl h)
        (mention_after-Mention s _ (strip_prefix-After (lit "<@") s)))
      (Took-or_else A s _ _
        (Took-weaken (AtNamed (trim name)) A s _ (λ front rest h. inr (inl h))
          (Took-if (AtNamed (trim name)) s (is_empty (trim name)) unchanged _ tt
            (name_after-AtNamed name s _ (strip_prefix-After (lit "@") s))))
        (Took-or_else A s _ _
          (Took-weaken (Named (trim name)) A s _ (λ front rest h. inr (inr (inl h)))
            (token-Named s name))
          (Took-weaken (Named (trim id)) A s _ (λ front rest h. inr (inr (inr h)))
            (token-Named s id))))
