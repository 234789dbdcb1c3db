-- ===== src/Paths/Names.antt =====
-- The names in a path, and paths read back from their texts.
use mathlib.Core.List.{reverse, reverse-cons}
use simple_claw.Base.{
  ◌≡◌, ◌≢◌, refl, ℕ, Text, lit, List, [], ◌∷◌, ◌++◌, Bool, true, false, ◌==◌, eqb, All, All-append,
  Lacks, Bool-cases, inl, inr, arith, if◌then◌else◌, is_empty, ◌||◌,
}
use simple_claw.Paths.{
  Component, root_dir, cur_dir, parent_dir, normal, PathBuf, slash, onto_first, split_slash,
  relative_parts, component, parts, components, is_absolute, join, joined_to, without_dot,
  display_relative, display_path, pop, normalize_from, normalize_absolute_path,
}
use simple_claw.Paths.Normal.{Plain}

-- A name that a component can have.
abbrev pub IsName : Text → Type 0
IsName t = (is_empty t || t == lit "." ≡ false) × (t == lit ".." ≡ false) × Lacks slash t

abbrev pub Named : Component → Type 0
Named (normal t) = IsName t
Named _ = Unit

abbrev pub NamesOnly : PathBuf → Type 0
NamesOnly [] = Unit
NamesOnly (normal t ∷ path) = IsName t × NamesOnly path
NamesOnly _ = ⊥

pub component-IsName : (t : Text) (rest : PathBuf) → IsName t → component t rest ≡ normal t ∷ rest
unfolding component
component-IsName t rest (e, e', h) = rw (e, e') refl

split_slash-Lacks : (t : Text) → Lacks slash t → split_slash t ≡ t ∷ []
unfolding split_slash
split_slash-Lacks [] h = refl
split_slash-Lacks (c ∷ t) (n, h) = rw (split_slash-Lacks t h) (ground arith)

pub split_slash-append :
    (t s : Text) → Lacks slash t → split_slash (t ++ slash ∷ s) ≡ t ∷ split_slash s
unfolding split_slash
split_slash-append [] s h = ground arith
split_slash-append (c ∷ t) s (n, h) = rw (split_slash-append t s h) (ground arith)

pub parts-display :
    (path : PathBuf) → NamesOnly path → parts (split_slash (display_relative path)) ≡ path
unfolding parts display_relative split_slash component is_empty
parts-display [] h = refl
parts-display (normal t ∷ []) (h, hs) = rw (split_slash-Lacks t h.2) (component-IsName t [] h)
parts-display (normal t ∷ normal u ∷ path) (h, hs) =
    rw
      (
        split_slash-append t (display_relative (normal u ∷ path)) h.2,
        component-IsName t (parts (split_slash (display_relative (normal u ∷ path)))) h,
        parts-display (normal u ∷ path) hs,
      )
      refl
parts-display (root_dir ∷ path) h = absurd h
parts-display (cur_dir ∷ path) h = absurd h
parts-display (parent_dir ∷ path) h = absurd h
parts-display (normal t ∷ root_dir ∷ path) h = absurd h.1
parts-display (normal t ∷ cur_dir ∷ path) h = absurd h.1
parts-display (normal t ∷ parent_dir ∷ path) h = absurd h.1

-- An absolute path of names is read back from its text.
pub components-display_path :
    (path : PathBuf)
    → NamesOnly path
    → components (display_path (root_dir ∷ path)) ≡ root_dir ∷ path
unfolding components display_path
components-display_path path h = rw (parts-display path h) (ground arith)

-- Whatever text is read, the names in it are names.
component-Named :
    (t : Text) (rest : PathBuf) → Lacks slash t → All Named rest → All Named (component t rest)
unfolding component
component-Named t rest h hs = elim (Bool-cases (is_empty t || t == lit ".")) [
  | inl e ↦ rw e hs
  | inr e ↦ elim (Bool-cases (t == lit "..")) [
    | inl e' ↦ rw (e, e') (tt, hs)
    | inr e' ↦ rw (e, e') ((e, e', h), hs)
  ]
]

parts-Named : (ws : List Text) → All (Lacks slash) ws → All Named (parts ws)
unfolding parts
parts-Named [] h = tt
parts-Named (w ∷ ws) (h, hs) = component-Named w (parts ws) h (parts-Named ws hs)

onto_first-Lacks :
    (c : ℕ) (ws : List Text)
    → c ≢ slash
    → All (Lacks slash) ws
    → All (Lacks slash) (onto_first c ws)
onto_first-Lacks c [] n h = ((n, tt), tt)
onto_first-Lacks c (w ∷ ws) n (h, hs) = ((n, h), hs)

split_slash-All_Lacks : (t : Text) → All (Lacks slash) (split_slash t)
unfolding split_slash
split_slash-All_Lacks [] = (tt, tt)
split_slash-All_Lacks (c ∷ t) = elim (Bool-cases (eqb c slash)) [
  | inl e ↦ rw e (tt, split_slash-All_Lacks t)
  | inr e ↦ rw e (onto_first-Lacks c (split_slash t) (ground arith) (split_slash-All_Lacks t))
]

if-Named : (b : Bool) (p q : PathBuf) → All Named p → All Named q → All Named (if b then p else q)
if-Named true p q h k = h
if-Named false p q h k = k

relative_parts-Named : (ws : List Text) → All (Lacks slash) ws → All Named (relative_parts ws)
unfolding relative_parts
relative_parts-Named [] h = tt
relative_parts-Named (w ∷ ws) (h, hs) =
    if-Named (w == lit ".") (cur_dir ∷ parts ws) (parts (w ∷ ws)) (tt, parts-Named ws hs)
      (parts-Named (w ∷ ws) (h, hs))

pub components-Named : (t : Text) → All Named (components t)
unfolding components
components-Named [] = tt
components-Named (c ∷ t) =
    if-Named (eqb c slash) (root_dir ∷ parts (split_slash t)) (relative_parts (split_slash (c ∷ t)))
      (tt, parts-Named (split_slash t) (split_slash-All_Lacks t))
      (relative_parts-Named (split_slash (c ∷ t)) (split_slash-All_Lacks (c ∷ t)))

All-reverse : (path : PathBuf) → All Named path → All Named (reverse path)
All-reverse [] h = tt
All-reverse (c ∷ path) (h, hs) =
    rw reverse-cons (All-append Named (reverse path) (c ∷ []) (All-reverse path hs) (h, tt))

pop-Named : (s : PathBuf) → All Named s → All Named (pop s)
unfolding pop
pop-Named [] h = tt
pop-Named (root_dir ∷ s) h = h
pop-Named (cur_dir ∷ s) h = h.1
pop-Named (parent_dir ∷ s) h = h.1
pop-Named (normal t ∷ s) h = h.1

normalize_from-Named :
    (s path : PathBuf) → All Named s → All Named path → All Named (normalize_from s path)
unfolding normalize_from
normalize_from-Named s [] h k = h
normalize_from-Named s (root_dir ∷ path) h (k, ks) =
    normalize_from-Named (root_dir ∷ []) path (tt, tt) ks
normalize_from-Named s (cur_dir ∷ path) h (k, ks) = normalize_from-Named s path h ks
normalize_from-Named s (parent_dir ∷ path) h (k, ks) =
    normalize_from-Named (pop s) path (pop-Named s h) ks
normalize_from-Named s (normal t ∷ path) h (k, ks) =
    normalize_from-Named (normal t ∷ s) path (k, h) ks

pub normalize-Named : (path : PathBuf) → All Named path → All Named (normalize_absolute_path path)
unfolding normalize_absolute_path
normalize-Named path h = All-reverse (normalize_from [] path) (normalize_from-Named [] path tt h)

without_dot-Named : (path : PathBuf) → All Named path → All Named (without_dot path)
unfolding without_dot
without_dot-Named [] h = h
without_dot-Named (root_dir ∷ path) h = h
without_dot-Named (cur_dir ∷ path) h = h.1
without_dot-Named (parent_dir ∷ path) h = h
without_dot-Named (normal t ∷ path) h = h

pub join-Named :
    (base path : PathBuf) → All Named base → All Named path → All Named (join base path)
unfolding join joined_to
join-Named [] path h k = if-Named (is_absolute path) path path k k
join-Named (c ∷ base) path (h, hs) k =
    if-Named (is_absolute path) path (c ∷ base ++ without_dot path) k
      (h, All-append Named base (without_dot path) hs (without_dot-Named path k))

pub Plain-NamesOnly : (path : PathBuf) → All Plain path → All Named path → NamesOnly path
Plain-NamesOnly [] h k = tt
Plain-NamesOnly (normal t ∷ path) (h, hs) (k, ks) = (k, Plain-NamesOnly path hs ks)
Plain-NamesOnly (root_dir ∷ path) h k = absurd h.0
Plain-NamesOnly (cur_dir ∷ path) h k = absurd h.0
Plain-NamesOnly (parent_dir ∷ path) h k = absurd h.0
