-- ===== src/Paths/Normal.antt =====
-- Normalized paths, and paths as texts.
use mathlib.Core.List.{reverse, reverse-cons, reverse-reverse, append_assoc}
use simple_claw.Base.{◌≡◌, refl, Text, [], ◌∷◌, ◌++◌, true, All, arith}
use simple_claw.Paths.{
  Component, root_dir, cur_dir, parent_dir, normal, PathBuf, is_absolute, pop, normalize_from,
  normalize_absolute_path,
}

abbrev pub Plain : Component → Type 0
Plain (normal t) = Unit
Plain _ = ⊥

-- Names only, but for a root in front.
abbrev pub IsNormal : PathBuf → Type 0
IsNormal [] = Unit
IsNormal (root_dir ∷ path) = All Plain path
IsNormal (c ∷ path) = Plain c × All Plain path

-- The same from the last component on.
abbrev IsStack : PathBuf → Type 0
IsStack [] = Unit
IsStack (root_dir ∷ path) = path ≡ []
IsStack (normal t ∷ path) = IsStack path
IsStack _ = ⊥

All-Plain_append : (path : PathBuf) (t : Text) → All Plain path → All Plain (path ++ normal t ∷ [])
All-Plain_append [] t h = (tt, tt)
All-Plain_append (c ∷ path) t (h, hs) = (h, All-Plain_append path t hs)

IsNormal-append : (path : PathBuf) (t : Text) → IsNormal path → IsNormal (path ++ normal t ∷ [])
IsNormal-append [] t h = (tt, tt)
IsNormal-append (root_dir ∷ path) t h = All-Plain_append path t h
IsNormal-append (normal u ∷ path) t (h, hs) = (h, All-Plain_append path t hs)
IsNormal-append (cur_dir ∷ path) t h = absurd h.0
IsNormal-append (parent_dir ∷ path) t h = absurd h.0

IsStack-reverse : (s : PathBuf) → IsStack s → IsNormal (reverse s)
IsStack-reverse [] h = tt
IsStack-reverse (root_dir ∷ s) h = rw h tt
IsStack-reverse (normal t ∷ s) h =
    rw reverse-cons (IsNormal-append (reverse s) t (IsStack-reverse s h))
IsStack-reverse (cur_dir ∷ s) h = absurd h
IsStack-reverse (parent_dir ∷ s) h = absurd h

IsStack-pop : (s : PathBuf) → IsStack s → IsStack (pop s)
unfolding pop
IsStack-pop [] h = tt
IsStack-pop (root_dir ∷ s) h = h
IsStack-pop (normal t ∷ s) h = h
IsStack-pop (cur_dir ∷ s) h = absurd h
IsStack-pop (parent_dir ∷ s) h = absurd h

normalize_from-IsStack : (s path : PathBuf) → IsStack s → IsStack (normalize_from s path)
unfolding normalize_from
normalize_from-IsStack s [] h = h
normalize_from-IsStack s (root_dir ∷ path) h = normalize_from-IsStack (root_dir ∷ []) path refl
normalize_from-IsStack s (cur_dir ∷ path) h = normalize_from-IsStack s path h
normalize_from-IsStack s (parent_dir ∷ path) h =
    normalize_from-IsStack (pop s) path (IsStack-pop s h)
normalize_from-IsStack s (normal t ∷ path) h = normalize_from-IsStack (normal t ∷ s) path h

normalize_from-Plain :
    (s path : PathBuf) → All Plain path → normalize_from s path ≡ reverse path ++ s
unfolding normalize_from
normalize_from-Plain s [] h = refl
normalize_from-Plain s (normal t ∷ path) (h, hs) =
    rw (normalize_from-Plain (normal t ∷ s) path hs, reverse-cons, append_assoc (reverse path)) refl
normalize_from-Plain s (root_dir ∷ path) h = absurd h.0
normalize_from-Plain s (cur_dir ∷ path) h = absurd h.0
normalize_from-Plain s (parent_dir ∷ path) h = absurd h.0

-- A normalized path is left as it is.
pub normalize-IsNormal : (path : PathBuf) → IsNormal path → normalize_absolute_path path ≡ path
unfolding normalize_absolute_path normalize_from
normalize-IsNormal [] h = refl
normalize-IsNormal (root_dir ∷ path) h =
    rw (normalize_from-Plain (root_dir ∷ []) path h, ← reverse-cons)
      (reverse-reverse (root_dir ∷ path))
normalize-IsNormal (normal t ∷ path) (h, hs) =
    rw (normalize_from-Plain (normal t ∷ []) path hs, ← reverse-cons)
      (reverse-reverse (normal t ∷ path))
normalize-IsNormal (cur_dir ∷ path) h = absurd h.0
normalize-IsNormal (parent_dir ∷ path) h = absurd h.0

-- A path whose last part is the root.
abbrev Rooted : PathBuf → Type 0
Rooted [] = ⊥
Rooted (root_dir ∷ path) = path ≡ []
Rooted (normal t ∷ path) = Rooted path
Rooted _ = ⊥

Rooted-reverse : (s : PathBuf) → Rooted s → (path : PathBuf) × (reverse s ≡ root_dir ∷ path)
Rooted-reverse [] h = absurd h
Rooted-reverse (root_dir ∷ s) h = ([], rw h refl)
Rooted-reverse (normal t ∷ s) h =
    let (path, e) = Rooted-reverse s h in (path ++ normal t ∷ [], rw (reverse-cons, e) refl)
Rooted-reverse (cur_dir ∷ s) h = absurd h
Rooted-reverse (parent_dir ∷ s) h = absurd h

normalize_from-Rooted : (s path : PathBuf) → Rooted s → Rooted (normalize_from s path)
unfolding normalize_from pop
normalize_from-Rooted s [] h = h
normalize_from-Rooted s (root_dir ∷ path) h = normalize_from-Rooted (root_dir ∷ []) path refl
normalize_from-Rooted s (cur_dir ∷ path) h = normalize_from-Rooted s path h
normalize_from-Rooted (root_dir ∷ s) (parent_dir ∷ path) h =
    normalize_from-Rooted (root_dir ∷ s) path h
normalize_from-Rooted (normal t ∷ s) (parent_dir ∷ path) h = normalize_from-Rooted s path h
normalize_from-Rooted [] (parent_dir ∷ path) h = absurd h
normalize_from-Rooted (cur_dir ∷ s) (parent_dir ∷ path) h = absurd h
normalize_from-Rooted (parent_dir ∷ s) (parent_dir ∷ path) h = absurd h
normalize_from-Rooted s (normal t ∷ path) h = normalize_from-Rooted (normal t ∷ s) path h

is_absolute-reverse :
    (p : PathBuf) → is_absolute p ≡ true → is_absolute (reverse (normalize_from [] p)) ≡ true
unfolding is_absolute normalize_from
is_absolute-reverse [] h = ground arith
is_absolute-reverse (root_dir ∷ p) h =
    rw
      ((Rooted-reverse (normalize_from (root_dir ∷ []) p)
        (normalize_from-Rooted (root_dir ∷ []) p refl)).1)
      refl
is_absolute-reverse (cur_dir ∷ p) h = ground arith
is_absolute-reverse (parent_dir ∷ p) h = ground arith
is_absolute-reverse (normal t ∷ p) h = ground arith

-- Normalizing gives names only, after the root if there is one, keeps the root of an absolute path,
-- and changes nothing when it is done again.
pub normalize_absolute_path-IsNormal :
    (path : PathBuf)
    → IsNormal (normalize_absolute_path path)
      × (normalize_absolute_path (normalize_absolute_path path) ≡ normalize_absolute_path path)
      × (is_absolute path ≡ true → is_absolute (normalize_absolute_path path) ≡ true)
unfolding normalize_absolute_path
normalize_absolute_path-IsNormal path =
    let is_normal = IsStack-reverse (normalize_from [] path) (normalize_from-IsStack [] path tt) in
    (
      is_normal,
      normalize-IsNormal (normalize_absolute_path path) is_normal,
      is_absolute-reverse path,
    )
