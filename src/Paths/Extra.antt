-- ===== src/Paths/Extra.antt =====
-- What the guest programs make of a path below an extra root.
use simple_claw.Base.{
  ◌≡◌, refl, subst, ◌⊎◌, inl, inr, ℕ, Text, lit, [], ◌∷◌, false, ◌==◌, Lacks, All, Bool-cases,
  arith, trim, is_empty, show, show-Lacks_low, show-not_empty, text_discrete, text_eq_iff,
}
use simple_claw.Paths.{
  root_dir, normal, PathBuf, slash, components, parts, split_slash, is_absolute, join,
  display_relative, normalize_absolute_path, guest_workspace, guest_checked, resolve_guest_path,
}
use simple_claw.Paths.Normal.{Plain, IsNormal, normalize-IsNormal}
use simple_claw.Paths.Names.{IsName, NamesOnly, component-IsName, split_slash-append, parts-display}
use simple_claw.Paths.Guest.{InGuest, guest_checked-InGuest}
use simple_claw.Paths.Access.{mounted, extra_mount}

other_text : (t u : Text) → ¬ (t ≡ u) → t == u ≡ false
other_text t u h = elim (Bool-cases (t == u)) [
  | inl e ↦ absurd (h ((text_eq_iff t u).0 e))
  | inr e ↦ e
]

-- A number is a name.
show-IsName : (n : ℕ) → IsName (show n)
unfolding lit
show-IsName n =
    let undotted = show-Lacks_low 46 n (omega arith) in
    (
      rw
          (
            show-not_empty n,
            other_text (show n) (lit ".") (λ e. (subst (Lacks 46) e undotted).0 refl),
          )
          refl,
      other_text (show n) (lit "..") (λ e. (subst (Lacks 46) e undotted).0 refl),
      show-Lacks_low slash n (omega arith),
    )

extra-IsName : IsName (lit "__extra")
unfolding lit text_discrete is_empty
extra-IsName = (refl, refl, omega arith)

components-extra :
    (index : ℕ) (relative : PathBuf)
    → NamesOnly relative
    → components (mounted (extra_mount index) relative)
      ≡ root_dir ∷ normal (lit "__extra") ∷ normal (show index) ∷ relative
unfolding components mounted extra_mount lit parts
components-extra index relative h =
    rw
      (
        split_slash-append (show index) (display_relative relative) (show-IsName index).2,
        parts-display relative h,
        component-IsName (show index) relative (show-IsName index),
        component-IsName (lit "__extra") (normal (show index) ∷ relative) extra-IsName,
      )
      refl

NamesOnly-Plain : (path : PathBuf) → NamesOnly path → All Plain path
NamesOnly-Plain [] h = tt
NamesOnly-Plain (normal t ∷ path) (h, hs) = (tt, NamesOnly-Plain path hs)
NamesOnly-Plain (root_dir ∷ path) h = absurd h
NamesOnly-Plain (simple_claw.Paths.cur_dir ∷ path) h = absurd h
NamesOnly-Plain (simple_claw.Paths.parent_dir ∷ path) h = absurd h

answers :
    (r : Text ⊎ PathBuf) → ((message : Text) × (r ≡ inl message)) ⊎ ((p : PathBuf) × (r ≡ inr p))
answers (inl message) = inl (message, refl)
answers (inr p) = inr (p, refl)

not_guest : (path : PathBuf) → ¬ InGuest (root_dir ∷ normal (lit "__extra") ∷ path)
unfolding lit
not_guest path (inl (rest, plain, e)) = ground arith
not_guest path (inr (inl (rest, plain, e))) = ground arith
not_guest path (inr (inr (file, listed, e))) = ground arith

refused :
    (path : PathBuf)
    → IsNormal path
    → ¬ InGuest path
    → (message : Text) × (guest_checked path ≡ inl message)
refused path is_normal outside = elim (answers (guest_checked path)) [
  | inl h ↦ h
  | inr (p, h) ↦ absurd (outside (guest_checked-InGuest path p is_normal h).1)
]

guest_path :
    (index : ℕ) (relative : PathBuf)
    → NamesOnly relative
    → trim (mounted (extra_mount index) relative) ≡ mounted (extra_mount index) relative
    → normalize_absolute_path
        (join guest_workspace (components (trim (mounted (extra_mount index) relative))))
      ≡ root_dir ∷ normal (lit "__extra") ∷ normal (show index) ∷ relative
unfolding join
guest_path index relative h trimmed =
    rw (trimmed, components-extra index relative h)
      (normalize-IsNormal (root_dir ∷ normal (lit "__extra") ∷ normal (show index) ∷ relative)
        (tt, (tt, NamesOnly-Plain relative h)))

-- A guest program refuses the path of every access that is routed to an extra root, for any names
-- below the root, when there is no space at the end of the path to be trimmed.
pub resolve_guest_path-extra :
    (index : ℕ) (relative : PathBuf)
    → NamesOnly relative
    → trim (mounted (extra_mount index) relative) ≡ mounted (extra_mount index) relative
    → (message : Text) × (resolve_guest_path (mounted (extra_mount index) relative) ≡ inl message)
unfolding resolve_guest_path guest_checked
resolve_guest_path-extra index relative h trimmed =
    let path = root_dir ∷ normal (lit "__extra") ∷ normal (show index) ∷ relative in
    let (message, no_entry) =
      refused path (tt, (tt, NamesOnly-Plain relative h))
        (not_guest (normal (show index) ∷ relative)) in
    elim (Bool-cases (is_empty (trim (mounted (extra_mount index) relative)))) [
      | inl e ↦ (lit "path must be non-empty", rw e refl)
      | inr e ↦ (message, rw (e, guest_path index relative h trimmed) no_entry)
    ]
