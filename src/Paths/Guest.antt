-- ===== src/Paths/Guest.antt =====
-- Which paths the guest programs accept.
use simple_claw.Base.{
  ◌≡◌, refl, ap, subst, ◌∙◌, ◌⊎◌, inl, inr, Text, lit, List, [], ◌∷◌, ◌++◌, any, some, Bool, true,
  false, ◌==◌, ◌||◌, All, In, Bool-cases, Option-cases, arith, if◌then◌else◌, trim, is_empty,
  text_eq_iff, text_discrete,
}
use simple_claw.Paths.{
  Component, root_dir, cur_dir, parent_dir, normal, PathBuf, components, join, component_eq,
  strip_prefix, display_path, normalize_absolute_path, guest_workspace, guest_persona, prompt_files,
  persona_relative_path_allowed, guest_persona_path_allowed, path_starts_with, guest_checked,
  resolve_guest_path,
}
use simple_claw.Paths.Normal.{Plain, IsNormal, normalize-IsNormal, normalize_absolute_path-IsNormal}
use simple_claw.Paths.Names.{
  Named, components-Named, normalize-Named, join-Named, Plain-NamesOnly, components-display_path,
}

component_eq-eq : (a b : Component) → component_eq a b ≡ true → a ≡ b
unfolding component_eq
component_eq-eq a b h = ground arith

pub strip_prefix-some :
    (path base rest : PathBuf) → strip_prefix path base ≡ some rest → path ≡ base ++ rest
unfolding strip_prefix
strip_prefix-some path [] rest h = ground arith
strip_prefix-some [] (b ∷ base) rest h = ground arith
strip_prefix-some (c ∷ path) (b ∷ base) rest h = elim (Option-cases (strip_prefix path base)) [
  | inl gone ↦ ground arith
  | inr (rest', e) ↦
      let tail = strip_prefix-some path base rest' e in
      let head = component_eq-eq c b in ground (arith, tail, head)
]

-- A path below the guest's workspace, below `skills` of the persona, or one of the prompt files.
abbrev pub InGuest : PathBuf → Type 0
InGuest path =
    ((rest : PathBuf) × All Plain rest × (path ≡ guest_workspace ++ rest))
    ⊎ ((rest : PathBuf) × All Plain rest × (path ≡ guest_persona ++ normal (lit "skills") ∷ rest))
    ⊎ ((file : Text) × In file prompt_files × (path ≡ guest_persona ++ normal file ∷ []))

-- What is allowed below the persona root.
abbrev InPersona : PathBuf → Type 0
InPersona relative =
    ((rest : PathBuf) × All Plain rest × (relative ≡ normal (lit "skills") ∷ rest))
    ⊎ ((file : Text) × In file prompt_files × (relative ≡ normal file ∷ []))

any-In : (f : Text) (files : List Text) → any (λ file. f == file) files ≡ true → In f files
any-In f [] h = ground arith
any-In f (x ∷ files) h = elim (Bool-cases (f == x)) [
  | inl e ↦ inl (ground arith)
  | inr e ↦ inr (any-In f files (ground arith))
]

listed : (hidden k b : Bool) → (if hidden then false else k || b) ≡ true → k ≡ false → b ≡ true
listed hidden k b h e = ground arith

unlisted : (hidden k : Bool) → (if hidden then false else k) ≡ true → k ≡ true
unlisted hidden k h = ground arith

persona_relative_path_allowed-InPersona :
    (relative : PathBuf)
    → All Plain relative
    → persona_relative_path_allowed relative ≡ true
    → InPersona relative
unfolding persona_relative_path_allowed
persona_relative_path_allowed-InPersona [] h may = ground arith
persona_relative_path_allowed-InPersona (normal f ∷ []) h may =
    elim (Bool-cases (f == lit "skills")) [
      | inl e ↦ inl ([], tt, ap (λ t. normal t ∷ []) ((text_eq_iff f (lit "skills")).0 e))
      | inr e ↦ inr (
        f,
        any-In f prompt_files (
            listed (f == lit ".simpleclaw") (f == lit "skills")
              (any (λ file. f == file) prompt_files) may e),
        refl,
      )
    ]
persona_relative_path_allowed-InPersona (normal f ∷ c ∷ rest) (h, hs) may = inl (
  c ∷ rest,
  hs,
  ap (λ t. normal t ∷ c ∷ rest)
      ((text_eq_iff f (lit "skills")).0
        (unlisted (f == lit ".simpleclaw") (f == lit "skills") may)),
)
persona_relative_path_allowed-InPersona (root_dir ∷ rest) h may = absurd h.0
persona_relative_path_allowed-InPersona (cur_dir ∷ rest) h may = absurd h.0
persona_relative_path_allowed-InPersona (parent_dir ∷ rest) h may = absurd h.0

denied : {t : Text} (p : PathBuf) → ¬ (◌≡◌ {A = Text ⊎ PathBuf} (inl t) (inr p))
denied {t} p h = ground arith

unwrapped : (path p : PathBuf) → ◌≡◌ {A = Text ⊎ PathBuf} (inr path) (inr p) → path ≡ p
unwrapped path p h = ground arith

InPersona-InGuest :
    (path rest : PathBuf) → path ≡ guest_persona ++ rest → InPersona rest → InGuest path
InPersona-InGuest path rest below (inl (more, plain, e)) =
    inr (inl (more, plain, below ∙ ap (λ r. guest_persona ++ r) e))
InPersona-InGuest path rest below (inr (file, listed, e)) =
    inr (inr (file, listed, below ∙ ap (λ r. guest_persona ++ r) e))

pub guest_checked-InGuest :
    (path p : PathBuf) → IsNormal path → guest_checked path ≡ inr p → (path ≡ p) × InGuest path
unfolding guest_checked path_starts_with guest_persona_path_allowed strip_prefix
guest_checked-InGuest path p is_normal h = elim (Option-cases (strip_prefix path guest_workspace)) [
  | inr (rest, e) ↦
      let below = strip_prefix-some path guest_workspace rest e in
      (unwrapped path p (rw e at h), inl (rest, (subst IsNormal below is_normal).1, below))
  | inl outside ↦ elim (Option-cases (strip_prefix path guest_persona)) [
    | inr (rest, e) ↦
        let below = strip_prefix-some path guest_persona rest e in
        elim (Bool-cases (persona_relative_path_allowed rest)) [
          | inl may ↦ (
            unwrapped path p (rw (outside, e, normalize-IsNormal path is_normal, e, may) at h),
            InPersona-InGuest path rest below (
                persona_relative_path_allowed-InPersona rest (subst IsNormal below is_normal).1
                  may),
          )
          | inr may_not ↦
              absurd
                (denied p (rw (outside, e, normalize-IsNormal path is_normal, e, may_not) at h))
        ]
    | inl elsewhere ↦ absurd (denied p (rw (outside, elsewhere) at h))
  ]
]

-- The path that a guest program makes of the text of its argument.
abbrev resolved : Text → PathBuf
resolved t = normalize_absolute_path (join guest_workspace (components (trim t)))

InGuest-root : (path : PathBuf) → InGuest path → (names : PathBuf) × (path ≡ root_dir ∷ names)
InGuest-root path (inl (rest, plain, e)) = (normal (lit "workspace") ∷ rest, e)
InGuest-root path (inr (inl (rest, plain, e))) =
    (normal (lit "persona") ∷ normal (lit "skills") ∷ rest, e)
InGuest-root path (inr (inr (file, listed, e))) = (normal (lit "persona") ∷ normal file ∷ [], e)

workspace-Named : All Named guest_workspace
unfolding lit text_discrete is_empty
workspace-Named = (tt, ((refl, refl, omega arith), tt))

-- A path that a guest program accepts, whatever text it is given, is one below its workspace, below
-- `skills` of the persona, or one of the prompt files there; it has names only, and is read back from
-- its own text.
pub resolve_guest_path-InGuest :
    (raw : Text) (p : PathBuf)
    → resolve_guest_path raw ≡ inr p
    → InGuest p × (components (display_path p) ≡ p)
unfolding resolve_guest_path
resolve_guest_path-InGuest raw p h = elim (Bool-cases (is_empty (trim raw))) [
  | inl e ↦ absurd (denied p (rw e at h))
  | inr e ↦
      let path = resolved raw in
      let is_normal =
        (normalize_absolute_path-IsNormal (join guest_workspace (components (trim raw)))).0 in
      let (same, inside) = guest_checked-InGuest path p is_normal (rw e at h) in
      let (names, rooted) = InGuest-root path inside in
      let named = normalize-Named (join guest_workspace (components (trim raw))) (
        join-Named guest_workspace (components (trim raw)) workspace-Named
          (components-Named (trim raw))) in
      (
        rw (← same) inside,
        rw (← same, rooted)
            (components-display_path names (
              Plain-NamesOnly names (subst IsNormal rooted is_normal)
                (subst (All Named) rooted named).1)),
      )
]
