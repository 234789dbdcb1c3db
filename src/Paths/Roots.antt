-- ===== src/Paths/Roots.antt =====
-- Which of the extra roots of src/tools/builtin/file_access.rs a path is matched with.
use simple_claw.Base.{
  ◌≡◌, refl, sym, subst, ◌∙◌, ◌⊎◌, inl, inr, In, map, ℕ, ◌+◌, ◌≤◌, Text, List, [], ◌∷◌, ◌++◌,
  length, Option, none, some, leb, All, Bool-cases, arith,
}
use simple_claw.Error.{
  SandboxCapability, read, write, network, exec, unknown, Result, ok, Result-cases, ok-injective,
}
use simple_claw.Paths.{PathBuf, components, strip_prefix, normalize_absolute_path}
use simple_claw.Paths.Access.{
  ToolSandboxConfig, normalize_workspace_root, sandbox_paths_for_capability, Match, Best, deeper,
  match_from, find_matching_extra_root,
}

-- A match whose root is at least this deep.
abbrev pub Reaches : Option Match → ℕ → Type 0
Reaches none n = ⊥
Reaches (some (index, root, relative)) n = n ≤ length root

-- The path is below the root of the match.
abbrev pub Below : PathBuf → Option Match → Type 0
Below path none = Unit
Below path (some (index, root, relative)) = strip_prefix path root ≡ some relative

abbrev HasDepth : Best → Type 0
HasDepth (none, depth) = depth ≡ 0
HasDepth (some (index, root, relative), depth) = depth ≡ length root

module _ (path : PathBuf) where
  deeper-Below :
      (i : ℕ) (root : PathBuf) (best : Best) (o : Option PathBuf)
      → strip_prefix path root ≡ o
      → Below path best.0
      → HasDepth best
      → Below path (deeper i root best o).0 × HasDepth (deeper i root best o)
  unfolding deeper
  deeper-Below i root best none e b d = (b, d)
  deeper-Below i root (best, depth) (some relative) e b d =
      elim (Bool-cases (leb depth (length root))) [ inl l ↦ rw l (e, refl) | inr l ↦ rw l (b, d) ]

deeper-Reaches :
    (i n : ℕ) (root : PathBuf) (best : Best) (o : Option PathBuf)
    → HasDepth best
    → Reaches best.0 n
    → Reaches (deeper i root best o).0 n
unfolding deeper
deeper-Reaches i n root best none d r = r
deeper-Reaches i n root (none, depth) (some relative) d r = absurd r
deeper-Reaches i n root (some (j, root', relative'), depth) (some relative) d r =
    elim (Bool-cases (leb depth (length root))) [ inl l ↦ rw l (ground arith) | inr l ↦ rw l r ]

deeper-covers :
    (i : ℕ) (root relative : PathBuf) (best : Best)
    → HasDepth best
    → Reaches (deeper i root best (some relative)).0 (length root)
unfolding deeper
deeper-covers i root relative (none, depth) d = elim (Bool-cases (leb depth (length root))) [
  | inl l ↦ rw l (omega arith)
  | inr l ↦ rw l (ground arith)
]
deeper-covers i root relative (some (j, root', relative'), depth) d =
    elim (Bool-cases (leb depth (length root))) [
      | inl l ↦ rw l (omega arith)
      | inr l ↦ rw l (ground arith)
    ]

module _ (cwd : Result PathBuf) (path : PathBuf) where
  -- If the path is below this root, the match is at least as deep.
  abbrev pub Covered : Option Match → PathBuf → Type 0
  Covered found root =
      (absolute relative : PathBuf)
      → normalize_workspace_root cwd root ≡ ok absolute
      → strip_prefix path (normalize_absolute_path absolute) ≡ some relative
      → Reaches found (length (normalize_absolute_path absolute))

  match_from-Covered :
      (i : ℕ) (roots : List PathBuf) (best : Best) (found : Option Match)
      → match_from cwd path i roots best ≡ ok found
      → Below path best.0
      → HasDepth best
      → Below path found
        × ((n : ℕ) → Reaches best.0 n → Reaches found n)
        × All (Covered found) roots
  unfolding match_from
  match_from-Covered i [] best found h b d = rw (← ok-injective best.0 found h) (b, (λ n r. r), tt)
  match_from-Covered i (root ∷ roots) best found h b d =
      elim (Result-cases (normalize_workspace_root cwd root)) [
        | inl (absolute, e) ↦
            let at_root = normalize_absolute_path absolute in
            let stripped = strip_prefix path at_root in
            let (b', d') = deeper-Below path i at_root best stripped refl b d in
            let (below, deep, rest) =
              match_from-Covered (i + 1) roots (deeper i at_root best stripped) found (rw e at h) b'
                d' in
            (
              below,
              λ n r. deep n (deeper-Reaches i n at_root best stripped d r),
              (
                λ absolute' relative e' inside.
                    let same : absolute ≡ absolute' =
                      ok-injective absolute absolute' (sym e ∙ e') in
                    let at : strip_prefix path at_root ≡ some relative =
                      subst (λ a. strip_prefix path (normalize_absolute_path a) ≡ some relative)
                        (sym same) inside in
                    rw (← same) (
                      deep (length at_root) (
                        subst (λ o. Reaches (deeper i at_root best o).0 (length at_root)) (sym at)
                          (deeper-covers i at_root relative best d))),
                rest,
              ),
            )
        | inr (x, failed) ↦ ground arith
      ]

  -- The match for a path is a root that the path is below, and no other of the roots that the path is
  -- below is deeper; there is none only when the path is below no root.
  pub find_matching_extra_root-Covered :
      (roots : List PathBuf) (found : Option Match)
      → find_matching_extra_root cwd path roots ≡ ok found
      → Below path found × All (Covered found) roots
  unfolding find_matching_extra_root
  find_matching_extra_root-Covered roots found h =
      let (below, deep, covered) = match_from-Covered 0 roots (none, 0) found h tt refl in
      (below, covered)

module _ (cwd : Result PathBuf) where
  -- The match is one of the roots, numbered from `i`, once it is normalized.
  abbrev pub Configured : ℕ → List PathBuf → ℕ → PathBuf → Type 0
  Configured i [] index at = ⊥
  Configured i (root ∷ roots) index at =
      ((index ≡ i)
        × (absolute : PathBuf) × (normalize_workspace_root cwd root ≡ ok absolute)
        × (at ≡ normalize_absolute_path absolute))
      ⊎ Configured (i + 1) roots index at

  abbrev pub IsConfigured : ℕ → List PathBuf → Option Match → Type 0
  IsConfigured i roots none = Unit
  IsConfigured i roots (some (index, at, relative)) = Configured i roots index at

  IsConfigured-later :
      (i : ℕ) (root : PathBuf) (roots : List PathBuf) (found : Option Match)
      → IsConfigured (i + 1) roots found
      → IsConfigured i (root ∷ roots) found
  IsConfigured-later i root roots none h = tt
  IsConfigured-later i root roots (some (index, at, relative)) h = inr h

deeper-either :
    (i : ℕ) (root : PathBuf) (best : Best) (o : Option PathBuf)
    → ((deeper i root best o).0 ≡ best.0)
      ⊎ ((relative : PathBuf) × ((deeper i root best o).0 ≡ some (i, root, relative)))
unfolding deeper
deeper-either i root best none = inl refl
deeper-either i root (best, depth) (some relative) = elim (Bool-cases (leb depth (length root))) [
  | inl e ↦ rw e (inr (relative, refl))
  | inr e ↦ rw e (inl refl)
]

module _ (cwd : Result PathBuf) (path : PathBuf) where
  match_from-Configured :
      (i : ℕ) (roots : List PathBuf) (best : Best) (found : Option Match)
      → match_from cwd path i roots best ≡ ok found
      → (found ≡ best.0) ⊎ IsConfigured cwd i roots found
  unfolding match_from
  match_from-Configured i [] best found h = inl (sym (ok-injective best.0 found h))
  match_from-Configured i (root ∷ roots) best found h =
      elim (Result-cases (normalize_workspace_root cwd root)) [
        | inl (absolute, e) ↦
            let at = normalize_absolute_path absolute in
            let next = deeper i at best (strip_prefix path at) in
            elim (match_from-Configured (i + 1) roots next found (rw e at h)) [
              | inr later ↦ inr (IsConfigured-later cwd i root roots found later)
              | inl same ↦ elim (deeper-either i at best (strip_prefix path at)) [
                | inl before ↦ inl (same ∙ before)
                | inr (relative, here) ↦ inr (rw (same ∙ here) (inl (refl, absolute, e, refl)))
              ]
            ]
        | inr (x, failed) ↦ ground arith
      ]

  pub find_matching_extra_root-Configured :
      (roots : List PathBuf) (found : Option Match)
      → find_matching_extra_root cwd path roots ≡ ok found
      → IsConfigured cwd 0 roots found
  unfolding find_matching_extra_root
  find_matching_extra_root-Configured roots found h =
      elim (match_from-Configured 0 roots (none, 0) found h) [ inl e ↦ rw e tt | inr there ↦ there ]

module _ (cwd : Result PathBuf) where
  -- The root is one of the paths of the configuration, once it is normalized.
  abbrev pub Granted : List Text → PathBuf → Type 0
  Granted paths at =
      (path : Text) × (absolute : PathBuf) × In path paths
      × (normalize_workspace_root cwd (components path) ≡ ok absolute)
      × (at ≡ normalize_absolute_path absolute)

  Configured-append :
      (i : ℕ) (paths : List Text) (more : List PathBuf) (index : ℕ) (at : PathBuf)
      → Configured cwd i (map components paths ++ more) index at
      → Granted paths at ⊎ ((j : ℕ) × Configured cwd j more index at)
  Configured-append i [] more index at h = inr (i, h)
  Configured-append i (path ∷ paths) more index at (inl (e, absolute, k, same)) =
      inl (path, absolute, inl refl, k, same)
  Configured-append i (path ∷ paths) more index at (inr h) =
      elim (Configured-append (i + 1) paths more index at h) [
        | inl (found, absolute, there, k, same) ↦ inl (found, absolute, inr there, k, same)
        | inr later ↦ inr later
      ]

  Configured-Granted :
      (i : ℕ) (paths : List Text) (index : ℕ) (at : PathBuf)
      → Configured cwd i (map components paths) index at
      → Granted paths at
  Configured-Granted i [] index at h = absurd h
  Configured-Granted i (path ∷ paths) index at (inl (e, absolute, k, same)) =
      (path, absolute, inl refl, k, same)
  Configured-Granted i (path ∷ paths) index at (inr h) =
      let (found, absolute, there, k, same) = Configured-Granted (i + 1) paths index at h in
      (found, absolute, inr there, k, same)

  -- A path that may be read or, to write only, one that may be written.
  abbrev pub GrantedFor : ToolSandboxConfig → SandboxCapability → PathBuf → Type 0
  GrantedFor sandbox capability at =
      Granted sandbox.extra_readable_paths at
      ⊎ ((capability ≡ write) × Granted sandbox.extra_writable_paths at)

  pub Configured-GrantedFor :
      (sandbox : ToolSandboxConfig) (capability : SandboxCapability) (index : ℕ) (at : PathBuf)
      → Configured cwd 0 (sandbox_paths_for_capability sandbox capability) index at
      → GrantedFor sandbox capability at
  unfolding sandbox_paths_for_capability
  Configured-GrantedFor sandbox write index at h =
      elim (Configured-append 0 sandbox.extra_readable_paths _ index at h) [
        | inl readable ↦ inl readable
        | inr (j, k) ↦ inr (refl, Configured-Granted j sandbox.extra_writable_paths index at k)
      ]
  Configured-GrantedFor sandbox read index at h =
      inl (Configured-Granted 0 sandbox.extra_readable_paths index at h)
  Configured-GrantedFor sandbox network index at h =
      inl (Configured-Granted 0 sandbox.extra_readable_paths index at h)
  Configured-GrantedFor sandbox exec index at h =
      inl (Configured-Granted 0 sandbox.extra_readable_paths index at h)
  Configured-GrantedFor sandbox unknown index at h =
      inl (Configured-Granted 0 sandbox.extra_readable_paths index at h)
