-- ===== src/Turns/Bound.antt =====
-- How long the section of the memories of src/turn/prepare.rs is, in bytes.
use simple_claw.Base.{
  ◌≡◌, refl, ℕ, zero, suc, ◌+◌, ◌≤◌, Text, lit, List, [], ◌∷◌, ◌++◌, Bool, true, false, ◌||◌, ◌&&◌,
  eqb, ltb, is_empty, arith, Bool-cases, inl, inr, if◌then◌else◌,
}
use simple_claw.Turns.Bytes.{byte_len, len_utf8}
use simple_claw.Turns.Sections.{
  MemoryRecallHit, PromptBuildMemorySection, no_section, push_lines, long_section, short_section,
  build_long_term_memory_section, build_short_term_memory_section, join_one, join_from,
  join_memory_sections, format_recalled_memory, of_store, long_term, short_term, no_hits, long_base,
  short_base, long_lines, excerpts,
}

byte_len-append : (a b : Text) → byte_len (a ++ b) ≡ byte_len a + byte_len b
unfolding byte_len
byte_len-append [] b = omega arith
byte_len-append (c ∷ a) b = omega (arith, byte_len-append a b)

-- Lines are appended only as long as the whole is within the limit.
abbrev Within : ℕ → Text × ℕ → Type 0
Within n (section, zero) = Unit
Within n (section, suc count) = byte_len section ≤ n

push_lines-whole :
    (n : ℕ) (section : Text) (lines : List Text)
    → byte_len section ≤ n
    → byte_len (push_lines n section lines).0 ≤ n
unfolding push_lines
push_lines-whole n section [] h = h
push_lines-whole n section (line ∷ lines) h =
    elim (Bool-cases (ltb n (byte_len section + byte_len line))) [
      | inl e ↦ rw e h
      | inr e ↦ rw e (
          push_lines-whole n (section ++ line) lines (ground (arith, byte_len-append section line)))
    ]

push_lines-Within :
    (n : ℕ) (section : Text) (lines : List Text) → Within n (push_lines n section lines)
unfolding push_lines
push_lines-Within n section [] = tt
push_lines-Within n section (line ∷ lines) =
    elim (Bool-cases (ltb n (byte_len section + byte_len line))) [
      | inl e ↦ rw e tt
      | inr e ↦ rw e (
          push_lines-whole n (section ++ line) lines (ground (arith, byte_len-append section line)))
    ]

abbrev size : PromptBuildMemorySection → ℕ
size s = byte_len s.section

blank_line-size : byte_len (lit "\n\n") ≡ 2
unfolding lit byte_len len_utf8
blank_line-size = refl

-- Two sections with a blank line between.
joined-size : (a b : Text) → byte_len (a ++ lit "\n\n" ++ b) ≡ byte_len a + 2 + byte_len b
joined-size a b =
    omega
      (arith, byte_len-append (a ++ lit "\n\n") b, byte_len-append a (lit "\n\n"), blank_line-size)

join_one-size : (a b : PromptBuildMemorySection) → size (join_one a b) ≤ size a + 2 + size b
unfolding join_one
join_one-size a b = elim (Bool-cases (is_empty b.section)) [
  | inl e ↦ rw e (omega arith)
  | inr e ↦ elim (Bool-cases (is_empty a.section)) [
    | inl k ↦ rw (e, k) (omega arith)
    | inr k ↦ rw (e, k) (omega (arith, joined-size a.section b.section))
  ]
]

-- The first section is joined with nothing, and needs no blank line.
join_none-size : (b : PromptBuildMemorySection) → size (join_one no_section b) ≤ size b
unfolding join_one no_section byte_len is_empty
join_none-size b = elim (Bool-cases (is_empty b.section)) [
  | inl e ↦ rw e (omega arith)
  | inr e ↦ rw e (omega arith)
]

long_section-size : (n : ℕ) (p : Text × ℕ) → Within n p → size (long_section p) ≤ n
unfolding no_section byte_len
long_section-size n (section, zero) h = omega arith
long_section-size n (section, suc hits) h = h

short_section-size : (n : ℕ) (p : Text × ℕ) → Within n p → size (short_section p) ≤ n
unfolding no_section byte_len
short_section-size n (section, zero) h = omega arith
short_section-size n (section, suc hits) h = h

if-size :
    (b : Bool) (n : ℕ) (s : PromptBuildMemorySection)
    → size s ≤ n
    → size (if b then no_section else s) ≤ n
unfolding no_section byte_len
if-size true n s h = omega arith
if-size false n s h = h

module _ {S : Type 0} (print : S → Text) where
  long-size :
      (hits : List (MemoryRecallHit S)) (n : ℕ)
      → size (build_long_term_memory_section print hits n) ≤ n
  unfolding build_long_term_memory_section
  long-size hits n =
      if-size (no_hits hits || eqb n 0) n _
        (long_section-size n _ (push_lines-Within n long_base (long_lines print 0 hits)))

  short-size :
      (hits : List (MemoryRecallHit S)) (n : ℕ)
      → size (build_short_term_memory_section print hits n) ≤ n
  unfolding build_short_term_memory_section
  short-size hits n =
      if-size (no_hits hits || eqb n 0) n _
        (short_section-size n _ (push_lines-Within n short_base (excerpts print hits)))

  -- The section of the recalled memories is, in bytes, at most as long as its two limits together and a
  -- blank line.
  pub format_recalled_memory-bound :
      (hits : List (MemoryRecallHit S)) (long_max short_max : ℕ)
      → byte_len (format_recalled_memory print hits long_max short_max).section
        ≤ long_max + 2 + short_max
  unfolding format_recalled_memory join_memory_sections join_from
  format_recalled_memory-bound hits long_max short_max =
      let l = build_long_term_memory_section print (of_store long_term hits) long_max in
      let s = build_short_term_memory_section print (of_store short_term hits) short_max in
      if-size (no_hits hits || (eqb long_max 0 && eqb short_max 0)) (long_max + 2 + short_max) _ (
        omega (
          arith,
          join_none-size l,
          join_one-size (join_one no_section l) s,
          long-size (of_store long_term hits) long_max,
          short-size (of_store short_term hits) short_max,
        ))
