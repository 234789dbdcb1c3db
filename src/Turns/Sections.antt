-- ===== src/Turns/Sections.antt =====
-- The section of the memories in the system prompt, of src/turn/prepare.rs. How a similarity is printed
-- (`{:.2}` of an f32) is a parameter.
use simple_claw.Base.{
  ℕ, zero, suc, ◌+◌, Text, lit, List, [], ◌∷◌, ◌++◌, Option, none, some, Bool, true, false, ◌||◌,
  ◌&&◌, eqb, ltb, if◌then◌else◌, is_empty, trim, show,
}
use simple_claw.Turns.Bytes.{byte_len}

pub data StoredRole : Type 0 where
  user : StoredRole
  assistant : StoredRole
  system : StoredRole
  tool : StoredRole

pub record ShortTermContextMessage : Type 0 where
  pub role : StoredRole
  pub content : Text
  pub username : Option Text

pub data MemoryHitStore : Type 0 where
  long_term : MemoryHitStore
  short_term : MemoryHitStore

-- The importance and the score, which are not read here, are left out.
pub record MemoryRecallHit (Similarity : Type 0) : Type 0 where
  pub store : MemoryHitStore
  pub content : Text
  pub kind : Option Text
  pub context_messages : Option (List ShortTermContextMessage)
  pub raw_similarity : Similarity

pub record PromptBuildMemorySection : Type 0 where
  pub section : Text
  pub short_hits : ℕ
  pub long_hits : ℕ

unfoldable pub no_section : PromptBuildMemorySection
no_section = record { section = []; short_hits = 0; long_hits = 0 }

abbrev pub kind_of : Option Text → Text
unfolding lit
kind_of none = lit "general"
kind_of (some kind) = kind

abbrev pub speaker_of : Option Text → Text
unfolding lit is_empty trim
speaker_of none = lit "user"
speaker_of (some username) = if is_empty (trim username) then lit "user" else trim username

unfoldable pub render_context_message : ShortTermContextMessage → Text
unfolding lit trim speaker_of
render_context_message message = elim message.role [
  | user ↦ lit "[" ++ speaker_of message.username ++ lit "]: " ++ trim message.content
  | assistant ↦ lit "[assistant]: " ++ trim message.content
  | system ↦ lit "[system]: " ++ trim message.content
  | tool ↦ lit "[tool]: " ++ trim message.content
]

unfoldable pub context_lines : List ShortTermContextMessage → Text
unfolding render_context_message
context_lines [] = []
context_lines (message ∷ messages) = 10 ∷ render_context_message message ++ context_lines messages

unfoldable pub long_base : Text
unfolding lit
long_base =
    lit "# REMEMBERED FACTS\nPersistent facts from long-term memory. "
    ++ lit "Prioritize the current conversation over these."

unfoldable pub short_base : Text
unfolding lit
short_base =
    lit "# RECALLED CONVERSATIONS\n"
    ++ lit "Excerpts from earlier in this session that may be relevant."

-- The loop that appends lines until one does not fit: the section, and how many lines were appended.
unfoldable pub push_lines : ℕ → Text → List Text → Text × ℕ
unfolding byte_len
push_lines max_chars section [] = (section, 0)
push_lines max_chars section (line ∷ lines) =
    let (whole, count) = push_lines max_chars (section ++ line) lines in
    if ltb max_chars (byte_len section + byte_len line) then (section, 0) else (whole, suc count)

-- `matches!(hit.store, …)`
unfoldable pub is_store : MemoryHitStore → MemoryHitStore → Bool
is_store long_term long_term = true
is_store short_term short_term = true
is_store _ _ = false

abbrev pub long_section : Text × ℕ → PromptBuildMemorySection
unfolding no_section
long_section (section, zero) = no_section
long_section (section, suc hits) = record {
  section = section;
  short_hits = 0;
  long_hits = suc hits;
}

abbrev pub short_section : Text × ℕ → PromptBuildMemorySection
unfolding no_section
short_section (section, zero) = no_section
short_section (section, suc hits) = record {
  section = section;
  short_hits = suc hits;
  long_hits = 0;
}

module _ {S : Type 0} where
  abbrev pub no_hits : List (MemoryRecallHit S) → Bool
  no_hits [] = true
  no_hits (_ ∷ _) = false

  -- The hits of a store, in their order.
  unfoldable pub of_store : MemoryHitStore → List (MemoryRecallHit S) → List (MemoryRecallHit S)
  unfolding is_store
  of_store store [] = []
  of_store store (hit ∷ hits) =
      let rest = of_store store hits in if is_store store hit.store then hit ∷ rest else rest

module _ {S : Type 0} (print : S → Text) where
  unfoldable pub body_of : MemoryRecallHit S → Option (List ShortTermContextMessage) → Text
  unfolding context_lines trim
  body_of hit none = 10 ∷ trim hit.content
  body_of hit (some messages) = context_lines messages

  unfoldable pub render_short_term_excerpt : MemoryRecallHit S → Text
  unfolding body_of lit
  render_short_term_excerpt hit =
      lit "\n\n--- excerpt (similarity: "
      ++ print hit.raw_similarity
      ++ lit ") ---"
      ++ body_of hit hit.context_messages
      ++ lit "\n---"

  -- The lines of the hits, from an index.
  unfoldable pub long_lines : ℕ → List (MemoryRecallHit S) → List Text
  unfolding lit trim show kind_of
  long_lines index [] = []
  long_lines index (hit ∷ hits) =
      (lit "\n"
        ++ show (index + 1)
        ++ lit ". ["
        ++ kind_of hit.kind
        ++ lit "] "
        ++ trim hit.content)
      ∷ long_lines (index + 1) hits

  unfoldable pub excerpts : List (MemoryRecallHit S) → List Text
  unfolding render_short_term_excerpt
  excerpts [] = []
  excerpts (hit ∷ hits) = render_short_term_excerpt hit ∷ excerpts hits

  unfoldable pub build_long_term_memory_section :
      List (MemoryRecallHit S) → ℕ → PromptBuildMemorySection
  unfolding push_lines long_lines long_base no_section
  build_long_term_memory_section hits max_chars =
      if no_hits hits || eqb max_chars 0
      then no_section
      else long_section (push_lines max_chars long_base (long_lines 0 hits))

  unfoldable pub build_short_term_memory_section :
      List (MemoryRecallHit S) → ℕ → PromptBuildMemorySection
  unfolding push_lines excerpts short_base no_section
  build_short_term_memory_section hits max_chars =
      if no_hits hits || eqb max_chars 0
      then no_section
      else short_section (push_lines max_chars short_base (excerpts hits))

unfoldable pub join_one :
    PromptBuildMemorySection → PromptBuildMemorySection → PromptBuildMemorySection
unfolding is_empty lit
join_one joined section = if is_empty section.section then joined else record {
  section =
      if is_empty joined.section
      then section.section
      else joined.section ++ lit "\n\n" ++ section.section;
  short_hits = joined.short_hits + section.short_hits;
  long_hits = joined.long_hits + section.long_hits;
}

unfoldable pub join_from :
    PromptBuildMemorySection → List PromptBuildMemorySection → PromptBuildMemorySection
unfolding join_one
join_from joined [] = joined
join_from joined (section ∷ sections) = join_from (join_one joined section) sections

unfoldable pub join_memory_sections : List PromptBuildMemorySection → PromptBuildMemorySection
unfolding join_from no_section
join_memory_sections sections = join_from no_section sections

module _ {S : Type 0} (print : S → Text) where
  unfoldable pub format_recalled_memory :
      List (MemoryRecallHit S) → ℕ → ℕ → PromptBuildMemorySection
  unfolding no_section of_store build_long_term_memory_section build_short_term_memory_section
      join_memory_sections
  format_recalled_memory hits long_term_max_chars short_term_max_chars =
      if no_hits hits || (eqb long_term_max_chars 0 && eqb short_term_max_chars 0)
      then no_section
      else join_memory_sections (
          build_long_term_memory_section print (of_store long_term hits) long_term_max_chars
          ∷ build_short_term_memory_section print (of_store short_term hits) short_term_max_chars
          ∷ [])
