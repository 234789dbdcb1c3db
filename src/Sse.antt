-- ===== src/Sse.antt =====
-- Server-sent events: the lines of src/providers/gemini.rs, whose `GeminiStreamAccumulator` reads a
-- response in the chunks in which it arrives.
pub mod Chunks
pub mod Gemini
pub mod Calls
mod Tests
use simple_claw.Base.{
  ℕ, Text, lit, List, [], ◌∷◌, ◌++◌, Option, none, some, Bool, ◌⊎◌, inl, inr, eqb, is_empty,
  if◌then◌else◌,
}
use simple_claw.Error.{FrameworkError, provider, display, Result, ok, err}
use simple_claw.Agent.{StreamEvent, failed}

abbrev pub Bytes : Type 0
Bytes = List ℕ

-- What a method that pushes to `events` gives: what it has pushed, and the new state or the error.
abbrev pub Pushed : Type 0 → Type 0
Pushed S = List StreamEvent × Result S

unfoldable pub then_on : {T : Type 0} → List StreamEvent → Pushed T → Pushed T
then_on events (more, r) = (events ++ more, r)

-- A method and what comes after its `?`.
unfoldable pub follow : {S T : Type 0} → Pushed S → (S → Pushed T) → Pushed T
unfolding then_on
follow (events, ok s) next = then_on events (next s)
follow (events, err e) next = (events, err e)

unfoldable pub extend_first : ℕ → List Text × Text → List Text × Text
extend_first c ([], rest) = ([], c ∷ rest)
extend_first c (line ∷ lines, rest) = ((c ∷ line) ∷ lines, rest)

unfoldable pub end_line : List Text × Text → List Text × Text
end_line (lines, rest) = ([] ∷ lines, rest)

-- The lines of a buffer that have ended, and what is left of it.
unfoldable pub lines_of : Text → List Text × Text
unfolding extend_first end_line
lines_of [] = ([], [])
lines_of (c ∷ s) = let rest = lines_of s in if eqb c 10 then end_line rest else extend_first c rest

-- `if line.ends_with('\r') { line.pop(); }`
unfoldable pub without_cr : Text → Text
without_cr [] = []
without_cr (c ∷ []) = if eqb c 13 then [] else c ∷ []
without_cr (c ∷ d ∷ s) = c ∷ without_cr (d ∷ s)

-- What comes in from the connection.
pub data Chunk : Type 0 where
  received : Bytes → Chunk
  read_failed : Text → Chunk

unfoldable pub keep_buffer : {S : Type 0} → Text → Pushed S → Pushed (Text × S)
keep_buffer rest (events, ok s) = (events, ok (rest, s))
keep_buffer rest (events, err e) = (events, err e)

-- The events of a call of the accumulator are sent on only if it succeeds.
unfoldable pub sent_on : Pushed (Unit {0}) → List StreamEvent
sent_on (events, ok _) = events
sent_on (events, err e) = failed (display e) ∷ []

unfoldable pub after_push :
    {S : Type 0} → Pushed (Text × S) → (Text × S → List StreamEvent) → List StreamEvent
after_push (events, ok state) next = events ++ next state
after_push (events, err e) next = failed (display e) ∷ []

-- An accumulator: `S` is its state but for `line_buffer`.
pub record Accumulator (S : Type 0) : Type 0 where
  pub from_utf8 : Bytes → Text ⊎ Text
  pub process_line : S → Text → Pushed S
  pub flush_event : S → Pushed S
  pub tool_calls : S → List StreamEvent
  pub name : Text

module _ {S : Type 0} (self : Accumulator S) where
  unfoldable pub process_lines : List Text → S → Pushed S
  unfolding follow
  process_lines [] s = ([], ok s)
  process_lines (line ∷ lines) s =
      follow (self.process_line s (without_cr line)) (λ s'. process_lines lines s')

  unfoldable pub push_str : Text × S → Text → Pushed (Text × S)
  unfolding process_lines keep_buffer
  push_str (line_buffer, s) chunk =
      let (lines, rest) = lines_of (line_buffer ++ chunk) in
      keep_buffer rest (process_lines lines s)

  push_decoded : Text × S → Text ⊎ Text → Pushed (Text × S)
  unfolding push_str
  push_decoded state (inl error) =
      ([], err (provider (lit "invalid " ++ self.name ++ lit " stream bytes: " ++ error)))
  push_decoded state (inr chunk) = push_str state chunk

  unfoldable pub push_bytes : Text × S → Bytes → Pushed (Text × S)
  unfolding push_decoded
  push_bytes state bytes = push_decoded state (self.from_utf8 bytes)

  trailing : Text → S → Pushed S
  trailing [] s = ([], ok s)
  trailing (c ∷ line) s = self.process_line s (without_cr (c ∷ line))

  unfoldable pub finish : Text × S → Pushed (Unit {0})
  unfolding follow trailing
  finish (line_buffer, s) = follow (trailing line_buffer s) λ s'.
      follow (self.flush_event s') λ s''. (self.tool_calls s'' ++ StreamEvent.finished ∷ [], ok tt)

  -- The task of `generate_stream`, for a receiver that stays.
  unfoldable pub generate_stream : Text × S → List Chunk → List StreamEvent
  unfolding finish sent_on push_bytes after_push
  generate_stream state [] = sent_on (finish state)
  generate_stream state (received bytes ∷ chunks) =
      after_push (push_bytes state bytes) (λ state'. generate_stream state' chunks)
  generate_stream state (read_failed error ∷ chunks) =
      failed (self.name ++ lit " stream read failed: " ++ error) ∷ []
