-- ===== src/Sse/Calls.antt =====
-- The tool calls that an accumulator of src/providers/gemini.rs records: one for each id, in the place
-- of its first occurrence.
use simple_claw.Base.{
  ◌≡◌, refl, sym, ap, subst, ◌∙◌, ℕ, zero, suc, Text, List, [], ◌∷◌, ◌++◌, Option, none, some, Bool,
  true, false, arith, ◌==◌, length, if◌then◌else◌, Bool-cases, Option-cases, inl, inr, text_eq_iff,
}
use simple_claw.Base.Dict.{Dict, get, insert, get-insert}
use simple_claw.Agent.{ToolCall}

-- `self.tool_calls[index] = tool_call`; the index is below the length.
unfoldable pub set_at : List ToolCall → ℕ → ToolCall → List ToolCall
set_at [] i call = []
set_at (x ∷ xs) zero call = call ∷ xs
set_at (x ∷ xs) (suc i) call = x ∷ set_at xs i call

pub record Recorded : Type 0 where
  pub tool_call_indices_by_id : Dict ℕ
  pub tool_calls : List ToolCall

place : Recorded → ToolCall → Text → Option ℕ → Recorded
place self call id (some index) = record self { tool_calls = set_at self.tool_calls index call }
place self call id none = record {
  tool_call_indices_by_id = insert self.tool_call_indices_by_id id (length self.tool_calls);
  tool_calls = self.tool_calls ++ call ∷ [];
}

record_as : Recorded → ToolCall → Option Text → Recorded
unfolding place
record_as self call none = record self { tool_calls = self.tool_calls ++ call ∷ [] }
record_as self call (some id) = place self call id (get self.tool_call_indices_by_id id)

unfoldable pub record_tool_call : Recorded → ToolCall → Recorded
unfolding record_as
record_tool_call self call = record_as self call call.id

-- Whether a call has an id.
abbrev has_id : Text → Option Text → Bool
has_id id none = false
has_id id (some j) = j == id

-- The specification: the call takes the place of the one with its id, or comes last.
pub upsert_as : Option Text → ToolCall → List ToolCall → List ToolCall
upsert_as none call calls = calls ++ call ∷ []
upsert_as (some id) call [] = call ∷ []
upsert_as (some id) call (x ∷ xs) =
    if has_id id x.id then call ∷ xs else x ∷ upsert_as (some id) call xs

pub upsert : ToolCall → List ToolCall → List ToolCall
unfolding upsert_as
upsert call calls = upsert_as call.id call calls

after_first : Option ℕ → Option ℕ
after_first none = none
after_first (some i) = some (suc i)

-- Where the first call with an id stands.
unfoldable pub index_of : Text → List ToolCall → Option ℕ
unfolding after_first
index_of id [] = none
index_of id (x ∷ xs) =
    let rest = after_first (index_of id xs) in if has_id id x.id then some 0 else rest

-- The table has the place of each id.
abbrev pub IsIndexed : Recorded → Type 0
IsIndexed self = (id : Text) → get self.tool_call_indices_by_id id ≡ index_of id self.tool_calls

upsert_as-absent :
    (id : Text) (call : ToolCall) (calls : List ToolCall)
    → index_of id calls ≡ none
    → upsert_as (some id) call calls ≡ calls ++ call ∷ []
unfolding upsert_as index_of
upsert_as-absent id call [] h = refl
upsert_as-absent id call (x ∷ xs) h = elim (Bool-cases (has_id id x.id)) [
  | inl e ↦ absurd (ground arith)
  | inr e ↦ rw e (ap (λ l. x ∷ l) (upsert_as-absent id call xs (ground arith)))
]

set_at-upsert_as :
    (id : Text) (call : ToolCall) (calls : List ToolCall) (i : ℕ)
    → index_of id calls ≡ some i
    → set_at calls i call ≡ upsert_as (some id) call calls
unfolding upsert_as index_of set_at
set_at-upsert_as id call [] i h = absurd (ground arith)
set_at-upsert_as id call (x ∷ xs) zero h = elim (Bool-cases (has_id id x.id)) [
  | inl e ↦ rw e refl
  | inr e ↦ absurd (ground (arith, Option-cases (index_of id xs)))
]
set_at-upsert_as id call (x ∷ xs) (suc i) h = elim (Bool-cases (has_id id x.id)) [
  | inl e ↦ absurd (ground arith)
  | inr e ↦ rw e (
      ap (λ l. x ∷ l)
        (set_at-upsert_as id call xs i (ground (arith, Option-cases (index_of id xs)))))
]

has_id-some : (id : Text) (o : Option Text) → has_id id o ≡ true → o ≡ some id
has_id-some id none h = absurd (ground arith)
has_id-some id (some j) h = ap some ((text_eq_iff j id).0 h)

index_of-set_at :
    (id j : Text) (call : ToolCall) (calls : List ToolCall) (i : ℕ)
    → call.id ≡ some id
    → index_of id calls ≡ some i
    → index_of j (set_at calls i call) ≡ index_of j calls
unfolding index_of set_at
index_of-set_at id j call [] i e h = refl
index_of-set_at id j call (x ∷ xs) zero e h = elim (Bool-cases (has_id id x.id)) [
  | inl k ↦
      let same : has_id j call.id ≡ has_id j x.id =
        ap (has_id j) (e ∙ sym (has_id-some id x.id k)) in
      rw same refl
  | inr k ↦ absurd (ground (arith, Option-cases (index_of id xs)))
]
index_of-set_at id j call (x ∷ xs) (suc i) e h = elim (Bool-cases (has_id id x.id)) [
  | inl k ↦ absurd (ground arith)
  | inr k ↦
      let rest = index_of-set_at id j call xs i e (ground (arith, Option-cases (index_of id xs))) in
      rw rest refl
]

or_last : Option ℕ → Bool → ℕ → Option ℕ
or_last (some i) last n = some i
or_last none last n = if last then some n else none

index_of-append :
    (j : Text) (call : ToolCall) (calls : List ToolCall)
    → index_of j (calls ++ call ∷ []) ≡ or_last (index_of j calls) (has_id j call.id) (length calls)
unfolding index_of or_last
index_of-append j call [] = refl
index_of-append j call (x ∷ xs) =
    ground (arith, index_of-append j call xs, Option-cases (index_of j xs))

or_last-false : (o : Option ℕ) (n : ℕ) → or_last o false n ≡ o
unfolding or_last
or_last-false none n = refl
or_last-false (some i) n = refl

has_id-eq : (id j : Text) (o : Option Text) → o ≡ some id → has_id j o ≡ (id == j)
has_id-eq id j o e = rw e refl

added :
    (self : Recorded) (call : ToolCall) (id j : Text)
    → IsIndexed self
    → call.id ≡ some id
    → index_of id self.tool_calls ≡ none
    → get (insert self.tool_call_indices_by_id id (length self.tool_calls)) j
      ≡ index_of j (self.tool_calls ++ call ∷ [])
unfolding or_last
added self call id j indexed e absent =
    let n = length self.tool_calls in
    let appended = index_of-append j call self.tool_calls in
    let eq = has_id-eq id j call.id e in
    elim (Bool-cases (id == j)) [
      | inl k ↦
          let gone : index_of j self.tool_calls ≡ none =
            subst (λ x. index_of x self.tool_calls ≡ none) ((text_eq_iff id j).0 k) absent in
          rw (get-insert self.tool_call_indices_by_id id j n, appended, eq, k, gone) refl
      | inr k ↦
          rw (get-insert self.tool_call_indices_by_id id j n, appended, eq, k, indexed j)
            (sym (or_last-false (index_of j self.tool_calls) n))
    ]

placed :
    (self : Recorded) (call : ToolCall) (id : Text) (known : Option ℕ)
    → IsIndexed self
    → call.id ≡ some id
    → get self.tool_call_indices_by_id id ≡ known
    → ((place self call id known).tool_calls ≡ upsert_as (some id) call self.tool_calls)
      × IsIndexed (place self call id known)
unfolding place
placed self call id (some i) indexed e h =
    let at = sym (indexed id) ∙ h in
    (
      set_at-upsert_as id call self.tool_calls i at,
      λ j. indexed j ∙ sym (index_of-set_at id j call self.tool_calls i e at),
    )
placed self call id none indexed e h =
    let absent = sym (indexed id) ∙ h in
    (
      sym (upsert_as-absent id call self.tool_calls absent),
      λ j. added self call id j indexed e absent,
    )

recorded :
    (self : Recorded) (call : ToolCall) (id : Option Text)
    → IsIndexed self
    → call.id ≡ id
    → ((record_as self call id).tool_calls ≡ upsert_as id call self.tool_calls)
      × IsIndexed (record_as self call id)
unfolding record_as upsert_as
recorded self call none indexed e = (
  refl,
  λ j.
      indexed j
      ∙ sym (or_last-false (index_of j self.tool_calls) (length self.tool_calls))
      ∙ ap (λ o. or_last (index_of j self.tool_calls) (has_id j o) (length self.tool_calls)) (sym e)
      ∙ sym (index_of-append j call self.tool_calls),
)
recorded self call (some id) indexed e =
    placed self call id (get self.tool_call_indices_by_id id) indexed e refl

-- Recording a call keeps the calls and the table together: the call takes the place of the one with its
-- id, if there is one, and comes last otherwise, and the table has the place of each id again.
pub record_tool_call-upsert :
    (self : Recorded) (call : ToolCall)
    → IsIndexed self
    → ((record_tool_call self call).tool_calls ≡ upsert call self.tool_calls)
      × IsIndexed (record_tool_call self call)
unfolding record_tool_call upsert
record_tool_call-upsert self call indexed = recorded self call call.id indexed refl
