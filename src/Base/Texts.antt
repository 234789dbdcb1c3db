-- ===== src/Base/Texts.antt =====
-- Texts are lists of code points: Rust's `String` and `&str`.
use Prim.Native.Nat.{ℕ, suc}
use Prim.Native.Char.{code}
use Prim.Native.String.{String}
use mathlib.Core.Path.{◌≡◌, refl}
use mathlib.Core.Logic.{◌↔◌, inl, inr}
use mathlib.Core.Bool.{Bool, true, false, not, ◌&&◌, ◌||◌}
use mathlib.Core.List.{List, [], ◌∷◌, ◌++◌}
use native.Mathlib.Omega.{arith}
use native.Mathlib.Decide.{ℕ_discrete}
use simple_claw.Base.Tests.{Bool-cases, leb, eqb, if◌then◌else◌}
use simple_claw.Base.Lists.{All}

abbrev pub Text : Type 0
Text = List ℕ

unfoldable pub text_discrete : Discrete Text
unfolding ℕ_discrete
text_discrete = hlevel ℕ_discrete

infix 50 ◌==◌
abbrev pub ◌==◌ : Text → Text → Bool
a == b = elim (text_discrete a b) [ yes _ ↦ true | no _ ↦ false ]

pub text_eq_iff : (a b : Text) → ((a == b) ≡ true) ↔ (a ≡ b)
text_eq_iff a b = ground arith

pub text_eq_refl : (a : Text) → (a == a) ≡ true
text_eq_refl a = ground arith

-- A text literal. It stays shut, so that a statement shows the literal.
unfoldable pub lit : String → Text
lit String.[] = []
lit (String.◌∷◌ c s) = code c ∷ lit s

-- `char::is_whitespace`: the code points with the Unicode property White_Space.
unfoldable pub is_whitespace : ℕ → Bool
is_whitespace c =
    (leb 9 c && leb c 13)
    || eqb c 32
    || eqb c 0x85
    || eqb c 0xA0
    || eqb c 0x1680
    || (leb 0x2000 c && leb c 0x200A)
    || eqb c 0x2028
    || eqb c 0x2029
    || eqb c 0x202F
    || eqb c 0x205F
    || eqb c 0x3000

unfoldable pub trim_start : Text → Text
trim_start [] = []
trim_start (c ∷ s) = let rest = trim_start s in if is_whitespace c then rest else c ∷ s

abbrev keep_unless_blank : Bool → ℕ → Text → Text
keep_unless_blank true c [] = []
keep_unless_blank _ c s = c ∷ s

unfoldable pub trim_end : Text → Text
trim_end [] = []
trim_end (c ∷ s) = keep_unless_blank (is_whitespace c) c (trim_end s)

-- `str::trim`
unfoldable pub trim : Text → Text
unfolding trim_start trim_end is_whitespace
trim s = trim_end (trim_start s)

unfoldable pub is_empty : Text → Bool
is_empty [] = true
is_empty (_ ∷ _) = false

-- Whether a text begins with another one.
unfoldable pub starts_with : Text → Text → Bool
starts_with s [] = true
starts_with [] (p ∷ ps) = false
starts_with (c ∷ s) (p ∷ ps) = eqb c p && starts_with s ps

trim_end-append :
    (t : Text) (d : ℕ) → is_whitespace d ≡ false → trim_end (t ++ d ∷ []) ≡ t ++ d ∷ []
unfolding trim_end
trim_end-append [] d h = rw h refl
trim_end-append (c ∷ []) d h = elim (Bool-cases (is_whitespace c)) [
  | inl e ↦ rw (trim_end-append [] d h, e) refl
  | inr e ↦ rw (trim_end-append [] d h, e) refl
]
trim_end-append (c ∷ b ∷ t) d h = elim (Bool-cases (is_whitespace c)) [
  | inl e ↦ rw (trim_end-append (b ∷ t) d h, e) refl
  | inr e ↦ rw (trim_end-append (b ∷ t) d h, e) refl
]

-- Nothing is trimmed off a text that begins and ends with a visible character.
pub trim-visible :
    (c : ℕ) (t : Text) (d : ℕ)
    → is_whitespace c ≡ false
    → is_whitespace d ≡ false
    → trim (c ∷ t ++ d ∷ []) ≡ c ∷ t ++ d ∷ []
unfolding trim trim_start
trim-visible c t d h k = rw h (trim_end-append (c ∷ t) d k)

-- `split_whitespace().count()`; the test tells whether a word has begun.
unfoldable pub words : Bool → Text → ℕ
words inside [] = 0
words inside (c ∷ s) =
    let rest = words (not (is_whitespace c)) s in
    if is_whitespace c || inside then rest else suc rest

-- Trimming keeps what holds of each character.
module _ (P : ℕ → Type 0) where
  trim_start-All : (s : Text) → All P s → All P (trim_start s)
  unfolding trim_start
  trim_start-All [] h = tt
  trim_start-All (c ∷ s) (h, hs) = elim (Bool-cases (is_whitespace c)) [
    | inl e ↦ rw e (trim_start-All s hs)
    | inr e ↦ rw e (h, hs)
  ]

  keep_unless_blank-All :
      (b : Bool) (c : ℕ) (s : Text) → P c → All P s → All P (keep_unless_blank b c s)
  keep_unless_blank-All true c [] h hs = tt
  keep_unless_blank-All true c (d ∷ s) h hs = (h, hs)
  keep_unless_blank-All false c s h hs = (h, hs)

  trim_end-All : (s : Text) → All P s → All P (trim_end s)
  unfolding trim_end
  trim_end-All [] h = tt
  trim_end-All (c ∷ s) (h, hs) =
      keep_unless_blank-All (is_whitespace c) c (trim_end s) h (trim_end-All s hs)

  pub trim-All : (s : Text) → All P s → All P (trim s)
  unfolding trim
  trim-All s h = trim_end-All (trim_start s) (trim_start-All s h)

-- A text that begins, and one that ends, with a visible character, or is empty.
abbrev pub StartVisible : Text → Type 0
StartVisible [] = Unit
StartVisible (c ∷ s) = is_whitespace c ≡ false

abbrev pub EndVisible : Text → Type 0
EndVisible [] = Unit
EndVisible (c ∷ []) = is_whitespace c ≡ false
EndVisible (c ∷ d ∷ s) = EndVisible (d ∷ s)

pub EndVisible-tail : (c : ℕ) (s : Text) → EndVisible (c ∷ s) → EndVisible s
EndVisible-tail c [] h = tt
EndVisible-tail c (d ∷ s) h = h

trim_start-StartVisible : (s : Text) → StartVisible (trim_start s)
unfolding trim_start
trim_start-StartVisible [] = tt
trim_start-StartVisible (c ∷ s) = elim (Bool-cases (is_whitespace c)) [
  | inl e ↦ rw e (trim_start-StartVisible s)
  | inr e ↦ rw e e
]

keep_unless_blank-EndVisible :
    (b : Bool) (c : ℕ) (s : Text)
    → is_whitespace c ≡ b
    → EndVisible s
    → EndVisible (keep_unless_blank b c s)
keep_unless_blank-EndVisible true c [] e h = tt
keep_unless_blank-EndVisible true c (d ∷ s) e h = h
keep_unless_blank-EndVisible false c [] e h = e
keep_unless_blank-EndVisible false c (d ∷ s) e h = h

trim_end-EndVisible : (s : Text) → EndVisible (trim_end s)
unfolding trim_end
trim_end-EndVisible [] = tt
trim_end-EndVisible (c ∷ s) =
    keep_unless_blank-EndVisible (is_whitespace c) c (trim_end s) refl (trim_end-EndVisible s)

trim_end-StartVisible : (s : Text) → StartVisible s → StartVisible (trim_end s)
unfolding trim_end
trim_end-StartVisible [] h = tt
trim_end-StartVisible (c ∷ s) h = rw h h

pub trim-StartVisible : (s : Text) → StartVisible (trim s)
unfolding trim
trim-StartVisible s = trim_end-StartVisible (trim_start s) (trim_start-StartVisible s)

pub trim-EndVisible : (s : Text) → EndVisible (trim s)
unfolding trim
trim-EndVisible s = trim_end-EndVisible (trim_start s)

trim_end-same : (s : Text) → EndVisible s → trim_end s ≡ s
unfolding trim_end
trim_end-same [] h = refl
trim_end-same (c ∷ []) h = rw h refl
trim_end-same (c ∷ d ∷ s) h = elim (Bool-cases (is_whitespace c)) [
  | inl e ↦ rw (trim_end-same (d ∷ s) h, e) refl
  | inr e ↦ rw (trim_end-same (d ∷ s) h, e) refl
]

trim_start-same : (s : Text) → StartVisible s → trim_start s ≡ s
unfolding trim_start
trim_start-same [] h = refl
trim_start-same (c ∷ s) h = rw h refl

-- Nothing is trimmed off a text that begins and ends visibly.
pub trim-same : (s : Text) → StartVisible s → EndVisible s → trim s ≡ s
unfolding trim
trim-same s h k = rw (trim_start-same s h) (trim_end-same s k)
