-- ===== src/Base/Show.antt =====
-- The decimal text of an integer (`Display` of `u64`, `usize` and `i64`).
use Prim.Native.Nat.{ℕ, zero, suc, ◌+◌, ◌-◌, ◌*◌, ◌/◌, ◌%◌, ◌^◌, ◌<◌}
use mathlib.Core.Path.{◌≡◌, refl, ap, sym, ◌∙◌}
use mathlib.Core.List.{[], ◌∷◌, ◌++◌}
use native.Mathlib.Omega.{arith}
use mathlib.Core.Logic.{inl, inr}
use mathlib.Core.Bool.{false}
use simple_claw.Base.Tests.{ltb, if◌then◌else◌, Bool-cases}
use simple_claw.Base.Texts.{Text, is_empty}
use simple_claw.Base.Separators.{Lacks, Lacks-append}

abbrev last_digit : ℕ → Text
last_digit n = (48 + n % 10) ∷ []

-- The first argument bounds the number of digits.
digits : ℕ → ℕ → Text
digits zero n = []
digits (suc f) n =
    let more = digits f (n / 10) ++ last_digit n in if ltb n 10 then last_digit n else more

unfoldable pub show : ℕ → Text
unfolding digits
show n = digits (suc n) n

value_from : ℕ → Text → ℕ
value_from acc [] = acc
value_from acc (d ∷ ds) = value_from (acc * 10 + (d - 48)) ds

value_from-append :
    (acc : ℕ) (xs : Text) (d : ℕ)
    → value_from acc (xs ++ d ∷ []) ≡ value_from acc xs * 10 + (d - 48)
unfolding value_from
value_from-append acc [] d = refl
value_from-append acc (x ∷ xs) d = value_from-append (acc * 10 + (x - 48)) xs d

value_from-digits : (f n : ℕ) → n < f → value_from 0 (digits f n) ≡ n
unfolding digits value_from
value_from-digits zero n h = elim h [ ]
value_from-digits (suc f) n h =
    ground
      (arith, value_from-append 0 (digits f (n / 10)) (48 + n % 10), value_from-digits f (n / 10))

-- Two numbers with the same decimal text are equal.
pub show-injective : (m n : ℕ) → show m ≡ show n → m ≡ n
unfolding show
show-injective m n e =
    sym (value_from-digits (suc m) m (omega arith))
    ∙ ap (value_from 0) e
    ∙ value_from-digits (suc n) n (omega arith)

-- An `i64` is its bit pattern, a number below 2 ^ 64.
unfoldable pub show_i64 : ℕ → Text
unfolding show
show_i64 p = if ltb p (2 ^ 63) then show p else b'-' ∷ show (2 ^ 64 - p)

-- No decimal text holds a code point above `9`, such as a colon.
digits-Lacks : (c f n : ℕ) → 57 < c → Lacks c (digits f n)
unfolding digits
digits-Lacks c zero n h = tt
digits-Lacks c (suc f) n h = elim (Bool-cases (ltb n 10)) [
  | inl small ↦ rw small (omega arith, tt)
  | inr large ↦ rw large (
      Lacks-append c (digits f (n / 10)) (last_digit n) (digits-Lacks c f (n / 10) h)
        (omega arith, tt))
]

pub show_i64-Lacks : (c p : ℕ) → 57 < c → Lacks c (show_i64 p)
unfolding show_i64
show_i64-Lacks c p h = elim (Bool-cases (ltb p (2 ^ 63))) [
  | inl small ↦ rw small (digits-Lacks c (suc p) p h)
  | inr large ↦ rw large (omega arith, digits-Lacks c (suc (2 ^ 64 - p)) (2 ^ 64 - p) h)
]

-- Below 2 ^ 63 the text of an `i64` determines it.
pub show_i64-injective : (p q : ℕ) → p < 2 ^ 63 → q < 2 ^ 63 → show_i64 p ≡ show_i64 q → p ≡ q
unfolding show_i64
show_i64-injective p q hp hq e = ground (arith, show-injective p q)

-- No decimal text of a natural number holds a code point below `0`, such as a dot or a slash.
digits-Lacks_low : (c f n : ℕ) → c < 48 → Lacks c (digits f n)
unfolding digits
digits-Lacks_low c zero n h = tt
digits-Lacks_low c (suc f) n h = elim (Bool-cases (ltb n 10)) [
  | inl small ↦ rw small (omega arith, tt)
  | inr large ↦ rw large (
      Lacks-append c (digits f (n / 10)) (last_digit n) (digits-Lacks_low c f (n / 10) h)
        (omega arith, tt))
]

pub show-Lacks_low : (c n : ℕ) → c < 48 → Lacks c (show n)
unfolding show
show-Lacks_low c n h = digits-Lacks_low c (suc n) n h

append-not_empty : (t : Text) (c : ℕ) → is_empty (t ++ c ∷ []) ≡ false
unfolding is_empty
append-not_empty [] c = refl
append-not_empty (d ∷ t) c = refl

pub show-not_empty : (n : ℕ) → is_empty (show n) ≡ false
unfolding show digits is_empty
show-not_empty n = elim (Bool-cases (ltb n 10)) [
  | inl small ↦ rw small refl
  | inr large ↦ rw large (append-not_empty (digits n (n / 10)) (48 + n % 10))
]
