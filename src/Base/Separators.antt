-- ===== src/Base/Separators.antt =====
-- Texts that are joined by a separator can be told apart.
use mathlib.Core.List.{
  [], ◌∷◌, ◌++◌, append_assoc, reverse, reverse-cons, reverse-append, reverse-reverse,
}
use mathlib.Core.Path.{◌≡◌, refl, sym, ap, ◌∙◌}
use mathlib.Core.Logic.{◌≢◌}
use Prim.Native.Nat.{ℕ}
use simple_claw.Base.Texts.{Text}

-- The text does not hold the code point.
abbrev pub Lacks : ℕ → Text → Type 0
Lacks c [] = Unit
Lacks c (x ∷ xs) = (x ≢ c) × Lacks c xs

pub Lacks-append : (c : ℕ) (xs ys : Text) → Lacks c xs → Lacks c ys → Lacks c (xs ++ ys)
Lacks-append c [] ys h k = k
Lacks-append c (x ∷ xs) ys (n, h) k = (n, Lacks-append c xs ys h k)

Lacks-reverse : (c : ℕ) (xs : Text) → Lacks c xs → Lacks c (reverse xs)
Lacks-reverse c [] h = tt
Lacks-reverse c (x ∷ xs) (n, h) =
    rw reverse-cons (Lacks-append c (reverse xs) (x ∷ []) (Lacks-reverse c xs h) (n, tt))

-- The first separator splits a text in one way.
pub split_first :
    (c : ℕ) (a b : Text) {x y : Text}
    → Lacks c a
    → Lacks c b
    → a ++ c ∷ x ≡ b ++ c ∷ y
    → (a ≡ b) × (x ≡ y)
split_first c [] [] h k e = (refl, cc)
split_first c [] (d ∷ b) h (n, k) e = absurd (n (cc))
split_first c (d ∷ a) [] (n, h) k e = absurd (n (cc))
split_first c (d ∷ a) (d' ∷ b) (n, h) (n', k) e = let (p, q) = split_first c a b h k (cc) in (cc, q)

pub append-cancel_left : (s : Text) {a b : Text} → s ++ a ≡ s ++ b → a ≡ b
append-cancel_left [] e = e
append-cancel_left (c ∷ s) e = append-cancel_left s (cc)

reverse-injective : (xs ys : Text) → reverse xs ≡ reverse ys → xs ≡ ys
reverse-injective xs ys e = sym (reverse-reverse xs) ∙ ap reverse e ∙ reverse-reverse ys

reverse-mid : (a : Text) (c : ℕ) (x : Text) → reverse (a ++ c ∷ x) ≡ reverse x ++ c ∷ reverse a
reverse-mid a c x = simp (reverse-append, reverse-cons, append_assoc)

-- So does the last one.
pub split_last :
    (c : ℕ) (a b : Text) {x y : Text}
    → Lacks c x
    → Lacks c y
    → a ++ c ∷ x ≡ b ++ c ∷ y
    → (a ≡ b) × (x ≡ y)
split_last c a b {x} {y} h k e =
    let (p, q) =
      split_first c (reverse x) (reverse y) (Lacks-reverse c x h) (Lacks-reverse c y k)
        (sym (reverse-mid a c x) ∙ ap reverse e ∙ reverse-mid b c y) in
    (reverse-injective a b q, reverse-injective x y p)

-- A common end can be taken off.
pub append-cancel_right : (a b s : Text) → a ++ s ≡ b ++ s → a ≡ b
append-cancel_right a b s e =
    reverse-injective a b (
      append-cancel_left (reverse s) (sym (reverse-append a s) ∙ ap reverse e ∙ reverse-append b s))
