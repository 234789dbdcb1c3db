-- ===== src/Turns/Bytes.antt =====
-- The byte positions of Rust's `str`, of which src/turn/prepare.rs makes slices.
use simple_claw.Base.{
  ℕ, zero, suc, ◌+◌, ◌-◌, Text, [], ◌∷◌, map, Option, none, some, Bool, ◌&&◌, ltb, leb,
  if◌then◌else◌, ◌==◌,
}

-- `char::len_utf8`
unfoldable pub len_utf8 : ℕ → ℕ
len_utf8 c = if ltb c 0x80 then 1 else if ltb c 0x800 then 2 else if ltb c 0x10000 then 3 else 4

-- `str::len`
unfoldable pub byte_len : Text → ℕ
byte_len [] = 0
byte_len (c ∷ t) = len_utf8 c + byte_len t

abbrev pub under : ℕ → Option (Text × Text) → Option (Text × Text)
under c none = none
under c (some (head, rest)) = some (c ∷ head, rest)

-- `&t[..n]` and `&t[n..]`; none where the slice panics, since n is inside a character or past the end.
unfoldable pub split_at : ℕ → Text → Option (Text × Text)
split_at zero t = some ([], t)
split_at (suc n) [] = none
split_at (suc n) (c ∷ t) =
    let rest = split_at (suc n - len_utf8 c) t in
    if leb (len_utf8 c) (suc n) then under c rest else none

-- `u8::to_ascii_lowercase`
unfoldable pub to_ascii_lowercase : ℕ → ℕ
to_ascii_lowercase c = if leb 65 c && leb c 90 then c + 32 else c

-- `str::eq_ignore_ascii_case`
unfoldable pub eq_ignore_ascii_case : Text → Text → Bool
eq_ignore_ascii_case a b = map to_ascii_lowercase a == map to_ascii_lowercase b
