-- ===== src/ReadConfig/Strtol.antt =====
-- `strtol(s, &endptr, 10)` where `long` has 64 bits.
use mpdscribble.Base.{
  ℕ, ◌+◌, ◌-◌, ◌*◌, ◌^◌, Bool, false, ◌&&◌, ◌||◌, [], ◌∷◌, Option, none, some, Bytes, ◌==◌, leb,
  ltb, if◌then◌else◌,
}
use mpdscribble.Base.Int.{ℤ, pos, neg}
use mpdscribble.Text.Chars.{is_digit_ascii}

-- the number that the digits in front make behind `acc`, and what is left
unfoldable pub take_digits : ℕ → Bytes → ℕ × Bytes
take_digits acc [] = (acc, [])
take_digits acc (c ∷ s) =
    let rest = take_digits (acc * 10 + (c - b'0')) s in
    if is_digit_ascii c then rest else (acc, c ∷ s)

abbrev at_most : ℕ → ℕ → ℕ
at_most max n = if ltb max n then max else n

abbrev positive : ℕ × Bytes → ℤ × Bytes
positive (n, rest) = (pos (at_most (2 ^ 63 - 1) n), rest)

abbrev negative : ℕ × Bytes → ℤ × Bytes
negative (n, rest) = (neg (at_most (2 ^ 63) n), rest)

abbrev starts_with_digit : Bytes → Bool
starts_with_digit [] = false
starts_with_digit (c ∷ s) = is_digit_ascii c

unfoldable pub read_signed : Bytes → Option (ℤ × Bytes)
unfolding take_digits
read_signed [] = none
read_signed (c ∷ s) =
    if c == b'-'
    then if starts_with_digit s then some (negative (take_digits 0 s)) else none
    else if c == b'+'
    then if starts_with_digit s then some (positive (take_digits 0 s)) else none
    else if is_digit_ascii c
    then some (positive (take_digits 0 (c ∷ s)))
    else none

-- `none` if there is no number: `endptr == s`
unfoldable pub strtol : Bytes → Option (ℤ × Bytes)
unfolding read_signed
strtol [] = none
strtol (c ∷ s) =
    let rest = strtol s in if c == b' ' || leb 9 c && leb c 13 then rest else read_signed (c ∷ s)
