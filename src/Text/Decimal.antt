-- ===== src/Text/Decimal.antt =====
-- What the program uses of `printf("%u")`, `printf("%i")` and `atoi`.
use mpdscribble.Base.{
  ℕ, zero, suc, ◌+◌, ◌-◌, ◌*◌, ◌/◌, ◌%◌, ◌^◌, ◌≤◌, ◌<◌, length, ◌≡◌, refl, ap, ◌∙◌, Bool, true, [],
  ◌∷◌, arith, Bytes, ◌==◌, leb, if◌then◌else◌, ◌&&◌, ◌||◌,
}
use mpdscribble.Base.Int.{ℤ, pos, negsuc, neg}
use mpdscribble.Text.Chars.{is_digit_ascii}

-- The digits of `n` in front of `acc`; fuel above `n` is enough.
digits_onto : ℕ → ℕ → Bytes → Bytes
digits_onto zero n acc = acc
digits_onto (suc f) n acc =
    let more = digits_onto f (n / 10) ((b'0' + n % 10) ∷ acc) in
    if n / 10 == 0 then (b'0' + n % 10) ∷ acc else more

unfoldable pub decimal : ℕ → Bytes
unfolding digits_onto
decimal n = digits_onto (suc n) n []

unfoldable pub decimal_int : ℤ → Bytes
unfolding decimal
decimal_int (pos n) = decimal n
decimal_int (negsuc n) = b'-' ∷ decimal (suc n)

read_digits : ℕ → Bytes → ℕ
read_digits acc [] = acc
read_digits acc (c ∷ s) = if is_digit_ascii c then read_digits (acc * 10 + (c - b'0')) s else acc

-- `isspace` of the C locale
abbrev is_space : ℕ → Bool
is_space c = c == b' ' || leb 9 c && leb c 13

read_sign : Bytes → ℤ
unfolding read_digits
read_sign [] = pos 0
read_sign (c ∷ s) =
    if c == b'-'
    then neg (read_digits 0 s)
    else if c == b'+'
    then pos (read_digits 0 s)
    else pos (read_digits 0 (c ∷ s))

-- A value outside `int` is undefined behaviour of `atoi`; here it is the number that is written.
unfoldable pub atoi : Bytes → ℤ
unfolding read_sign
atoi [] = pos 0
atoi (c ∷ s) = if is_space c then atoi s else read_sign (c ∷ s)

read_digits-digits_onto :
    (f n : ℕ) (acc : Bytes) → n < f → read_digits 0 (digits_onto f n acc) ≡ read_digits n acc
unfolding read_digits digits_onto
read_digits-digits_onto zero n acc h = elim h [ ]
read_digits-digits_onto (suc f) n acc h =
    ground (arith, read_digits-digits_onto f (n / 10) ((b'0' + n % 10) ∷ acc))

-- `digits_onto` begins with a digit.
abbrev StartsWithDigit : Bytes → Type 0
StartsWithDigit [] = Unit
StartsWithDigit (c ∷ s) = is_digit_ascii c ≡ true

digits_onto-StartsWithDigit :
    (f n : ℕ) (acc : Bytes) → StartsWithDigit acc → StartsWithDigit (digits_onto f n acc)
unfolding digits_onto
digits_onto-StartsWithDigit zero n acc h = h
digits_onto-StartsWithDigit (suc f) n acc h =
    ground (arith, digits_onto-StartsWithDigit f (n / 10) ((b'0' + n % 10) ∷ acc))

atoi-digit : (s : Bytes) → StartsWithDigit s → atoi s ≡ pos (read_digits 0 s)
unfolding atoi read_digits
atoi-digit [] h = refl
atoi-digit (c ∷ s) h = ground arith

-- Reading back a printed number gives it.
pub atoi-decimal : (n : ℕ) → atoi (decimal n) ≡ pos n
unfolding decimal read_digits
atoi-decimal n =
    atoi-digit (decimal n) (digits_onto-StartsWithDigit (suc n) n [] tt)
    ∙ ap pos (read_digits-digits_onto (suc n) n [] (omega arith))

abbrev pub IsDigits : Bytes → Type 0
IsDigits [] = Unit
IsDigits (c ∷ s) = (b'0' ≤ c) × (c ≤ b'9') × IsDigits s

digits_onto-IsDigits : (f n : ℕ) (acc : Bytes) → IsDigits acc → IsDigits (digits_onto f n acc)
unfolding digits_onto
digits_onto-IsDigits zero n acc h = h
digits_onto-IsDigits (suc f) n acc h =
    ground (arith, digits_onto-IsDigits f (n / 10) ((b'0' + n % 10) ∷ acc))

pub decimal-IsDigits : (n : ℕ) → IsDigits (decimal n)
unfolding decimal
decimal-IsDigits n = digits_onto-IsDigits (suc n) n [] tt

abbrev tens : ℕ → ℕ
tens zero = 1
tens (suc k) = 10 * tens k

length-digits_onto :
    (k f n : ℕ) (acc : Bytes) → n < tens (suc k) → length (digits_onto f n acc) ≤ suc k + length acc
unfolding digits_onto
length-digits_onto k zero n acc h = omega arith
length-digits_onto zero (suc f) n acc h = ground arith
length-digits_onto (suc k) (suc f) n acc h =
    ground (arith, length-digits_onto k f (n / 10) ((b'0' + n % 10) ∷ acc))

-- An `int` has ten digits at most.
pub length-decimal : (n : ℕ) → n < 2 ^ 31 → length (decimal n) ≤ 10
unfolding decimal
length-decimal n h = omega (arith, length-digits_onto 9 (suc n) n [])

decimal_runs : decimal 4096 ≡ b'4' ∷ b'0' ∷ b'9' ∷ b'6' ∷ []
unfolding decimal
decimal_runs = refl
