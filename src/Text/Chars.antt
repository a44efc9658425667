-- ===== src/Text/Chars.antt =====
-- util/CharUtil.hxx. A `char` is the number of its bits, from 0 to 255, so that the negative values of
-- the signed type stand from 128 on.
use mpdscribble.Base.{ℕ, ◌+◌, ◌-◌, Bool, ◌&&◌, ◌||◌, ltb, leb, if◌then◌else◌}

unfoldable pub is_ascii : ℕ → Bool
is_ascii c = ltb c 0x80

abbrev pub is_whitespace_or_null : ℕ → Bool
is_whitespace_or_null c = leb c 0x20

abbrev pub is_whitespace_not_null : ℕ → Bool
is_whitespace_not_null c = ltb 0 c && leb c 0x20

unfoldable pub is_printable_ascii : ℕ → Bool
is_printable_ascii c = leb 0x20 c && ltb c 0x80

unfoldable pub is_non_printable_ascii : ℕ → Bool
is_non_printable_ascii c = ltb c 0x20

abbrev pub is_digit_ascii : ℕ → Bool
is_digit_ascii c = leb b'0' c && leb c b'9'

unfoldable pub is_upper_alpha_ascii : ℕ → Bool
is_upper_alpha_ascii c = leb b'A' c && leb c b'Z'

unfoldable pub is_lower_alpha_ascii : ℕ → Bool
is_lower_alpha_ascii c = leb b'a' c && leb c b'z'

unfoldable pub is_alpha_ascii : ℕ → Bool
unfolding is_upper_alpha_ascii is_lower_alpha_ascii
is_alpha_ascii c = is_upper_alpha_ascii c || is_lower_alpha_ascii c

unfoldable pub is_alpha_numeric_ascii : ℕ → Bool
unfolding is_alpha_ascii
is_alpha_numeric_ascii c = is_alpha_ascii c || is_digit_ascii c

unfoldable pub to_upper_ascii : ℕ → ℕ
to_upper_ascii c = if leb b'a' c && leb c b'z' then c - (b'a' - b'A') else c

unfoldable pub to_lower_ascii : ℕ → ℕ
to_lower_ascii c = if leb b'A' c && leb c b'Z' then c + (b'a' - b'A') else c

unfoldable pub is_hex_digit : ℕ → Bool
is_hex_digit c = is_digit_ascii c || leb b'a' c && leb c b'f' || leb b'A' c && leb c b'F'
