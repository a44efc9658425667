-- ===== src/Util/HexFormat.antt =====
-- util/HexFormat.hxx
use mpdscribble.Base.{ℕ, ◌+◌, ◌-◌, ◌/◌, ◌%◌, [], ◌∷◌, ◌++◌, Bytes, ltb, if◌then◌else◌}

-- `hex_digits[n]`, for n below 16
abbrev hex_digit : ℕ → ℕ
hex_digit n = if ltb n 10 then b'0' + n else b'a' + (n - 10)

-- HexFormatUint8Fixed()
unfoldable pub hex_format_uint8 : ℕ → Bytes
hex_format_uint8 number = hex_digit (number / 16 % 16) ∷ hex_digit (number % 16) ∷ []

-- HexFormat()
unfoldable pub hex_format : Bytes → Bytes
unfolding hex_format_uint8
hex_format [] = []
hex_format (i ∷ input) = hex_format_uint8 i ++ hex_format input
