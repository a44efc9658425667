-- ===== src/Text/Strip.antt =====
-- util/StringStrip.cxx and util/StringSplit.hxx. A `char *` is the bytes before its null byte, a
-- `std::string_view` the bytes in it, which may hold null bytes.
use mpdscribble.Base.{ℕ, [], ◌∷◌, Option, none, some, Bytes, ◌==◌, if◌then◌else◌, is_empty, ◌&&◌}
use mpdscribble.Text.Chars.{is_whitespace_or_null, is_whitespace_not_null}

-- StripLeft(const char *)
unfoldable pub strip_left : Bytes → Bytes
strip_left [] = []
strip_left (c ∷ s) = if is_whitespace_not_null c then strip_left s else c ∷ s

-- StripLeft(std::string_view)
unfoldable pub strip_left_view : Bytes → Bytes
strip_left_view [] = []
strip_left_view (c ∷ s) = if is_whitespace_or_null c then strip_left_view s else c ∷ s

-- StripRight(), which cuts the longest tail of such characters: a character is dropped if it is one
-- and nothing is left of what follows it.
unfoldable pub strip_right : Bytes → Bytes
strip_right [] = []
strip_right (c ∷ s) =
    let rest = strip_right s in if is_whitespace_or_null c && is_empty rest then [] else c ∷ rest

-- Strip(char *)
unfoldable pub strip : Bytes → Bytes
unfolding strip_left strip_right
strip s = strip_right (strip_left s)

-- Strip(std::string_view)
unfoldable pub strip_view : Bytes → Bytes
unfolding strip_left_view strip_right
strip_view s = strip_right (strip_left_view s)

abbrev prepend : ℕ → Option (Bytes × Bytes) → Option (Bytes × Bytes)
prepend c none = none
prepend c (some (a, b)) = some (c ∷ a, b)

-- Split(), and `strchr` with the bytes before and behind: `none` if the character is not found.
unfoldable pub split : Bytes → ℕ → Option (Bytes × Bytes)
split [] ch = none
split (c ∷ s) ch = if c == ch then some ([], s) else prepend c (split s ch)
