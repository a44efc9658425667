-- ===== src/Text/Lines.antt =====
-- Reading a text file in a loop over `fgets()`.
use mpdscribble.Base.{
  ℕ, ◌-◌, ◌<◌, ◌≡◌, false, List, [], ◌∷◌, ◌++◌, arith, Bytes, ◌==◌, if◌then◌else◌, ◌||◌, length,
}

-- A byte in front of the line that is being read.
abbrev onto_line : ℕ → List Bytes → List Bytes
onto_line c [] = (c ∷ []) ∷ []
onto_line c (line ∷ lines) = (c ∷ line) ∷ lines

-- What each call of `fgets(buffer, size, file)` puts into the buffer, up to the end of the file: a call
-- stops behind a newline or after `size - 1` bytes. `room` is what is left of that for the first call.
unfoldable pub fgets_lines : ℕ → ℕ → Bytes → List Bytes
fgets_lines size room [] = []
fgets_lines size room (c ∷ file) =
    let stops = c == b'\n' || room == 1 in
    let rest = fgets_lines size (if stops then size - 1 else room - 1) file in
    if stops then (c ∷ []) ∷ rest else onto_line c rest

-- The bytes of a line that fits into the buffer, without its newline.
abbrev pub HasNoNewline : Bytes → Type 0
HasNoNewline [] = Unit
HasNoNewline (c ∷ s) = ((c == b'\n') ≡ false) × HasNoNewline s

-- A line that is short enough is read by one call.
pub fgets_lines-line :
    (size room : ℕ) (line rest : Bytes)
    → HasNoNewline line
    → length line < room
    → fgets_lines size room (line ++ (b'\n' ∷ rest))
      ≡ (line ++ (b'\n' ∷ [])) ∷ fgets_lines size (size - 1) rest
unfolding fgets_lines
fgets_lines-line size room [] rest h l = ground arith
fgets_lines-line size room (c ∷ line) rest h l =
    ground (arith, fgets_lines-line size (room - 1) line rest h.1)
