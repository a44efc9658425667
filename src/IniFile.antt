-- ===== src/IniFile.antt =====
-- IniFile.hxx and IniFile.cxx: the parser of the configuration file. A `std::map` is a list of pairs in
-- the order of its keys.
pub mod Maps
pub mod Sorted
pub mod Change
pub mod Safety
pub mod Pairs
mod Tests
use mpdscribble.Base.{
  ℕ, suc, Bool, true, false, not, ◌&&◌, ◌||◌, List, [], ◌∷◌, Option, none, some, Bytes, c_str,
  is_empty, ◌==◌, if◌then◌else◌,
}
use mpdscribble.IniFile.Maps.{Map, emplace, modify}
use mpdscribble.Text.Chars.{is_alpha_numeric_ascii}
use mpdscribble.Text.Lines.{fgets_lines}
use mpdscribble.Text.Strip.{strip_left_view, strip_right, strip_view, split}

abbrev pub IniSection : Type 0
IniSection = Map Bytes

abbrev pub IniFile : Type 0
IniFile = Map IniSection

-- the exceptions of IniParser::ParseLine(), in the order of the code
pub data IniError : Type 0 where
  missing_bracket invalid_section_name garbage_after_section : IniError
  duplicate_section : Bytes → IniError
  missing_equals invalid_key : IniError
  duplicate_key : Bytes → IniError
  syntax_error : IniError

-- What a call leaves: the parser, an exception, or the use of an iterator that points at nothing.
pub data Result {ℓ} (A : Type ℓ) : Type ℓ where
  parsed : A → Result A
  thrown : IniError → Result A
  undefined : Result A

-- IsValidSectionNameChar()
unfoldable pub is_valid_section_name_char : ℕ → Bool
is_valid_section_name_char c = is_alpha_numeric_ascii c || c == b'_' || c == b'-' || c == b'.'

-- IsValidKeyChar()
unfoldable pub is_valid_key_char : ℕ → Bool
is_valid_key_char c = is_alpha_numeric_ascii c || c == b'_'

-- the loops of IsValidSectionName() and IsValidKey()
abbrev pub all_chars : (ℕ → Bool) → Bytes → Bool
all_chars valid [] = true
all_chars valid (c ∷ s) = valid c && all_chars valid s

-- IsValidSectionName()
unfoldable pub is_valid_section_name : Bytes → Bool
is_valid_section_name name = not (is_empty name) && all_chars is_valid_section_name_char name

-- IsValidKey()
unfoldable pub is_valid_key : Bytes → Bool
is_valid_key key = not (is_empty key) && all_chars is_valid_key_char key

-- class IniParser; the iterator is the name of the section it points at, `none` before it is set.
pub record IniParser : Type 0 where
  pub data_map : IniFile
  pub section : Option Bytes

-- `IniParser parser;`
abbrev pub first_parser : IniParser
first_parser = record { data_map = []; section = none }

abbrev pub set_section : Bytes → IniParser → Option IniFile → Result IniParser
set_section name p none = thrown (duplicate_section name)
set_section name p (some m) = parsed (record { data_map = m; section = some name })

-- the branch for a new section, from what Split() returns on
unfoldable pub add_section : Option (Bytes × Bytes) → IniParser → Result IniParser
add_section none p = thrown missing_bracket
add_section (some (name, rest)) p =
    if not (is_valid_section_name (strip_view name))
    then thrown invalid_section_name
    else if not (is_empty (strip_left_view rest))
    then thrown garbage_after_section
    else set_section (strip_view name) p (emplace (strip_view name) [] p.data_map)

-- the branch for a new section, behind the bracket
unfoldable pub parse_section : Bytes → IniParser → Result IniParser
unfolding add_section
parse_section line p = add_section (split (strip_left_view line) b']') p

-- the section at the iterator, with the pair emplaced; the inner `none` is a duplicate key, the outer
-- one an iterator that points at nothing.
abbrev pub set_key : Bytes → Bytes → IniFile → Option Bytes → Option (Option IniFile)
set_key key value m none = none
set_key key value m (some name) = modify name (emplace key value) m

abbrev pub key_set : Bytes → Option Bytes → Option (Option IniFile) → Result IniParser
key_set key section none = undefined
key_set key section (some none) = thrown (duplicate_key key)
key_set key section (some (some m)) = parsed (record { data_map = m; section = section })

-- "if (data.empty()) section = data.emplace(std::string(), IniSection()).first"
unfoldable pub open_default : IniParser → IniParser
open_default p =
    if is_empty p.data_map then record { data_map = ([], []) ∷ []; section = some [] } else p

-- the end of the branch for a key, from the test for an empty map on
unfoldable pub add_key : Bytes → Bytes → IniParser → Result IniParser
add_key key value p = key_set key p.section (set_key key value p.data_map p.section)

-- the branch for a key, from what Split() returns on
unfoldable pub add_pair : Option (Bytes × Bytes) → IniParser → Result IniParser
unfolding open_default add_key
add_pair none p = thrown missing_equals
add_pair (some (key, value)) p =
    if not (is_valid_key (strip_right key))
    then thrown invalid_key
    else add_key (strip_right key) (strip_view value) (open_default p)

-- the branch for a key
unfoldable pub parse_key : Bytes → IniParser → Result IniParser
unfolding add_pair
parse_key line p = add_pair (split line b'=') p

-- IniParser::ParseLine(), on the line without its leading blanks
unfoldable pub parse_stripped : Bytes → IniParser → Result IniParser
unfolding parse_section parse_key
parse_stripped [] p = parsed p
parse_stripped (c ∷ line) p =
    if c == b'#'
    then parsed p
    else if c == b'['
    then parse_section line p
    else if is_valid_key_char c
    then parse_key (c ∷ line) p
    else thrown syntax_error

-- IniParser::ParseLine()
unfoldable pub parse_line : Bytes → IniParser → Result IniParser
unfolding parse_stripped
parse_line line p = parse_stripped (strip_left_view line) p

-- What ReadIniFile() leaves: the file, or the exception with the number of its line.
pub data Read : Type 0 where
  file_read : IniFile → Read
  error_on_line : ℕ → IniError → Read
  read_undefined : Read

-- the loop of ReadIniFile()
unfoldable pub read_from : ℕ → List Bytes → IniParser → Read
unfolding parse_line
read_from line_no [] p = file_read p.data_map
read_from line_no (line ∷ lines) p = elim (parse_line (c_str line) p) [
  | parsed q ↦ read_from (suc line_no) lines q
  | thrown e ↦ error_on_line line_no e
  | undefined ↦ read_undefined
]

-- ReadIniFile(), on the bytes of the file
unfoldable pub read_ini_file : Bytes → Read
unfolding read_from
read_ini_file bytes = read_from 1 (fgets_lines 4096 4095 bytes) first_parser
