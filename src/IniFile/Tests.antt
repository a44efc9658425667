-- ===== src/IniFile/Tests.antt =====
-- A configuration file, and the theorems of the parser at concrete inputs.
use mpdscribble.Base.{◌≡◌, refl, not, [], ◌∷◌, Bytes, codes, is_some}
use mpdscribble.IniFile.{
  Read, file_read, error_on_line, duplicate_key, is_valid_section_name_char, is_valid_key_char,
  is_valid_section_name, is_valid_key, add_section, parse_section, open_default, add_key, add_pair,
  parse_key, parse_stripped, parse_line, first_parser, read_from, read_ini_file,
}
use mpdscribble.IniFile.Pairs.{parse_line-pair}
use mpdscribble.IniFile.Maps.{Map, before, emplace, find, modify}
use mpdscribble.IniFile.Safety.{IsReadable, read_ini_file-IsReadable}
use mpdscribble.IniFile.Sorted.{FindsIf, emplace-FindsIf, emplace-find}
use mpdscribble.Text.Chars.{is_alpha_numeric_ascii}
use mpdscribble.Text.Lines.{fgets_lines}
use mpdscribble.Text.Strip.{strip_left_view, strip_right, strip_view, split}

abbrev config_file : Bytes
config_file = codes "# comment\nport = 6600\nhost = a b\n[last.fm]\nurl=x\n"

config_file_read :
    read_ini_file config_file
    ≡ file_read (
        ([], (codes "host", codes "a b") ∷ (codes "port", codes "6600") ∷ [])
        ∷ (codes "last.fm", (codes "url", codes "x") ∷ [])
        ∷ [])
unfolding read_ini_file read_from parse_line parse_stripped parse_section parse_key
    mpdscribble.Text.Lines.fgets_lines mpdscribble.IniFile.is_valid_key
    mpdscribble.IniFile.is_valid_section_name mpdscribble.IniFile.is_valid_section_name_char
    mpdscribble.IniFile.is_valid_key_char mpdscribble.Text.Chars.is_alpha_numeric_ascii emplace
    modify strip_left_view strip_right strip_view split
config_file_read = refl

twice_refused : read_ini_file (codes "a = 1\na = 2\n") ≡ error_on_line 2 (duplicate_key (codes "a"))
unfolding read_ini_file read_from parse_line parse_stripped parse_section parse_key
    mpdscribble.Text.Lines.fgets_lines mpdscribble.IniFile.is_valid_key
    mpdscribble.IniFile.is_valid_section_name mpdscribble.IniFile.is_valid_section_name_char
    mpdscribble.IniFile.is_valid_key_char mpdscribble.Text.Chars.is_alpha_numeric_ascii emplace
    modify strip_left_view strip_right strip_view split
twice_refused = refl

read_ini_file-IsReadable_example : IsReadable (read_ini_file config_file)
read_ini_file-IsReadable_example = read_ini_file-IsReadable config_file

abbrev letters : Map Bytes
letters = (codes "a", codes "1") ∷ (codes "c", codes "3") ∷ []

emplace-FindsIf_example :
    FindsIf letters (codes "b") (codes "2") (emplace (codes "b") (codes "2") letters)
unfolding before
emplace-FindsIf_example = emplace-FindsIf (codes "b") (codes "2") letters (refl, (tt, tt))

emplace-find_example :
    is_some (emplace (codes "a") (codes "2") letters) ≡ not (is_some (find (codes "a") letters))
emplace-find_example = emplace-find (codes "a") (codes "2") letters

parse_line-pair_example :
    parse_line (codes " host = a b \n") first_parser
    ≡ add_key (codes "host") (codes "a b") (open_default first_parser)
unfolding is_valid_key is_valid_key_char is_alpha_numeric_ascii strip_right
parse_line-pair_example =
    parse_line-pair (codes " ") (codes "host") (codes " ") (codes " ") (codes "a b") (codes " \n")
      first_parser refl (refl, tt) (refl, tt) (refl, tt) (refl, (refl, tt)) refl refl
