-- ===== src/IniFile/Safety.antt =====
-- The parser never uses an iterator that points at nothing, and what it has read is well formed.
use mpdscribble.Base.{
  ℕ, suc, ◌≡◌, inl, inr, refl, true, ◌||◌, List, [], ◌∷◌, Option, none, some, arith, Bytes, c_str,
  is_empty, is_some, Bool-cases,
}
use mpdscribble.IniFile.{
  IniSection, IniFile, Result, parsed, thrown, undefined, is_valid_section_name, is_valid_key,
  IniParser, first_parser, set_section, add_section, parse_section, add_pair, set_key, key_set,
  open_default, add_key, parse_key, parse_stripped, parse_line, Read, file_read, error_on_line,
  read_undefined, read_from, read_ini_file,
}
use mpdscribble.IniFile.Maps.{emplace, find}
use mpdscribble.IniFile.Sorted.{IsSorted, SortedIf, FindsIf, emplace-SortedIf, emplace-FindsIf}
use mpdscribble.Text.Lines.{fgets_lines}
use mpdscribble.Text.Strip.{strip_left_view, strip_right, strip_view, split}
use mpdscribble.IniFile.Change.{All, AllIf, emplace-AllIf, ValueIf, Modified, modify-Modified}

-- A key is valid, and so is the name of a section, unless it is that of the keys in front of all
-- sections; the keys of a section stand in their order.
abbrev pub IsValidPair : Bytes → Bytes → Type 0
IsValidPair key value = is_valid_key key ≡ true

abbrev pub IsValidSection : Bytes → IniSection → Type 0
IsValidSection name section =
    ((is_empty name || is_valid_section_name name) ≡ true)
    × IsSorted section
    × All IsValidPair section

-- The iterator points at a section, unless there is none.
abbrev pub Points : Option Bytes → IniFile → Type 0
Points none m = is_empty m ≡ true
Points (some name) m = is_some (find name m) ≡ true

pub record IsValidParser (p : IniParser) : Type 0 where
  pub sorted : IsSorted p.data_map
  pub sections : All IsValidSection p.data_map
  pub points : Points p.section p.data_map

abbrev pub Keeps : (IniParser → Type 0) → Result IniParser → Type 0
Keeps P (parsed p) = P p
Keeps P (thrown e) = Unit
Keeps P undefined = ⊥

set_section-Keeps :
    (name : Bytes) (p : IniParser) (r : Option IniFile)
    → SortedIf r
    → AllIf IsValidSection r
    → FindsIf p.data_map name [] r
    → Keeps IsValidParser (set_section name p r)
set_section-Keeps name p none s a f = tt
set_section-Keeps name p (some m) s a (f, g) = record {
  sorted = s;
  sections = a;
  points = rw f refl;
}

add_section-Keeps :
    (parts : Option (Bytes × Bytes)) (p : IniParser)
    → IsValidParser p
    → Keeps IsValidParser (add_section parts p)
unfolding add_section
add_section-Keeps none p v = tt
add_section-Keeps (some (name, rest)) p v =
    elim (Bool-cases (is_valid_section_name (strip_view name))) [
      | inl e ↦ rw e (elim (Bool-cases (is_empty (strip_left_view rest))) [
        | inl d ↦ rw d (
            set_section-Keeps (strip_view name) p _
              (emplace-SortedIf (strip_view name) [] p.data_map v.sorted)
              (emplace-AllIf IsValidSection (strip_view name) [] p.data_map (ground arith, tt, tt)
                v.sections)
              (emplace-FindsIf (strip_view name) [] p.data_map v.sorted))
        | inr d ↦ rw d tt
      ])
      | inr e ↦ rw e tt
    ]

ValueIf-emplace :
    (name : Bytes) (r : Option IniSection)
    → (is_empty name || is_valid_section_name name) ≡ true
    → SortedIf r
    → AllIf IsValidPair r
    → ValueIf IsValidSection name r
ValueIf-emplace name none n s a = tt
ValueIf-emplace name (some m) n s a = (n, s, a)

key_set-Keeps :
    (key name : Bytes) (m : IniFile) (r : Option (Option IniFile))
    → Modified IsValidSection name m r
    → Keeps IsValidParser (key_set key (some name) r)
key_set-Keeps key name m none h = h
key_set-Keeps key name m (some none) h = tt
key_set-Keeps key name m (some (some r)) (f, s, a, i) = record {
  sorted = s;
  sections = a;
  points = i;
}

add_key-Keeps :
    (key value : Bytes) (m : IniFile) (section : Option Bytes)
    → IsSorted m
    → All IsValidSection m
    → Points section m
    → is_valid_key key ≡ true
    → is_some section ≡ true
    → Keeps IsValidParser (key_set key section (set_key key value m section))
add_key-Keeps key value m none s a q n h = absurd (ground arith)
add_key-Keeps key value m (some name) s a q n h = key_set-Keeps key name m _ (
    modify-Modified IsValidSection name (emplace key value) m
      (λ k section (w, t, b).
        ValueIf-emplace k (emplace key value section) w (emplace-SortedIf key value section t)
          (emplace-AllIf IsValidPair key value section n b))
      q s a)

open_default-IsValidParser :
    (section : Option Bytes) (m : IniFile)
    → let p : IniParser = record { data_map = m; section = section } in
      IsValidParser p → IsValidParser (open_default p) × (is_some (open_default p).section ≡ true)
unfolding open_default find
open_default-IsValidParser section [] v =
    (record { sorted = (tt, tt); sections = ((refl, tt, tt), tt); points = refl }, refl)
open_default-IsValidParser none (x ∷ m) v = absurd (ground (arith, v.points))
open_default-IsValidParser (some name) (x ∷ m) v = (v, refl)

add_pair-Keeps :
    (parts : Option (Bytes × Bytes)) (p : IniParser)
    → IsValidParser p
    → Keeps IsValidParser (add_pair parts p)
unfolding add_pair add_key
add_pair-Keeps none p v = tt
add_pair-Keeps (some (key, value)) p v = elim (Bool-cases (is_valid_key (strip_right key))) [
  | inl e ↦
      let (w, h) = open_default-IsValidParser p.section p.data_map v in
      rw e (
        add_key-Keeps (strip_right key) (strip_view value) (open_default p).data_map
          (open_default p).section w.sorted w.sections w.points e h)
  | inr e ↦ rw e tt
]

parse_stripped-Keeps :
    (line : Bytes) (p : IniParser) → IsValidParser p → Keeps IsValidParser (parse_stripped line p)
unfolding parse_stripped parse_section parse_key
parse_stripped-Keeps [] p v = v
parse_stripped-Keeps (c ∷ line) p v = ground (
  arith,
  v,
  add_section-Keeps (split (strip_left_view line) b']') p v,
  add_pair-Keeps (split (c ∷ line) b'=') p v,
)

parse_line-Keeps :
    (line : Bytes) (p : IniParser) → IsValidParser p → Keeps IsValidParser (parse_line line p)
unfolding parse_line
parse_line-Keeps line p v = parse_stripped-Keeps (strip_left_view line) p v

abbrev pub IsReadable : Read → Type 0
IsReadable (file_read m) = IsSorted m × All IsValidSection m
IsReadable (error_on_line line_no e) = Unit
IsReadable read_undefined = ⊥

read_from-IsReadable :
    (line_no : ℕ) (lines : List Bytes) (p : IniParser)
    → IsValidParser p
    → IsReadable (read_from line_no lines p)
unfolding read_from
read_from-IsReadable line_no [] p v = (v.sorted, v.sections)
read_from-IsReadable line_no (line ∷ lines) p v =
    go (parse_line (c_str line) p) (parse_line-Keeps (c_str line) p v)
      (read_from-IsReadable (suc line_no) lines)
  where
    go :
        (r : Result IniParser)
        → Keeps IsValidParser r
        → ((q : IniParser) → IsValidParser q → IsReadable (read_from (suc line_no) lines q))
        → IsReadable (elim r [
          | parsed q ↦ read_from (suc line_no) lines q
          | thrown e ↦ error_on_line line_no e
          | undefined ↦ read_undefined
        ])
    go (parsed q) k f = f q k
    go (thrown e) k f = tt
    go undefined k f = k

-- Whatever the file holds, reading it never uses an iterator that points at nothing; it ends with an
-- exception for a line or with sections in the order of their names, each with its keys in theirs,
-- where all names and keys are valid but for the name of the section of the keys in front.
pub read_ini_file-IsReadable : (bytes : Bytes) → IsReadable (read_ini_file bytes)
unfolding read_ini_file
read_ini_file-IsReadable bytes =
    read_from-IsReadable 1 (fgets_lines 4096 4095 bytes) first_parser
      (record { sorted = tt; sections = tt; points = refl })
