-- ===== src/Journal/Loaded.antt =====
-- What journal_read() returns for any file, and the flag that it leaves for journal_write().
use mpdscribble.Base.{
  ◌≡◌, refl, Bool, true, false, List, [], ◌∷◌, ◌++◌, Option, none, some, arith, Bytes, is_empty,
  c_str, ◌-◌,
}
use mpdscribble.Journal.{
  Reader, first_reader, commit_record, assign, read_pair, read_key, read_line, read_lines,
  journal_read, journal_write, line_size,
}
use mpdscribble.Record.{Record, record_is_defined}
use mpdscribble.Text.Lines.{fgets_lines}
use mpdscribble.Text.Strip.{split, strip, strip_left, strip_right}

abbrev pub AllDefined : List Record → Type 0
AllDefined [] = Unit
AllDefined (r ∷ queue) = (record_is_defined r ≡ true) × AllDefined queue

AllDefined-append :
    (queue : List Record) (r : Record)
    → AllDefined queue
    → record_is_defined r ≡ true
    → AllDefined (queue ++ r ∷ [])
AllDefined-append [] r h d = (d, tt)
AllDefined-append (x ∷ queue) r h d = (h.0, AllDefined-append queue r h.1 d)

is_empty-append : (queue : List Record) (r : Record) → is_empty (queue ++ r ∷ []) ≡ false
is_empty-append [] r = refl
is_empty-append (x ∷ queue) r = refl

record IsSound (p : Reader) : Type 0 where
  defined : AllDefined p.queue
  flag : p.journal_file_empty ≡ is_empty p.queue

commit_record-IsSound : (p : Reader) → IsSound p → IsSound (commit_record p)
unfolding commit_record
commit_record-IsSound p v =
    ground (arith, AllDefined-append p.queue p.current v.defined, is_empty-append p.queue p.current)

assign-IsSound : (key value : Bytes) (p : Reader) → IsSound p → IsSound (assign key value p)
unfolding assign
assign-IsSound key value p v = ground (arith, commit_record-IsSound p v)

read_pair-IsSound :
    (pair : Option (Bytes × Bytes)) (p : Reader) → IsSound p → IsSound (read_pair pair p)
unfolding read_pair
read_pair-IsSound none p v = v
read_pair-IsSound (some (key, value)) p v =
    ground (arith, assign-IsSound (strip_right key) (strip value) p v)

read_key-IsSound : (key : Bytes) (p : Reader) → IsSound p → IsSound (read_key key p)
unfolding read_key
read_key-IsSound [] p v = v
read_key-IsSound (c ∷ key) p v = ground (arith, read_pair-IsSound (split (c ∷ key) b'=') p v)

read_line-IsSound : (line : Bytes) (p : Reader) → IsSound p → IsSound (read_line line p)
unfolding read_line
read_line-IsSound line p v = read_key-IsSound (strip_left (c_str line)) p v

read_lines-IsSound : (lines : List Bytes) (p : Reader) → IsSound p → IsSound (read_lines lines p)
unfolding read_lines
read_lines-IsSound [] p v = v
read_lines-IsSound (line ∷ lines) p v =
    read_lines-IsSound lines (read_line line p) (read_line-IsSound line p v)

-- Whatever a journal file holds, each song that is read from it has an artist and a title, and the
-- flag for an empty journal is set exactly if no song is returned.
pub journal_read-AllDefined :
    (file : Option Bytes)
    → AllDefined (journal_read file).0 × ((journal_read file).1 ≡ is_empty (journal_read file).0)
unfolding journal_read
journal_read-AllDefined none = (tt, refl)
journal_read-AllDefined (some file) =
    let v = commit_record-IsSound _ (
      read_lines-IsSound (fgets_lines line_size (line_size - 1) file) first_reader
        (record { defined = tt; flag = refl })) in
    (v.defined, v.flag)

pub journal_write_stale :
    (second : Option Bytes) (opened : Bool)
    → (journal_read second).0 ≡ []
    → journal_write (journal_read second).1 opened [] ≡ (false, none)
unfolding journal_write
journal_write_stale second opened h = ground (arith, journal_read-AllDefined second)
