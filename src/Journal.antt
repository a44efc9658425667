-- ===== src/Journal.antt =====
-- Journal.cxx: the file that keeps the songs which have not been submitted. A file is the list of its
-- bytes; whether fopen() succeeds is an argument.
pub mod Line
pub mod RoundTrip
pub mod Loaded
mod Tests
use mpdscribble.Base.{
  ℕ, ◌-◌, Bool, true, false, not, ◌&&◌, List, [], ◌∷◌, ◌++◌, Option, none, some, Bytes, ◌==◌,
  if◌then◌else◌, is_empty, same, starts_with, codes, c_str,
}
use mpdscribble.Base.Int.{to_int, scale}
use mpdscribble.Record.{Record, blank, length_seconds, nanoseconds_per_second}
use mpdscribble.Text.Decimal.{decimal_int, atoi}
use mpdscribble.Text.Lines.{fgets_lines}
use mpdscribble.Text.Strip.{strip_left, strip_right, strip, split}

-- both overloads of journal_write_string(), on a text that is there
unfoldable pub write_line : ℕ → Bytes → Bytes
write_line field value = field ∷ (b' ' ∷ (b'=' ∷ (b' ' ∷ (c_str value ++ b'\n' ∷ []))))

-- journal_write_string() of a std::string
unfoldable pub write_string : ℕ → Bytes → Bytes
unfolding write_line
write_string field value = if is_empty value then [] else write_line field value

-- journal_write_record()
unfoldable pub write_record : Record → Bytes
write_record r =
    write_string b'a' r.artist
    ++ (write_string b't' r.track
        ++ (write_string b'b' r.album
            ++ (write_string b'n' r.number
                ++ (write_string b'm' r.mbid
                    ++ ((if r.love then write_line b'r' (codes "L") else [])
                        ++ (write_string b'i' r.time
                            ++ (write_line b'l' (decimal_int (to_int (length_seconds r)))
                                ++ (write_line b'o' r.source ++ b'\n' ∷ []))))))))

unfoldable pub write_records : List Record → Bytes
write_records [] = []
write_records (r ∷ queue) = write_record r ++ write_records queue

-- journal_write(), on `journal_file_empty` and on whether fopen() succeeds: what is returned, and the
-- new contents of the file, `none` if it is left alone.
unfoldable pub journal_write : Bool → Bool → List Record → Bool × Option Bytes
unfolding write_records
journal_write journal_file_empty opened queue =
    if is_empty queue && journal_file_empty
    then (false, none)
    else if not opened
    then (false, none)
    else (true, some (write_records queue))

-- The variables of journal_read(), with the static `journal_file_empty`.
pub record Reader : Type 0 where
  pub current : Record
  pub queue : List Record
  pub journal_file_empty : Bool

-- journal_commit_record()
unfoldable pub commit_record : Reader → Reader
commit_record p =
    if not (is_empty p.current.artist) && not (is_empty p.current.track)
    then record p { queue = p.queue ++ p.current ∷ []; journal_file_empty = false }
    else p

-- the chain of comparisons in the loop of journal_read()
unfoldable pub assign : Bytes → Bytes → Reader → Reader
assign key value p =
    let r = p.current in
    if same key (codes "a")
    then record (commit_record p) { current = record blank { artist = value } }
    else if same key (codes "t")
    then record p { current = record r { track = value } }
    else if same key (codes "b")
    then record p { current = record r { album = value } }
    else if same key (codes "n")
    then record p { current = record r { number = value } }
    else if same key (codes "m")
    then record p { current = record r { mbid = value } }
    else if same key (codes "i")
    then record p { current = record r { time = value } }
    else if same key (codes "l")
    then record p { current = record r { length = scale (atoi value) nanoseconds_per_second } }
    else if same key (codes "o") && starts_with value (codes "R")
    then record p { current = record r { source = codes "R" } }
    else if same key (codes "r") && starts_with value (codes "L")
    then record p { current = record r { love = true } }
    else p

-- from `strchr(key, '=')` on; a key may not be empty
unfoldable pub read_pair : Option (Bytes × Bytes) → Reader → Reader
read_pair none p = p
read_pair (some (key, value)) p =
    if is_empty key then p else assign (strip_right key) (strip value) p

-- from the test for an empty line or a comment on
unfoldable pub read_key : Bytes → Reader → Reader
unfolding read_pair
read_key [] p = p
read_key (c ∷ key) p = if c == b'#' then p else read_pair (split (c ∷ key) b'=') p

-- the body of the loop of journal_read(), on what is in the buffer
unfoldable pub read_line : Bytes → Reader → Reader
unfolding read_key
read_line line p = read_key (strip_left (c_str line)) p

unfoldable pub read_lines : List Bytes → Reader → Reader
unfolding read_line
read_lines [] p = p
read_lines (line ∷ lines) p = read_lines lines (read_line line p)

-- sizeof(line)
abbrev pub line_size : ℕ
line_size = 1024

abbrev pub first_reader : Reader
first_reader = record { current = blank; queue = []; journal_file_empty = true }

-- journal_read(), on the file or on `none` if fopen() fails: the songs, and `journal_file_empty`
unfoldable pub journal_read : Option Bytes → List Record × Bool
unfolding read_lines commit_record fgets_lines
journal_read none = ([], true)
journal_read (some file) =
    let p = commit_record (read_lines (fgets_lines line_size (line_size - 1) file) first_reader) in
    (p.queue, p.journal_file_empty)
