-- ===== src/Journal/RoundTrip.antt =====
-- What journal_write() has written, journal_read() reads back.
use mpdscribble.Base.{
  ℕ, ◌-◌, ◌*◌, ◌^◌, ◌≤◌, ◌<◌, ◌≡◌, refl, sym, ap, ◌∙◌, ◌⊎◌, inl, inr, Bool, true, false, List, [],
  ◌∷◌, ◌++◌, some, arith, Bytes, if◌then◌else◌, is_empty, codes, length, append_assoc, append-nil,
  Bool-cases,
}
use mpdscribble.Base.Int.{pos, to_int}
use mpdscribble.Journal.{
  Reader, first_reader, commit_record, write_line, write_string, write_record, write_records,
  read_line, read_lines, read_key, assign, line_size, journal_read, journal_write,
}
use mpdscribble.Journal.Line.{
  IsText, IsKey, IsText-IsTail, HasNoNewline-IsTail, c_str-IsTail_self, read_line-text,
  IsText-IsDigits,
}
use mpdscribble.Record.{Record, blank, nanoseconds_per_second, length_seconds}
use mpdscribble.Text.Decimal.{decimal, decimal_int, atoi-decimal, decimal-IsDigits, length-decimal}
use mpdscribble.Text.Lines.{HasNoNewline, fgets_lines, fgets_lines-line}
use mpdscribble.Text.Strip.{strip_left}

-- A text that fits into a line of the journal, with its key, its newline and the null byte.
abbrev pub IsSaved : Bytes → Type 0
IsSaved s = IsText s × (length s ≤ 1018)

-- A song that the journal can hold: its texts fit, it has an artist and a title, and its length is in
-- whole seconds that an `int` can count.
pub record IsSavable (r : Record) : Type 0 where
  pub artist_saved : IsSaved r.artist
  pub track_saved : IsSaved r.track
  pub album_saved : IsSaved r.album
  pub number_saved : IsSaved r.number
  pub mbid_saved : IsSaved r.mbid
  pub time_saved : IsSaved r.time
  pub has_artist : is_empty r.artist ≡ false
  pub has_track : is_empty r.track ≡ false
  pub seconds : ℕ
  pub seconds_int : seconds < 2 ^ 31
  pub whole_seconds : r.length ≡ pos (seconds * nanoseconds_per_second)
  pub known_source : (r.source ≡ codes "P") ⊎ (r.source ≡ codes "R")

load : Reader → Bytes → Reader
load p file = read_lines (fgets_lines line_size (line_size - 1) file) p

load-nil : (p : Reader) → load p [] ≡ p
unfolding load read_lines fgets_lines
load-nil p = refl

load-lines :
    (p : Reader) (line rest : Bytes)
    → HasNoNewline line
    → length line < 1023
    → load p (line ++ (b'\n' ∷ rest)) ≡ load (read_line (line ++ b'\n' ∷ []) p) rest
unfolding load
load-lines p line rest h l =
    ap (λ lines. read_lines lines p) (fgets_lines-line 1024 1023 line rest h l)
    ∙ (unfold read_lines in refl)

load-empty : (p : Reader) (rest : Bytes) → load p (b'\n' ∷ rest) ≡ load p rest
load-empty p rest = load-lines p [] rest tt (omega arith) ∙ ap (λ q. load q rest) (empty_line p)
  where
    empty_line : (p : Reader) → read_line (b'\n' ∷ []) p ≡ p
    empty_line p = unfold read_line strip_left read_key in refl

load-write_line :
    (field : ℕ) (s : Bytes) (p : Reader) (rest : Bytes)
    → IsKey field
    → IsSaved s
    → load p (write_line field s ++ rest) ≡ load (assign (field ∷ []) s p) rest
unfolding write_line
load-write_line field s p rest k h =
    ap (λ t. load p (field ∷ (b' ' ∷ (b'=' ∷ (b' ' ∷ ((t ++ b'\n' ∷ []) ++ rest))))))
      (c_str-IsTail_self s (IsText-IsTail s h.0))
    ∙ ap (λ t. load p (field ∷ (b' ' ∷ (b'=' ∷ (b' ' ∷ t))))) (append_assoc s (b'\n' ∷ []) rest)
    ∙ load-lines p (field ∷ (b' ' ∷ (b'=' ∷ (b' ' ∷ s)))) rest
        (ground (arith, HasNoNewline-IsTail s (IsText-IsTail s h.0))) (omega arith)
    ∙ ap (λ q. load q rest) (read_line-text field s p k h.0)

load-write_string :
    (field : ℕ) (s : Bytes) (p q : Reader) (rest : Bytes)
    → IsKey field
    → IsSaved s
    → (is_empty s ≡ true → p ≡ q)
    → assign (field ∷ []) s p ≡ q
    → load p (write_string field s ++ rest) ≡ load q rest
unfolding write_string
load-write_string field [] p q rest k h none_written written =
    ap (λ r. load r rest) (none_written refl)
load-write_string field (c ∷ s) p q rest k h none_written written =
    load-write_line field (c ∷ s) p rest k h ∙ ap (λ r. load r rest) written

-- The reader once a song has begun: the one before it is committed.
at : Reader → Record → Reader
at p current = record (commit_record p) { current = current }

-- The lines of a song, one by one.
module _ (p : Reader) (r : Record) (v : IsSavable r) where
  abbrev s1 : Record
  s1 = record blank { artist = r.artist }

  abbrev s2 : Record
  s2 = record s1 { track = r.track }

  abbrev s3 : Record
  s3 = record s2 { album = r.album }

  abbrev s4 : Record
  s4 = record s3 { number = r.number }

  abbrev s5 : Record
  s5 = record s4 { mbid = r.mbid }

  abbrev s6 : Record
  s6 = record s5 { love = r.love }

  abbrev s7 : Record
  s7 = record s6 { time = r.time }

  abbrev s8 : Record
  s8 = record s7 { length = r.length }

  load-artist : (rest : Bytes) → load p (write_string b'a' r.artist ++ rest) ≡ load (at p s1) rest
  unfolding at assign
  load-artist rest =
      load-write_string b'a' r.artist p (at p s1) rest (omega arith) v.artist_saved
        (λ e. absurd (ground (arith, v.has_artist))) refl

  load-track :
      (rest : Bytes) → load (at p s1) (write_string b't' r.track ++ rest) ≡ load (at p s2) rest
  unfolding at assign
  load-track rest =
      load-write_string b't' r.track (at p s1) (at p s2) rest (omega arith) v.track_saved
        (λ e. ground arith) refl

  load-album :
      (rest : Bytes) → load (at p s2) (write_string b'b' r.album ++ rest) ≡ load (at p s3) rest
  unfolding at assign
  load-album rest =
      load-write_string b'b' r.album (at p s2) (at p s3) rest (omega arith) v.album_saved
        (λ e. ground arith) refl

  load-number :
      (rest : Bytes) → load (at p s3) (write_string b'n' r.number ++ rest) ≡ load (at p s4) rest
  unfolding at assign
  load-number rest =
      load-write_string b'n' r.number (at p s3) (at p s4) rest (omega arith) v.number_saved
        (λ e. ground arith) refl

  load-mbid :
      (rest : Bytes) → load (at p s4) (write_string b'm' r.mbid ++ rest) ≡ load (at p s5) rest
  unfolding at assign
  load-mbid rest =
      load-write_string b'm' r.mbid (at p s4) (at p s5) rest (omega arith) v.mbid_saved
        (λ e. ground arith) refl

  load-love :
      (rest : Bytes)
      → load (at p s5) ((if r.love then write_line b'r' (codes "L") else []) ++ rest)
        ≡ load (at p s6) rest
  unfolding at assign
  load-love rest = elim (Bool-cases r.love) [
    | inl e ↦ rw e (load-write_line b'r' (codes "L") (at p s5) rest (omega arith) (omega arith))
    | inr e ↦ rw e
  ]

  load-time :
      (rest : Bytes) → load (at p s6) (write_string b'i' r.time ++ rest) ≡ load (at p s7) rest
  unfolding at assign
  load-time rest =
      load-write_string b'i' r.time (at p s6) (at p s7) rest (omega arith) v.time_saved
        (λ e. ground arith) refl

  printed_length : decimal_int (to_int (length_seconds r)) ≡ decimal v.seconds
  unfolding decimal_int
  printed_length = rw v.whole_seconds (ground arith)

  read_length : assign (codes "l") (decimal v.seconds) (at p s7) ≡ at p s8
  unfolding at assign
  read_length = ground (arith, atoi-decimal v.seconds)

  load-length :
      (rest : Bytes)
      → load (at p s7) (write_line b'l' (decimal_int (to_int (length_seconds r))) ++ rest)
        ≡ load (at p s8) rest
  unfolding at assign
  load-length rest = rw printed_length (
      load-write_line b'l' (decimal v.seconds) (at p s7) rest (omega arith)
        (IsText-IsDigits _ (decimal-IsDigits v.seconds), omega (arith, length-decimal v.seconds))
      ∙ ap (λ q. load q rest) read_length)

  IsSaved-source : IsSaved r.source
  IsSaved-source = elim v.known_source [ inl e ↦ rw e (omega arith) | inr e ↦ rw e (omega arith) ]

  load-source :
      (rest : Bytes) → load (at p s8) (write_line b'o' r.source ++ rest) ≡ load (at p r) rest
  unfolding at assign
  load-source rest =
      load-write_line b'o' r.source (at p s8) rest (omega arith) IsSaved-source
      ∙ ap (λ q. load q rest) (ground arith)

  load-write_record : (rest : Bytes) → load p (write_record r ++ rest) ≡ load (at p r) rest
  unfolding write_record
  load-write_record rest = simp append_assoc (
      load-artist _
      ∙ load-track _
      ∙ load-album _
      ∙ load-number _
      ∙ load-mbid _
      ∙ load-love _
      ∙ load-time _
      ∙ load-length _
      ∙ load-source _
      ∙ load-empty (at p r) rest)

abbrev pub AllSavable : List Record → Type 0
AllSavable [] = Unit
AllSavable (r ∷ queue) = IsSavable r × AllSavable queue

commit_at :
    (p : Reader) (r : Record)
    → IsSavable r
    → commit_record (at p r) ≡ record (commit_record p) {
      current = r;
      queue = (commit_record p).queue ++ r ∷ [];
      journal_file_empty = false;
    }
commit_at p r v = unfold commit_record at in ground (arith, v.has_artist, v.has_track)

load-write_records :
    (queue : List Record) (p : Reader)
    → AllSavable queue
    → let q = commit_record (load p (write_records queue)) in
      (q.queue ≡ (commit_record p).queue ++ queue)
      × (q.journal_file_empty
          ≡ (if is_empty queue then (commit_record p).journal_file_empty else false))
unfolding write_records
load-write_records [] p v = rw load-nil (sym (append-nil (commit_record p).queue), refl)
load-write_records (r ∷ queue) p v =
    let (rest_queue, rest_flag) = load-write_records queue (at p r) v.1 in
    let began = commit_at p r v.0 in
    rw (load-write_record p r v.0 (write_records queue)) (
      rest_queue
          ∙ ap (λ (q : Reader). q.queue ++ queue) began
          ∙ append_assoc (commit_record p).queue (r ∷ []) queue,
      rest_flag ∙ ground (arith, ap (λ (q : Reader). q.journal_file_empty) began),
    )

journal_write-file :
    (journal_file_empty : Bool) (queue : List Record) (file : Bytes)
    → journal_write journal_file_empty true queue ≡ (true, some file)
    → write_records queue ≡ file
unfolding journal_write
journal_write-file journal_file_empty queue file h = ground arith

journal_read-write_records :
    (queue : List Record)
    → AllSavable queue
    → journal_read (some (write_records queue)) ≡ (queue, is_empty queue)
unfolding journal_read load
journal_read-write_records queue v =
    let (same_queue, flag) = load-write_records queue first_reader v in
    ground (arith, same_queue, flag)

-- A queue of songs that the journal can hold is read back from what was written of it, song by song
-- and in its order; and the reader reports an empty journal exactly for an empty queue.
pub journal_read-journal_write :
    (journal_file_empty : Bool) (queue : List Record) (file : Bytes)
    → AllSavable queue
    → journal_write journal_file_empty true queue ≡ (true, some file)
    → journal_read (some file) ≡ (queue, is_empty queue)
journal_read-journal_write journal_file_empty queue file v h =
    rw (← journal_write-file journal_file_empty queue file h) (journal_read-write_records queue v)
