-- ===== src/Journal/Tests.antt =====
-- A journal of two songs, and the theorems at concrete inputs.
use mpdscribble.Base.{
  ◌≡◌, refl, true, false, [], ◌∷◌, ◌++◌, none, some, arith, Bytes, codes, inl, is_empty,
}
use mpdscribble.Base.Int.{pos}
use mpdscribble.Journal.{write_record, write_records, journal_read, journal_write}
use mpdscribble.Journal.Loaded.{AllDefined, journal_read-AllDefined, journal_write_stale}
use mpdscribble.Journal.RoundTrip.{IsSavable, journal_read-journal_write}
use mpdscribble.Record.{Record, blank}
use mpdscribble.Text.Decimal.{decimal_int, decimal, atoi}

abbrev song : Record
song = record blank {
  artist = codes "A b";
  track = codes "T=1";
  time = codes "99";
  length = pos 200_000_000_000;
  love = true;
}

abbrev stream : Record
stream = record blank { artist = codes "B"; track = codes "U"; source = codes "R" }

abbrev text : Bytes
text = codes "a = A b\nt = T=1\nr = L\ni = 99\nl = 200\no = P\n\na = B\nt = U\nl = 0\no = R\n\n"

write_records_runs : write_records (song ∷ stream ∷ []) ≡ text
unfolding write_records write_record mpdscribble.Journal.write_string decimal_int
write_records_runs = refl

journal_read_runs : journal_read (some (codes "# old\n\n t =x\na=  A\nt = U \nl = 7x\nz = 1\n")) ≡ (
  record blank { artist = codes "A"; track = codes "U"; length = pos 7_000_000_000 } ∷ [],
  false,
)
unfolding journal_read mpdscribble.Text.Strip.split mpdscribble.Text.Strip.strip_right
    mpdscribble.Text.Strip.strip mpdscribble.Text.Strip.strip_left mpdscribble.Journal.assign
    mpdscribble.Text.Decimal.atoi
journal_read_runs = refl

song-IsSavable : IsSavable song
song-IsSavable = record {
  artist_saved = ground arith;
  track_saved = ground arith;
  album_saved = omega arith;
  number_saved = omega arith;
  mbid_saved = omega arith;
  time_saved = ground arith;
  has_artist = refl;
  has_track = refl;
  seconds = 200;
  seconds_int = omega arith;
  whole_seconds = refl;
  known_source = inl refl;
}

journal_write_runs : journal_write false true (song ∷ []) ≡ (true, some (write_record song ++ []))
unfolding journal_write
journal_write_runs = refl

journal_read-journal_write_example :
    journal_read (some (write_record song ++ [])) ≡ (song ∷ [], false)
journal_read-journal_write_example =
    journal_read-journal_write false (song ∷ []) (write_record song ++ []) (song-IsSavable, tt)
      journal_write_runs

journal_read-AllDefined_example :
    AllDefined (journal_read (some text)).0
    × ((journal_read (some text)).1 ≡ is_empty (journal_read (some text)).0)
journal_read-AllDefined_example = journal_read-AllDefined (some text)

journal_write_stale_example : journal_write true true [] ≡ (false, none)
unfolding journal_read
journal_write_stale_example = journal_write_stale none true refl
