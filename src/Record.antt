-- ===== src/Record.antt =====
-- Record.hxx: a song that was played, and the units of its duration.
use mpdscribble.Base.{ℕ, Bool, false, [], ◌&&◌, not, Bytes, is_empty, codes}
use mpdscribble.Base.Int.{ℤ, pos, quot}

-- `std::chrono::steady_clock::duration` counts nanoseconds.
abbrev pub nanoseconds_per_second : ℕ
nanoseconds_per_second = 1_000_000_000

pub record Record : Type 0 where
  pub artist : Bytes
  pub track : Bytes
  pub album : Bytes
  pub number : Bytes
  pub mbid : Bytes
  pub time : Bytes
  pub length : ℤ
  pub love : Bool
  pub source : Bytes

-- `Record record;`
abbrev pub blank : Record
blank = record {
  artist = [];
  track = [];
  album = [];
  number = [];
  mbid = [];
  time = [];
  length = pos 0;
  love = false;
  source = codes "P";
}

abbrev pub record_is_defined : Record → Bool
record_is_defined r = not (is_empty r.artist) && not (is_empty r.track)

-- `std::chrono::duration_cast<std::chrono::seconds>(length).count()`
abbrev pub length_seconds : Record → ℤ
length_seconds r = quot r.length nanoseconds_per_second
