-- ===== src/Song.antt =====
-- `struct mpd_song` of libmpdclient, as what its accessors return: mpd_song_get_id(),
-- mpd_song_get_uri(), mpd_song_get_duration_ms(), and mpd_song_get_tag() for each tag that is asked for.
use mpdscribble.Base.{ℕ, Bytes, Option, none, some, Bool, ◌*◌, ◌&&◌, ◌||◌, not, is_some}

pub record Song : Type 0 where
  pub id : ℕ
  pub uri : Bytes
  pub duration_ms : ℕ
  pub artist_tag : Option Bytes
  pub album_artist_tag : Option Bytes
  pub title_tag : Option Bytes
  pub album_tag : Option Bytes
  pub track_tag : Option Bytes
  pub musicbrainz_tag : Option Bytes

-- GetSongDuration() of Main.cxx, in nanoseconds
abbrev pub song_duration : Song → ℕ
song_duration song = song.duration_ms * 1_000_000

-- artist() of Main.cxx
unfoldable pub artist : Song → Option Bytes
artist song = elim song.artist_tag [ none ↦ song.album_artist_tag | some a ↦ some a ]

-- the test for missing tags in MpdObserver::Update()
abbrev pub tags_missing : Song → Bool
tags_missing song =
    not (is_some song.artist_tag) && not (is_some song.album_artist_tag)
    || not (is_some song.title_tag)
