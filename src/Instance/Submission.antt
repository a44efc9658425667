-- ===== src/Instance/Submission.antt =====
-- What the scrobblers get of a song, from its start to its end.
use mpdscribble.Base.{
  ℕ, ◌≡◌, refl, Bool, true, false, List, Option, none, some, is_empty, if◌then◌else◌, ltb, ◌>>=◌,
  codes,
}
use mpdscribble.Base.Int.{pos}
use mpdscribble.Instance.{Instance, Now, on_mpd_started, on_mpd_ended}
use mpdscribble.Instance.Played.{IsPlayed, played_long_enough_iff, played_long_enough-false}
use mpdscribble.MultiScrobbler.{
  or_empty, now_playing_record, now_playing, contains, song_change_record, push_record, song_change,
}
use mpdscribble.MultiScrobbler.Each.{
  AllSound, Pairwise, DoesAll, Gets, Waits, for_each-DoesAll, push-Does, schedule_now_playing-Does,
}
use mpdscribble.Record.{Record, record_is_defined}
use mpdscribble.Scrobbler.Operations.{push, schedule_now_playing}
use mpdscribble.Scrobbler.State.{Scrobbler}
use mpdscribble.Song.{Song, artist, song_duration}
use mpdscribble.Stopwatch.{Stopwatch, get_duration, start_watch}

-- The song has a name for its artist and a title.
abbrev pub IsNamed : Song → Type 0
IsNamed song =
    (is_empty (or_empty (artist song)) ≡ false) × (is_empty (or_empty song.title_tag) ≡ false)

-- the record of a song that was played for some time
abbrev pub scrobble : Now → Song → Bool → ℕ → Record
scrobble now song love elapsed = record {
  artist = or_empty (artist song);
  track = or_empty song.title_tag;
  album = or_empty song.album_tag;
  number = or_empty song.track_tag;
  mbid = or_empty song.musicbrainz_tag;
  time = now.timestamp;
  length = pos (if ltb 0 (song_duration song) then song_duration song else elapsed);
  love = love;
  source = if contains song.uri (codes "://") then codes "R" else codes "P";
}

abbrev pub Leaves : (Scrobbler → Scrobbler → Type 0) → Instance → Option Instance → Type 0
Leaves R i none = ⊥
Leaves R i (some j) = AllSound j.scrobblers × Pairwise R i.scrobblers j.scrobblers

pub Leaves-scrobblers :
    (R : Scrobbler → Scrobbler → Type 0) (i : Instance) (w : Stopwatch)
    (m : Option (List Scrobbler))
    → DoesAll R i.scrobblers m
    → Leaves R i (m >>= (λ scrobblers. some (record i { stopwatch = w; scrobblers = scrobblers })))
Leaves-scrobblers R i w none d = d
Leaves-scrobblers R i w (some scrobblers) d = d

pub named-defined :
    (song : Song) (r : Record)
    → IsNamed song
    → r.artist ≡ or_empty (artist song)
    → r.track ≡ or_empty song.title_tag
    → record_is_defined r ≡ true
named-defined song r n e d = rw e (rw d (rw n.0 (rw n.1 refl)))

pub now_playing-DoesAll :
    (song : Song) (scrobblers : List Scrobbler)
    → IsNamed song
    → AllSound scrobblers
    → DoesAll Waits scrobblers (
        now_playing
          (artist song)
          song.title_tag
          song.album_tag
          song.track_tag
          song.musicbrainz_tag
          (song_duration song)
          scrobblers)
unfolding now_playing now_playing_record
now_playing-DoesAll song scrobblers n v =
    let r =
      now_playing_record (artist song) song.title_tag song.album_tag song.track_tag
        song.musicbrainz_tag (song_duration song) in
    for_each-DoesAll Waits (schedule_now_playing r)
      (λ s. schedule_now_playing-Does r s (named-defined song r n refl refl)) scrobblers v

pub on_mpd_started-Leaves :
    (now : Now) (song : Song) (i : Instance)
    → IsNamed song
    → AllSound i.scrobblers
    → Leaves Waits i (on_mpd_started now song i)
unfolding on_mpd_started
on_mpd_started-Leaves now song i n v =
    Leaves-scrobblers Waits i (start_watch now.time i.stopwatch) _
      (now_playing-DoesAll song i.scrobblers n v)

song_change_record-named :
    (now : Now) (song : Song) (love : Bool) (elapsed : ℕ)
    → IsNamed song
    → song_change_record song.uri
        (artist song)
        song.title_tag
        song.album_tag
        song.track_tag
        song.musicbrainz_tag
        (if ltb 0 (song_duration song) then song_duration song else elapsed)
        love
        none
        now.timestamp
      ≡ some (scrobble now song love elapsed)
unfolding song_change_record
song_change_record-named now song love elapsed n = rw n.0 (rw n.1 refl)

pub on_mpd_ended-played :
    (now : Now) (song : Song) (love : Bool) (i : Instance)
    → IsNamed song
    → AllSound i.scrobblers
    → IsPlayed (get_duration now.time i.stopwatch) (song_duration song)
    → Leaves
        (Gets now.date (scrobble now song love (get_duration now.time i.stopwatch)))
        i
        (on_mpd_ended now song love i)
unfolding on_mpd_ended song_change push_record
on_mpd_ended-played now song love i n v p =
    let elapsed = get_duration now.time i.stopwatch in
    let r = scrobble now song love elapsed in
    rw ((played_long_enough_iff elapsed (song_duration song)).1 p) (
      rw (song_change_record-named now song love elapsed n) (
        Leaves-scrobblers (Gets now.date r) i i.stopwatch _ (
          for_each-DoesAll (Gets now.date r) (push now.date r) (push-Does now.date r) i.scrobblers
            v)))

pub on_mpd_ended-skipped :
    (now : Now) (song : Song) (love : Bool) (i : Instance)
    → ¬ IsPlayed (get_duration now.time i.stopwatch) (song_duration song)
    → on_mpd_ended now song love i ≡ some i
unfolding on_mpd_ended
on_mpd_ended-skipped now song love i p =
    rw (played_long_enough-false (get_duration now.time i.stopwatch) (song_duration song) p) refl
