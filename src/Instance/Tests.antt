-- ===== src/Instance/Tests.antt =====
-- Songs that are played to the end, skipped and repeated, and the theorems of the instance and the
-- stopwatch at concrete inputs.
use mpdscribble.Base.{
  ℕ, ◌≡◌, ◌+◌, ◌*◌, ◌↔◌, inr, refl, true, false, [], ◌∷◌, none, some, arith, codes, Bytes, inl,
}
use mpdscribble.Instance.{Instance, Now, played_long_enough, on_mpd_playing, on_submit_signal}
use mpdscribble.Instance.Listener.{
  on_mpd_playing-repeated, listen, StaysSound, listen-StaysSound, on_submit_signal-Leaves,
}
use mpdscribble.Instance.Played.{IsPlayed, played_long_enough_iff}
use mpdscribble.Instance.PlayThrough.{play_through, play_through-Gets, play_through-Waits}
use mpdscribble.Instance.Submission.{IsNamed, scrobble, Leaves}
use mpdscribble.MultiScrobbler.Each.{AllSound, Gets, Waits, online, logging}
use mpdscribble.Base.Int.{pos}
use mpdscribble.Journal.RoundTrip.{IsSavable}
use mpdscribble.MultiScrobbler.{construct_all, construct_next, write_journal}
use mpdscribble.MultiScrobbler.Restart.{construct_next-write_journal}
use mpdscribble.MultiScrobbler.Start.{MakesAll, construct_all-MakesAll}
use mpdscribble.Observer.{ended}
use mpdscribble.Record.{Record, blank}
use mpdscribble.Scrobbler.Invariant.{IsOnline}
use mpdscribble.Scrobbler.State.{Scrobbler, ScrobblerConfig, nothing, first_interval}
use mpdscribble.Song.{Song, artist}
use mpdscribble.Stopwatch.{get_duration, pause_all, stopped, start_watch, get_duration-start_watch}

abbrev song : Song
song = record {
  id = 7;
  uri = codes "a.ogg";
  duration_ms = 180_000;
  artist_tag = none;
  album_artist_tag = some (codes "A");
  title_tag = some (codes "T");
  album_tag = none;
  track_tag = none;
  musicbrainz_tag = none;
}

abbrev config : ScrobblerConfig
config = record {
  name = codes "last.fm";
  url = codes "http://post/";
  username = codes "u";
  password = codes "p";
  journal = codes "/j";
  file = [];
}

abbrev waiting : Scrobbler
waiting = record {
  config = config;
  file = none;
  state = nothing;
  interval = first_interval;
  http_request = none;
  handshake_timer = some first_interval;
  submit_timer = none;
  session = [];
  nowplay_url = [];
  submit_url = [];
  now_playing = blank;
  queue = [];
  pending = 0;
}

abbrev to_file : Scrobbler
to_file = record waiting { file = some []; handshake_timer = none }

abbrev both : Instance
both = record {
  stopwatch = stopped;
  scrobblers = waiting ∷ to_file ∷ [];
  save_journal_interval = 600;
  save_journal_timer = none;
}

song-IsNamed : IsNamed song
unfolding artist
song-IsNamed = (refl, refl)

waiting-IsOnline : IsOnline waiting
waiting-IsOnline = ground arith

both-AllSound : AllSound both.scrobblers
both-AllSound = (
  online waiting-IsOnline,
  (
    logging []
        (record { open_file = refl; no_handshake = refl; no_submission = refl; no_request = refl }),
    tt,
  ),
)

-- a time in seconds
abbrev at : ℕ → Now
at time = record { time = time * 1_000_000_000; timestamp = codes "1"; date = codes "d" }

abbrev running : Instance
running = record both { stopwatch = record { duration = 0; start = 1_000_000_000 } }

get_duration-start_watch_example :
    get_duration 100 (pause_all ((20, 30) ∷ []) (start_watch 10 stopped)) + 10 + 10 ≡ 100
get_duration-start_watch_example =
    get_duration-start_watch stopped 10 ((20, 30) ∷ []) 100 (omega arith)
      (omega arith, omega arith, omega arith)

played_long_enough_iff_example :
    (played_long_enough 91_000_000_000 180_000_000_000 ≡ true)
    ↔ IsPlayed 91_000_000_000 180_000_000_000
played_long_enough_iff_example = played_long_enough_iff 91_000_000_000 180_000_000_000

play_through-Gets_example :
    Leaves
      (Gets (codes "d") (scrobble (at 121) song true 100_000_000_000))
      both
      (play_through (at 1) song ((11_000_000_000, 31_000_000_000) ∷ []) (at 121) true both)
play_through-Gets_example =
    play_through-Gets (at 1) song ((11_000_000_000, 31_000_000_000) ∷ []) (at 121) true both
      song-IsNamed both-AllSound (omega arith) (omega arith, omega arith, omega arith)
      100_000_000_000 (omega arith) (inr (omega arith, omega arith))

play_through-Waits_example : Leaves Waits both (play_through (at 1) song [] (at 11) false both)
play_through-Waits_example =
    play_through-Waits (at 1) song [] (at 11) false both song-IsNamed both-AllSound (omega arith)
      (omega arith) 10_000_000_000 (omega arith) (λ h. ground arith)

on_mpd_playing-repeated_example :
    Leaves
      (Gets (codes "d") (scrobble (at 183) song false 182_000_000_000))
      running
      (on_mpd_playing (at 183) song 2_000_000_000 running)
unfolding get_duration
on_mpd_playing-repeated_example =
    on_mpd_playing-repeated (at 183) song 2_000_000_000 running song-IsNamed both-AllSound
      (omega arith, omega arith, inr (omega arith, omega arith))

listen-StaysSound_example : StaysSound (listen (at 183) (ended song true) running)
listen-StaysSound_example =
    listen-StaysSound (at 183) (ended song true) running song-IsNamed both-AllSound

on_submit_signal-Leaves_example : Leaves Waits running (on_submit_signal running)
on_submit_signal-Leaves_example = on_submit_signal-Leaves running both-AllSound

abbrev file_config : ScrobblerConfig
file_config = record config { file = codes "/log" }

construct_all-MakesAll_example : MakesAll (
    construct_all
      ((config, some (codes "a = A\nt = T\n"), false) ∷ (file_config, none, true) ∷ [])
      ([], true))
construct_all-MakesAll_example =
    construct_all-MakesAll
      ((config, some (codes "a = A\nt = T\n"), false) ∷ (file_config, none, true) ∷ []) ([], true)
      tt

abbrev saved_song : Record
saved_song = record blank { artist = codes "A"; track = codes "T"; length = pos 200_000_000_000 }

abbrev queued : Scrobbler
queued = record waiting { queue = saved_song ∷ [] }

queued-IsOnline : IsOnline queued
queued-IsOnline = ground arith

saved_song-IsSavable : IsSavable saved_song
saved_song-IsSavable = record {
  artist_saved = ground arith;
  track_saved = ground arith;
  album_saved = omega arith;
  number_saved = omega arith;
  mbid_saved = omega arith;
  time_saved = omega arith;
  has_artist = refl;
  has_track = refl;
  seconds = 200;
  seconds_int = omega arith;
  whole_seconds = refl;
  known_source = inl refl;
}

construct_next-write_journal_example :
    (file : Bytes) × (write_journal true true queued ≡ some file)
    × ((t : Scrobbler) × (construct_next config (some file) false ([], true)
          ≡ some (some (t ∷ [], false)))
        × (t.queue ≡ saved_song ∷ [])
        × IsOnline t)
construct_next-write_journal_example =
    construct_next-write_journal queued true false ([], true) queued-IsOnline refl refl
      (saved_song-IsSavable, tt)
