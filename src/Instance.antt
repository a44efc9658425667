-- ===== src/Instance.antt =====
-- Instance.hxx, Instance.cxx and the handlers of Main.cxx: what is done when MPD starts, pauses, resumes
-- and ends a song. The clock does not advance within one handler.
pub mod Played
pub mod Submission
pub mod PlayThrough
pub mod Listener
mod Tests
use mpdscribble.Base.{
  ℕ, ◌-◌, ◌/◌, Bool, true, false, ◌&&◌, ◌||◌, List, Option, none, some, Bytes, ltb, leb,
  if◌then◌else◌, ◌>>=◌,
}
use mpdscribble.MultiScrobbler.{now_playing, song_change, submit_all_now, write_journals}
use mpdscribble.Scrobbler.State.{Scrobbler}
use mpdscribble.Song.{Song, artist, song_duration}
use mpdscribble.Stopwatch.{Stopwatch, stopped, get_duration, start_watch, resume_watch, stop_watch}

-- The stopwatch and the scrobblers; the save timer holds the delay it was scheduled with, in seconds.
pub record Instance : Type 0 where
  pub stopwatch : Stopwatch
  pub scrobblers : List Scrobbler
  pub save_journal_interval : ℕ
  pub save_journal_timer : Option ℕ

-- What the handlers read from outside: the clock, as_timestamp() and log_date().
pub record Now : Type 0 where
  pub time : ℕ
  pub timestamp : Bytes
  pub date : Bytes

-- played_long_enough(), in nanoseconds
unfoldable pub played_long_enough : ℕ → ℕ → Bool
played_long_enough elapsed length =
    ltb 240_000_000_000 elapsed || leb 30_000_000_000 length && ltb (length / 2) elapsed

-- song_repeated()
unfoldable pub song_repeated : Song → ℕ → ℕ → Bool
unfolding played_long_enough
song_repeated song elapsed prev_elapsed =
    ltb elapsed 60_000_000_000
    && ltb elapsed prev_elapsed
    && played_long_enough (prev_elapsed - elapsed) (song_duration song)

-- Instance::OnMpdStarted() and Instance::OnMpdSongChanged()
unfoldable pub on_mpd_started : Now → Song → Instance → Option Instance
on_mpd_started now song i =
    now_playing (artist song) song.title_tag song.album_tag song.track_tag song.musicbrainz_tag
      (song_duration song) i.scrobblers
    >>= (λ scrobblers.
        some (record i { stopwatch = start_watch now.time i.stopwatch; scrobblers = scrobblers }))

-- Instance::OnMpdPaused()
unfoldable pub on_mpd_paused : Now → Instance → Instance
on_mpd_paused now i = record i { stopwatch = stop_watch now.time i.stopwatch }

-- Instance::OnMpdResumed()
unfoldable pub on_mpd_resumed : Now → Instance → Instance
on_mpd_resumed now i = record i { stopwatch = resume_watch now.time i.stopwatch }

-- Instance::OnMpdEnded()
unfoldable pub on_mpd_ended : Now → Song → Bool → Instance → Option Instance
on_mpd_ended now song love i =
    let elapsed = get_duration now.time i.stopwatch in
    let length = song_duration song in
    if played_long_enough elapsed length
    then song_change song.uri (artist song) song.title_tag song.album_tag song.track_tag
        song.musicbrainz_tag (if ltb 0 length then length else elapsed) love none now.timestamp
        now.date i.scrobblers
      >>= (λ scrobblers. some (record i { scrobblers = scrobblers }))
    else some i

-- Instance::OnMpdPlaying()
unfoldable pub on_mpd_playing : Now → Song → ℕ → Instance → Option Instance
on_mpd_playing now song elapsed i =
    if song_repeated song elapsed (get_duration now.time i.stopwatch)
    then on_mpd_ended now song false i >>= on_mpd_started now song
    else some i

-- Instance::OnSubmitSignal()
unfoldable pub on_submit_signal : Instance → Option Instance
on_submit_signal i =
    submit_all_now i.scrobblers >>= (λ scrobblers. some (record i { scrobblers = scrobblers }))

-- Instance::ScheduleSaveJournalTimer()
unfoldable pub schedule_save_journal_timer : Instance → Instance
schedule_save_journal_timer i = record i { save_journal_timer = some i.save_journal_interval }

-- Instance::Instance(), on the scrobblers that MultiScrobbler() makes
unfoldable pub first_instance : ℕ → List Scrobbler → Instance
unfolding schedule_save_journal_timer
first_instance journal_interval scrobblers = schedule_save_journal_timer (record {
  stopwatch = stopped;
  scrobblers = scrobblers;
  save_journal_interval = journal_interval;
  save_journal_timer = none;
})

-- Instance::OnSaveJournalTimer(): the state, and what is written to the journals
unfoldable pub on_save_journal_timer : Bool → Bool → Instance → Instance × List (Option Bytes)
unfolding schedule_save_journal_timer
on_save_journal_timer journal_file_empty opened i =
    (schedule_save_journal_timer i, write_journals journal_file_empty opened i.scrobblers)
