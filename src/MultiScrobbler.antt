-- ===== src/MultiScrobbler.antt =====
-- MultiScrobbler.hxx and MultiScrobbler.cxx: all scrobblers of the configuration.
pub mod Each
pub mod Start
pub mod Restart
use mpdscribble.Base.{
  ℕ, Bool, true, false, not, ◌&&◌, ◌||◌, List, [], ◌∷◌, ◌++◌, Option, none, some, Bytes, is_empty,
  is_some, codes, c_str, starts_with, if◌then◌else◌, ◌>>=◌,
}
use mpdscribble.Base.Int.{pos}
use mpdscribble.Journal.{journal_read, journal_write}
use mpdscribble.Record.{Record, blank}
use mpdscribble.Scrobbler.Operations.{construct, push, schedule_now_playing, submit_now}
use mpdscribble.Scrobbler.State.{Scrobbler, ScrobblerConfig}

-- One round of the loop of MultiScrobbler::MultiScrobbler(), on the journal file of the configuration
-- (`none` if it cannot be opened) and on whether its log file can be opened. The state is the list of
-- scrobblers, and `journal_file_empty`. The outer `none` is a failed assertion, the inner one the
-- exception.
unfoldable pub construct_next :
    ScrobblerConfig
    → Option Bytes
    → Bool
    → List Scrobbler × Bool
    → Option (Option (List Scrobbler × Bool))
construct_next config journal opened (scrobblers, journal_file_empty) =
    let (loaded, flag) =
      if is_empty config.journal then ([], journal_file_empty) else journal_read journal in
    construct config loaded opened
    >>= (λ made. elim made [ none ↦ some none | some s ↦ some (some (s ∷ scrobblers, flag)) ])

-- The loop of MultiScrobbler::MultiScrobbler(), on each configuration with its journal file and its
-- log file
unfoldable pub construct_all :
    List (ScrobblerConfig × Option Bytes × Bool)
    → List Scrobbler × Bool
    → Option (Option (List Scrobbler × Bool))
unfolding construct_next
construct_all [] r = some (some r)
construct_all ((config, journal, opened) ∷ configs) r =
    construct_next config journal opened r
    >>= (λ made. elim made [ none ↦ some none | some next ↦ construct_all configs next ])

-- A call of one method on every scrobbler, in the order of the list.
unfoldable pub for_each : (Scrobbler → Option Scrobbler) → List Scrobbler → Option (List Scrobbler)
for_each f [] = some []
for_each f (s ∷ scrobblers) = do t ← f s; rest ← for_each f scrobblers; some (t ∷ rest)

abbrev pub or_empty : Option Bytes → Bytes
or_empty none = []
or_empty (some text) = text

-- the record that MultiScrobbler::NowPlaying() builds; the arguments are pointers that may be null
unfoldable pub now_playing_record :
    Option Bytes → Option Bytes → Option Bytes → Option Bytes → Option Bytes → ℕ → Record
now_playing_record artist track album number mbid length = record blank {
  artist = or_empty artist;
  track = or_empty track;
  album = or_empty album;
  number = or_empty number;
  mbid = or_empty mbid;
  length = pos length;
}

-- MultiScrobbler::NowPlaying()
unfoldable pub now_playing :
    Option Bytes
    → Option Bytes
    → Option Bytes
    → Option Bytes
    → Option Bytes
    → ℕ
    → List Scrobbler
    → Option (List Scrobbler)
unfolding now_playing_record for_each
now_playing artist track album number mbid length =
    for_each (schedule_now_playing (now_playing_record artist track album number mbid length))

-- `strstr(file, needle) != nullptr`
unfoldable pub contains : Bytes → Bytes → Bool
contains [] needle = is_empty needle
contains (c ∷ file) needle = starts_with (c ∷ file) needle || contains file needle

-- the record that MultiScrobbler::SongChange() builds, on what as_timestamp() returns; `none` if the
-- artist or the title is missing or empty
unfoldable pub song_change_record :
    Bytes
    → Option Bytes
    → Option Bytes
    → Option Bytes
    → Option Bytes
    → Option Bytes
    → ℕ
    → Bool
    → Option Bytes
    → Bytes
    → Option Record
unfolding contains
song_change_record file artist track album number mbid length love time2 timestamp =
    if is_empty (or_empty artist)
    then none
    else if is_empty (or_empty track)
    then none
    else some (record {
      artist = or_empty artist;
      track = or_empty track;
      album = or_empty album;
      number = or_empty number;
      mbid = or_empty mbid;
      time = if is_some time2 then or_empty time2 else timestamp;
      length = pos length;
      love = love;
      source = if contains file (codes "://") then codes "R" else codes "P";
    })

-- the end of MultiScrobbler::SongChange()
unfoldable pub push_record : Bytes → Option Record → List Scrobbler → Option (List Scrobbler)
unfolding for_each
push_record date none scrobblers = some scrobblers
push_record date (some song) scrobblers = for_each (push date song) scrobblers

-- MultiScrobbler::SongChange(); `date` is what log_date() returns
unfoldable pub song_change :
    Bytes
    → Option Bytes
    → Option Bytes
    → Option Bytes
    → Option Bytes
    → Option Bytes
    → ℕ
    → Bool
    → Option Bytes
    → Bytes
    → Bytes
    → List Scrobbler
    → Option (List Scrobbler)
unfolding song_change_record push_record
song_change file artist track album number mbid length love time2 timestamp date =
    push_record date
      (song_change_record file artist track album number mbid length love time2 timestamp)

-- MultiScrobbler::SubmitNow()
unfoldable pub submit_all_now : List Scrobbler → Option (List Scrobbler)
unfolding for_each
submit_all_now = for_each submit_now

-- Scrobbler::WriteJournal(), on `journal_file_empty` and on whether fopen() succeeds: the new contents
-- of the journal, `none` if it is left alone
unfoldable pub write_journal : Bool → Bool → Scrobbler → Option Bytes
write_journal journal_file_empty opened s =
    if is_some s.file || is_empty s.config.journal
    then none
    else (journal_write journal_file_empty opened s.queue).1

-- MultiScrobbler::WriteJournal()
unfoldable pub write_journals : Bool → Bool → List Scrobbler → List (Option Bytes)
unfolding write_journal
write_journals journal_file_empty opened [] = []
write_journals journal_file_empty opened (s ∷ scrobblers) =
    write_journal journal_file_empty opened s ∷ write_journals journal_file_empty opened scrobblers
