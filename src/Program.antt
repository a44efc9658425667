-- ===== src/Program.antt =====
-- The observer and the instance together: struct Instance owns both, and is the listener.
pub mod Naming
pub mod Running
mod Tests
use mpdscribble.Base.{
  ℕ, ◌≡◌, refl, sym, Bool, true, false, not, ◌&&◌, ◌||◌, List, [], ◌∷◌, ◌++◌, Option, none, some,
  arith, Bytes, is_empty, is_some, if◌then◌else◌, ◌>>=◌, Bool-cases, inl, inr,
}
use mpdscribble.Instance.{Instance, Now}
use mpdscribble.Instance.Listener.{listen, NamesSong, StaysSound, listen-StaysSound}
use mpdscribble.Instance.Submission.{IsNamed}
use mpdscribble.MultiScrobbler.{or_empty}
use mpdscribble.MultiScrobbler.Each.{AllSound}
use mpdscribble.Observer.{
  MpdState, state_play, state_pause, state_other, Notification, started, playing, ended, paused,
  resumed, MpdObserver, no_id, schedule_idle, schedule_connect, handle_error, reconnect,
}
use mpdscribble.Observer.Query.{
  QueryAnswers, Outcome, update, on_update_timer, update_in, query_state, query_status, query_song,
  finish_update, notify, notify_current, notify_ended, notify_resumed, drop_untagged,
}
use mpdscribble.Observer.Timers.{
  Event, connect_due, update_due, socket_ready, enabled, step, silent, Keeps, IsWaiting,
  step-IsWaiting,
}
use mpdscribble.Song.{Song, artist, tags_missing}

-- the calls of the listener, one after another at one time
abbrev pub listen_all : Now → List Notification → Instance → Option Instance
listen_all now [] i = some i
listen_all now (n ∷ ns) i = listen now n i >>= listen_all now ns

abbrev pub listen_to : Now → Instance → Outcome → Option (MpdObserver × Instance)
listen_to now i none = none
listen_to now i (some (o, ns)) = listen_all now ns i >>= (λ j. some (o, j))

-- An event of the observer, with what its listener does.
unfoldable pub observe : Now → Event → MpdObserver → Instance → Option (MpdObserver × Instance)
observe now e o i = listen_to now i (step e o)

-- The values of the tags are not empty: MPD leaves out a tag without a value.
abbrev pub TextIf : Option Bytes → Type 0
TextIf none = Unit
TextIf (some text) = is_empty text ≡ false

abbrev pub HasText : Song → Type 0
HasText song = TextIf song.artist_tag × TextIf song.album_artist_tag × TextIf song.title_tag
