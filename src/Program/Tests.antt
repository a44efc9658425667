-- ===== src/Program/Tests.antt =====
-- The program on a song that MPD plays.
use mpdscribble.Base.{refl, true, [], ◌∷◌, none, some, codes}
use mpdscribble.Instance.{Instance, Now}
use mpdscribble.MultiScrobbler.Each.{logging}
use mpdscribble.Observer.{MpdObserver, first_observer}
use mpdscribble.Observer.Runs.{plays_song}
use mpdscribble.Observer.Timers.{update_due}
use mpdscribble.Program.{observe}
use mpdscribble.Program.Running.{IsRunning, KeepsRunning, observe-KeepsRunning}
use mpdscribble.Record.{blank}
use mpdscribble.Scrobbler.State.{Scrobbler, nothing, first_interval}
use mpdscribble.Song.{Song}
use mpdscribble.Stopwatch.{stopped}

abbrev song : Song
song = record {
  id = 7;
  uri = codes "a.ogg";
  duration_ms = 180_000;
  artist_tag = some (codes "A");
  album_artist_tag = none;
  title_tag = some (codes "T");
  album_tag = none;
  track_tag = none;
  musicbrainz_tag = none;
}

abbrev to_file : Scrobbler
to_file = record {
  config = record {
    name = codes "file";
    url = [];
    username = [];
    password = [];
    journal = [];
    file = codes "/log";
  };
  file = some [];
  state = nothing;
  interval = first_interval;
  http_request = none;
  handshake_timer = none;
  submit_timer = none;
  session = [];
  nowplay_url = [];
  submit_url = [];
  now_playing = blank;
  queue = [];
  pending = 0;
}

abbrev instance_to_file : Instance
instance_to_file = record {
  stopwatch = stopped;
  scrobblers = to_file ∷ [];
  save_journal_interval = 600;
  save_journal_timer = some 600;
}

abbrev connected_observer : MpdObserver
connected_observer = record first_observer {
  connected = true;
  connect_timer = none;
  update_timer = true;
  socket = true;
}

abbrev now : Now
now = record { time = 1_000_000_000; timestamp = codes "1"; date = codes "d" }

running : IsRunning connected_observer instance_to_file
running = record {
  waiting = record { watched = refl; reconnects = refl; updates = refl };
  named = tt;
  sound = (
    logging []
        (record { open_file = refl; no_handshake = refl; no_submission = refl; no_request = refl }),
    tt,
  );
}

observe-KeepsRunning_example :
    KeepsRunning
      (observe now (update_due (plays_song song 0) true) connected_observer instance_to_file)
observe-KeepsRunning_example =
    observe-KeepsRunning now (update_due (plays_song song 0) true) connected_observer
      instance_to_file running refl (refl, tt, refl)
