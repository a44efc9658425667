-- ===== src/Observer/Tests.antt =====
-- Runs of the observer, and its theorems at concrete inputs.
use mpdscribble.Base.{◌≡◌, refl, true, [], ◌∷◌, none, some, arith, codes, List, ◌>>=◌}
use mpdscribble.Observer.{
  state_pause, started, playing, ended, MpdObserver, first_observer, ConnectAnswers, connect,
  on_connect_timer, schedule_idle,
}
use mpdscribble.Observer.Protocol.{FollowsAll}
use mpdscribble.Observer.Query.{
  QueryAnswers, query_state, query_status, query_song, drop_untagged, notify_resumed, notify_ended,
  notify_current, notify, finish_update, update_in, update, on_update_timer,
}
use mpdscribble.Observer.Runs.{Fits, run, run-FollowsAll, plays_song, late_tags}
use mpdscribble.Observer.Timers.{
  Event, connect_due, update_due, socket_ready, IdleAnswers, step, Keeps, IsWaiting, step-IsWaiting,
  read_texts, read_messages, handle_idle, messages_read, handle_messages, on_idle_response,
}
use mpdscribble.Song.{Song}

abbrev song : Song
song = record {
  id = 7;
  uri = codes "a.ogg";
  duration_ms = 180_000;
  artist_tag = some (codes "A");
  album_artist_tag = none;
  title_tag = some (codes "T");
  album_tag = none;
  track_tag = none;
  musicbrainz_tag = none;
}

abbrev next_song : Song
next_song = record song { id = 8; title_tag = some (codes "U") }

abbrev untagged_song : Song
untagged_song = record song { title_tag = none }

abbrev connects : ConnectAnswers
connects = record { success = true; new_enough = true; subscribes = true; cleared = true }

abbrev player_changed : IdleAnswers
player_changed = record {
  success = true;
  idle_message = true;
  idle_player = true;
  messages_sent = true;
  messages_cleared = true;
  texts = codes "love" ∷ [];
  messages_finish = true;
  idle_sent = true;
}

abbrev pauses : QueryAnswers
pauses = record (plays_song song 0) { status = some (state_pause, 0) }

abbrev waits : MpdObserver
waits = record first_observer {
  connected = true;
  connect_timer = none;
  socket = true;
  subscribed = true;
}

step-IsWaiting_example : Keeps IsWaiting (step (socket_ready player_changed) waits)
step-IsWaiting_example =
    step-IsWaiting (socket_ready player_changed) waits
      (record { watched = refl; reconnects = refl; updates = refl }) refl

abbrev songs : List Event
songs =
    connect_due connects
    ∷ update_due (plays_song song 1_000) true
    ∷ socket_ready player_changed
    ∷ update_due (plays_song next_song 0) true
    ∷ []

-- a song starts, is loved and ends when the next one starts
calls_of_a_run :
    (run songs first_observer >>= (λ (o, ns). some ns))
    ≡ some (started song ∷ ended song true ∷ started next_song ∷ [])
unfolding step on_connect_timer connect on_update_timer update query_state query_status query_song
    update_in drop_untagged notify notify_resumed notify_ended notify_current finish_update
    schedule_idle on_idle_response handle_messages read_messages read_texts messages_read
    handle_idle
calls_of_a_run = refl

songs_fit : Fits songs (some (first_observer, []))
unfolding step on_connect_timer connect on_update_timer update query_state query_status query_song
    update_in drop_untagged notify notify_resumed notify_ended notify_current finish_update
    schedule_idle on_idle_response handle_messages read_messages read_texts messages_read
    handle_idle
songs_fit = (
  refl,
  tt,
  (refl, (λ s e t p q. ground arith), (refl, tt, (refl, (λ s e t p q. ground arith), tt))),
)

run-FollowsAll_example : FollowsAll none (run songs first_observer)
run-FollowsAll_example =
    run-FollowsAll songs first_observer
      (record { watched = refl; reconnects = refl; updates = refl }) tt songs_fit

late_tags_example :
    update (plays_song song 5_000) true (record waits { last_id = 7 })
    ≡ some (record waits { last_id = 7; current_song = some song }, playing song 5_000_000_000 ∷ [])
late_tags_example = late_tags song 5_000 (record waits { last_id = 7 }) refl refl refl refl refl
