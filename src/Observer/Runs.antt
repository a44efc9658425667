-- ===== src/Observer/Runs.antt =====
-- The calls of the listener over a whole run of the observer.
use mpdscribble.Base.{
  ℕ, ◌≡◌, refl, Bool, true, false, ◌&&◌, List, [], ◌∷◌, ◌++◌, Option, none, some, arith, ◌>>=◌, ◌*◌,
}
use mpdscribble.Observer.{
  state_play, Notification, playing, MpdObserver, schedule_idle, schedule_connect, handle_error,
  reconnect, ConnectAnswers, connect, on_connect_timer,
}
use mpdscribble.Observer.Query.{
  QueryAnswers, Outcome, update, on_update_timer, update_in, query_state, query_status, query_song,
  finish_update, notify, notify_current, notify_ended, notify_resumed, drop_untagged,
}
use mpdscribble.Observer.Timers.{
  Event, connect_due, update_due, socket_ready, enabled, step, silent, Keeps, IsWaiting,
  step-IsWaiting, IdleAnswers, read_texts, read_messages, handle_idle, messages_read,
  handle_messages, on_idle_response,
}
use mpdscribble.Song.{Song, tags_missing}
use mpdscribble.Observer.Protocol.{hear, hear_all, Tracks, IsFresh, FollowsAll, update-FollowsAll}

-- The songs of an event are fresh, in the state it comes in.
abbrev pub IsFreshEvent : Event → MpdObserver → Type 0
IsFreshEvent (connect_due a) o = Unit
IsFreshEvent (update_due a sent) o =
    (song : Song) → a.song ≡ some song → IsFresh o.current_song o.last_id song
IsFreshEvent (socket_ready a) o = Unit

abbrev pub Unchanged : Option Song → ℕ → Option MpdObserver → Type 0
Unchanged current last_id none = Unit
Unchanged current last_id (some o) = (o.current_song ≡ current) × (o.last_id ≡ last_id)

pub on_connect_timer-Unchanged :
    (a : ConnectAnswers) (o : MpdObserver)
    → Unchanged o.current_song o.last_id (on_connect_timer a o)
unfolding on_connect_timer connect schedule_connect handle_error
on_connect_timer-Unchanged a o = ground arith

handle_idle-Unchanged :
    (a : IdleAnswers) (o : MpdObserver) → Unchanged o.current_song o.last_id (handle_idle a o)
unfolding handle_idle schedule_idle reconnect schedule_connect handle_error
handle_idle-Unchanged a o = ground arith

messages_read-Unchanged :
    (a : IdleAnswers) (r : MpdObserver × Bool)
    → Unchanged r.0.current_song r.0.last_id (messages_read a r)
unfolding messages_read reconnect schedule_connect handle_error
messages_read-Unchanged a (o, true) = handle_idle-Unchanged a o
messages_read-Unchanged a (o, false) = ground arith

handle_messages-Unchanged :
    (some_message : Bool) (a : IdleAnswers) (o : MpdObserver)
    → Unchanged o.current_song o.last_id (handle_messages some_message a o)
unfolding handle_messages read_messages
handle_messages-Unchanged true a o = ground (
  arith,
  messages_read-Unchanged a (o, a.messages_cleared),
  messages_read-Unchanged a (record o { love = read_texts a.texts o.love }, a.messages_finish),
)
handle_messages-Unchanged false a o = handle_idle-Unchanged a o

pub on_idle_response-Unchanged :
    (a : IdleAnswers) (o : MpdObserver) → Unchanged o.current_song o.last_id (on_idle_response a o)
unfolding on_idle_response reconnect schedule_connect handle_error
on_idle_response-Unchanged a o =
    ground (arith, handle_messages-Unchanged (o.subscribed && a.idle_message) a o)

silent-FollowsAll :
    (current : Option Song) (last_id : ℕ) (r : Option MpdObserver)
    → Unchanged current last_id r
    → Tracks current last_id
    → Keeps IsWaiting (silent r)
    → FollowsAll current (silent r)
silent-FollowsAll none last_id none u v k = elim k [ ]
silent-FollowsAll (some song) last_id none u v k = elim k [ ]
silent-FollowsAll none last_id (some o) u v k = ground arith
silent-FollowsAll (some song) last_id (some o) u v k = ground arith

step-FollowsAll :
    (e : Event) (o : MpdObserver)
    → IsWaiting o
    → enabled e o ≡ true
    → Tracks o.current_song o.last_id
    → IsFreshEvent e o
    → FollowsAll o.current_song (step e o)
unfolding step on_update_timer
step-FollowsAll (connect_due a) o w h v f =
    silent-FollowsAll o.current_song o.last_id _ (on_connect_timer-Unchanged a o) v
      (step-IsWaiting (connect_due a) o w h)
step-FollowsAll (update_due a sent) o w h v f =
    update-FollowsAll a sent (record o { update_timer = false }) v (ground arith) f
step-FollowsAll (socket_ready a) o w h v f =
    silent-FollowsAll o.current_song o.last_id _ (on_idle_response-Unchanged a o) v
      (step-IsWaiting (socket_ready a) o w h)

-- The events of a run can all come when they do, and their songs are fresh then.
abbrev pub Fits : List Event → Outcome → Type 0
Fits [] r = Unit
Fits (e ∷ es) none = Unit
Fits (e ∷ es) (some (o, ns)) = (enabled e o ≡ true) × IsFreshEvent e o × Fits es (step e o)

-- The observer after a run, and the calls of the listener on the way.
abbrev pub run : List Event → MpdObserver → Outcome
run [] o = some (o, [])
run (e ∷ es) o = do (p, ns) ← step e o; (q, ms) ← run es p; some (q, ns ++ ms)

Fits-silent :
    (es : List Event) (o : MpdObserver) (ns : List Notification)
    → Fits es (some (o, ns))
    → Fits es (some (o, []))
Fits-silent [] o ns f = tt
Fits-silent (e ∷ es) o ns f = f

hear_all-++ :
    (active : Option Song) (ns ms : List Notification)
    → hear_all active (ns ++ ms) ≡ (hear_all active ns >>= (λ next. hear_all next ms))
hear_all-++ active [] ms = refl
hear_all-++ active (n ∷ ns) ms = go (hear active n) (λ next. hear_all-++ next ns ms)
  where
    go :
        (heard : Option (Option Song))
        → ((next : Option Song)
            → hear_all next (ns ++ ms) ≡ (hear_all next ns >>= (λ last. hear_all last ms)))
        → (heard >>= (λ next. hear_all next (ns ++ ms)))
          ≡ ((heard >>= (λ next. hear_all next ns)) >>= (λ next. hear_all next ms))
    go none rest = refl
    go (some next) rest = rest next

after-FollowsAll :
    (active : Option Song) (p : MpdObserver) (ns : List Notification) (rest : Outcome)
    → hear_all active ns ≡ some p.current_song
    → FollowsAll p.current_song rest
    → FollowsAll active (rest >>= (λ (q, ms). some (q, ns ++ ms)))
after-FollowsAll active p ns none h v = elim v [ ]
after-FollowsAll active p ns (some (q, ms)) h v = ground (arith, hear_all-++ active ns ms)

then-FollowsAll :
    (es : List Event) (active : Option Song) (r : Outcome)
    → Keeps IsWaiting r
    → FollowsAll active r
    → Fits es r
    → ((p : MpdObserver)
        → IsWaiting p
        → Tracks p.current_song p.last_id
        → Fits es (some (p, []))
        → FollowsAll p.current_song (run es p))
    → FollowsAll active (r >>= (λ (p, ns). run es p >>= (λ (q, ms). some (q, ns ++ ms))))
then-FollowsAll es active none k v f rest = elim k [ ]
then-FollowsAll es active (some (p, ns)) k v f rest =
    after-FollowsAll active p ns (run es p) v.0 (rest p k v.1 (Fits-silent es p ns f))

pub run-FollowsAll :
    (es : List Event) (o : MpdObserver)
    → IsWaiting o
    → Tracks o.current_song o.last_id
    → Fits es (some (o, []))
    → FollowsAll o.current_song (run es o)
run-FollowsAll [] o w v f = (refl, v)
run-FollowsAll (e ∷ es) o w v (h, fresh, fits) =
    then-FollowsAll es o.current_song (step e o) (step-IsWaiting e o w h)
      (step-FollowsAll e o w h v fresh) fits (run-FollowsAll es)

-- the answers of MPD when it plays a song
abbrev pub plays_song : Song → ℕ → QueryAnswers
plays_song song ms = record {
  status = some (state_play, ms);
  next = true;
  song = some song;
  finish = true;
}

pub late_tags :
    (song : Song) (ms : ℕ) (o : MpdObserver)
    → o.connected ≡ true
    → o.was_paused ≡ false
    → o.current_song ≡ none
    → song.id ≡ o.last_id
    → tags_missing song ≡ false
    → update (plays_song song ms) true o
      ≡ some (
        record o { idle_notified = false; current_song = some song },
        playing song (ms * 1_000_000) ∷ [],
      )
unfolding update query_state query_status query_song update_in finish_update notify notify_resumed
    notify_ended notify_current schedule_idle drop_untagged
late_tags song ms o c w n i t = ground arith
