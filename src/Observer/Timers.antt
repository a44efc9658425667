-- ===== src/Observer/Timers.antt =====
-- MpdObserver::OnIdleResponse(), and that the observer always waits for exactly one thing.
use mpdscribble.Base.{
  ℕ, ◌≡◌, refl, Bool, true, false, not, ◌&&◌, List, [], ◌∷◌, Option, none, some, arith, Bytes,
  is_some, if◌then◌else◌, ◌>>=◌, ◌>>◌, check, same, codes,
}
use mpdscribble.Observer.{
  MpdState, state_play, state_pause, state_other, Notification, MpdObserver, no_id, schedule_update,
  schedule_idle, reconnect, ConnectAnswers, on_connect_timer,
}
use mpdscribble.Song.{Song}
use mpdscribble.Observer.Query.{
  QueryAnswers, Outcome, update, update_in, on_update_timer, query_status, finish_update, notify,
  drop_untagged,
}

-- The answers when the socket is ready: mpd_response_finish(), the two bits of mpd_recv_idle() that
-- matter, whether mpd_send_read_messages() succeeds and its error can be cleared, the texts of the
-- messages, and mpd_response_finish() behind them.
pub record IdleAnswers : Type 0 where
  pub success : Bool
  pub idle_message : Bool
  pub idle_player : Bool
  pub messages_sent : Bool
  pub messages_cleared : Bool
  pub texts : List Bytes
  pub messages_finish : Bool
  pub idle_sent : Bool

-- the loop of ReadMessages()
unfoldable pub read_texts : List Bytes → Bool → Bool
read_texts [] love = love
read_texts (text ∷ texts) love = read_texts texts (if same text (codes "love") then true else love)

-- MpdObserver::ReadMessages(); the flag is what it returns
unfoldable pub read_messages : IdleAnswers → MpdObserver → Option (MpdObserver × Bool)
unfolding read_texts
read_messages a o = do
  check o.subscribed
  if not a.messages_sent
      then some (o, a.messages_cleared)
      else some (record o { love = read_texts a.texts o.love }, a.messages_finish)

-- the last test of OnIdleResponse()
unfoldable pub handle_idle : IdleAnswers → MpdObserver → Option MpdObserver
unfolding schedule_idle
handle_idle a o = if a.idle_player then some (schedule_update o) else schedule_idle a.idle_sent o

-- the outcome of ReadMessages() in OnIdleResponse()
unfoldable pub messages_read : IdleAnswers → MpdObserver × Bool → Option MpdObserver
unfolding handle_idle reconnect
messages_read a (o, true) = handle_idle a o
messages_read a (o, false) = reconnect o

-- from the test for messages on; the flag is `subscribed && (idle & MPD_IDLE_MESSAGE) != 0`
unfoldable pub handle_messages : Bool → IdleAnswers → MpdObserver → Option MpdObserver
unfolding messages_read handle_idle
handle_messages true a o = read_messages a o >>= messages_read a
handle_messages false a o = handle_idle a o

-- MpdObserver::OnIdleResponse()
unfoldable pub on_idle_response : IdleAnswers → MpdObserver → Option MpdObserver
unfolding reconnect
on_idle_response a o = do
  check o.connected
  elim a.success [
    | true ↦ handle_messages (o.subscribed && a.idle_message) a o
    | false ↦ reconnect o
  ]

-- What happens to the observer: one of its events fires, with the answers of MPD.
pub data Event : Type 0 where
  connect_due : ConnectAnswers → Event
  update_due : QueryAnswers → Bool → Event
  socket_ready : IdleAnswers → Event

-- A socket is not looked at while a deferred event is pending: EventLoop::Run() runs those first.
abbrev pub enabled : Event → MpdObserver → Bool
enabled (connect_due a) o = is_some o.connect_timer
enabled (update_due a sent) o = o.update_timer
enabled (socket_ready a) o = o.socket && not o.update_timer

abbrev pub silent : Option MpdObserver → Outcome
silent none = none
silent (some o) = some (o, [])

unfoldable pub step : Event → MpdObserver → Outcome
unfolding on_connect_timer on_update_timer
step (connect_due a) o = silent (on_connect_timer a o)
step (update_due a sent) o = on_update_timer a sent o
step (socket_ready a) o = silent (on_idle_response a o)

-- With a connection its socket is watched, and without one the connect timer runs and no update is
-- due.
pub record IsWaiting (o : MpdObserver) : Type 0 where
  pub watched : o.socket ≡ o.connected
  pub reconnects : is_some o.connect_timer ≡ not o.connected
  pub updates : (o.update_timer && not o.connected) ≡ false

abbrev pub Keeps : (MpdObserver → Type 0) → Outcome → Type 0
Keeps P none = ⊥
Keeps P (some (o, ns)) = P o

abbrev pub Gives : (MpdObserver → Type 0) → Option MpdObserver → Type 0
Gives P none = ⊥
Gives P (some o) = P o

-- what a query has left of a waiting observer
record IsQueried (o : MpdObserver) : Type 0 where
  watched : o.socket ≡ o.connected
  calm : o.connect_timer ≡ none
  updated : o.update_timer ≡ false

query_status-IsQueried :
    (a : QueryAnswers) (status : Option (MpdState × ℕ)) (o : MpdObserver)
    → IsQueried o
    → o.connected ≡ true
    → let q = query_status a status o in
      IsQueried q.observer × ((q.state ≡ state_pause) → q.observer.connected ≡ true)
unfolding query_status
query_status-IsQueried a none o v c = ground arith
query_status-IsQueried a (some (state_play, ms)) o v c = ground arith
query_status-IsQueried a (some (state_pause, ms)) o v c = ground arith
query_status-IsQueried a (some (state_other, ms)) o v c = ground arith

drop_untagged-IsQueried :
    (song : Option Song) (o : MpdObserver) → IsQueried o → IsQueried (drop_untagged song o)
unfolding drop_untagged
drop_untagged-IsQueried none o v = v
drop_untagged-IsQueried (some song) o v = ground arith

notify-IsQueried :
    (prev : Option Song) (elapsed : ℕ) (o : MpdObserver)
    → IsQueried o
    → IsQueried (notify prev elapsed o).0
unfolding notify
notify-IsQueried prev elapsed o v = ground arith

finish_update-IsWaiting :
    (sent : Bool) (r : MpdObserver × List Notification)
    → IsQueried r.0
    → Keeps IsWaiting (finish_update sent r)
unfolding finish_update
finish_update-IsWaiting sent (o, ns) v = ground arith

update_in-IsWaiting :
    (state : MpdState) (sent : Bool) (prev : Option Song) (elapsed : ℕ) (o : MpdObserver)
    → IsQueried o
    → (state ≡ state_pause → o.connected ≡ true)
    → Keeps IsWaiting (update_in state sent prev elapsed o)
unfolding update_in
update_in-IsWaiting state_pause sent prev elapsed o v c = ground arith
update_in-IsWaiting state_play sent prev elapsed o v c = finish_update-IsWaiting sent _ (
    notify-IsQueried prev elapsed (drop_untagged o.current_song o)
      (drop_untagged-IsQueried o.current_song o v))
update_in-IsWaiting state_other sent prev elapsed o v c = finish_update-IsWaiting sent _ (
    notify-IsQueried prev elapsed
      (record o { current_song = none; last_id = no_id; was_paused = false }) (ground arith))

update-IsWaiting :
    (a : QueryAnswers) (sent : Bool) (o : MpdObserver)
    → IsQueried o
    → o.connected ≡ true
    → Keeps IsWaiting (update a sent o)
unfolding update
update-IsWaiting a sent o v c =
    let q = query_status a a.status o in
    let (w, d) = query_status-IsQueried a a.status o v c in
    ground (arith, update_in-IsWaiting q.state sent o.current_song q.elapsed q.observer w d)

messages_read-IsWaiting :
    (a : IdleAnswers) (o : MpdObserver) (read : Bool)
    → IsWaiting o
    → o.connected ≡ true
    → o.update_timer ≡ false
    → Gives IsWaiting (messages_read a (o, read))
unfolding messages_read
messages_read-IsWaiting a o true v c u = ground arith
messages_read-IsWaiting a o false v c u = ground arith

handle_messages-IsWaiting :
    (a : IdleAnswers) (o : MpdObserver) (some_message : Bool)
    → IsWaiting o
    → o.connected ≡ true
    → o.update_timer ≡ false
    → (some_message ≡ true → o.subscribed ≡ true)
    → Gives IsWaiting (handle_messages some_message a o)
unfolding handle_messages read_messages
handle_messages-IsWaiting a o true v c u d = ground (
  arith,
  d refl,
  messages_read-IsWaiting a o a.messages_cleared v c u,
  messages_read-IsWaiting a (record o { love = read_texts a.texts o.love }) a.messages_finish,
)
handle_messages-IsWaiting a o false v c u d = ground arith

on_idle_response-IsWaiting :
    (a : IdleAnswers) (o : MpdObserver)
    → IsWaiting o
    → o.connected ≡ true
    → o.update_timer ≡ false
    → Gives IsWaiting (on_idle_response a o)
unfolding on_idle_response
on_idle_response-IsWaiting a o v c u = ground (
  arith,
  handle_messages-IsWaiting a o (o.subscribed && a.idle_message) v c u (λ e. ground arith),
)

pub step-IsWaiting :
    (e : Event) (o : MpdObserver) → IsWaiting o → enabled e o ≡ true → Keeps IsWaiting (step e o)
unfolding step
step-IsWaiting (connect_due a) o v h = ground arith
step-IsWaiting (update_due a sent) o v h =
    update-IsWaiting a sent (record o { update_timer = false }) (ground arith) (ground arith)
step-IsWaiting (socket_ready a) o v h = ground (arith, on_idle_response-IsWaiting a o v)
