-- ===== src/Program/Running.antt =====
-- The observer and its listener keep running.
use mpdscribble.Base.{ℕ, ◌≡◌, true, false, List, [], ◌∷◌, Option, none, some, ◌>>=◌}
use mpdscribble.Instance.{Instance, Now}
use mpdscribble.Instance.Listener.{listen, StaysSound, listen-StaysSound}
use mpdscribble.MultiScrobbler.Each.{AllSound}
use mpdscribble.Observer.{Notification, MpdObserver}
use mpdscribble.Observer.Query.{Outcome, on_update_timer}
use mpdscribble.Observer.Timers.{
  Event, connect_due, update_due, socket_ready, enabled, step, silent, Keeps, IsWaiting,
  step-IsWaiting,
}
use mpdscribble.Song.{Song}
use mpdscribble.Observer.Runs.{Unchanged, on_connect_timer-Unchanged, on_idle_response-Unchanged}
use mpdscribble.Program.{listen_all, listen_to, observe}
use mpdscribble.Program.Naming.{NamedIf, NamesAll, NamesIf, TextsIf, update-NamesIf}

listen_all-StaysSound :
    (now : Now) (ns : List Notification) (i : Instance)
    → NamesAll ns
    → AllSound i.scrobblers
    → StaysSound (listen_all now ns i)
listen_all-StaysSound now [] i n v = v
listen_all-StaysSound now (m ∷ ns) i (n, k) v =
    go (listen now m i) (listen-StaysSound now m i n v) (λ j. listen_all-StaysSound now ns j k)
  where
    go :
        (r : Option Instance)
        → StaysSound r
        → ((j : Instance) → AllSound j.scrobblers → StaysSound (listen_all now ns j))
        → StaysSound (r >>= listen_all now ns)
    go none w f = w
    go (some j) w f = f j w

-- The observer waits, its song has an artist and a title, and the scrobblers are sound.
pub record IsRunning (o : MpdObserver) (i : Instance) : Type 0 where
  pub waiting : IsWaiting o
  pub named : NamedIf o.current_song
  pub sound : AllSound i.scrobblers

abbrev pub KeepsRunning : Option (MpdObserver × Instance) → Type 0
KeepsRunning none = ⊥
KeepsRunning (some (o, i)) = IsRunning o i

abbrev pub SpeaksText : Event → Type 0
SpeaksText (connect_due a) = Unit
SpeaksText (update_due a sent) = TextsIf a.song
SpeaksText (socket_ready a) = Unit

listen_to-KeepsRunning :
    (now : Now) (i : Instance) (r : Outcome)
    → AllSound i.scrobblers
    → Keeps IsWaiting r
    → NamesIf r
    → KeepsRunning (listen_to now i r)
listen_to-KeepsRunning now i none v k n = k
listen_to-KeepsRunning now i (some (o, ns)) v k (c, n) =
    go (listen_all now ns i) (listen_all-StaysSound now ns i n v)
  where
    go : (r : Option Instance) → StaysSound r → KeepsRunning (r >>= (λ j. some (o, j)))
    go none w = w
    go (some j) w = record { waiting = k; named = c; sound = w }

silent-NamesIf :
    (current : Option Song) (last_id : ℕ) (r : Option MpdObserver)
    → Unchanged current last_id r
    → NamedIf current
    → NamesIf (silent r)
silent-NamesIf current last_id none u c = tt
silent-NamesIf current last_id (some o) (u, d) c = (rw u c, tt)

step-NamesIf :
    (e : Event) (o : MpdObserver) → NamedIf o.current_song → SpeaksText e → NamesIf (step e o)
unfolding step on_update_timer
step-NamesIf (connect_due a) o c t =
    silent-NamesIf o.current_song o.last_id _ (on_connect_timer-Unchanged a o) c
step-NamesIf (update_due a sent) o c t =
    update-NamesIf a sent (record o { update_timer = false }) t c
step-NamesIf (socket_ready a) o c t =
    silent-NamesIf o.current_song o.last_id _ (on_idle_response-Unchanged a o) c

pub observe-KeepsRunning :
    (now : Now) (e : Event) (o : MpdObserver) (i : Instance)
    → IsRunning o i
    → enabled e o ≡ true
    → SpeaksText e
    → KeepsRunning (observe now e o i)
unfolding observe
observe-KeepsRunning now e o i v h t =
    listen_to-KeepsRunning now i (step e o) v.sound (step-IsWaiting e o v.waiting h)
      (step-NamesIf e o v.named t)
