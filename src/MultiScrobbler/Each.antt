-- ===== src/MultiScrobbler/Each.antt =====
-- What a call does to every scrobbler, and a record in particular.
use mpdscribble.Base.{
  ◌≡◌, refl, true, List, [], ◌∷◌, ◌++◌, Option, none, some, arith, Bytes, ◌>>=◌, append-nil,
}
use mpdscribble.MultiScrobbler.{for_each}
use mpdscribble.Record.{Record, record_is_defined}
use mpdscribble.Scrobbler.Events.{pushes, plays, hurries, step}
use mpdscribble.Scrobbler.Invariant.{IsOnline, Returns, step-IsOnline}
use mpdscribble.Scrobbler.LogFile.{IsLogging, step-IsLogging}
use mpdscribble.Scrobbler.Operations.{
  push, enqueue, schedule_submit, schedule_handshake, hurry_submit, hurry_handshake,
  schedule_now_playing, submit_now, log_line,
}
use mpdscribble.Scrobbler.State.{Scrobbler, Env}

-- A scrobbler submits to a server or writes to a file, in a state that its own theorems ask for.
pub data IsSound (s : Scrobbler) : Type 0 where
  online : IsOnline s → IsSound s
  logging : (written : Bytes) → IsLogging s written → IsSound s

abbrev pub AllSound : List Scrobbler → Type 0
AllSound [] = Unit
AllSound (s ∷ scrobblers) = IsSound s × AllSound scrobblers

-- Two lists of scrobblers are related one by one.
abbrev pub Pairwise : (Scrobbler → Scrobbler → Type 0) → List Scrobbler → List Scrobbler → Type 0
Pairwise R [] [] = Unit
Pairwise R [] (t ∷ ts) = ⊥
Pairwise R (s ∷ ss) [] = ⊥
Pairwise R (s ∷ ss) (t ∷ ts) = R s t × Pairwise R ss ts

-- A call succeeds, keeps a scrobbler sound, and changes it as a relation says.
abbrev pub Does : (Scrobbler → Scrobbler → Type 0) → Scrobbler → Option Scrobbler → Type 0
Does R s none = ⊥
Does R s (some t) = IsSound t × R s t

abbrev pub DoesAll :
    (Scrobbler → Scrobbler → Type 0) → List Scrobbler → Option (List Scrobbler) → Type 0
DoesAll R ss none = ⊥
DoesAll R ss (some ts) = AllSound ts × Pairwise R ss ts

pub for_each-DoesAll :
    (R : Scrobbler → Scrobbler → Type 0) (f : Scrobbler → Option Scrobbler)
    → ((s : Scrobbler) → IsSound s → Does R s (f s))
    → (ss : List Scrobbler) → AllSound ss
    → DoesAll R ss (for_each f ss)
unfolding for_each
for_each-DoesAll R f h [] v = (tt, tt)
for_each-DoesAll R f h (s ∷ ss) (v, w) =
    go (f s) (h s v) (for_each f ss) (for_each-DoesAll R f h ss w)
  where
    go :
        (r : Option Scrobbler)
        → Does R s r
        → (rest : Option (List Scrobbler)) → DoesAll R ss rest
        → DoesAll R (s ∷ ss) (r >>= (λ t. rest >>= (λ ts. some (t ∷ ts))))
    go none d rest e = elim d [ ]
    go (some t) d none e = elim e [ ]
    go (some t) (d, r) (some ts) (e, q) = ((d, e), (r, q))

-- A scrobbler over a log file gets the line of the song, any other the song itself.
abbrev pub Gets : Bytes → Record → Scrobbler → Scrobbler → Type 0
Gets date song s t = elim s.file [
  | none ↦ (t.file ≡ none) × (t.queue ≡ s.queue ++ song ∷ [])
  | some written ↦ (t.file ≡ some (written ++ log_line date song)) × (t.queue ≡ s.queue)
]

-- Nothing is submitted or written.
abbrev pub Waits : Scrobbler → Scrobbler → Type 0
Waits s t = (t.file ≡ s.file) × (t.queue ≡ s.queue)

pub Waits-Gets :
    (date : Bytes) (r : Record) (s t u : Scrobbler) → Waits s t → Gets date r t u → Gets date r s u
Waits-Gets date r s t u (f, e) g = ground arith

pub Pairwise-compose :
    (R S T : Scrobbler → Scrobbler → Type 0)
    → ((s t u : Scrobbler) → R s t → S t u → T s u)
    → (ss ts us : List Scrobbler) → Pairwise R ss ts
    → Pairwise S ts us
    → Pairwise T ss us
Pairwise-compose R S T c [] [] [] p q = tt
Pairwise-compose R S T c [] (t ∷ ts) us p q = elim p [ ]
Pairwise-compose R S T c [] [] (u ∷ us) p q = elim q [ ]
Pairwise-compose R S T c (s ∷ ss) [] us p q = elim p [ ]
Pairwise-compose R S T c (s ∷ ss) (t ∷ ts) [] p q = elim q [ ]
Pairwise-compose R S T c (s ∷ ss) (t ∷ ts) (u ∷ us) (a, p) (b, q) =
    (c s t u a b, Pairwise-compose R S T c ss ts us p q)

pub Pairwise-refl : (ss : List Scrobbler) → Pairwise Waits ss ss
Pairwise-refl [] = tt
Pairwise-refl (s ∷ ss) = ((refl, refl), Pairwise-refl ss)

pub Gets-Waits :
    (date : Bytes) (r : Record) (s t u : Scrobbler) → Gets date r s t → Waits t u → Gets date r s u
Gets-Waits date r s t u g (f, e) = ground arith

-- the pushes do not encode anything
abbrev no_env : Env
no_env = record { md5 = λ s. s; curl_escape = λ s. some s; client_version = [] }

Does-online :
    (R : Scrobbler → Scrobbler → Type 0) (s : Scrobbler) (r : Option Scrobbler)
    → Returns IsOnline r
    → Returns (R s) r
    → Does R s r
Does-online R s none v q = v
Does-online R s (some t) v q = (online v, q)

Does-logging :
    (R : Scrobbler → Scrobbler → Type 0) (s t : Scrobbler) (written : Bytes) (r : Option Scrobbler)
    → r ≡ some t
    → IsLogging t written
    → R s t
    → Does R s r
Does-logging R s t written r e v q = rw e (logging written v, q)

push-online :
    (date : Bytes) (song : Record) (s : Scrobbler)
    → IsOnline s
    → Returns (Gets date song s) (push date song s)
unfolding push enqueue schedule_submit
push-online date song s v = ground arith

Gets-logging :
    (date : Bytes) (song : Record) (s t : Scrobbler) (written : Bytes)
    → s.file ≡ some written
    → t.file ≡ some (written ++ log_line date song)
    → t.queue ≡ s.queue
    → Gets date song s t
Gets-logging date song s t written f g q = ground arith

pub push-Does :
    (date : Bytes) (song : Record) (s : Scrobbler)
    → IsSound s
    → Does (Gets date song) s (push date song s)
unfolding step
push-Does date song s (online v) =
    Does-online (Gets date song) s (push date song s)
      (step-IsOnline no_env (pushes date song) s v refl) (push-online date song s v)
push-Does date song s (logging written v) =
    let (t, e, w, q) = step-IsLogging no_env (pushes date song) s written v refl in
    Does-logging (Gets date song) s t _ (push date song s) e w
      (Gets-logging date song s t written v.open_file w.open_file q)

pub schedule_now_playing-Does :
    (song : Record) (s : Scrobbler)
    → record_is_defined song ≡ true
    → IsSound s
    → Does Waits s (schedule_now_playing song s)
unfolding schedule_now_playing step
schedule_now_playing-Does song s d (online v) =
    Does-online Waits s (schedule_now_playing song s) (step-IsOnline no_env (plays song) s v d)
      (ground arith)
schedule_now_playing-Does song s d (logging written v) =
    Does-logging Waits s s written (schedule_now_playing song s) (ground arith) v (refl, refl)

submit_now-online : (s : Scrobbler) → IsOnline s → Returns (Waits s) (submit_now s)
unfolding submit_now hurry_submit hurry_handshake schedule_handshake schedule_submit
submit_now-online s v = ground arith

pub submit_now-Does : (s : Scrobbler) → IsSound s → Does Waits s (submit_now s)
unfolding submit_now step
submit_now-Does s (online v) =
    Does-online Waits s (submit_now s) (step-IsOnline no_env hurries s v refl)
      (submit_now-online s v)
submit_now-Does s (logging written v) =
    let (t, e, w, q) = step-IsLogging no_env hurries s written v refl in
    Does-logging Waits s t _ (submit_now s) e w (ground (arith, append-nil written), q)
