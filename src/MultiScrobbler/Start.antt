-- ===== src/MultiScrobbler/Start.antt =====
-- The scrobblers of a configuration, right after they are made.
use mpdscribble.Base.{
  ◌≡◌, refl, Bool, true, false, List, [], ◌∷◌, Option, none, some, arith, Bytes, is_empty, ◌>>=◌,
  if◌then◌else◌, Bool-cases, inl, inr,
}
use mpdscribble.MultiScrobbler.{construct_next, construct_all}
use mpdscribble.MultiScrobbler.Each.{IsSound, AllSound, online, logging}
use mpdscribble.Journal.{journal_read}
use mpdscribble.Record.{Record}
use mpdscribble.Scrobbler.Operations.{construct}
use mpdscribble.Scrobbler.Session.{construct-IsOnline}
use mpdscribble.Scrobbler.State.{Scrobbler, ScrobblerConfig, Env}

abbrev pub no_env : Env
no_env = record { md5 = λ s. s; curl_escape = λ s. some s; client_version = [] }

-- An assertion has not failed, and what was made, if there was no exception, is sound.
abbrev Makes : Option (Option Scrobbler) → Type 0
Makes none = ⊥
Makes (some none) = Unit
Makes (some (some s)) = IsSound s

abbrev pub MakesAll : Option (Option (List Scrobbler × Bool)) → Type 0
MakesAll none = ⊥
MakesAll (some none) = Unit
MakesAll (some (some (scrobblers, flag))) = AllSound scrobblers

construct-logging :
    (config : ScrobblerConfig) (loaded : List Record) (opened : Bool)
    → is_empty config.file ≡ false
    → Makes (construct config loaded opened)
unfolding construct
construct-logging config loaded true e = rw e (
    logging []
      (record { open_file = refl; no_handshake = refl; no_submission = refl; no_request = refl }))
construct-logging config loaded false e = rw e tt

pub is_empty-nil : (b : Bytes) → is_empty b ≡ true → b ≡ []
is_empty-nil [] e = refl
is_empty-nil (c ∷ b) e = absurd (ground arith)

construct-Makes :
    (config : ScrobblerConfig) (loaded : List Record) (opened : Bool)
    → Makes (construct config loaded opened)
construct-Makes config loaded opened = elim (Bool-cases (is_empty config.file)) [
  | inl e ↦
      let (s, made, q, h, v, f) =
        construct-IsOnline no_env config loaded opened (is_empty-nil config.file e) in
      rw made (online v)
  | inr e ↦ construct-logging config loaded opened e
]

construct_next-MakesAll :
    (config : ScrobblerConfig) (journal : Option Bytes) (opened : Bool) (r : List Scrobbler × Bool)
    → AllSound r.0
    → MakesAll (construct_next config journal opened r)
unfolding construct_next
construct_next-MakesAll config journal opened (scrobblers, flag) v =
    let loaded = if is_empty config.journal then ([], flag) else journal_read journal in
    go (construct config loaded.0 opened) loaded.1 (construct-Makes config loaded.0 opened)
  where
    go :
        (made : Option (Option Scrobbler)) (empty : Bool)
        → Makes made
        → MakesAll (
            made
            >>= (λ m. elim m [ none ↦ some none | some s ↦ some (some (s ∷ scrobblers, empty)) ]))
    go none empty w = w
    go (some none) empty w = tt
    go (some (some s)) empty w = (w, v)

-- Whatever the configurations, the journals and the log files, no assertion fails while the scrobblers
-- are made, and if no log file fails to open all of them start sound.
pub construct_all-MakesAll :
    (configs : List (ScrobblerConfig × Option Bytes × Bool)) (r : List Scrobbler × Bool)
    → AllSound r.0
    → MakesAll (construct_all configs r)
unfolding construct_all
construct_all-MakesAll [] r v = v
construct_all-MakesAll ((config, journal, opened) ∷ configs) r v =
    go (construct_next config journal opened r) (construct_next-MakesAll config journal opened r v)
      (construct_all-MakesAll configs)
  where
    go :
        (made : Option (Option (List Scrobbler × Bool)))
        → MakesAll made
        → ((next : List Scrobbler × Bool) → AllSound next.0 → MakesAll (construct_all configs next))
        → MakesAll
            (made >>= (λ m. elim m [ none ↦ some none | some next ↦ construct_all configs next ]))
    go none w rest = w
    go (some none) w rest = tt
    go (some (some next)) w rest = rest next w
