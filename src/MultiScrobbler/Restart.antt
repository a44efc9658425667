-- ===== src/MultiScrobbler/Restart.antt =====
-- A scrobbler whose queue was saved is made again with that queue.
use mpdscribble.Base.{
  ◌≡◌, refl, ap, ◌∙◌, Bool, true, false, List, [], ◌∷◌, some, Bytes, is_empty, if◌then◌else◌,
}
use mpdscribble.Journal.{journal_read, journal_write, write_records}
use mpdscribble.Journal.RoundTrip.{AllSavable, journal_read-journal_write}
use mpdscribble.MultiScrobbler.{construct_next, write_journal}
use mpdscribble.MultiScrobbler.Start.{no_env, is_empty-nil}
use mpdscribble.Record.{Record}
use mpdscribble.Scrobbler.Invariant.{IsOnline}
use mpdscribble.Scrobbler.Operations.{construct}
use mpdscribble.Scrobbler.Session.{construct-IsOnline}
use mpdscribble.Scrobbler.State.{Scrobbler, ScrobblerConfig}

journal_write-some :
    (flag : Bool) (queue : List Record)
    → is_empty queue ≡ false
    → journal_write flag true queue ≡ (true, some (write_records queue))
unfolding journal_write
journal_write-some flag queue h = rw h refl

write_journal-some :
    (flag : Bool) (s : Scrobbler)
    → IsOnline s
    → is_empty s.config.journal ≡ false
    → is_empty s.queue ≡ false
    → write_journal flag true s ≡ some (write_records s.queue)
unfolding write_journal
write_journal-some flag s v j q =
    rw v.not_open (rw j (ap (λ r. r.1) (journal_write-some flag s.queue q)))

construct_next-loaded :
    (config : ScrobblerConfig) (file : Bytes) (opened : Bool) (r : List Scrobbler × Bool)
    (queue : List Record) (flag : Bool) (t : Scrobbler)
    → is_empty config.journal ≡ false
    → journal_read (some file) ≡ (queue, flag)
    → construct config queue opened ≡ some (some t)
    → construct_next config (some file) opened r ≡ some (some (t ∷ r.0, flag))
unfolding construct_next
construct_next-loaded config file opened r queue flag t j l c =
    rw j (rw l (rw c (rw j (rw l refl))))

-- A scrobbler for a server writes its songs, if there are any that the journal can hold, to its
-- journal; made again from its configuration and that journal, it has the same queue and keeps its
-- invariant.
pub construct_next-write_journal :
    (s : Scrobbler) (flag opened : Bool) (r : List Scrobbler × Bool)
    → IsOnline s
    → is_empty s.config.journal ≡ false
    → is_empty s.queue ≡ false
    → AllSavable s.queue
    → (file : Bytes) × (write_journal flag true s ≡ some file)
      × ((t : Scrobbler) × (construct_next s.config (some file) opened r
            ≡ some (some (t ∷ r.0, false)))
          × (t.queue ≡ s.queue)
          × IsOnline t)
construct_next-write_journal s flag opened r v j q a =
    let file = write_records s.queue in
    let (t, made, same, _, w, _) =
      construct-IsOnline no_env s.config s.queue opened (is_empty-nil s.config.file v.no_file) in
    (
      file,
      write_journal-some flag s v j q,
      (
        t,
        construct_next-loaded s.config file opened r s.queue false t j
            (journal_read-journal_write flag s.queue file a (journal_write-some flag s.queue q)
              ∙ ap (λ b. (s.queue, b)) q)
            made,
        same ∙ ap (λ b. if b then [] else s.queue) j,
        w,
      ),
    )
