-- ===== src/Scrobbler/Batch.antt =====
-- Which songs one submission carries.
use mpdscribble.Base.{
  ℕ, zero, suc, ◌+◌, ◌≡◌, refl, ◌∙◌, List, [], ◌∷◌, arith, Bytes, length, take, take-min, min,
  codes, c_str, some,
}
use mpdscribble.Form.{FormDataBuilder, empty_form, append}
use mpdscribble.Record.{Record}
use mpdscribble.Scrobbler.Operations.{submit_queue}
use mpdscribble.Scrobbler.Requests.{add_song, add_songs, submission}
use mpdscribble.Scrobbler.State.{Scrobbler, Env, Request, submitting}

module _ (env : Env) where
  -- The fields of the songs one behind the other, numbered from `count` on, whatever their number.
  unfoldable pub render_songs : ℕ → FormDataBuilder → List Record → FormDataBuilder
  render_songs count post_data [] = post_data
  render_songs count post_data (song ∷ songs) =
      render_songs (count + 1) (add_song env post_data count song) songs

  add_songs-render_songs :
      (room count : ℕ) (post_data : FormDataBuilder) (songs : List Record)
      → count + room ≡ 10
      → add_songs env count post_data songs
        ≡ (render_songs count post_data (take room songs), count + min room (length songs))
  unfolding add_songs render_songs
  add_songs-render_songs zero count post_data [] e = ground arith
  add_songs-render_songs (suc room) count post_data [] e = ground arith
  add_songs-render_songs zero count post_data (song ∷ songs) e = ground arith
  add_songs-render_songs (suc room) count post_data (song ∷ songs) e =
      ground
        (arith, add_songs-render_songs room (count + 1) (add_song env post_data count song) songs)

  -- The request that carries the given songs.
  unfoldable pub batch_request : Bytes → Bytes → List Record → Request
  unfolding render_songs
  batch_request submit_url session songs = record {
    url = c_str submit_url;
    body = (render_songs 0 (append env.curl_escape empty_form (codes "s") session) songs).s;
  }

  submission-render_songs :
      (session : Bytes) (songs : List Record)
      → submission env session songs ≡ (
        render_songs 0 (append env.curl_escape empty_form (codes "s") session) (take 10 songs),
        min 10 (length songs),
      )
  unfolding submission
  submission-render_songs session songs = add_songs-render_songs 10 0 _ songs refl ∙ ground arith

  -- With songs in the queue, Submit() sends the ten oldest ones, or all if they are fewer, in their
  -- order, and remembers how many it has sent; nothing else changes.
  pub submit_queue_sends :
      (song : Record) (songs : List Record) (s : Scrobbler)
      → let queue = song ∷ songs in
        let count = min 10 (length queue) in
        submit_queue env queue s
        ≡ some (record s {
          state = submitting;
          pending = count;
          http_request = some (batch_request s.submit_url s.session (take count queue));
        })
  unfolding submit_queue batch_request
  submit_queue_sends song songs s =
      rw (submission-render_songs s.session (song ∷ songs), take-min 10 (song ∷ songs))
