-- ===== src/Scrobbler/Requests.antt =====
-- The URLs and bodies that a scrobbler sends.
use mpdscribble.Base.{
  ℕ, ◌+◌, List, [], ◌∷◌, ◌++◌, Bytes, if◌then◌else◌, ◌==◌, leb, codes, c_str, length,
}
use mpdscribble.Base.Int.{to_unsigned}
use mpdscribble.Form.{
  FormDataBuilder, empty_form, form_from_url, append, append_number, append_indexed,
  append_indexed_number,
}
use mpdscribble.Record.{Record, length_seconds}
use mpdscribble.Scrobbler.State.{Scrobbler, ScrobblerConfig, Request, Env, max_submit_count}
use mpdscribble.Util.HexFormat.{hex_format}

module _ (env : Env) where
  abbrev field : FormDataBuilder → Bytes → Bytes → FormDataBuilder
  field = append env.curl_escape

  abbrev song_field : FormDataBuilder → Bytes → ℕ → Bytes → FormDataBuilder
  song_field = append_indexed env.curl_escape

  -- md5_hex()
  unfoldable pub md5_hex : Bytes → Bytes
  unfolding hex_format
  md5_hex s = hex_format (env.md5 s)

  -- as_md5(): a password of 32 characters is taken to be hashed already.
  unfoldable pub as_md5 : Bytes → Bytes → Bytes
  unfolding md5_hex
  as_md5 password timestamp =
      md5_hex ((if length password == 32 then password else md5_hex password) ++ timestamp)

  -- the URL that Scrobbler::Handshake() constructs
  unfoldable pub handshake_form : ScrobblerConfig → Bytes → FormDataBuilder
  unfolding as_md5 form_from_url append
  handshake_form config timestr =
      let url = form_from_url config.url in
      let url1 = field url (codes "hs") (codes "true") in
      let url2 = field url1 (codes "p") (codes "1.2") in
      let url3 = field url2 (codes "c") (codes "mdc") in
      let url4 = field url3 (codes "v") env.client_version in
      let url5 = field url4 (codes "u") config.username in
      let url6 = field url5 (codes "t") timestr in
      field url6 (codes "a") (as_md5 config.password timestr)

  unfoldable pub handshake_request : ScrobblerConfig → Bytes → Request
  unfolding handshake_form
  handshake_request config timestr = record {
    url = c_str (handshake_form config timestr).s;
    body = [];
  }

  -- the POST data of Scrobbler::SendNowPlaying(), on the C strings that Submit() passes
  unfoldable pub now_playing_form : Bytes → Record → FormDataBuilder
  unfolding append append_number
  now_playing_form session song =
      let post_data = field empty_form (codes "s") session in
      let post1 = field post_data (codes "a") (c_str song.artist) in
      let post2 = field post1 (codes "t") (c_str song.track) in
      let post3 = field post2 (codes "b") (c_str song.album) in
      let post4 = append_number post3 (codes "l") (to_unsigned (length_seconds song)) in
      let post5 = field post4 (codes "n") (c_str song.number) in
      field post5 (codes "m") (c_str song.mbid)

  unfoldable pub now_playing_request : Scrobbler → Record → Request
  unfolding now_playing_form
  now_playing_request s song = record {
    url = c_str s.nowplay_url;
    body = (now_playing_form s.session song).s;
  }

  -- the body of the loop of Scrobbler::Submit()
  unfoldable pub add_song : FormDataBuilder → ℕ → Record → FormDataBuilder
  unfolding append_indexed append_indexed_number
  add_song post_data count song =
      let post1 = song_field post_data (codes "a") count song.artist in
      let post2 = song_field post1 (codes "t") count song.track in
      let post3 =
        append_indexed_number post2 (codes "l") count (to_unsigned (length_seconds song)) in
      let post4 = song_field post3 (codes "i") count song.time in
      let post5 = song_field post4 (codes "o") count song.source in
      let post6 = song_field post5 (codes "r") count (codes "") in
      let post7 = song_field post6 (codes "b") count song.album in
      let post8 = song_field post7 (codes "n") count song.number in
      let post9 = song_field post8 (codes "m") count song.mbid in
      if song.love then song_field post9 (codes "r") count (codes "L") else post9

  -- the loop of Scrobbler::Submit()
  unfoldable pub add_songs : ℕ → FormDataBuilder → List Record → FormDataBuilder × ℕ
  add_songs count post_data [] = (post_data, count)
  add_songs count post_data (song ∷ songs) =
      if leb max_submit_count count
      then (post_data, count)
      else add_songs (count + 1) (add_song post_data count song) songs

  unfoldable pub submission : Bytes → List Record → FormDataBuilder × ℕ
  unfolding add_songs
  submission session queue = add_songs 0 (field empty_form (codes "s") session) queue
