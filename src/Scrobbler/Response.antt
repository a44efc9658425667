-- ===== src/Scrobbler/Response.antt =====
-- The parsers of the server's answers.
use mpdscribble.Base.{Bool, [], none, some, Bytes, if◌then◌else◌, same, starts_with, codes, c_str}
use mpdscribble.Text.Strip.{split}

pub data SubmitResponseType : Type 0 where
  accepted failed handshake : SubmitResponseType

-- scrobbler_parse_submit_response(); both of its last branches end in `return FAILED`.
unfoldable pub parse_submit_response : Bytes → SubmitResponseType
parse_submit_response line =
    if same line (codes "OK")
    then accepted
    else if same line (codes "BADSESSION")
    then handshake
    else failed

-- Scrobbler::ParseHandshakeResponse(); the other branches differ in the message that they log.
unfoldable pub parse_handshake_response : Bytes → Bool
parse_handshake_response line = starts_with (c_str line) (codes "OK")

-- What next_line() returns, and what is left; with no newline nothing is consumed.
unfoldable pub next_line : Bytes → Bytes × Bytes
unfolding split
next_line input = elim (split input b'\n') [ none ↦ ([], input) | some r ↦ r ]

-- `body.resize(body.find('\n'))`
unfoldable pub first_line : Bytes → Bytes
unfolding split
first_line body = elim (split body b'\n') [ none ↦ body | some (line, rest) ↦ line ]
