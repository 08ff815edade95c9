-- ===== src/Connection/Tests.antt =====
-- Runs of the theorems on core/src/connection at concrete inputs.
use spotify_connect_scrobble.Prelude.{
  ◌≡◌, refl, some, take, drop, replicate, length, [], ◌∷◌, ◌++◌, returns, arith,
}
use spotify_connect_scrobble.Prelude.Words.{Bytes, checked}
use spotify_connect_scrobble.Crates.Reference.{byte_order, easy_buf}
use spotify_connect_scrobble.Connection.Shift.{shifting, shifting-IsLawful}
use spotify_connect_scrobble.Connection.Codec.{
  ApCodec, in_header, in_payload, packet, waits, encode, decode, read_header, take_header,
  read_payload, take_payload,
}
use spotify_connect_scrobble.DiffieHellman.{public_key}
use spotify_connect_scrobble.DiffieHellman.Agreement.{drawn}
use spotify_connect_scrobble.DiffieHellman.Reference.{big_uint}
use spotify_connect_scrobble.Connection.Handshake.{
  Stream, Hmac, Messages, Handshake, ready, hello, poll,
}
use spotify_connect_scrobble.Connection.Handshake.Agreement.{server_codec, poll-agrees}
use spotify_connect_scrobble.Connection.Codec.Resume.{decode-append}
use spotify_connect_scrobble.Connection.Codec.RoundTrip.{AreSynced, decode-encode}

abbrev one_key : Bytes
one_key = 7 ∷ 8 ∷ []

abbrev side : ApCodec shifting
side = record {
  encode_nonce = 0;
  encode_cipher = (one_key, 0);
  decode_nonce = 0;
  decode_cipher = (one_key, 0);
  decode_state = in_header;
}

in_step : AreSynced shifting shifting-IsLawful side side
in_step = record { keys = refl; nonces = refl; between = refl }

decode-encode_example :
    (wire : Bytes) × (e' : ApCodec shifting) × (d' : ApCodec shifting) × (encode shifting checked
        0xab
        (1 ∷ 2 ∷ [])
        (9 ∷ [])
        side
      ≡ returns (9 ∷ [] ++ wire, e'))
    × (decode shifting checked (wire ++ 5 ∷ []) side
        ≡ returns (packet 0xab (1 ∷ 2 ∷ []), 5 ∷ [], d'))
    × AreSynced shifting shifting-IsLawful e' d'
decode-encode_example =
    decode-encode shifting shifting-IsLawful checked 0xab (1 ∷ 2 ∷ []) (9 ∷ []) (5 ∷ []) side side
      (omega arith) (omega arith) in_step

abbrev halfway : ApCodec shifting
halfway = record side {
  decode_nonce = 1;
  decode_cipher = (one_key, 2);
  decode_state = in_payload 0xab 2;
}

header_first :
    decode shifting checked (173 ∷ 2 ∷ 4 ∷ 3 ∷ []) side ≡ returns (waits, 3 ∷ [], halfway)
unfolding decode read_header take_header read_payload take_payload
header_first = refl

decode-append_example :
    decode shifting checked ((173 ∷ 2 ∷ 4 ∷ 3 ∷ []) ++ (4 ∷ [])) side
    ≡ decode shifting checked ((3 ∷ []) ++ (4 ∷ [])) halfway
decode-append_example =
    decode-append shifting checked (173 ∷ 2 ∷ 4 ∷ 3 ∷ []) (3 ∷ []) (4 ∷ []) side halfway
      header_first

-- A stream that takes every write and has all of the server's message.
abbrev inbox : Stream
inbox = record {
  State = Bytes;
  write_all = λ bytes s. (ready tt, s);
  read_exact = λ n s. (ready (take n s), drop n s);
}

abbrev hmac : Hmac
hmac = record { code = λ key text. replicate 20 (length key); length-code = λ key text. refl }

abbrev messages : Messages
messages = record {
  write_hello = λ gc nonce. gc;
  parse_response = λ body. some (public_key (drawn (1 ∷ [])));
  write_response = λ challenge. 7 ∷ [];
}

poll-agrees_example :
    (codec : ApCodec shifting) × (h : Handshake shifting) × (server : ApCodec shifting) × (poll
        shifting messages hmac inbox checked
        (record { keys = drawn (3 ∷ []); state = hello (8 ∷ []) })
        (0 ∷ 0 ∷ 0 ∷ 6 ∷ 1 ∷ 2 ∷ [])
      ≡ returns (ready codec, h, []))
    × (server_codec shifting hmac
          (drawn (1 ∷ []))
          (public_key (drawn (3 ∷ [])))
          (8 ∷ 0 ∷ 0 ∷ 0 ∷ 6 ∷ 1 ∷ 2 ∷ [])
        ≡ returns server)
    × AreSynced shifting shifting-IsLawful codec server
    × AreSynced shifting shifting-IsLawful server codec
poll-agrees_example =
    poll-agrees shifting shifting-IsLawful messages hmac inbox checked (3 ∷ []) (1 ∷ []) (8 ∷ [])
      (0 ∷ 0 ∷ 0 ∷ 6 ∷ []) (1 ∷ 2 ∷ []) 6 (0 ∷ 0 ∷ 0 ∷ 6 ∷ 1 ∷ 2 ∷ []) (0 ∷ 0 ∷ 0 ∷ 6 ∷ 1 ∷ 2 ∷ [])
      (1 ∷ 2 ∷ []) [] [] refl refl refl (omega arith) refl refl (λ challenge. omega arith)
      (λ reply. refl)
