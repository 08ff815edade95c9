-- ===== src/Mercury/Types.antt =====
-- core/src/mercury/types.rs: requests, responses, and the encoding of a request.
use spotify_connect_scrobble.Prelude.{
  ℕ, ◌%◌, ◌^◌, List, [], ◌∷◌, ◌++◌, length, Option, Run, returns, ◌>>=◌,
}
use spotify_connect_scrobble.Prelude.Words.{Bytes, Overflow, add_word}
use spotify_connect_scrobble.Prelude.Int.{ℤ}
use spotify_connect_scrobble.Crates.{ByteOrder}
use spotify_connect_scrobble.Util.SpotifyId.{codes}

pub data MercuryMethod : Type 0 where
  get sub unsub send : MercuryMethod

pub record MercuryRequest : Type 0 where
  pub method : MercuryMethod
  pub uri : Bytes
  pub content_type : Option Bytes
  pub payload : List Bytes

pub record MercuryResponse : Type 0 where
  pub uri : Bytes
  pub status_code : ℤ
  pub payload : List Bytes

-- The fields of `protocol::mercury::Header` that the program reads of a response.
pub record Header : Type 0 where
  pub uri : Bytes
  pub status_code : ℤ

-- The generated protobuf code: reading a response's header and a subscription's URI, and writing a
-- request's header from its URI, method and content type.
pub record Protobuf : Type 0 where
  pub parse_header : Bytes → Option Header
  pub write_header : Bytes → Bytes → Option Bytes → Bytes
  pub parse_subscription : Bytes → Option Bytes

abbrev pub to_string : MercuryMethod → Bytes
to_string get = codes "GET"
to_string sub = codes "SUB"
to_string unsub = codes "UNSUB"
to_string send = codes "SEND"

unfoldable pub command : MercuryMethod → ℕ
command get = 0xb2
command send = 0xb2
command sub = 0xb3
command unsub = 0xb4

module _ ⦃order : ByteOrder⦄ where
  -- A part behind its length; `as u16` cuts the length off at 16 bits.
  abbrev pub write_part : Bytes → Bytes
  write_part part = order.write_u16 (length part % 2 ^ 16) ++ part

  unfoldable pub write_parts : List Bytes → Bytes
  write_parts [] = []
  write_parts (part ∷ parts) = write_part part ++ write_parts parts

  -- The size that `compute_size` gives is that of the header as written.
  unfoldable pub encode : Protobuf → Overflow → MercuryRequest → Bytes → Run Bytes
  encode proto mode req seq = do
    count ← add_word mode 16 1 (length req.payload % 2 ^ 16)
    let header = proto.write_header req.uri (to_string req.method) req.content_type
    returns (
        order.write_u16 (length seq % 2 ^ 16)
        ++ (seq ++ (1 ∷ (order.write_u16 count ++ (write_part header ++ write_parts req.payload)))))
