-- ===== src/Protocol/Client.antt =====
-- protocol/src as core/src/mercury uses it: the headers that it writes and reads, and the URIs of
-- subscriptions.
use spotify_connect_scrobble.Prelude.{◌≡◌, ap, [], Option, none, some}
use spotify_connect_scrobble.Prelude.Words.{Bytes}
use spotify_connect_scrobble.Mercury.Types
use spotify_connect_scrobble.Mercury.Types.{Protobuf, MercuryRequest, to_string}
use spotify_connect_scrobble.Protocol.{Runtime}
use spotify_connect_scrobble.Protocol.Header
use spotify_connect_scrobble.Protocol.Header.{Header}
use spotify_connect_scrobble.Protocol.Subscription
use spotify_connect_scrobble.Protocol.Subscription.{Subscription}
use spotify_connect_scrobble.Protocol.RoundTrip.{IsHeader, parse-write}

module _ (R : Runtime) where
  -- The header of `MercuryRequest::encode`.
  abbrev pub request_header : Bytes → Bytes → Option Bytes → Header R
  request_header uri method content_type = record {
    uri = some uri;
    content_type = content_type;
    method = some method;
    status_code = none;
    user_fields = [];
    unknown_fields = R.no_fields;
  }

  -- What `complete_request` takes of a header.
  abbrev pub taken : Option (Header R) → Option Types.Header
  taken none = none
  taken (some h) =
      some (record { uri = Header.get_uri R h; status_code = Header.get_status_code R h })

  abbrev pub subscribed_uri : Option (Subscription R) → Option Bytes
  subscribed_uri none = none
  subscribed_uri (some s) = some (Subscription.take_uri R s)

  abbrev pub protobuf : Protobuf
  protobuf = record {
    parse_header = λ bytes. taken (Header.parse R bytes);
    write_header =
        λ uri method content_type. Header.write R (request_header uri method content_type);
    parse_subscription = λ bytes. subscribed_uri (Subscription.parse R bytes);
  }

  pub taken-write :
      (h : Header R)
      → IsHeader R h
      → protobuf.parse_header (Header.write R h)
        ≡ some (record { uri = Header.get_uri R h; status_code = Header.get_status_code R h })
  taken-write h w = ap taken (parse-write R h w)
