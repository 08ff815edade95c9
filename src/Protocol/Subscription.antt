-- ===== src/Protocol/Subscription.antt =====
-- protocol/src/pubsub.rs: the message `Subscription`.
use spotify_connect_scrobble.Prelude.{ℕ, List, ◌++◌, Option, none, some, ◌==◌, if◌then◌else◌}
use spotify_connect_scrobble.Prelude.Words.{Bytes}
use spotify_connect_scrobble.Prelude.Int.{ℤ}
use spotify_connect_scrobble.Protocol.{
  Content, Field, Runtime, read_string, read_varint, set_with, write_string, write_varint,
  parse_fields,
}
use spotify_connect_scrobble.Protocol.Header.{get_string}

module _ (R : Runtime) where
  pub record Subscription : Type 0 where
    pub uri : Option Bytes
    pub expiry : Option ℤ
    pub status_code : Option ℤ
    pub unknown_fields : R.UnknownFields

  abbrev pub new : Subscription
  new = record { uri = none; expiry = none; status_code = none; unknown_fields = R.no_fields }

  unfoldable pub merge : ℕ → Content → Subscription → Option Subscription
  merge number content s =
      if number == 1
      then set_with R (λ text. record s { uri = some text }) (read_string R content)
      else if number == 2
      then set_with R (λ n. record s { expiry = some n }) (read_varint R R.read_int32 content)
      else if number == 3
      then set_with R (λ n. record s { status_code = some n }) (read_varint R R.read_int32 content)
      else some (record s { unknown_fields = R.add_field number content s.unknown_fields })

  unfoldable pub parse : Bytes → Option Subscription
  parse bytes = parse_fields R merge new (R.read_fields bytes)

  abbrev pub subscription_fields : Subscription → List Field
  subscription_fields s =
      write_string R 1 s.uri
      ++ (write_varint R R.write_int32 2 s.expiry
          ++ (write_varint R R.write_int32 3 s.status_code ++ R.unknown_fields s.unknown_fields))

  unfoldable pub write : Subscription → Bytes
  write s = R.write_fields (subscription_fields s)

  abbrev pub take_uri : Subscription → Bytes
  take_uri s = get_string R s.uri
