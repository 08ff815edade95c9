-- ===== src/Keymaster.antt =====
-- src/keymaster.rs: a token for another service, by a request of Mercury.
use spotify_connect_scrobble.Prelude.{
  ℕ, List, ◌++◌, Option, Bool, Run, returns, ◌>>=◌, ◌>>◌, assert, unwrap,
}
use spotify_connect_scrobble.Prelude.Words.{Bytes, Overflow}
use spotify_connect_scrobble.Crates.{ByteOrder, EasyBuf}
use spotify_connect_scrobble.Util.SpotifyId.{codes}
use spotify_connect_scrobble.Component
use spotify_connect_scrobble.Mercury
use spotify_connect_scrobble.Mercury.{ChannelId, get_request}
use spotify_connect_scrobble.Mercury.Types.{MercuryResponse, Protobuf}
use spotify_connect_scrobble.Metadata.{first_payload}
use spotify_connect_scrobble.Session.{Session}

pub record Token : Type 0 where
  pub access_token : Bytes
  pub expires_in : ℕ
  pub token_type : Bytes
  pub scope : List Bytes

abbrev pub token_uri : Bytes → Bytes → Bytes
token_uri client_id scopes =
    codes "hm://keymaster/token/authenticated?client_id="
    ++ (client_id ++ (codes "&scope=" ++ scopes))

unfoldable pub get_token :
    ⦃order : ByteOrder⦄
    → ⦃buffer : EasyBuf⦄ → Protobuf
    → Overflow
    → Bytes
    → Bytes
    → Session
    → Run (ChannelId × Session)
get_token proto mode client_id scopes session = do
  (m, l) ← Component.get Mercury.new session.mercury
  (future, m') ← Mercury.request proto mode (get_request (token_uri client_id scopes)) m
  returns (future, record session { mercury = Component.store m' l })

-- What the future does with the response; `is_utf8` is the test of `String::from_utf8`, and
-- `parse_token` is that of `serde_json`.
unfoldable pub on_token : (Bytes → Bool) → (Bytes → Option Token) → MercuryResponse → Run Token
on_token is_utf8 parse_token r = do
  text ← first_payload r.payload
  assert (is_utf8 text)
  unwrap (parse_token text)
