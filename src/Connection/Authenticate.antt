-- ===== src/Connection/Authenticate.antt =====
-- `authenticate` of core/src/connection/mod.rs: the login behind the handshake.
use spotify_connect_scrobble.Prelude.{
  ℕ, ◌++◌, Option, none, some, Run, panics, unwrap, ◌==◌, if◌then◌else◌,
}
use spotify_connect_scrobble.Prelude.Words.{Bytes}
use spotify_connect_scrobble.Util.SpotifyId.{codes}
use spotify_connect_scrobble.Authentication.{Credentials}

-- The fields of `ClientResponseEncrypted` that the program sets to more than a constant.
pub record ClientResponse : Type 0 where
  pub login_credentials : Credentials
  pub system_information_string : Bytes
  pub device_id : Bytes
  pub version_string : Bytes

-- The generated messages: `write_response` of the whole response, and the fields of an `APWelcome`
-- as credentials.
pub record Login : Type 0 where
  pub write_response : ClientResponse → Bytes
  pub parse_welcome : Bytes → Option Credentials

-- The values that `version` is built with.
pub record Version : Type 0 where
  pub short_sha : Bytes
  pub build_id : Bytes
  pub version_string : Bytes

module _ (L : Login) where
  -- The packet that is sent.
  unfoldable pub login_packet : Version → Credentials → Bytes → ℕ × Bytes
  login_packet v credentials device_id = (
    0xab,
    L.write_response (record {
      login_credentials = credentials;
      system_information_string = codes "librespot_" ++ (v.short_sha ++ (codes "_" ++ v.build_id));
      device_id = device_id;
      version_string = v.version_string;
    }),
  )

  -- What is done with the next packet of the stream, or with its end.
  unfoldable pub on_login : Option (ℕ × Bytes) → Run Credentials
  on_login none = panics
  on_login (some (cmd, bytes)) =
      let welcome = unwrap (L.parse_welcome bytes) in if cmd == 0xac then welcome else panics
