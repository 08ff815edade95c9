-- ===== src/Authentication/Json.antt =====
-- core/src/authentication.rs: the text of the credentials, and how it is read.
use spotify_connect_scrobble.Prelude.{◌≡◌, refl, Option, none, some}
use spotify_connect_scrobble.Prelude.Words.{Bytes}
use spotify_connect_scrobble.Prelude.Int.{ℤ, IsI32}
use spotify_connect_scrobble.Authentication.{Credentials}
use spotify_connect_scrobble.Authentication.Types.{
  AuthenticationType, value, from_i32, from_i32-value, value-IsI32,
}

-- The values of the three fields that the derived code writes and reads.
pub record Fields : Type 0 where
  pub username : Bytes
  pub auth_type : ℤ
  pub auth_data : Bytes

-- `serde_json` on these fields, and `base64`: what was written is read back.
pub record Serde : Type 0 where
  pub to_string : Fields → Bytes
  pub from_str : Bytes → Option Fields
  pub base64_encode : Bytes → Bytes
  pub base64_decode : Bytes → Option Bytes
  pub from_str-to_string : (f : Fields) → IsI32 f.auth_type → from_str (to_string f) ≡ some f
  pub decode-encode : (bs : Bytes) → base64_decode (base64_encode bs) ≡ some bs

module _ (S : Serde) where
  abbrev pub serialize_protobuf_enum : AuthenticationType → ℤ
  serialize_protobuf_enum t = value t

  abbrev pub deserialize_protobuf_enum : ℤ → Option AuthenticationType
  deserialize_protobuf_enum v = from_i32 v

  abbrev pub serialize_base64 : Bytes → Bytes
  serialize_base64 bytes = S.base64_encode bytes

  abbrev pub deserialize_base64 : Bytes → Option Bytes
  deserialize_base64 text = S.base64_decode text

  -- `save_to_writer`
  unfoldable pub to_text : Credentials → Bytes
  to_text c = S.to_string (record {
    username = c.username;
    auth_type = serialize_protobuf_enum c.auth_type;
    auth_data = serialize_base64 c.auth_data;
  })

  abbrev pub built : Bytes → Option AuthenticationType → Option Bytes → Option Credentials
  built username (some auth_type) (some auth_data) =
      some (record { username = username; auth_type = auth_type; auth_data = auth_data })
  built username (some auth_type) none = none
  built username none auth_data = none

  abbrev pub of_fields : Option Fields → Option Credentials
  of_fields none = none
  of_fields (some f) =
      built f.username (deserialize_protobuf_enum f.auth_type) (deserialize_base64 f.auth_data)

  -- `from_reader`, whose `unwrap` is left to its caller.
  unfoldable pub from_text : Bytes → Option Credentials
  from_text text = of_fields (S.from_str text)

  -- Credentials are read back as they were written, whatever their name, their kind and their data.
  pub from_text-to_text : (c : Credentials) → from_text (to_text c) ≡ some c
  unfolding to_text from_text
  from_text-to_text c =
      let fields : Fields = record {
        username = c.username;
        auth_type = value c.auth_type;
        auth_data = S.base64_encode c.auth_data;
      } in
      rw
        (
          S.from_str-to_string fields (value-IsI32 c.auth_type),
          from_i32-value c.auth_type,
          S.decode-encode c.auth_data,
        )
        refl
