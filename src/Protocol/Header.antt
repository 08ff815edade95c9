-- ===== src/Protocol/Header.antt =====
-- protocol/src/mercury.rs: the message `Header` and its `UserField`.
use spotify_connect_scrobble.Prelude.{
  ℕ, List, [], ◌∷◌, ◌++◌, map, Option, none, some, ◌==◌, if◌then◌else◌,
}
use spotify_connect_scrobble.Prelude.Words.{Bytes}
use spotify_connect_scrobble.Prelude.Int.{ℤ, pos}
use spotify_connect_scrobble.Protocol.{
  Content, length_delimited, varint, other, Field, Runtime, read_string, read_bytes, read_varint,
  set_with, write_string, write_varint, parse_fields,
}

module _ (R : Runtime) where
  pub record UserField : Type 0 where
    pub key : Option Bytes
    pub value : Option Bytes
    pub unknown_fields : R.UnknownFields

  pub record Header : Type 0 where
    pub uri : Option Bytes
    pub content_type : Option Bytes
    pub method : Option Bytes
    pub status_code : Option ℤ
    pub user_fields : List UserField
    pub unknown_fields : R.UnknownFields

  abbrev pub new_user_field : UserField
  new_user_field = record { key = none; value = none; unknown_fields = R.no_fields }

  abbrev pub new : Header
  new = record {
    uri = none;
    content_type = none;
    method = none;
    status_code = none;
    user_fields = [];
    unknown_fields = R.no_fields;
  }

  -- The `match` of `merge_from`.
  unfoldable pub merge_user_field : ℕ → Content → UserField → Option UserField
  merge_user_field number content f =
      if number == 1
      then set_with R (λ text. record f { key = some text }) (read_string R content)
      else if number == 2
      then set_with R (λ bytes. record f { value = some bytes }) (read_bytes R content)
      else some (record f { unknown_fields = R.add_field number content f.unknown_fields })

  -- A message inside another one is read to its end.
  abbrev pub read_user_field : Content → Option UserField
  read_user_field (length_delimited bytes) =
      parse_fields R merge_user_field new_user_field (R.read_fields bytes)
  read_user_field (varint n) = none
  read_user_field (other wire_type bytes) = none

  unfoldable pub merge : ℕ → Content → Header → Option Header
  merge number content h =
      if number == 1
      then set_with R (λ text. record h { uri = some text }) (read_string R content)
      else if number == 2
      then set_with R (λ text. record h { content_type = some text }) (read_string R content)
      else if number == 3
      then set_with R (λ text. record h { method = some text }) (read_string R content)
      else if number == 4
      then set_with R (λ n. record h { status_code = some n }) (read_varint R R.read_sint32 content)
      else if number == 6
      then set_with R (λ f. record h { user_fields = h.user_fields ++ f ∷ [] })
          (read_user_field content)
      else some (record h { unknown_fields = R.add_field number content h.unknown_fields })

  unfoldable pub parse : Bytes → Option Header
  parse bytes = parse_fields R merge new (R.read_fields bytes)

  -- `write_to_with_cached_sizes`.
  abbrev pub user_field_fields : UserField → List Field
  user_field_fields f =
      write_string R 1 f.key ++ (write_string R 2 f.value ++ R.unknown_fields f.unknown_fields)

  -- The size that is cached for an inner message is that of its bytes.
  abbrev pub write_user_field : UserField → Field
  write_user_field f = (6, length_delimited (R.write_fields (user_field_fields f)))

  abbrev pub header_fields : Header → List Field
  header_fields h =
      write_string R 1 h.uri
      ++ (write_string R 2 h.content_type
          ++ (write_string R 3 h.method
              ++ (write_varint R R.write_sint32 4 h.status_code
                  ++ (map write_user_field h.user_fields ++ R.unknown_fields h.unknown_fields))))

  unfoldable pub write : Header → Bytes
  write h = R.write_fields (header_fields h)

  abbrev pub get_string : Option Bytes → Bytes
  get_string none = []
  get_string (some text) = text

  abbrev pub get_int : Option ℤ → ℤ
  get_int none = pos 0
  get_int (some n) = n

  abbrev pub get_uri : Header → Bytes
  get_uri h = get_string h.uri

  abbrev pub get_status_code : Header → ℤ
  get_status_code h = get_int h.status_code
