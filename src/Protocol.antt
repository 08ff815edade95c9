-- ===== src/Protocol.antt =====
-- protocol/src: the generated messages that Mercury uses, over the runtime of the crate `protobuf`.
pub mod Header
pub mod Subscription
pub mod Fields
pub mod RoundTrip
pub mod Client
pub mod Tests
use spotify_connect_scrobble.Prelude.{
  ℕ, ◌^◌, ◌<◌, All, ◌≡◌, List, [], ◌∷◌, ◌++◌, Option, none, some, Bool, true, false, if◌then◌else◌,
}
use spotify_connect_scrobble.Prelude.Words.{Bytes}
use spotify_connect_scrobble.Prelude.Int.{ℤ, IsI32}

-- What stands behind a tag of a stream: a number, bytes behind their length, or content of one of
-- the other wire types, by its type and its bytes.
pub data Content : Type 0 where
  varint : ℕ → Content
  length_delimited : Bytes → Content
  other : ℕ → Bytes → Content

abbrev pub Field : Type 0
Field = ℕ × Content

-- The numbers that a tag can have.
abbrev pub IsTagged : Field → Type 0
IsTagged f = (0 < f.0) × (f.0 < 2 ^ 29)

-- `CodedInputStream`, `CodedOutputStream` and `UnknownFields`: a text is a list of fields, if it is
-- well formed, and what was written is read back.
pub record Runtime : Type 1 where
  pub read_fields : Bytes → Option (List Field)
  pub write_fields : List Field → Bytes
  pub is_utf8 : Bytes → Bool
  pub read_int32 : ℕ → ℤ
  pub write_int32 : ℤ → ℕ
  pub read_sint32 : ℕ → ℤ
  pub write_sint32 : ℤ → ℕ
  pub UnknownFields : Type 0
  pub no_fields : UnknownFields
  pub add_field : ℕ → Content → UnknownFields → UnknownFields
  pub unknown_fields : UnknownFields → List Field
  pub read-write_fields :
      (fs : List Field) → All IsTagged fs → read_fields (write_fields fs) ≡ some fs
  pub read-write_int32 : (n : ℤ) → IsI32 n → read_int32 (write_int32 n) ≡ n
  pub read-write_sint32 : (n : ℤ) → IsI32 n → read_sint32 (write_sint32 n) ≡ n

abbrev pub and_then : {A : Type 0} → Option A → (A → Option A) → Option A
and_then none f = none
and_then (some a) f = f a

-- The loop of `merge_from`: one field after the other, until one is refused.
unfoldable pub merge_fields :
    {A : Type 0} → (ℕ → Content → A → Option A) → List Field → A → Option A
merge_fields merge [] a = some a
merge_fields merge ((number, content) ∷ fs) a =
    and_then (merge number content a) (merge_fields merge fs)

module _ (R : Runtime) where
  -- `read_singular_string_into` and `read_singular_bytes_into`: other wire types are errors.
  abbrev pub read_string : Content → Option Bytes
  read_string (length_delimited text) = if R.is_utf8 text then some text else none
  read_string (varint n) = none
  read_string (other wire_type bytes) = none

  abbrev pub read_bytes : Content → Option Bytes
  read_bytes (length_delimited bytes) = some bytes
  read_bytes (varint n) = none
  read_bytes (other wire_type bytes) = none

  abbrev pub read_varint : (ℕ → ℤ) → Content → Option ℤ
  read_varint decode (varint n) = some (decode n)
  read_varint decode (length_delimited bytes) = none
  read_varint decode (other wire_type bytes) = none

  -- `?` on what was read.
  abbrev pub set_with : {A B : Type 0} → (B → A) → Option B → Option A
  set_with set none = none
  set_with set (some b) = some (set b)

  -- `if let Some(v) = self.field { os.write_..(number, v)?; }`
  abbrev pub write_string : ℕ → Option Bytes → List Field
  write_string number none = []
  write_string number (some text) = (number, length_delimited text) ∷ []

  abbrev pub write_varint : (ℤ → ℕ) → ℕ → Option ℤ → List Field
  write_varint encode number none = []
  write_varint encode number (some n) = (number, varint (encode n)) ∷ []

  -- `parse_from_bytes`, for a message with no required field.
  abbrev pub parse_fields :
      {A : Type 0} → (ℕ → Content → A → Option A) → A → Option (List Field) → Option A
  parse_fields merge new none = none
  parse_fields merge new (some fs) = merge_fields merge fs new
