-- ===== src/Protocol/Tests.antt =====
-- A run of the theorem on protocol/src/mercury.rs at concrete inputs.
use spotify_connect_scrobble.Prelude.{
  zero, suc, ◌+◌, ◌*◌, ◌/◌, ◌%◌, ◌==◌, if◌then◌else◌, arith, ℕ, ◌≡◌, refl, List, [], ◌∷◌, ◌++◌,
  length, take, drop, Option, none, some, true, take-length-append, drop-length-append,
}
use spotify_connect_scrobble.Prelude.Words.{Bytes}
use spotify_connect_scrobble.Prelude.Int.{ℤ, pos, negsuc}
use spotify_connect_scrobble.Util.SpotifyId.{codes}
use spotify_connect_scrobble.Protocol.{varint, length_delimited, other, Field, Runtime}
use spotify_connect_scrobble.Protocol.Header
use spotify_connect_scrobble.Protocol.Header.{Header, UserField}
use spotify_connect_scrobble.Protocol.RoundTrip.{IsHeader, parse-write}

-- A plain runtime: the number of fields, and each field by its number, its kind and its content.
abbrev write_field : Field → Bytes → Bytes
write_field (number, varint n) rest = number ∷ 0 ∷ n ∷ rest
write_field (number, length_delimited bytes) rest = number ∷ 1 ∷ length bytes ∷ (bytes ++ rest)
write_field (number, other kind bytes) rest = number ∷ 2 ∷ kind ∷ length bytes ∷ (bytes ++ rest)

abbrev write_all : List Field → Bytes
write_all [] = []
write_all (f ∷ fs) = write_field f (write_all fs)

abbrev read_field : Bytes → Option (Field × Bytes)
read_field (number ∷ zero ∷ n ∷ rest) = some ((number, varint n), rest)
read_field (number ∷ suc zero ∷ size ∷ rest) =
    some ((number, length_delimited (take size rest)), drop size rest)
read_field (number ∷ suc (suc k) ∷ kind ∷ size ∷ rest) =
    some ((number, other kind (take size rest)), drop size rest)
read_field _ = none

abbrev consed : Field → Option (List Field) → Option (List Field)
consed f none = none
consed f (some fs) = some (f ∷ fs)

abbrev read_more : (Bytes → Option (List Field)) → Option (Field × Bytes) → Option (List Field)
read_more read none = none
read_more read (some (f, rest)) = consed f (read rest)

abbrev read_all : ℕ → Bytes → Option (List Field)
read_all zero bytes = some []
read_all (suc n) bytes = read_more (read_all n) (read_field bytes)

read_field-write_field :
    (f : Field) (rest : Bytes) → read_field (write_field f rest) ≡ some (f, rest)
read_field-write_field (number, varint n) rest = refl
read_field-write_field (number, length_delimited bytes) rest =
    rw (take-length-append, drop-length-append) refl
read_field-write_field (number, other kind bytes) rest =
    rw (take-length-append, drop-length-append) refl

read_all-write_all : (fs : List Field) → read_all (length fs) (write_all fs) ≡ some fs
read_all-write_all [] = refl
read_all-write_all (f ∷ fs) =
    rw (read_field-write_field f (write_all fs), read_all-write_all fs) refl

abbrev read_counted : Bytes → Option (List Field)
read_counted [] = none
read_counted (n ∷ bytes) = read_all n bytes

abbrev zigzag : ℤ → ℕ
zigzag (pos n) = 2 * n
zigzag (negsuc n) = 2 * n + 1

abbrev unzigzag : ℕ → ℤ
unzigzag n = if n % 2 == 0 then pos (n / 2) else negsuc (n / 2)

unzigzag-zigzag : (n : ℤ) → unzigzag (zigzag n) ≡ n
unzigzag-zigzag (pos n) = ground arith
unzigzag-zigzag (negsuc n) = ground arith

abbrev runtime : Runtime
runtime = record {
  read_fields = read_counted;
  write_fields = λ fs. length fs ∷ write_all fs;
  is_utf8 = λ bytes. true;
  read_int32 = unzigzag;
  write_int32 = zigzag;
  read_sint32 = unzigzag;
  write_sint32 = zigzag;
  UnknownFields = List Field;
  no_fields = [];
  add_field = λ number content fs. fs ++ (number, content) ∷ [];
  unknown_fields = λ fs. fs;
  read-write_fields = λ fs h. read_all-write_all fs;
  read-write_int32 = λ n h. unzigzag-zigzag n;
  read-write_sint32 = λ n h. unzigzag-zigzag n;
}

abbrev user_field : UserField runtime
user_field = record { key = some (codes "k"); value = some (1 ∷ 2 ∷ []); unknown_fields = [] }

abbrev header : Header runtime
header = record {
  uri = some (codes "hm://a");
  content_type = none;
  method = some (codes "GET");
  status_code = some (negsuc 3);
  user_fields = user_field ∷ [];
  unknown_fields = (5, varint 9) ∷ (7, length_delimited (4 ∷ [])) ∷ [];
}

header-IsHeader : IsHeader runtime header
header-IsHeader = record {
  uri_is_text = refl;
  content_type_is_text = tt;
  method_is_text = refl;
  status_code_fits = omega arith;
  user_fields_are = ((refl, record { unknown = tt; tagged = tt; kept = refl }), tt);
  unknown_are_kept = record { unknown = (refl, (refl, tt)); tagged = omega arith; kept = refl };
}

parse-write_example : Header.parse runtime (Header.write runtime header) ≡ some header
parse-write_example = parse-write runtime header header-IsHeader
