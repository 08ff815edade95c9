-- ===== src/Metadata/Parse.antt =====
-- metadata/src/lib.rs: reading the message that describes a track gives the track.
use spotify_connect_scrobble.Prelude.{
  ℕ, ◌≡◌, refl, List, [], ◌∷◌, map, length, Option, none, some, returns, All,
}
use spotify_connect_scrobble.Prelude.Words.{Bytes}
use spotify_connect_scrobble.Crates.{ByteOrder}
use spotify_connect_scrobble.Util.Int128.{IsU128}
use spotify_connect_scrobble.Util.SpotifyId.{SpotifyId, FileId, codes, to_raw}
use spotify_connect_scrobble.Util.SpotifyId.Raw.{from_raw-to_raw}
use spotify_connect_scrobble.Session.{Session, country}
use spotify_connect_scrobble.Metadata.{
  AudioFile, TrackMessage, ids_of, all_ids, files_of, file_id_from, parse_track,
}
use spotify_connect_scrobble.Metadata.Availability.{
  Terms, IsTerms, written, is_available, parse_restrictions_lem,
}

-- What a message says of a track: an artist or a file may come without its id.
pub record Described : Type 0 where
  pub id : SpotifyId
  pub name : Bytes
  pub album : SpotifyId
  pub artists : List (Option SpotifyId)
  pub files : List (Option FileId × ℕ)
  pub alternatives : List SpotifyId
  pub terms : List Terms

abbrev pub IsId : SpotifyId → Type 0
IsId id = IsU128 id.number

abbrev pub IsArtist : Option SpotifyId → Type 0
IsArtist none = Unit {0}
IsArtist (some id) = IsId id

abbrev pub IsFile : Option FileId × ℕ → Type 0
IsFile (none, format) = Unit {0}
IsFile (some file, format) = length file.bytes ≡ 20

-- The ids are in range, the files' ids have twenty bytes, and the country lists are lists of codes.
pub record IsDescribed (d : Described) : Type 0 where
  pub id_fits : IsId d.id
  pub album_fits : IsId d.album
  pub artists_fit : All IsArtist d.artists
  pub files_fit : All IsFile d.files
  pub alternatives_fit : All IsId d.alternatives
  pub terms_fit : All IsTerms d.terms

abbrev pub present : {A : Type 0} → List (Option A) → List A
present [] = []
present (none ∷ xs) = present xs
present (some x ∷ xs) = x ∷ present xs

abbrev pub present_files : List (Option FileId × ℕ) → List (ℕ × FileId)
present_files [] = []
present_files ((none, format) ∷ files) = present_files files
present_files ((some file, format) ∷ files) = (format, file) ∷ present_files files

abbrev pub audio_file : Option FileId × ℕ → AudioFile
audio_file (none, format) = record { file_id = none; format = format }
audio_file (some file, format) = record { file_id = some file.bytes; format = format }

file_id_from_lem : (file : FileId) → length file.bytes ≡ 20 → file_id_from file.bytes ≡ returns file
file_id_from_lem file e = rw e refl

files_of_lem :
    (files : List (Option FileId × ℕ))
    → All IsFile files
    → files_of (map audio_file files) ≡ returns (present_files files)
unfolding files_of
files_of_lem [] h = refl
files_of_lem ((none, format) ∷ files) h = files_of_lem files h.1
files_of_lem ((some file, format) ∷ files) h =
    rw (file_id_from_lem file h.0, files_of_lem files h.1) refl

module _ ⦃order : ByteOrder⦄ where
  abbrev pub gid : Option SpotifyId → Option Bytes
  gid none = none
  gid (some id) = some (to_raw id)

  abbrev pub known_gid : SpotifyId → Option Bytes
  known_gid id = some (to_raw id)

  ids_of_lem :
      (ids : List (Option SpotifyId))
      → All IsArtist ids
      → ids_of (map gid ids) ≡ returns (present ids)
  unfolding ids_of
  ids_of_lem [] h = refl
  ids_of_lem (none ∷ ids) h = ids_of_lem ids h.1
  ids_of_lem (some id ∷ ids) h = rw (from_raw-to_raw id h.0, ids_of_lem ids h.1) refl

  all_ids_lem : (ids : List SpotifyId) → All IsId ids → all_ids (map known_gid ids) ≡ returns ids
  unfolding all_ids
  all_ids_lem [] h = refl
  all_ids_lem (id ∷ ids) h = rw (from_raw-to_raw id h.0, all_ids_lem ids h.1) refl

  abbrev pub message : Described → TrackMessage
  message d = record {
    gid = known_gid d.id;
    name = d.name;
    album_gid = known_gid d.album;
    artist = map gid d.artists;
    file = map audio_file d.files;
    alternative = map known_gid d.alternatives;
    restriction = map written d.terms;
  }

  -- Reading the message of a track whose ids are in range, whose files' ids have twenty bytes, and
  -- whose lists of countries are codes of two ASCII characters, put one after the other, does not
  -- panic and gives back its ids and its name, without the artists and the files that come without
  -- an id; and the track is available exactly if its restrictions for the catalogue "premium" say so
  -- for the country of the session.
  pub parse_track-message :
      (Files : Type 0) (linear_map : List (ℕ × FileId) → Files) (d : Described) (session : Session)
      → IsDescribed d
      → parse_track Files linear_map (message d) session
        ≡ returns (record {
          id = d.id;
          name = d.name;
          album = d.album;
          artists = present d.artists;
          files = linear_map (present_files d.files);
          alternatives = d.alternatives;
          available = is_available d.terms (country session) (codes "premium");
        })
  unfolding parse_track
  parse_track-message Files linear_map d session h = rw (
    ids_of_lem d.artists h.artists_fit,
    files_of_lem d.files h.files_fit,
    from_raw-to_raw d.id h.id_fits,
    from_raw-to_raw d.album h.album_fits,
    all_ids_lem d.alternatives h.alternatives_fit,
    parse_restrictions_lem d.terms (country session) (codes "premium") h.terms_fit,
  )
