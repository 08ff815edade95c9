-- ===== src/Metadata.antt =====
-- metadata/src/lib.rs and metadata/src/cover.rs: tracks, albums and artists from their messages.
pub mod Countries
pub mod Codes
pub mod Availability
pub mod Parse
pub mod Tests
use spotify_connect_scrobble.Prelude.{
  ℕ, List, [], ◌∷◌, ◌++◌, length, map, Option, none, some, Bool, Run, returns, panics, ◌>>=◌, ◌>>◌,
  assert, unwrap, ◌==◌, if◌then◌else◌,
}
use spotify_connect_scrobble.Prelude.Words.{Bytes, Overflow}
use spotify_connect_scrobble.Crates.{ByteOrder, EasyBuf}
use spotify_connect_scrobble.Util.SpotifyId.{SpotifyId, FileId, codes, from_raw, to_base16}
use spotify_connect_scrobble.Component
use spotify_connect_scrobble.Channel
use spotify_connect_scrobble.Mercury.{ChannelId, get_request}
use spotify_connect_scrobble.Mercury
use spotify_connect_scrobble.Mercury.Types.{MercuryResponse, Protobuf}
use spotify_connect_scrobble.Session.{Session, send_packet, country}
use spotify_connect_scrobble.Metadata.Countries.{
  Restriction, countrylist_contains, parse_restrictions,
}

-- The fields that the program reads of the messages of `protocol::metadata`. A message inside
-- another one is here by its id, where only this is read.
pub record AudioFile : Type 0 where
  pub file_id : Option Bytes
  pub format : ℕ

pub record TrackMessage : Type 0 where
  pub gid : Option Bytes
  pub name : Bytes
  pub album_gid : Option Bytes
  pub artist : List (Option Bytes)
  pub file : List AudioFile
  pub alternative : List (Option Bytes)
  pub restriction : List Restriction

pub record AlbumMessage : Type 0 where
  pub gid : Option Bytes
  pub name : Bytes
  pub artist : List (Option Bytes)
  pub disc : List (List (Option Bytes))
  pub cover_group : List (Option Bytes)

pub record TopTracks : Type 0 where
  pub country : Option Bytes
  pub track : List (Option Bytes)

pub record ArtistMessage : Type 0 where
  pub gid : Option Bytes
  pub name : Bytes
  pub top_track : List TopTracks

-- `get_gid`: the empty bytes when the field is not set.
abbrev pub bytes_or_empty : Option Bytes → Bytes
bytes_or_empty none = []
bytes_or_empty (some bytes) = bytes

-- `clone_from_slice` into twenty bytes.
abbrev pub file_id_from : Bytes → Run FileId
file_id_from bytes = assert (length bytes == 20) >> returns (record { bytes = bytes })

-- `filter(has_file_id)` and `map`, over the images of a cover.
unfoldable pub covers_of : List (Option Bytes) → Run (List FileId)
covers_of [] = returns []
covers_of (none ∷ images) = covers_of images
covers_of (some bytes ∷ images) = do
  file ← file_id_from bytes
  files ← covers_of images
  returns (file ∷ files)

-- The same over the audio files of a track, with their formats.
unfoldable pub files_of : List AudioFile → Run (List (ℕ × FileId))
files_of [] = returns []
files_of (file ∷ more) = with_id file.file_id file.format (files_of more)
  where
    with_id : Option Bytes → ℕ → Run (List (ℕ × FileId)) → Run (List (ℕ × FileId))
    with_id none format rest = rest
    with_id (some bytes) format rest = do
      id ← file_id_from bytes
      files ← rest
      returns ((format, id) ∷ files)

-- `flat_map` over the discs.
abbrev pub disc_tracks : List (List (Option Bytes)) → List (Option Bytes)
disc_tracks [] = []
disc_tracks (tracks ∷ discs) = tracks ++ disc_tracks discs

-- `find` of the first list without a country, or with the session's one.
unfoldable pub find_tracks : Bytes → List TopTracks → Run (List (Option Bytes))
find_tracks here [] = returns []
find_tracks here (top ∷ more) = in_country top.country (find_tracks here more)
  where
    in_country : Option Bytes → Run (List (Option Bytes)) → Run (List (Option Bytes))
    in_country none rest = returns top.track
    in_country (some list) rest = do
      found ← countrylist_contains list here
      if found then returns top.track else rest

-- `Files` and `linear_map` stand for the map of the crate `linear_map` and its collection from a
-- sequence of pairs.
pub record Track (Files : Type 0) : Type 0 where
  pub id : SpotifyId
  pub name : Bytes
  pub album : SpotifyId
  pub artists : List SpotifyId
  pub files : Files
  pub alternatives : List SpotifyId
  pub available : Bool

pub record Album : Type 0 where
  pub id : SpotifyId
  pub name : Bytes
  pub artists : List SpotifyId
  pub tracks : List SpotifyId
  pub covers : List FileId

pub record Artist : Type 0 where
  pub id : SpotifyId
  pub name : Bytes
  pub top_tracks : List SpotifyId

-- The trait `Metadata`, at the messages `Message` and the things `Self` that they describe.
pub record MetadataOf (Message Self : Type 0) : Type 0 where
  pub base_url : Bytes
  pub parse : Message → Session → Run Self

module _ ⦃order : ByteOrder⦄ where
  -- `filter(has_gid)` and `map(from_raw)`
  unfoldable pub ids_of : List (Option Bytes) → Run (List SpotifyId)
  ids_of [] = returns []
  ids_of (none ∷ gids) = ids_of gids
  ids_of (some gid ∷ gids) = do id ← from_raw gid; ids ← ids_of gids; returns (id ∷ ids)

  -- `map` alone, over the alternatives.
  unfoldable pub all_ids : List (Option Bytes) → Run (List SpotifyId)
  all_ids [] = returns []
  all_ids (gid ∷ gids) = do
    id ← from_raw (bytes_or_empty gid)
    ids ← all_ids gids
    returns (id ∷ ids)

  module _ (Files : Type 0) (linear_map : List (ℕ × FileId) → Files) where
    unfoldable pub parse_track : TrackMessage → Session → Run (Track Files)
    parse_track msg session = do
      artists ← ids_of msg.artist
      files ← files_of msg.file
      id ← from_raw (bytes_or_empty msg.gid)
      album ← from_raw (bytes_or_empty msg.album_gid)
      alternatives ← all_ids msg.alternative
      available ← parse_restrictions msg.restriction (country session) (codes "premium")
      returns (record {
        id = id;
        name = msg.name;
        album = album;
        artists = artists;
        files = linear_map files;
        alternatives = alternatives;
        available = available;
      })

    abbrev pub track_metadata : MetadataOf TrackMessage (Track Files)
    track_metadata = record { base_url = codes "hm://metadata/3/track"; parse = parse_track }

  unfoldable pub parse_album : AlbumMessage → Session → Run Album
  parse_album msg session = do
    artists ← ids_of msg.artist
    tracks ← ids_of (disc_tracks msg.disc)
    covers ← covers_of msg.cover_group
    id ← from_raw (bytes_or_empty msg.gid)
    returns
        (record { id = id; name = msg.name; artists = artists; tracks = tracks; covers = covers })

  abbrev pub album_metadata : MetadataOf AlbumMessage Album
  album_metadata = record { base_url = codes "hm://metadata/3/album"; parse = parse_album }

  unfoldable pub parse_artist : ArtistMessage → Session → Run Artist
  parse_artist msg session = do
    found ← find_tracks (country session) msg.top_track
    top_tracks ← ids_of found
    id ← from_raw (bytes_or_empty msg.gid)
    returns (record { id = id; name = msg.name; top_tracks = top_tracks })

  abbrev pub artist_metadata : MetadataOf ArtistMessage Artist
  artist_metadata = record { base_url = codes "hm://metadata/3/artist"; parse = parse_artist }

abbrev pub first_payload : List Bytes → Run Bytes
first_payload [] = panics
first_payload (bytes ∷ more) = returns bytes

-- `Metadata::get`: the request, and what is done with the response. `parse_from_bytes` is protobuf's.
module _ {Message Self : Type 0} (M : MetadataOf Message Self) where
  unfoldable pub on_response : (Bytes → Option Message) → MercuryResponse → Session → Run Self
  on_response parse_from_bytes r session = do
    bytes ← first_payload r.payload
    msg ← unwrap (parse_from_bytes bytes)
    M.parse msg session

  unfoldable pub get :
      ⦃order : ByteOrder⦄
      → ⦃buffer : EasyBuf⦄ → Protobuf
      → Overflow
      → SpotifyId
      → Session
      → Run (ChannelId × Session)
  get proto mode id session = do
    text ← to_base16 id
    (m, l) ← Component.get Mercury.new session.mercury
    (future, m') ← Mercury.request proto mode (get_request (M.base_url ++ (codes "/" ++ text))) m
    returns (future, record session { mercury = Component.store m' l })

-- metadata/src/cover.rs: a channel for the bytes of an image, and the packet that asks for them.
unfoldable pub get_cover :
    ⦃order : ByteOrder⦄ → Overflow → FileId → Session → Run ((ℕ × Channel.Channel) × Session)
get_cover ⦃order⦄ mode file session = do
  (m, l) ← Component.get Channel.new session.channel
  ((channel_id, handle, channel), m') ← Channel.allocate mode m
  let asked = order.write_u16 channel_id ++ (order.write_u16 0 ++ file.bytes)
  returns (
    (handle, channel),
    send_packet 0x19 asked (record session { channel = Component.store m' l }),
  )
