-- ===== src/Metadata/Tests.antt =====
-- Runs of the theorems on metadata/src/lib.rs at concrete inputs.
use spotify_connect_scrobble.Prelude.{
  ℕ, ◌≡◌, refl, List, [], ◌∷◌, map, none, some, false, replicate, returns, All, arith,
}
use spotify_connect_scrobble.Crates.Reference.{byte_order}
use spotify_connect_scrobble.Util.Int128.{from_parts}
use spotify_connect_scrobble.Util.SpotifyId.{SpotifyId, FileId, codes}
use spotify_connect_scrobble.Session.{Session, country}
use spotify_connect_scrobble.Metadata.{parse_track}
use spotify_connect_scrobble.Metadata.Codes.{Code}
use spotify_connect_scrobble.Metadata.Countries.{parse_restrictions}
use spotify_connect_scrobble.Metadata.Availability.{
  Terms, IsTerms, written, is_available, parse_restrictions_lem,
}
use spotify_connect_scrobble.Metadata.Parse.{
  Described, message, present, present_files, parse_track-message,
}

abbrev gb : Code
gb = (71, 66)

abbrev se : Code
se = (83, 69)

abbrev terms : List Terms
terms =
    record { catalogues = codes "premium" ∷ []; forbidden = none; allowed = some (se ∷ []) }
    ∷ record { catalogues = codes "free" ∷ []; forbidden = some (gb ∷ []); allowed = none }
    ∷ record { catalogues = codes "premium" ∷ []; forbidden = none; allowed = some (gb ∷ []) }
    ∷ []

terms-IsTerms : All IsTerms terms
terms-IsTerms = (
  (tt, ((omega arith, omega arith), tt)),
  (((((omega arith, omega arith), tt)), tt), ((tt, ((omega arith, omega arith), tt)), tt)),
)

parse_restrictions_lem_example :
    parse_restrictions (map written terms) (codes "GB") (codes "premium")
    ≡ returns (is_available terms (codes "GB") (codes "premium"))
parse_restrictions_lem_example =
    parse_restrictions_lem terms (codes "GB") (codes "premium") terms-IsTerms

abbrev session : Session
session = record {
  config = record { user_agent = codes "librespot"; device_id = codes "0af3" };
  session_data = record { country = codes "GB"; canonical_username = codes "user" };
  packets = [];
  audio_key = record { is_made = false; cell = none };
  channel = record { is_made = false; cell = none };
  mercury = record { is_made = false; cell = none };
  cache = none;
  session_id = 0;
}

abbrev song : SpotifyId
song = record { number = from_parts 3 4 }

abbrev file : FileId
file = record { bytes = replicate 20 7 }

abbrev described : Described
described = record {
  id = song;
  name = codes "song";
  album = song;
  artists = none ∷ some song ∷ [];
  files = (some file, 1) ∷ (none, 2) ∷ [];
  alternatives = song ∷ [];
  terms = terms;
}

parse_track-message_example :
    parse_track (List (ℕ × FileId)) (λ files. files) (message described) session
    ≡ returns (record {
      id = song;
      name = codes "song";
      album = song;
      artists = present (none ∷ some song ∷ []);
      files = present_files ((some file, 1) ∷ (none, 2) ∷ []);
      alternatives = song ∷ [];
      available = is_available terms (country session) (codes "premium");
    })
parse_track-message_example =
    parse_track-message (List (ℕ × FileId)) (λ files. files) described session
      (record {
        id_fits = record { high_fits = omega arith; low_fits = omega arith };
        album_fits = record { high_fits = omega arith; low_fits = omega arith };
        artists_fit = (tt, (record { high_fits = omega arith; low_fits = omega arith }, tt));
        files_fit = (refl, (tt, tt));
        alternatives_fit = (record { high_fits = omega arith; low_fits = omega arith }, tt);
        terms_fit = terms-IsTerms;
      })
