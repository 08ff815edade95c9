-- ===== src/Cache/Tests.antt =====
-- A run of the theorem on core/src/cache/mod.rs at concrete inputs.
use spotify_connect_scrobble.Prelude.{
  ◌≡◌, ◌≢◌, ◌⊎◌, refl, [], ◌∷◌, ◌++◌, some, Bool, true, false, replicate, drop, returns,
}
use spotify_connect_scrobble.Prelude.Words.{Bytes}
use spotify_connect_scrobble.Prelude.Eq.{path_eq}
use spotify_connect_scrobble.Prelude.Dict
use spotify_connect_scrobble.Util.SpotifyId.{FileId, codes, hex_bytes, file_to_base16}
use spotify_connect_scrobble.Cache.{
  FilePath, Disk, Cache, is_directory, directory_of, file_path, file, save_file,
}
use spotify_connect_scrobble.Cache.Files.{file-save_file}

abbrev allows : FilePath → Bool
allows path = true

abbrev cache : Cache
cache = record { root = codes "cache" ∷ []; use_audio_cache = true }

abbrev disk : Disk
disk = record {
  directories = (codes "cache" ∷ codes "files" ∷ []) ∷ (codes "cache" ∷ []) ∷ [];
  files = (codes "cache" ∷ codes "credentials.json" ∷ [], 7 ∷ []) ∷ [];
}

abbrev id : FileId
id = record { bytes = replicate 20 0xaf }

abbrev directory : FilePath
directory = directory_of allows (codes "af") cache

abbrev name : Bytes
name = drop 2 (codes "afafafafafafafafafafafafafafafafafafafaf")

file-save_file_example :
    ((true ≡ false) × (save_file allows id (1 ∷ 2 ∷ []) cache disk ≡ returns disk))
    ⊎ ((true ≡ true)
        × (d' : Disk) × (save_file allows id (1 ∷ 2 ∷ []) cache disk ≡ returns d')
        × (file allows id cache d' ≡ returns (some (1 ∷ 2 ∷ [])))
        × ((p : FilePath)
            → p ≢ directory ++ name ∷ []
            → Dict.get p d'.files ≡ Dict.get p disk.files)
        × ((p : FilePath) → is_directory p disk ≡ true → is_directory p d' ≡ true))
unfolding file_path hex_bytes file_to_base16 Dict.get
file-save_file_example =
    file-save_file allows id (1 ∷ 2 ∷ []) cache disk directory name refl (record {
      parent_there = refl;
      no_file = refl;
      no_directory = refl;
      may_make = refl;
      may_write = refl;
    })
