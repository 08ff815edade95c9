-- ===== src/Cache.antt =====
-- core/src/cache/mod.rs, with `mkdir_existing` of core/src/util/mod.rs: files of the program on disk.
pub mod Paths
pub mod Files
pub mod Tests
use spotify_connect_scrobble.Prelude.{
  ℕ, List, [], ◌∷◌, ◌++◌, length, take, drop, Option, none, some, Bool, true, false, not, ◌&&◌,
  ◌||◌, leb, Run, returns, panics, ◌>>=◌, ◌>>◌, assert, unwrap, if◌then◌else◌,
}
use spotify_connect_scrobble.Prelude.Words.{Bytes}
use spotify_connect_scrobble.Prelude.Eq.{path_beq, path_eq}
use spotify_connect_scrobble.Prelude.Dict
use spotify_connect_scrobble.Prelude.Dict.{Dict}
use spotify_connect_scrobble.Util.SpotifyId.{FileId, codes, file_to_base16}
use spotify_connect_scrobble.Authentication.{Credentials}

-- A path by its names.
abbrev pub FilePath : Type 0
FilePath = List Bytes

-- What is on disk: the directories and the contents of the files.
pub record Disk : Type 0 where
  pub directories : List FilePath
  pub files : Dict FilePath Bytes

abbrev pub has_directory : FilePath → List FilePath → Bool
has_directory path [] = false
has_directory path (d ∷ ds) = path_beq d path || has_directory path ds

-- `Path::parent`
abbrev pub parent : FilePath → FilePath
parent [] = []
parent (name ∷ []) = []
parent (name ∷ next ∷ names) = name ∷ parent (next ∷ names)

-- The directory that relative paths start from is always there; it is the path without names.
abbrev pub is_directory : FilePath → Disk → Bool
is_directory [] d = true
is_directory (name ∷ names) d = has_directory (name ∷ names) d.directories

abbrev pub has_contents : Option Bytes → Bool
has_contents none = false
has_contents (some contents) = true

abbrev pub is_file : FilePath → Disk → Bool
is_file path d = has_contents (Dict.get path d.files)

pub record Cache : Type 0 where
  pub root : FilePath
  pub use_audio_cache : Bool

-- `serde_json` on credentials.
pub record Json : Type 0 where
  pub to_text : Credentials → Bytes
  pub from_text : Bytes → Option Credentials

-- `allows` says where the permissions let the program make a directory or a file.
module _ (allows : FilePath → Bool) where
  -- `mkdir_existing(path).unwrap()`: what is there already, be it a directory or a file, is no error;
  -- a parent that is no directory is one.
  unfoldable pub mkdir_existing : FilePath → Disk → Run Disk
  mkdir_existing path d =
      if not (is_directory (parent path) d)
      then panics
      else if is_directory path d || is_file path d
      then returns d
      else if allows path
      then returns (record d { directories = path ∷ d.directories })
      else panics

  unfoldable pub new : FilePath → Bool → Disk → Run (Cache × Disk)
  new location use_audio_cache d = do
    d1 ← mkdir_existing location d
    d2 ← mkdir_existing (location ++ codes "files" ∷ []) d1
    returns (record { root = location; use_audio_cache = use_audio_cache }, d2)

  -- A file can be opened for writing where its parent is a directory and it is none itself.
  abbrev pub may_create : FilePath → Disk → Bool
  may_create path d = allows path && is_directory (parent path) d && not (is_directory path d)

  -- `File::create(..).unwrap()`, which empties a file that is there, and the write of its contents.
  unfoldable pub create : FilePath → Bytes → Disk → Run Disk
  create path contents d =
      assert (may_create path d) >> returns (record d { files = Dict.insert path contents d.files })

  abbrev pub credentials_path : Cache → FilePath
  credentials_path c = c.root ++ codes "credentials.json" ∷ []

  unfoldable pub save_credentials : Json → Credentials → Cache → Disk → Run Disk
  save_credentials J credentials c d = create (credentials_path c) (J.to_text credentials) d

  -- A file that cannot be read is no credentials, and one that is not their text is a panic.
  abbrev pub read_credentials : Json → Option Bytes → Run (Option Credentials)
  read_credentials J none = returns none
  read_credentials J (some text) = unwrap (J.from_text text) >>= λ c. returns (some c)

  unfoldable pub credentials : Json → Cache → Disk → Run (Option Credentials)
  credentials J c d = read_credentials J (Dict.get (credentials_path c) d.files)

  -- The directory of a file, and the name in it: `&name[0..2]` and `&name[2..]`.
  abbrev pub directory_of : Bytes → Cache → FilePath
  directory_of name c = c.root ++ codes "files" ∷ take 2 name ∷ []

  unfoldable pub file_path : FileId → Cache → Run (FilePath × Bytes)
  file_path file c = do
    name ← file_to_base16 file
    assert (leb 2 (length name))
    returns (directory_of name c, drop 2 name)

  unfoldable pub file : FileId → Cache → Disk → Run (Option Bytes)
  file id c d = do
    (directory, name) ← file_path id c
    returns (Dict.get (directory ++ name ∷ []) d.files)

  abbrev pub write_file : FilePath × Bytes → Bytes → Disk → Run Disk
  write_file (directory, name) contents d = do
    d1 ← mkdir_existing directory d
    create (directory ++ name ∷ []) contents d1

  unfoldable pub save_file : FileId → Bytes → Cache → Disk → Run Disk
  save_file id contents c d =
      let written = file_path id c >>= λ path. write_file path contents d in
      if c.use_audio_cache then written else returns d
