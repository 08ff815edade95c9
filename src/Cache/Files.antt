-- ===== src/Cache/Files.antt =====
-- core/src/cache/mod.rs: what is saved is what is read.
use spotify_connect_scrobble.Prelude.{
  ◌≡◌, ◌≢◌, ◌⊎◌, refl, inl, inr, ap, ◌∙◌, ◌++◌, ◌∷◌, [], some, Bool, true, false, returns, panics,
  Bool-cases, arith,
}
use spotify_connect_scrobble.Prelude.Words.{Bytes}
use spotify_connect_scrobble.Prelude.Eq.{path_eq}
use spotify_connect_scrobble.Prelude.Dict
use spotify_connect_scrobble.Util.SpotifyId.{FileId}
use spotify_connect_scrobble.Authentication.{Credentials}
use spotify_connect_scrobble.Cache.{
  FilePath, Disk, Cache, Json, parent, is_directory, is_file, may_create, create, file_path, file,
  save_file, save_credentials, credentials, credentials_path,
}
use spotify_connect_scrobble.Cache.Paths.{parent-join, mkdir_existing_lem}

module _ (allows : FilePath → Bool) where
  -- What is on disk with a file written.
  abbrev with_file : FilePath → Bytes → Disk → Disk
  with_file path contents d = record d { files = Dict.insert path contents d.files }

  -- Credentials that were saved are read back, whatever the disk held before, for a text format that
  -- reads what it wrote; the save panics only where the file may not be created.
  pub credentials-save_credentials :
      (J : Json) (user : Credentials) (c : Cache) (d : Disk)
      → J.from_text (J.to_text user) ≡ some user
      → ((may_create allows (credentials_path allows c) d ≡ false)
          × (save_credentials allows J user c d ≡ panics))
        ⊎ ((d' : Disk) × (save_credentials allows J user c d ≡ returns d')
            × (credentials allows J c d' ≡ returns (some user)))
  unfolding save_credentials credentials create
  credentials-save_credentials J user c d h =
      let path : FilePath = credentials_path allows c in
      elim (Bool-cases (may_create allows path d)) [
        | inl e ↦ inr (
          with_file path (J.to_text user) d,
          rw e refl,
          rw (Dict.get-insert_same path (J.to_text user) d.files, h) refl,
        )
        | inr e ↦ inl (e, rw e refl)
      ]

  -- The disk takes a file: the parent of its directory is there, no file stands in the place of the
  -- directory and no directory in that of the file, and both are permitted.
  pub record Takes (directory : FilePath) (name : Bytes) (d : Disk) : Type 0 where
    pub parent_there : is_directory (parent directory) d ≡ true
    pub no_file : is_file directory d ≡ false
    pub no_directory : is_directory (directory ++ name ∷ []) d ≡ false
    pub may_make : allows directory ≡ true
    pub may_write : allows (directory ++ name ∷ []) ≡ true

  Takes-may_create :
      (directory : FilePath) (name : Bytes) (d d' : Disk)
      → Takes directory name d
      → is_directory directory d' ≡ true
      → is_directory (directory ++ name ∷ []) d' ≡ is_directory (directory ++ name ∷ []) d
      → may_create allows (directory ++ name ∷ []) d' ≡ true
  Takes-may_create directory name d d' h there same =
      rw (parent-join directory name, there, same, h.no_directory, h.may_write) refl

  other_file :
      (p path : FilePath) (contents : Bytes) (d1 : Disk)
      → p ≢ path
      → Dict.get p (with_file path contents d1).files ≡ Dict.get p d1.files
  other_file p path contents d1 other =
      Dict.get-insert path p contents d1.files
      ∙ ground (arith, path_eq.beq_iff path p, λ (k : p ≡ path). other k)

  directory_kept :
      (p path : FilePath) (contents : Bytes) (d1 : Disk)
      → is_directory p d1 ≡ true
      → is_directory p (with_file path contents d1) ≡ true
  directory_kept [] path contents d1 k = refl
  directory_kept (first ∷ names) path contents d1 k = k

  -- With the audio cache on, a file whose id has a path, saved on a disk that takes it (its
  -- directory's parent is there, nothing else stands in their places, and both may be made), is read
  -- back by its id, whatever was under that path before, and no other file is changed and no directory
  -- is lost. With the audio cache off, nothing is written.
  pub file-save_file :
      (id : FileId) (contents : Bytes) (c : Cache) (d : Disk) (directory : FilePath) (name : Bytes)
      → file_path allows id c ≡ returns (directory, name)
      → Takes directory name d
      → ((c.use_audio_cache ≡ false) × (save_file allows id contents c d ≡ returns d))
        ⊎ ((c.use_audio_cache ≡ true)
            × (d' : Disk) × (save_file allows id contents c d ≡ returns d')
            × (file allows id c d' ≡ returns (some contents))
            × ((p : FilePath)
                → p ≢ directory ++ name ∷ []
                → Dict.get p d'.files ≡ Dict.get p d.files)
            × ((p : FilePath) → is_directory p d ≡ true → is_directory p d' ≡ true))
  unfolding save_file file create
  file-save_file id contents c d directory name e h =
      let path : FilePath = directory ++ name ∷ [] in
      let (d1, made, there, same, extends) =
        mkdir_existing_lem allows directory name d h.parent_there h.no_file h.may_make in
      elim (Bool-cases c.use_audio_cache) [
        | inl on ↦ inr (
          on,
          with_file path contents d1,
          rw (e, made, Takes-may_create directory name d d1 h there same, on) refl,
          rw (e, Dict.get-insert_same path contents d1.files) refl,
          λ p other.
              other_file p path contents d1 other
              ∙ ap (λ files. Dict.get p files) extends.same_files,
          λ p k. directory_kept p path contents d1 (extends.directories p k),
        )
        | inr off ↦ inl (off, rw off refl)
      ]
