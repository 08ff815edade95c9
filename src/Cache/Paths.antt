-- ===== src/Cache/Paths.antt =====
-- core/src/cache/mod.rs: paths and directories of the program's files.
use spotify_connect_scrobble.Prelude.{
  ◌≡◌, refl, inl, inr, ap, [], ◌∷◌, ◌++◌, Bool, true, false, ◌||◌, ◌≢◌, Bool-cases, returns,
  returns-injective, arith,
}
use spotify_connect_scrobble.Prelude.Words.{Bytes}
use spotify_connect_scrobble.Prelude.Eq.{path_eq, path_beq, path_beq_iff}
use spotify_connect_scrobble.Cache.{FilePath, Disk, parent, is_directory, is_file, mkdir_existing}

-- The directory of a file is the path without the file's name.
pub parent-join : (path : FilePath) (name : Bytes) → parent (path ++ name ∷ []) ≡ path
parent-join [] name = refl
parent-join (first ∷ []) name = refl
parent-join (first ∷ next ∷ names) name = ap (λ p. first ∷ p) (parent-join (next ∷ names) name)

path_beq_same : (path : FilePath) → path_beq path path ≡ true
path_beq_same path = ground (arith, path_beq_iff path path)

abbrev pub with_directory : FilePath → Disk → Disk
with_directory path d = record d { directories = path ∷ d.directories }

is_directory-made : (path : FilePath) (d : Disk) → is_directory path (with_directory path d) ≡ true
is_directory-made [] d = refl
is_directory-made (name ∷ names) d = rw (path_beq_same (name ∷ names)) refl

is_directory-later :
    (p path : FilePath) (d : Disk)
    → is_directory p d ≡ true
    → is_directory p (with_directory path d) ≡ true
is_directory-later [] path d h = refl
is_directory-later (name ∷ names) path d h = ground arith

-- A disk with the same files has the directories of another one, and perhaps more.
pub record Extends (d d' : Disk) : Type 0 where
  pub same_files : d'.files ≡ d.files
  pub directories : (p : FilePath) → is_directory p d ≡ true → is_directory p d' ≡ true

-- What a call of `mkdir_existing` that succeeds leaves.
pub record IsMade (path : FilePath) (d d' : Disk) : Type 0 where
  pub stands : is_directory (parent path) d ≡ true
  pub is_there : (is_directory path d' || is_file path d') ≡ true
  pub extends : Extends d d'

join_longer : (path : FilePath) (name : Bytes) → path ++ name ∷ [] ≢ path
join_longer [] name h = cc
join_longer (first ∷ path) name h = join_longer path name (ap rest_of h)
  where
    rest_of : FilePath → FilePath
    rest_of [] = []
    rest_of (x ∷ xs) = xs

is_directory-other :
    (p path : FilePath) (d : Disk)
    → p ≢ path
    → is_directory p (with_directory path d) ≡ is_directory p d
is_directory-other [] path d h = refl
is_directory-other (name ∷ names) path d h =
    ground (arith, path_beq_iff path (name ∷ names), λ (e : name ∷ names ≡ path). h e)

module _ (allows : FilePath → Bool) where
  pub mkdir_existing-IsMade :
      (path : FilePath) (d d' : Disk) → mkdir_existing allows path d ≡ returns d' → IsMade path d d'
  unfolding mkdir_existing
  mkdir_existing-IsMade path d d' h = elim (Bool-cases (is_directory (parent path) d)) [
    | inr k ↦ cc (rw k at h)
    | inl k ↦ elim (Bool-cases (is_directory path d || is_file path d)) [
      | inl e ↦
          let q : d ≡ d' = returns-injective d d' (rw (k, e) at h) in
          rw (← q) (record {
            stands = k;
            is_there = e;
            extends = record { same_files = refl; directories = λ p r. r };
          })
      | inr e ↦ elim (Bool-cases (allows path)) [
        | inr a ↦ cc (rw (k, e, a) at h)
        | inl a ↦
            let q : with_directory path d ≡ d' =
              returns-injective (with_directory path d) d' (rw (k, e, a) at h) in
            rw (← q) (record {
              stands = k;
              is_there = rw (is_directory-made path d) refl;
              extends = record {
                same_files = refl;
                directories = λ p r. is_directory-later p path d r;
              };
            })
      ]
    ]
  ]

  pub mkdir_existing_same :
      (path : FilePath) (d : Disk)
      → is_directory (parent path) d ≡ true
      → (is_directory path d || is_file path d) ≡ true
      → mkdir_existing allows path d ≡ returns d
  unfolding mkdir_existing
  mkdir_existing_same path d k h = rw (k, h) refl

  -- A directory under one that is there, in whose place there is no file.
  pub mkdir_existing_lem :
      (path : FilePath) (name : Bytes) (d : Disk)
      → is_directory (parent path) d ≡ true
      → is_file path d ≡ false
      → allows path ≡ true
      → (d' : Disk) × (mkdir_existing allows path d ≡ returns d')
        × (is_directory path d' ≡ true)
        × (is_directory (path ++ name ∷ []) d' ≡ is_directory (path ++ name ∷ []) d)
        × Extends d d'
  unfolding mkdir_existing
  mkdir_existing_lem path name d k f a = elim (Bool-cases (is_directory path d)) [
    | inl e ↦ (d, rw (k, e) refl, e, refl, record { same_files = refl; directories = λ p r. r })
    | inr e ↦ (
      with_directory path d,
      rw (k, e, f, a) refl,
      is_directory-made path d,
      is_directory-other (path ++ name ∷ []) path d (join_longer path name),
      record { same_files = refl; directories = λ p r. is_directory-later p path d r },
    )
  ]
