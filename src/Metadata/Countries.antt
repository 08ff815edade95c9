-- ===== src/Metadata/Countries.antt =====
-- The country lists and the restrictions of metadata/src/lib.rs. Strings are their bytes.
use spotify_connect_scrobble.Prelude.{
  suc, List, [], ◌∷◌, ◌++◌, length, Option, none, some, Bool, true, false, not, ◌||◌, Run, returns,
  ◌>>=◌, if◌then◌else◌,
}
use spotify_connect_scrobble.Prelude.Words.{Bytes}
use spotify_connect_scrobble.Prelude.Eq.{bytes_beq}
use spotify_connect_scrobble.Util.Chunks.{chunks, any}

-- Every round but the last takes two bytes off the list.
unfoldable pub countrylist_contains : Bytes → Bytes → Run Bool
countrylist_contains list country =
    any (suc (length list)) (λ cc. bytes_beq cc country) (chunks list 2)

-- `protocol::metadata::Restriction`
pub record Restriction : Type 0 where
  pub catalogue_str : List Bytes
  pub countries_forbidden : Option Bytes
  pub countries_allowed : Option Bytes

-- A list that is collected, and whether any part of it was given.
pub record Collected : Type 0 where
  pub list : Bytes
  pub is_given : Bool

abbrev pub push_str : Option Bytes → Collected → Collected
push_str none c = c
push_str (some part) c = record { list = c.list ++ part; is_given = true }

-- `Vec::contains`
abbrev pub has_catalogue : Bytes → List Bytes → Bool
has_catalogue catalogue [] = false
has_catalogue catalogue (c ∷ cs) = bytes_beq c catalogue || has_catalogue catalogue cs

-- The loop over the restrictions of the catalogue: the lists of the forbidden countries and of the
-- allowed ones.
unfoldable pub collect : Bytes → List Restriction → Collected → Collected → Collected × Collected
collect catalogue [] forbidden allowed = (forbidden, allowed)
collect catalogue (r ∷ rs) forbidden allowed =
    if has_catalogue catalogue r.catalogue_str
    then collect catalogue rs (push_str r.countries_forbidden forbidden)
        (push_str r.countries_allowed allowed)
    else collect catalogue rs forbidden allowed

-- `!has_forbidden || !countrylist_contains(forbidden, country)`
abbrev pub not_forbidden : Collected → Bytes → Run Bool
not_forbidden forbidden country =
    if forbidden.is_given
    then (countrylist_contains forbidden.list country >>= λ found. returns (not found))
    else returns true

-- `!has_allowed || countrylist_contains(allowed, country)`
abbrev pub is_allowed : Collected → Bytes → Run Bool
is_allowed allowed country =
    if allowed.is_given then countrylist_contains allowed.list country else returns true

-- The conjunction at the end, whose tests run from the left until one fails.
unfoldable pub decide_on : Collected × Collected → Bytes → Run Bool
decide_on (forbidden, allowed) country =
    if forbidden.is_given || allowed.is_given
    then (not_forbidden forbidden country >>= λ is_open.
        if is_open then is_allowed allowed country else returns false)
    else returns false

abbrev pub nothing_given : Collected
nothing_given = record { list = []; is_given = false }

unfoldable pub parse_restrictions : List Restriction → Bytes → Bytes → Run Bool
parse_restrictions restrictions country catalogue =
    decide_on (collect catalogue restrictions nothing_given nothing_given) country
