-- ===== src/ApResolve.antt =====
-- core/src/apresolve.rs: the address of an access point, by a request over HTTP.
use spotify_connect_scrobble.Prelude.{List, [], ◌∷◌, ◌++◌, Option, none, some, Bool, if◌then◌else◌}
use spotify_connect_scrobble.Prelude.Words.{Bytes}
use spotify_connect_scrobble.Util.SpotifyId.{codes}

abbrev pub ap_fallback : Bytes
ap_fallback = codes "ap.spotify.com:80"

-- `String::from_utf8`'s test, and `serde_json`'s reading of an `APResolveData` as its list.
pub record Reader : Type 0 where
  pub is_utf8 : Bytes → Bool
  pub parse_ap_list : Bytes → Option (List Bytes)

-- `fold` over the chunks of the body.
abbrev pub fold_chunks : Bytes → List Bytes → Bytes
fold_chunks acc [] = acc
fold_chunks acc (chunk ∷ chunks) = fold_chunks (acc ++ chunk) chunks

abbrev pub first_of : Option (List Bytes) → Option Bytes
first_of none = none
first_of (some []) = none
first_of (some (ap ∷ aps)) = some ap

-- The future's result, for the chunks of the response, or for an error of the request; the values
-- of errors are only logged.
unfoldable pub apresolve : Reader → Option (List Bytes) → Option Bytes
apresolve R none = none
apresolve R (some chunks) =
    let body = fold_chunks [] chunks in
    if R.is_utf8 body then first_of (R.parse_ap_list body) else none

abbrev pub or_fallback : Option Bytes → Bytes
or_fallback none = ap_fallback
or_fallback (some ap) = ap

unfoldable pub apresolve_or_fallback : Reader → Option (List Bytes) → Bytes
apresolve_or_fallback R response = or_fallback (apresolve R response)
