-- ===== src/Authentication/Types.antt =====
-- `AuthenticationType` of protocol/src/authentication.rs: the ways to log in, and their numbers.
use spotify_connect_scrobble.Prelude.{ℕ, ◌≡◌, refl, Option, none, some, ◌==◌, if◌then◌else◌, arith}
use spotify_connect_scrobble.Prelude.Int.{ℤ, pos, negsuc, IsI32}

pub data AuthenticationType : Type 0 where
  authentication_user_pass authentication_stored_spotify_credentials : AuthenticationType
  authentication_stored_facebook_credentials authentication_spotify_token : AuthenticationType
  authentication_facebook_token : AuthenticationType

abbrev pub value : AuthenticationType → ℤ
value authentication_user_pass = pos 0
value authentication_stored_spotify_credentials = pos 1
value authentication_stored_facebook_credentials = pos 2
value authentication_spotify_token = pos 3
value authentication_facebook_token = pos 4

abbrev pub of_number : ℕ → Option AuthenticationType
of_number n =
    if n == 0
    then some authentication_user_pass
    else if n == 1
    then some authentication_stored_spotify_credentials
    else if n == 2
    then some authentication_stored_facebook_credentials
    else if n == 3
    then some authentication_spotify_token
    else if n == 4
    then some authentication_facebook_token
    else none

abbrev pub from_i32 : ℤ → Option AuthenticationType
from_i32 (pos n) = of_number n
from_i32 (negsuc n) = none

pub from_i32-value : (t : AuthenticationType) → from_i32 (value t) ≡ some t
from_i32-value authentication_user_pass = refl
from_i32-value authentication_stored_spotify_credentials = refl
from_i32-value authentication_stored_facebook_credentials = refl
from_i32-value authentication_spotify_token = refl
from_i32-value authentication_facebook_token = refl

pub value-IsI32 : (t : AuthenticationType) → IsI32 (value t)
value-IsI32 authentication_user_pass = omega arith
value-IsI32 authentication_stored_spotify_credentials = omega arith
value-IsI32 authentication_stored_facebook_credentials = omega arith
value-IsI32 authentication_spotify_token = omega arith
value-IsI32 authentication_facebook_token = omega arith
