-- ===== src/Channel/Tests.antt =====
-- Runs of the theorems on core/src/channel.rs at concrete inputs.
use spotify_connect_scrobble.Prelude.{ℕ, ◌≡◌, refl, List, [], ◌∷◌, ◌++◌, length, returns, arith}
use spotify_connect_scrobble.Prelude.Words.{Bytes}
use spotify_connect_scrobble.Crates.Reference.{byte_order, easy_buf}
use spotify_connect_scrobble.Channel.{in_header, in_data}
use spotify_connect_scrobble.Channel.Events.{
  header_bytes, header_events, packet_events, under, at, take_events, take_events-under,
}

abbrev two_headers : List (ℕ × Bytes)
two_headers = (3, 1 ∷ 2 ∷ []) ∷ (4, []) ∷ []

take_events-under_example :
    let events = header_events two_headers ++ packet_events ((7 ∷ []) ∷ (8 ∷ 9 ∷ []) ∷ []) in
    take_events (length events) (
      at
        ((9, header_bytes two_headers) ∷ under 9 ((7 ∷ []) ∷ (8 ∷ 9 ∷ []) ∷ []) ((9, []) ∷ []))
        (in_header []))
    ≡ returns (events, at ((9, []) ∷ []) in_data)
take_events-under_example =
    take_events-under 9 two_headers (7 ∷ []) ((8 ∷ 9 ∷ []) ∷ []) ((9, []) ∷ []) refl (omega arith)
      ((λ e. cc), ((λ e. cc), tt))
