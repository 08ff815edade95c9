-- ===== src/Scrobbler/Services.antt =====
-- What the scrobbler of src/scrobbler.rs calls: futures, the Last.fm client and the catalogue.
use spotify_connect_scrobble.Prelude.{◌≡◌, List, Bool, Run, returns, panics}
use spotify_connect_scrobble.Prelude.Words.{Bytes}
use spotify_connect_scrobble.Util.SpotifyId.{SpotifyId}

-- The answer of `Future::poll`. An error value is only logged by the program, and is left out;
-- `aborts` is a panic inside the poll.
pub data Poll (A : Type 0) : Type 0 where
  ready : A → Poll A
  not_ready failed aborts : Poll A

-- The fields that the scrobbler reads of a metadata `Track`.
pub record Track : Type 0 where
  pub name : Bytes
  pub artists : List SpotifyId
  pub album : SpotifyId

-- A request that the `rustfm_scrobble` client makes of Last.fm.
pub data Call (Scrobble : Type 0) : Type 0 where
  authenticate : Bytes → Bytes → Call Scrobble
  now_playing : Scrobble → Call Scrobble
  scrobble : Scrobble → Call Scrobble

-- `futures` 0.1 with boxed futures, `rustfm_scrobble`, and the metadata lookups of one session.
-- Whether Last.fm accepts a request may depend on all requests before it, newest first.
pub record Env : Type 1 where
  pub Future : Type 0 → Type 0
  pub poll : (A : Type 0) → Future A → Poll A × Future A
  pub ok : (A : Type 0) → A → Future A
  pub err : (A : Type 0) → Future A
  pub empty : (A : Type 0) → Future A
  pub and_then : (A B : Type 0) → Future A → (A → Run (Future B)) → Future B
  pub Scrobble : Type 0
  pub new_scrobble : Bytes → Bytes → Bytes → Scrobble
  pub accepts : List (Call Scrobble) → Call Scrobble → Bool
  pub get_track : SpotifyId → Future Track
  pub get_artist_name : SpotifyId → Future Bytes
  pub get_album_name : SpotifyId → Future Bytes

-- The documented behaviour of the combinators: `ok` and `err` resolve at the first poll, `empty`
-- never does, and `and_then` polls the second future as soon as the first has resolved.
pub record IsLawful (E : Env) : Type 1 where
  pub poll_ok : (A : Type 0) (a : A) → (E.poll A (E.ok A a)).0 ≡ ready a
  pub poll_err : (A : Type 0) → (E.poll A (E.err A)).0 ≡ failed
  pub poll_empty : (A : Type 0) → E.poll A (E.empty A) ≡ (not_ready, E.empty A)
  pub and_then_ready :
      (A B : Type 0) (f : E.Future A) (k : A → Run (E.Future B)) (a : A) (g : E.Future B)
      → (E.poll A f).0 ≡ ready a
      → k a ≡ returns g
      → (E.poll B (E.and_then A B f k)).0 ≡ (E.poll B g).0
  pub and_then_aborts :
      (A B : Type 0) (f : E.Future A) (k : A → Run (E.Future B)) (a : A)
      → (E.poll A f).0 ≡ ready a
      → k a ≡ panics
      → (E.poll B (E.and_then A B f k)).0 ≡ aborts
  pub and_then_failed :
      (A B : Type 0) (f : E.Future A) (k : A → Run (E.Future B))
      → (E.poll A f).0 ≡ failed
      → (E.poll B (E.and_then A B f k)).0 ≡ failed
