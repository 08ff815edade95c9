-- ===== src/AudioKey/Trace.antt =====
-- Runs of core/src/audio_key.rs: requests and packets in any order.
use spotify_connect_scrobble.Prelude.{
  ℕ, ◌<◌, ◌≡◌, ◌≢◌, ◌⊎◌, inl, inr, refl, subst, List, [], ◌∷◌, some, Run, returns, ◌>>=◌,
  >>=-eq-returns, returns-injective,
}
use spotify_connect_scrobble.Prelude.Words.{Bytes, Overflow}
use spotify_connect_scrobble.Prelude.Eq.{nat_eq}
use spotify_connect_scrobble.Prelude.Dict
use spotify_connect_scrobble.Prelude.Dict.{Dict, insert-remove}
use spotify_connect_scrobble.Crates.{ByteOrder, EasyBuf}
use spotify_connect_scrobble.Util.SpotifyId.{SpotifyId, FileId}
use spotify_connect_scrobble.AudioKey.{AudioKeyManager, not_ready, new, request, dispatch, poll}
use spotify_connect_scrobble.AudioKey.Follows.{
  IsManager, Follows, Follows-Follows, same-Follows, new-IsManager, request-Follows,
  dispatch-Follows, IsResult-answered,
}

pub data Event : Type 0 where
  asks : SpotifyId → FileId → Event
  packet : ℕ → Bytes → Event

module _ ⦃order : ByteOrder⦄ ⦃buffer : EasyBuf⦄ where
  unfoldable pub step : Overflow → Event → AudioKeyManager → Run AudioKeyManager
  step mode (asks track file) m = do (future, m') ← request mode track file m; returns m'
  step mode (packet cmd bytes) m = dispatch cmd bytes m

  unfoldable pub run : Overflow → List Event → AudioKeyManager → Run AudioKeyManager
  run mode [] m = returns m
  run mode (e ∷ es) m = step mode e m >>= run mode es

  step-Follows :
      (mode : Overflow) (e : Event) (m m' : AudioKeyManager)
      → IsManager m
      → step mode e m ≡ returns m'
      → Follows m m'
  unfolding step
  step-Follows mode (asks track file) m m' w h =
      let ((future, m1), h1, h2) = >>=-eq-returns (request mode track file m) _ h in
      subst (Follows m) (returns-injective m1 m' h2)
        (request-Follows mode track file m future m1 w h1)
  step-Follows mode (packet cmd bytes) m m' w h = dispatch-Follows cmd bytes m m' w h

  pub run-Follows :
      (mode : Overflow) (es : List Event) (m m' : AudioKeyManager)
      → IsManager m
      → run mode es m ≡ returns m'
      → Follows m m'
  unfolding run
  run-Follows mode [] m m' w h =
      subst (Follows m) (returns-injective m m' h) (same-Follows m m w refl)
  run-Follows mode (e ∷ es) m m' w h =
      let (m1, h1, h2) = >>=-eq-returns (step mode e m) _ h in
      let first = step-Follows mode e m m1 w h1 in
      Follows-Follows first (run-Follows mode es m1 m' first.manager h2)

  -- Whatever was requested and whatever packets came, in either build profile, so long as nothing
  -- has panicked: a future that has its answer, a key or an error, keeps it for good.
  pub run-keeps :
      (mode : Overflow) (es later : List Event) (m m' : AudioKeyManager) (c : ℕ)
      → run mode es new ≡ returns m
      → run mode later m ≡ returns m'
      → poll c m ≢ not_ready
      → poll c m' ≡ poll c m
  run-keeps mode es later m m' c h k n =
      let before = run-Follows mode es new m new-IsManager h in
      (run-Follows mode later m m' before.manager k).final c n

  -- Whatever was requested and whatever packets came, in either build profile, so long as nothing
  -- has panicked: no request is forgotten, and none has two senders. Every future that was handed out
  -- either has its answer, or waits under one number and no other.
  pub run-accounts :
      (mode : Overflow) (es : List Event) (m : AudioKeyManager) (c : ℕ)
      → run mode es new ≡ returns m
      → c < m.next_channel
      → (poll c m ≢ not_ready)
        ⊎ ((seq : ℕ) × (Dict.get seq m.pending ≡ some c)
            × (poll c m ≡ not_ready)
            × ((j : ℕ) → Dict.get j m.pending ≡ some c → j ≡ seq))
  unfolding poll
  run-accounts mode es m c h l =
      let w = (run-Follows mode es new m new-IsManager h).manager in
      elim (w.accounted c l) [
        | inl (seq, e) ↦ inr (seq, e, rw ((w.held seq c e).1) refl, λ j k. w.distinct j seq c k e)
        | inr (r, e) ↦ inl (rw e (IsResult-answered r (w.results c r e)))
      ]
