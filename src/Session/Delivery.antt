-- ===== src/Session/Delivery.antt =====
-- core/src/session.rs over core/src/audio_key.rs: a key comes to the future that asked for it.
use spotify_connect_scrobble.Prelude.{
  ℕ, ◌^◌, ◌<◌, ◌≡◌, sym, ap, ◌∙◌, subst, List, ◌∷◌, ◌++◌, length, Bool, All, returns, ◌>>=◌,
  >>=-eq-returns, arith, returns-injective,
}
use spotify_connect_scrobble.Prelude.Words.{Bytes, Overflow, be_bytes}
use spotify_connect_scrobble.Prelude.Eq.{nat_eq}
use spotify_connect_scrobble.Prelude.Dict
use spotify_connect_scrobble.Prelude.Dict.{Dict}
use spotify_connect_scrobble.Crates.{ByteOrder, EasyBuf}
use spotify_connect_scrobble.Component.{current}
use spotify_connect_scrobble.Util.SpotifyId.{SpotifyId, FileId}
use spotify_connect_scrobble.AudioKey
use spotify_connect_scrobble.AudioKey.{
  AudioKeyManager, ok, ready, not_ready, poll, resolve, request,
}
use spotify_connect_scrobble.AudioKey.Exchange.{key_packet_lem, poll-resolve}
use spotify_connect_scrobble.AudioKey.Follows.{
  IsManager, dispatch-Follows, request-Follows, request-held,
}
use spotify_connect_scrobble.Mercury.{ChannelId}
use spotify_connect_scrobble.Mercury.Types.{Protobuf}
use spotify_connect_scrobble.Session.{Session, dispatch_all}
use spotify_connect_scrobble.Session.Routes.{
  parts, IsSession, feed, feed_all, is_audio_key, dispatch_all-refines,
}
use spotify_connect_scrobble.Session.Keys.{
  side_by_side-audio_key, feed-append, Passes, Waits, feed-Waits, feed-Follows,
}

module _ ⦃order : ByteOrder⦄ ⦃buffer : EasyBuf⦄ where
  poll-resolved :
      (c : ℕ) (key : Bytes) (left : Dict ℕ ℕ) (m : AudioKeyManager)
      → poll c (resolve c (ok (record { bytes = key })) (record m { pending = left }))
        ≡ ready (record { bytes = key })
  poll-resolved c key left m = ground (arith, poll-resolve c c (record { bytes = key }) left m)

  -- The key comes behind packets that pass the request by, and any packets may follow.
  feed-delivers :
      (ps qs : List (ℕ × Bytes)) (seq c : ℕ) (key : Bytes) (m m' : AudioKeyManager)
      → All (Passes seq) ps
      → Waits seq c m
      → seq < 2 ^ 32
      → length key ≡ 16
      → feed AudioKey.dispatch is_audio_key (ps ++ (0xd, be_bytes 4 seq ++ key) ∷ qs) m ≡ returns m'
      → poll c m' ≡ ready (record { bytes = key })
  unfolding feed is_audio_key
  feed-delivers ps qs seq c key m m' p w l k h =
      let packet : ℕ × Bytes = (0xd, be_bytes 4 seq ++ key) in
      let (m1, h1, h2) =
        >>=-eq-returns (feed AudioKey.dispatch is_audio_key ps m) _
          (sym (feed-append AudioKey.dispatch is_audio_key ps (packet ∷ qs) m) ∙ h) in
      let w1 = feed-Waits ps seq c m m1 p w h1 in
      let (m2, h3, h4) = >>=-eq-returns (AudioKey.dispatch 0xd (packet.1) m1) _ h2 in
      let follows = dispatch-Follows 0xd packet.1 m1 m2 w1.manager h3 in
      let got : poll c m2 ≡ ready (record { bytes = key }) =
        subst (λ x. poll c x ≡ ready (record { bytes = key }))
          (returns-injective
            (resolve c (ok (record { bytes = key }))
              (record m1 { pending = Dict.remove seq m1.pending }))
            m2 (sym (key_packet_lem seq c key m1 l k w1.held) ∙ h3))
          (poll-resolved c key (Dict.remove seq m1.pending) m1) in
      (feed-Follows qs m2 m' follows.manager h4).final c (λ e. cc (e, got)) ∙ got

  module _ (proto : Protobuf) (is_utf8 : Bytes → Bool) (alive : ChannelId → Bool) where
    -- A session whose components hold a state once they are made asked for a key, by a request with a
    -- number of 32 bits to a manager in which every future waits once or has its answer, and then took
    -- a run of packets without a panic, in which the key of sixteen bytes stands under the request's
    -- number, behind packets of other commands and for other requests: the future of the request is
    -- ready with that key, whatever packets followed.
    pub dispatch_all-request :
        (mode : Overflow) (track : SpotifyId) (file : FileId) (m0 m : AudioKeyManager) (future : ℕ)
        (ps qs : List (ℕ × Bytes)) (key : Bytes) (s s' : Session)
        → IsManager m0
        → m0.sequence.value < 2 ^ 32
        → request mode track file m0 ≡ returns (future, m)
        → current AudioKey.new s.audio_key ≡ m
        → IsSession s
        → All (Passes m0.sequence.value) ps
        → length key ≡ 16
        → dispatch_all proto is_utf8 alive (ps ++ (0xd, be_bytes 4 m0.sequence.value ++ key) ∷ qs) s
          ≡ returns s'
        → poll future (current AudioKey.new s'.audio_key) ≡ ready (record { bytes = key })
    unfolding feed_all
    dispatch_all-request mode track file m0 m future ps qs key s s' w l asked here is p k h =
        let seq : ℕ = m0.sequence.value in
        let packets : List (ℕ × Bytes) = ps ++ (0xd, be_bytes 4 seq ++ key) ∷ qs in
        let waits : Waits seq future m = record {
          manager = (request-Follows mode track file m0 future m w asked).manager;
          held = request-held mode track file m0 future m asked;
        } in
        let fed = side_by_side-audio_key _ _ _ _ _ (parts s') (
          sym (dispatch_all-refines proto is_utf8 alive packets s is)
          ∙ ap (λ r. r >>= λ x. returns (parts x)) h) in
        feed-delivers ps qs seq future key (current AudioKey.new s.audio_key) _ p
          (subst (Waits seq future) (sym here) waits) l k fed
