-- ===== src/Mercury/Trace.antt =====
-- Runs of core/src/mercury/mod.rs: requests, subscriptions and packets in any order.
use spotify_connect_scrobble.Prelude.{
  ℕ, ◌+◌, ◌≡◌, refl, ap, ◌∙◌, subst, List, [], ◌∷◌, ◌++◌, Option, none, some, Bool, Bool-cases, inl,
  inr, ◌<◌, ◌≢◌, ltb, length, ◌==◌, if◌then◌else◌, Run, returns, ◌>>=◌, >>=-eq-returns,
  returns-injective, arith,
}
use mathlib.Core.Option.{some-injective}
use spotify_connect_scrobble.Prelude.Words.{Bytes, Overflow}
use spotify_connect_scrobble.Prelude.Eq.{nat_eq, bytes_eq}
use spotify_connect_scrobble.Prelude.Dict
use spotify_connect_scrobble.Prelude.Dict.{Dict}
use spotify_connect_scrobble.Crates.{ByteOrder, EasyBuf}
use spotify_connect_scrobble.Util.Seq
use spotify_connect_scrobble.Mercury.{
  MercuryManager, MercuryPending, ChannelId, Completion, new, no_parts, next_seq, request, listed,
  subscribed, pending_for, dispatch, head_byte,
}
use spotify_connect_scrobble.Mercury.Types.{
  MercuryRequest, MercuryResponse, Protobuf, encode, command,
}
use spotify_connect_scrobble.Mercury.Waiting.{
  IsWaiting, IsTaken, remove-IsWaiting, remove-IsTaken, insert-IsWaiting,
}
use spotify_connect_scrobble.Mercury.Callbacks.{IsManager, Keeps, Keeps-Keeps, continue-Keeps}

pub data Event : Type 0 where
  asks : MercuryRequest → Event
  subscribes : Bytes → MercuryResponse → Event
  packet : ℕ → Bytes → Event

new-IsManager : IsManager new
unfolding Dict.get
new-IsManager = record {
  held = λ seq p c h. absurd (cc h);
  distinct = λ i j p q c h. absurd (cc h);
  fresh = λ c h. refl;
}

below : {a b : ℕ} → a < b → b ≢ a
below h e = omega (arith, h, e)

-- The next channel has been handed out.
later-IsTaken :
    (pending : Dict Bytes MercuryPending) (next : ℕ) (done : Dict ChannelId Completion)
    → IsWaiting pending next done
    → IsTaken (some next) pending (next + 1) done
later-IsTaken pending next done w = record {
  waiting = record {
    held = λ s p c h k. let (l, u) = w.held s p c h k in (omega (arith, l), u);
    distinct = w.distinct;
    fresh = λ c h. w.fresh c (omega (arith, h));
  };
  open_callback = λ c h.
      subst (λ c. (c < next + 1) × (Dict.get c done ≡ none)) (some-injective next c h)
        (omega arith, w.fresh next (omega arith));
  apart = λ s q c h k e. below (w.held s q c h k).0 (some-injective next c e);
}

pending_for-IsTaken :
    (cmd : ℕ) (seq : Bytes) (o : Option MercuryPending) (m : MercuryManager)
    → IsManager m
    → Dict.get seq m.pending ≡ o
    → (p : MercuryPending) → pending_for cmd o ≡ some p
    → IsTaken p.callback (Dict.remove seq m.pending) m.next_channel m.completed
pending_for-IsTaken cmd seq (some q) m w e p h =
    subst (λ p. IsTaken p.callback (Dict.remove seq m.pending) m.next_channel m.completed)
      (some-injective q p h) (remove-IsTaken seq q w e)
pending_for-IsTaken cmd seq none m w e p h = elim (Bool-cases (cmd == 0xb5)) [
  | inr k ↦ absurd (cc (rw k at h))
  | inl k ↦
      subst (λ p. IsTaken p.callback (Dict.remove seq m.pending) m.next_channel m.completed)
        (some-injective (no_parts none) p (rw k at h))
        (record {
          waiting = remove-IsWaiting seq w;
          open_callback = λ c h. absurd (cc h);
          apart = λ s q c h k e. cc e;
        })
]

module _ ⦃order : ByteOrder⦄ ⦃buffer : EasyBuf⦄ (proto : Protobuf) (alive : ChannelId → Bool) where
  unfoldable pub step : Overflow → Event → MercuryManager → Run MercuryManager
  step mode (asks req) m = do (future, m') ← request proto mode req m; returns m'
  step mode (subscribes uri r) m = do (channel, m') ← subscribed proto uri r m; returns m'
  step mode (packet cmd bytes) m = dispatch proto alive cmd bytes m

  unfoldable pub run : Overflow → List Event → MercuryManager → Run MercuryManager
  run mode [] m = returns m
  run mode (e ∷ es) m = step mode e m >>= run mode es

  dispatch-Keeps :
      (cmd : ℕ) (bytes : Bytes) (m m' : MercuryManager)
      → IsManager m
      → dispatch proto alive cmd bytes m ≡ returns m'
      → Keeps m m'
  unfolding dispatch
  dispatch-Keeps cmd bytes m m' w h =
      let ((front, bytes1), _, h1) = >>=-eq-returns (buffer.drain_to 2 bytes) _ h in
      let (seq_len, _, h2) = >>=-eq-returns (order.read_u16 front) _ h1 in
      let ((seq, bytes2), _, h3) = >>=-eq-returns (buffer.drain_to seq_len bytes1) _ h2 in
      let ((flag_bytes, bytes3), _, h4) = >>=-eq-returns (buffer.drain_to 1 bytes2) _ h3 in
      let (flags, _, h5) = >>=-eq-returns (head_byte flag_bytes) _ h4 in
      let ((count_bytes, bytes4), _, h6) = >>=-eq-returns (buffer.drain_to 2 bytes3) _ h5 in
      let (count, _, h7) = >>=-eq-returns (order.read_u16 count_bytes) _ h6 in
      let m1 : MercuryManager = record m { pending = Dict.remove seq m.pending } in
      let o : Option MercuryPending = pending_for cmd (Dict.get seq m.pending) in
      let k : Keeps m1 m' =
        continue-Keeps proto alive cmd flags count seq bytes4 o m1 m' (remove-IsWaiting seq w)
          (pending_for-IsTaken cmd seq (Dict.get seq m.pending) m w refl) h7 in
      record { manager = k.manager; kept = k.kept }

  -- What a request leaves.
  abbrev asked : MercuryRequest → Bytes → Bytes → MercuryManager → MercuryManager
  asked req seq written m = record m {
    next_channel = m.next_channel + 1;
    pending = Dict.insert seq (no_parts (some m.next_channel)) m.pending;
    packets = (command req.method, written) ∷ m.packets;
  }

  request-Keeps :
      (mode : Overflow) (req : MercuryRequest) (m : MercuryManager) (c : ChannelId)
      (m' : MercuryManager)
      → IsManager m
      → request proto mode req m ≡ returns (c, m')
      → Keeps m m'
  unfolding request next_seq
  request-Keeps mode req m c m' w h =
      let ((seq, m1), hn, h1) = >>=-eq-returns (next_seq proto mode m) _ h in
      let ((v, sequence), _, h2) = >>=-eq-returns (Seq.get mode 64 m.sequence) _ hn in
      let (written, _, h3) = >>=-eq-returns (encode proto mode req seq) _ h1 in
      let same : record m { sequence = sequence } ≡ m1 =
        ap (λ r. r.1)
          (returns-injective (order.write_u64 v, record m { sequence = sequence }) (seq, m1) h2) in
      let follows : Keeps m (asked req seq written (record m { sequence = sequence })) = record {
        manager =
            insert-IsWaiting seq (no_parts (some m.next_channel))
              (later-IsTaken m.pending m.next_channel m.completed w);
        kept = λ c r h. h;
      } in
      subst (Keeps m)
        (ap (asked req seq written) same
          ∙ ap (λ r. r.1)
              (returns-injective (m1.next_channel, asked req seq written m1) (c, m') h3))
        follows

  subscribed-Keeps :
      (uri : Bytes) (r : MercuryResponse) (m : MercuryManager) (c : ChannelId) (m' : MercuryManager)
      → IsManager m
      → subscribed proto uri r m ≡ returns (c, m')
      → Keeps m m'
  unfolding subscribed
  subscribed-Keeps uri r m c m' w h =
      let (subs, _, h1) =
        >>=-eq-returns
          (if ltb 0 (length r.payload)
            then listed proto m.next_channel r.payload
            else returns ((uri, m.next_channel) ∷ []))
          _ h in
      let m1 : MercuryManager = record m {
        next_channel = m.next_channel + 1;
        subscriptions = m.subscriptions ++ subs;
      } in
      let later = later-IsTaken m.pending m.next_channel m.completed w in
      subst (Keeps m) (ap (λ r. r.1) (returns-injective (m.next_channel, m1) (c, m') h1))
        (record { manager = later.waiting; kept = λ c r h. h })

  step-Keeps :
      (mode : Overflow) (e : Event) (m m' : MercuryManager)
      → IsManager m
      → step mode e m ≡ returns m'
      → Keeps m m'
  unfolding step
  step-Keeps mode (asks req) m m' w h =
      let ((c, m1), h1, h2) = >>=-eq-returns (request proto mode req m) _ h in
      subst (Keeps m) (returns-injective m1 m' h2) (request-Keeps mode req m c m1 w h1)
  step-Keeps mode (subscribes uri r) m m' w h =
      let ((c, m1), h1, h2) = >>=-eq-returns (subscribed proto uri r m) _ h in
      subst (Keeps m) (returns-injective m1 m' h2) (subscribed-Keeps uri r m c m1 w h1)
  step-Keeps mode (packet cmd bytes) m m' w h = dispatch-Keeps cmd bytes m m' w h

  run-Keeps :
      (mode : Overflow) (es : List Event) (m m' : MercuryManager)
      → IsManager m
      → run mode es m ≡ returns m'
      → Keeps m m'
  unfolding run
  run-Keeps mode [] m m' w h =
      subst (Keeps m) (returns-injective m m' h) (record { manager = w; kept = λ c r h. h })
  run-Keeps mode (e ∷ es) m m' w h =
      let (m1, h1, h2) = >>=-eq-returns (step mode e m) _ h in
      let first = step-Keeps mode e m m1 w h1 in
      Keeps-Keeps first (run-Keeps mode es m1 m' first.manager h2)

  -- Whatever was requested, subscribed and received, in either build profile, so long as nothing has
  -- panicked: a request that has its result, a response or an error, keeps it whatever follows, and
  -- its callback waits under no number any more.
  pub run-completes_once :
      (mode : Overflow) (es later : List Event) (m m' : MercuryManager) (c : ChannelId)
      (r : Completion)
      → run mode es new ≡ returns m
      → run mode later m ≡ returns m'
      → Dict.get c m.completed ≡ some r
      → (Dict.get c m'.completed ≡ some r)
        × ((seq : Bytes) (p : MercuryPending)
            → Dict.get seq m'.pending ≡ some p
            → p.callback ≢ some c)
  run-completes_once mode es later m m' c r h k e =
      let before = run-Keeps mode es new m new-IsManager h in
      let after = run-Keeps mode later m m' before.manager k in
      let stays = after.kept c r e in
      (stays, λ seq p g q. absurd (cc ((after.manager.held seq p c g q).1, stays)))
