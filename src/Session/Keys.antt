-- ===== src/Session/Keys.antt =====
-- core/src/session.rs over core/src/audio_key.rs: the way of a key to the future that asked for it.
use spotify_connect_scrobble.Prelude.{
  ℕ, ◌^◌, ◌<◌, ◌≡◌, ◌≢◌, ◌⊎◌, inl, inr, refl, sym, ap, ◌∙◌, subst, List, [], ◌∷◌, ◌++◌, Option,
  none, some, Bool, false, Bool-cases, All, Run, returns, panics, ◌>>=◌, >>=-eq-returns,
  returns-injective, arith,
}
use spotify_connect_scrobble.Prelude.Words.{Bytes, be_bytes}
use spotify_connect_scrobble.Prelude.Eq.{nat_eq}
use spotify_connect_scrobble.Prelude.Dict
use spotify_connect_scrobble.Prelude.Dict.{Dict, get-remove}
use spotify_connect_scrobble.Crates.{ByteOrder, EasyBuf}
use spotify_connect_scrobble.AudioKey
use spotify_connect_scrobble.AudioKey.{AudioKeyManager, ready, poll, answer, resolve}
use spotify_connect_scrobble.AudioKey.Exchange.{dispatch_lem}
use spotify_connect_scrobble.AudioKey.Follows.{
  IsManager, Follows, Follows-Follows, answer_cases, dispatch-Follows, same-Follows,
}
use spotify_connect_scrobble.Channel.{ChannelManager}
use spotify_connect_scrobble.Mercury.{MercuryManager}
use spotify_connect_scrobble.Session.{SessionData}
use spotify_connect_scrobble.Session.Routes.{Parts, side_by_side, feed, is_audio_key}

pub side_by_side-audio_key :
    (a : Run AudioKeyManager) (c : Run ChannelManager) (m : Run MercuryManager)
    (d : Run SessionData) (p : Run (List (ℕ × Bytes))) (r : Parts)
    → side_by_side a c m d p ≡ returns r
    → a ≡ returns r.audio_key
unfolding side_by_side
side_by_side-audio_key a c m d p r h =
    let (a', ha, h1) = >>=-eq-returns a _ h in
    let (c', hc, h2) = >>=-eq-returns c _ h1 in
    let (m', hm, h3) = >>=-eq-returns m _ h2 in
    let (d', hd, h4) = >>=-eq-returns d _ h3 in
    let (p', hp, h5) = >>=-eq-returns p _ h4 in ha ∙ ap (λ x. x >>= λ y. returns y.audio_key) h5

bind_assoc :
    {A B C : Type 0} (r : Run A) (h : A → Run C) (f : A → Run B) (g : B → Run C)
    → ((x : A) → h x ≡ (f x >>= g))
    → (r >>= h) ≡ (r >>= f >>= g)
bind_assoc panics h f g e = refl
bind_assoc (returns x) h f g e = e x

pub feed-append :
    {A : Type 0} (step : ℕ → Bytes → A → Run A) (mine : ℕ → Bool) (ps qs : List (ℕ × Bytes)) (a : A)
    → feed step mine (ps ++ qs) a ≡ (feed step mine ps a >>= feed step mine qs)
unfolding feed
feed-append step mine [] qs a = refl
feed-append step mine ((cmd, bytes) ∷ ps) qs a = elim (Bool-cases (mine cmd)) [
  | inl e ↦ rw e (bind_assoc (step cmd bytes a) _ _ _ (feed-append step mine ps qs))
  | inr e ↦ rw (e, feed-append step mine ps qs a) refl
]

module _ ⦃order : ByteOrder⦄ ⦃buffer : EasyBuf⦄ where
  -- A packet that is not for the request of this number: it is for another component, or for
  -- another request.
  abbrev pub Passes : ℕ → ℕ × Bytes → Type 0
  Passes seq (cmd, bytes) =
      (is_audio_key cmd ≡ false)
      ⊎ ((other : ℕ) × (rest : Bytes) × (other < 2 ^ 32)
          × (other ≢ seq)
          × (bytes ≡ be_bytes 4 other ++ rest))

  -- What a run of packets leaves of a request that waits.
  pub record Waits (seq c : ℕ) (m : AudioKeyManager) : Type 0 where
    pub manager : IsManager m
    pub held : Dict.get seq m.pending ≡ some c

  answer-Waits :
      (cmd seq c : ℕ) (rest : Bytes) (o : Option ℕ) (m m' : AudioKeyManager)
      → IsManager m'
      → Dict.get seq m.pending ≡ some c
      → answer cmd rest o m ≡ returns m'
      → Waits seq c m'
  answer-Waits cmd seq c rest none m m' w e h = record {
    manager = w;
    held = ap (λ m. Dict.get seq m.pending) (sym (returns-injective m m' h)) ∙ e;
  }
  answer-Waits cmd seq c rest (some d) m m' w e h = elim (answer_cases cmd rest d m) [
    | inl p ↦ cc (p, h)
    | inr (r, _, p) ↦ record {
      manager = w;
      held =
          ap (λ m. Dict.get seq m.pending) (sym (returns-injective (resolve d r m) m' (sym p ∙ h)))
          ∙ e;
    }
  ]

  get-remove_passed :
      (i j c : ℕ) (p : Dict ℕ ℕ)
      → i ≢ j
      → Dict.get j p ≡ some c
      → Dict.get j (Dict.remove i p) ≡ some c
  get-remove_passed i j c p n h = ground (arith, get-remove i j p)

  dispatch-Waits :
      (cmd other seq c : ℕ) (rest : Bytes) (m m' : AudioKeyManager)
      → other < 2 ^ 32
      → other ≢ seq
      → Waits seq c m
      → AudioKey.dispatch cmd (be_bytes 4 other ++ rest) m ≡ returns m'
      → Waits seq c m'
  dispatch-Waits cmd other seq c rest m m' l n w h =
      let m1 : AudioKeyManager = record m { pending = Dict.remove other m.pending } in
      let follows = dispatch-Follows cmd (be_bytes 4 other ++ rest) m m' w.manager h in
      answer-Waits cmd seq c rest (Dict.get other m.pending) m1 m' follows.manager
        (get-remove_passed other seq c m.pending n w.held)
        (sym (dispatch_lem cmd other rest m l) ∙ h)

  pub feed-Waits :
      (ps : List (ℕ × Bytes)) (seq c : ℕ) (m m' : AudioKeyManager)
      → All (Passes seq) ps
      → Waits seq c m
      → feed AudioKey.dispatch is_audio_key ps m ≡ returns m'
      → Waits seq c m'
  unfolding feed
  feed-Waits [] seq c m m' p w h = subst (Waits seq c) (returns-injective m m' h) w
  feed-Waits ((cmd, bytes) ∷ ps) seq c m m' (p, p') w h = elim (Bool-cases (is_audio_key cmd)) [
    | inr e ↦ feed-Waits ps seq c m m' p' w (rw e at h)
    | inl e ↦ elim p [
      | inl q ↦ cc (e, q)
      | inr (other, rest, l, n, q) ↦
          let (m1, h1, h2) = >>=-eq-returns (AudioKey.dispatch cmd bytes m) _ (rw e at h) in
          feed-Waits ps seq c m1 m' p' (dispatch-Waits cmd other seq c rest m m1 l n w (rw q at h1))
            h2
    ]
  ]

  pub feed-Follows :
      (ps : List (ℕ × Bytes)) (m m' : AudioKeyManager)
      → IsManager m
      → feed AudioKey.dispatch is_audio_key ps m ≡ returns m'
      → Follows m m'
  unfolding feed
  feed-Follows [] m m' w h = subst (Follows m) (returns-injective m m' h) (same-Follows m m w refl)
  feed-Follows ((cmd, bytes) ∷ ps) m m' w h = elim (Bool-cases (is_audio_key cmd)) [
    | inr e ↦ feed-Follows ps m m' w (rw e at h)
    | inl e ↦
        let (m1, h1, h2) = >>=-eq-returns (AudioKey.dispatch cmd bytes m) _ (rw e at h) in
        let first = dispatch-Follows cmd bytes m m1 w h1 in
        Follows-Follows first (feed-Follows ps m1 m' first.manager h2)
  ]
