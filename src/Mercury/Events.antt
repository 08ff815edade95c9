-- ===== src/Mercury/Events.antt =====
-- core/src/mercury/mod.rs: events, and the subscribers that get them.
use spotify_connect_scrobble.Prelude.{
  ◌+◌, ◌^◌, ◌<◌, ◌≡◌, refl, ap₂, List, [], ◌∷◌, ◌++◌, length, map, filter, All, none, some, Bool,
  true, false, Bool-cases, not, ◌&&◌, ◌||◌, inl, inr, ◌==◌, returns, arith,
}
use spotify_connect_scrobble.Prelude.Words.{Bytes}
use spotify_connect_scrobble.Prelude.Eq.{bytes_eq}
use spotify_connect_scrobble.Prelude.Int.{at_least}
use spotify_connect_scrobble.Prelude.Dict
use spotify_connect_scrobble.Crates.{ByteOrder, EasyBuf}
use spotify_connect_scrobble.Mercury.{
  MercuryManager, ChannelId, starts_with, retain_alive, dispatch, complete_request,
}
use spotify_connect_scrobble.Mercury.Types.{MercuryResponse, Protobuf, Header}
use spotify_connect_scrobble.Mercury.Parts.{Fits, frame, dispatch-frame}
use spotify_connect_scrobble.Mercury.Requests.{absorb-append}

-- `str::starts_with` holds exactly where the prefix stands in front.
pub starts_with-prefix : (prefix rest : Bytes) → starts_with (prefix ++ rest) prefix ≡ true
starts_with-prefix [] rest = refl
starts_with-prefix (p ∷ prefix) rest = ground (arith, starts_with-prefix prefix rest)

pub starts_with_split :
    (text prefix : Bytes)
    → starts_with text prefix ≡ true
    → (rest : Bytes) × (text ≡ prefix ++ rest)
starts_with_split text [] h = (text, refl)
starts_with_split [] (p ∷ prefix) h = absurd (cc h)
starts_with_split (c ∷ text) (p ∷ prefix) h = elim (Bool-cases (c == p)) [
  | inl e ↦
      let (rest, q) = starts_with_split text prefix (rw e at h) in
      (rest, ap₂ (λ x xs. x ∷ xs) (ground (arith, e)) q)
  | inr e ↦ absurd (cc (rw e at h))
]

module _ (alive : ChannelId → Bool) (uri : Bytes) where
  -- The subscriptions that an event with this URI is for, and whose receivers live; and those that
  -- stay: the ones that live, and the ones that it is not for.
  abbrev pub is_reached : Bytes × ChannelId → Bool
  is_reached s = starts_with uri s.0 && alive s.1

  abbrev pub is_kept : Bytes × ChannelId → Bool
  is_kept s = not (starts_with uri s.0) || alive s.1

retain_alive-filter :
    (alive : ChannelId → Bool) (r : MercuryResponse) (subs : List (Bytes × ChannelId))
    → retain_alive alive r subs ≡ (
      filter (is_kept alive r.uri) subs,
      map (λ s. (s.1, r)) (filter (is_reached alive r.uri) subs),
    )
unfolding retain_alive
retain_alive-filter alive r [] = refl
retain_alive-filter alive r ((prefix, channel) ∷ subs) =
    elim (Bool-cases (starts_with r.uri prefix)) [
      | inl e ↦ elim (Bool-cases (alive channel)) [
        | inl a ↦ rw (e, a, retain_alive-filter alive r subs) refl
        | inr a ↦ rw (e, a, retain_alive-filter alive r subs) refl
      ]
      | inr e ↦ rw (e, retain_alive-filter alive r subs) refl
    ]

module _ ⦃order : ByteOrder⦄ ⦃buffer : EasyBuf⦄ (proto : Protobuf) where
  -- A final packet 0xb5, its parts within their bounds, under a number that nothing waits under, with
  -- a header that says success, is an event: it goes, with its URI, status and payload, to each subscription whose URI stands in
  -- front of the event's and whose receiver lives; a subscription that it is for stays only if its
  -- receiver lives; and no request is answered.
  pub dispatch-event :
      (alive : ChannelId → Bool) (seq header_data : Bytes) (payload : List Bytes) (rest : Bytes)
      (header : Header) (m : MercuryManager)
      → Fits seq
      → length payload + 1 < 2 ^ 16
      → All Fits (header_data ∷ payload)
      → Dict.get seq m.pending ≡ none
      → proto.parse_header header_data ≡ some header
      → at_least 400 header.status_code ≡ false
      → let r : MercuryResponse = record {
        uri = header.uri;
        status_code = header.status_code;
        payload = payload;
      } in
        dispatch proto alive 0xb5 (frame seq 1 (header_data ∷ payload) rest) m
        ≡ returns (record m {
          pending = Dict.remove seq m.pending;
          subscriptions = filter (is_kept alive header.uri) m.subscriptions;
          delivered =
              map (λ s. (s.1, r)) (filter (is_reached alive header.uri) m.subscriptions)
              ++ m.delivered;
        })
  unfolding complete_request
  dispatch-event alive seq header_data payload rest header m hs hl hf free e es =
      let r : MercuryResponse = record {
        uri = header.uri;
        status_code = header.status_code;
        payload = payload;
      } in
      rw (
        dispatch-frame proto alive 0xb5 1 seq (header_data ∷ payload) rest m hs (omega (arith, hl))
            hf,
        free,
        absorb-append (header_data ∷ payload) [] none,
        e,
        es,
        retain_alive-filter alive r m.subscriptions,
      )
