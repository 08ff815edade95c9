-- ===== src/Session/Routes.antt =====
-- core/src/session.rs: what the components of a session see of its packets.
use spotify_connect_scrobble.Prelude.{
  ℕ, ◌≡◌, refl, ◌∙◌, List, [], ◌∷◌, Bool, true, false, if◌then◌else◌, ◌==◌, ◌||◌, arith, Run,
  returns, panics, ◌>>=◌, some,
}
use spotify_connect_scrobble.Prelude.Words.{Bytes}
use spotify_connect_scrobble.Crates.{ByteOrder, EasyBuf}
use spotify_connect_scrobble.Component.{IsLazy, current, get_lem}
use spotify_connect_scrobble.AudioKey
use spotify_connect_scrobble.AudioKey.{AudioKeyManager}
use spotify_connect_scrobble.Channel
use spotify_connect_scrobble.Channel.{ChannelManager}
use spotify_connect_scrobble.Mercury
use spotify_connect_scrobble.Mercury.{MercuryManager, ChannelId}
use spotify_connect_scrobble.Mercury.Types.{Protobuf}
use spotify_connect_scrobble.Session.{
  Session, SessionData, Arm, arm, ping, pong_ack, country_code, to_channel, to_audio_key,
  to_mercury, unknown, set_country, dispatch_to, dispatch_all,
}

-- The abstract state of a session: its parts side by side, none of them yet to be made.
pub record Parts : Type 0 where
  pub audio_key : AudioKeyManager
  pub channel : ChannelManager
  pub mercury : MercuryManager
  pub session_data : SessionData
  pub packets : List (ℕ × Bytes)

abbrev pub parts : Session → Parts
parts s = record {
  audio_key = current AudioKey.new s.audio_key;
  channel = current Channel.new s.channel;
  mercury = current Mercury.new s.mercury;
  session_data = s.session_data;
  packets = s.packets;
}

-- Five computations of which none sees another.
unfoldable pub side_by_side :
    Run AudioKeyManager
    → Run ChannelManager
    → Run MercuryManager
    → Run SessionData
    → Run (List (ℕ × Bytes))
    → Run Parts
side_by_side audio_key channel mercury session_data packets = do
  a ← audio_key
  c ← channel
  m ← mercury
  d ← session_data
  p ← packets
  returns (record { audio_key = a; channel = c; mercury = m; session_data = d; packets = p })

-- A component alone, fed with those packets whose commands are its own, in their order.
unfoldable pub feed :
    {A : Type 0} → (ℕ → Bytes → A → Run A) → (ℕ → Bool) → List (ℕ × Bytes) → A → Run A
feed step mine [] a = returns a
feed step mine ((cmd, bytes) ∷ more) a =
    if mine cmd then step cmd bytes a >>= feed step mine more else feed step mine more a

-- The commands of the session's packets, by their numbers.
unfoldable pub is_ping : ℕ → Bool
is_ping cmd = cmd == 4

unfoldable pub is_country : ℕ → Bool
is_country cmd = cmd == 27

unfoldable pub is_channel : ℕ → Bool
is_channel cmd = cmd == 9 || cmd == 10

unfoldable pub is_audio_key : ℕ → Bool
is_audio_key cmd = cmd == 13 || cmd == 14

unfoldable pub is_mercury : ℕ → Bool
is_mercury cmd = cmd == 178 || cmd == 179 || cmd == 180 || cmd == 181 || cmd == 182

abbrev goes_to_ping : Arm → Bool
goes_to_ping ping = true
goes_to_ping _ = false

abbrev goes_to_country : Arm → Bool
goes_to_country country_code = true
goes_to_country _ = false

abbrev goes_to_channel : Arm → Bool
goes_to_channel to_channel = true
goes_to_channel _ = false

abbrev goes_to_audio_key : Arm → Bool
goes_to_audio_key to_audio_key = true
goes_to_audio_key _ = false

abbrev goes_to_mercury : Arm → Bool
goes_to_mercury to_mercury = true
goes_to_mercury _ = false

-- The match of `dispatch` sends each command to its own arm.
arm-ping : (cmd : ℕ) → is_ping cmd ≡ goes_to_ping (arm cmd)
unfolding arm is_ping
arm-ping cmd = ground arith

arm-country : (cmd : ℕ) → is_country cmd ≡ goes_to_country (arm cmd)
unfolding arm is_country
arm-country cmd = ground arith

arm-channel : (cmd : ℕ) → is_channel cmd ≡ goes_to_channel (arm cmd)
unfolding arm is_channel
arm-channel cmd = ground arith

arm-audio_key : (cmd : ℕ) → is_audio_key cmd ≡ goes_to_audio_key (arm cmd)
unfolding arm is_audio_key
arm-audio_key cmd = ground arith

arm-mercury : (cmd : ℕ) → is_mercury cmd ≡ goes_to_mercury (arm cmd)
unfolding arm is_mercury
arm-mercury cmd = ground arith

-- The components of a session that were made hold a state.
abbrev pub IsSession : Session → Type 0
IsSession s = IsLazy s.audio_key × IsLazy s.channel × IsLazy s.mercury

-- A step of one computation may be done before the others.
module _ {A : Type 0} where
  first-audio_key :
      (step : Run A) (f : A → Run AudioKeyManager) (c : Run ChannelManager) (m : Run MercuryManager)
      (d : Run SessionData) (p : Run (List (ℕ × Bytes)))
      → (step >>= λ x. side_by_side (f x) c m d p) ≡ side_by_side (step >>= f) c m d p
  unfolding side_by_side
  first-audio_key panics f c m d p = refl
  first-audio_key (returns x) f c m d p = refl

  first-channel :
      (step : Run A) (a : Run AudioKeyManager) (f : A → Run ChannelManager) (m : Run MercuryManager)
      (d : Run SessionData) (p : Run (List (ℕ × Bytes)))
      → (step >>= λ x. side_by_side a (f x) m d p) ≡ side_by_side a (step >>= f) m d p
  unfolding side_by_side
  first-channel panics (returns a) f m d p = refl
  first-channel (returns x) (returns a) f m d p = refl
  first-channel panics panics f m d p = refl
  first-channel (returns x) panics f m d p = refl

  first-mercury :
      (step : Run A) (a : Run AudioKeyManager) (c : Run ChannelManager) (f : A → Run MercuryManager)
      (d : Run SessionData) (p : Run (List (ℕ × Bytes)))
      → (step >>= λ x. side_by_side a c (f x) d p) ≡ side_by_side a c (step >>= f) d p
  unfolding side_by_side
  first-mercury panics (returns a) (returns c) f d p = refl
  first-mercury (returns x) (returns a) (returns c) f d p = refl
  first-mercury panics (returns a) panics f d p = refl
  first-mercury (returns x) (returns a) panics f d p = refl
  first-mercury panics panics c f d p = refl
  first-mercury (returns x) panics c f d p = refl

  first-session_data :
      (step : Run A) (a : Run AudioKeyManager) (c : Run ChannelManager) (m : Run MercuryManager)
      (f : A → Run SessionData) (p : Run (List (ℕ × Bytes)))
      → (step >>= λ x. side_by_side a c m (f x) p) ≡ side_by_side a c m (step >>= f) p
  unfolding side_by_side
  first-session_data panics (returns a) (returns c) (returns m) f p = refl
  first-session_data (returns x) (returns a) (returns c) (returns m) f p = refl
  first-session_data panics (returns a) (returns c) panics f p = refl
  first-session_data (returns x) (returns a) (returns c) panics f p = refl
  first-session_data panics (returns a) panics m f p = refl
  first-session_data (returns x) (returns a) panics m f p = refl
  first-session_data panics panics c m f p = refl
  first-session_data (returns x) panics c m f p = refl

-- The state behind a step is all that counts of it.
behind :
    {A : Type 0} (r : Run A) (f : A → Session) (k : Session → Run Session) (l : Session → Run Parts)
    (g : A → Run Parts)
    → ((x : A) → (k (f x) >>= l) ≡ g x)
    → ((r >>= λ x. returns (f x)) >>= k >>= l) ≡ (r >>= g)
behind panics f k l g e = refl
behind (returns x) f k l g e = e x

abbrev pong : ℕ → Bytes → List (ℕ × Bytes) → Run (List (ℕ × Bytes))
pong cmd bytes log = returns ((0x49, bytes) ∷ log)

module _ ⦃order : ByteOrder⦄ ⦃buffer : EasyBuf⦄ (proto : Protobuf) (is_utf8 : Bytes → Bool)
    (alive : ChannelId → Bool) where
  -- What the packets do to the parts of a session, each on its own.
  unfoldable pub feed_all : List (ℕ × Bytes) → Parts → Run Parts
  feed_all ps s =
      side_by_side (feed AudioKey.dispatch is_audio_key ps s.audio_key)
        (feed Channel.dispatch is_channel ps s.channel)
        (feed (Mercury.dispatch proto alive) is_mercury ps s.mercury)
        (feed (λ cmd. set_country proto is_utf8 alive) is_country ps s.session_data)
        (feed pong is_ping ps s.packets)

  -- What one packet does to the parts, with the computations of the packets behind it.
  abbrev arm_parts : Arm → ℕ → Bytes → List (ℕ × Bytes) → Parts → Run Parts
  arm_parts a cmd bytes more s =
      side_by_side
        (if goes_to_audio_key a
          then AudioKey.dispatch cmd bytes s.audio_key >>= feed AudioKey.dispatch is_audio_key more
          else feed AudioKey.dispatch is_audio_key more s.audio_key)
        (if goes_to_channel a
          then Channel.dispatch cmd bytes s.channel >>= feed Channel.dispatch is_channel more
          else feed Channel.dispatch is_channel more s.channel)
        (if goes_to_mercury a
          then Mercury.dispatch proto alive cmd bytes s.mercury
            >>= feed (Mercury.dispatch proto alive) is_mercury more
          else feed (Mercury.dispatch proto alive) is_mercury more s.mercury)
        (if goes_to_country a
          then set_country proto is_utf8 alive bytes s.session_data
            >>= feed (λ cmd. set_country proto is_utf8 alive) is_country more
          else feed (λ cmd. set_country proto is_utf8 alive) is_country more s.session_data)
        (if goes_to_ping a
          then feed pong is_ping more ((0x49, bytes) ∷ s.packets)
          else feed pong is_ping more s.packets)

  dispatch_to-refines :
      (a : Arm) (cmd : ℕ) (bytes : Bytes) (more : List (ℕ × Bytes)) (s : Session)
      → IsSession s
      → ((t : Session)
          → IsSession t
          → (dispatch_all proto is_utf8 alive more t >>= λ s'. returns (parts s'))
            ≡ feed_all more (parts t))
      → (dispatch_to proto is_utf8 alive a cmd bytes s
          >>= dispatch_all proto is_utf8 alive more
          >>= λ s'. returns (parts s'))
        ≡ arm_parts a cmd bytes more (parts s)
  unfolding dispatch_to feed_all
  dispatch_to-refines ping cmd bytes more s h rest =
      rest (record s { packets = (0x49, bytes) ∷ s.packets }) h
  dispatch_to-refines pong_ack cmd bytes more s h rest = rest s h
  dispatch_to-refines unknown cmd bytes more s h rest = rest s h
  dispatch_to-refines country_code cmd bytes more s h rest =
      behind (set_country proto is_utf8 alive bytes s.session_data)
        (λ d. record s { session_data = d }) _ _ _ (λ d. rest (record s { session_data = d }) h)
      ∙ first-session_data (set_country proto is_utf8 alive bytes s.session_data) _ _ _ _ _
  dispatch_to-refines to_channel cmd bytes more s h rest = rw (get_lem Channel.new s.channel h.1) (
      behind (Channel.dispatch cmd bytes (current Channel.new s.channel))
        (λ m. record s { channel = record { is_made = true; cell = some m } }) _ _ _
        (λ m.
          rest (record s { channel = record { is_made = true; cell = some m } }) (h.0, refl, h.2))
      ∙ first-channel (Channel.dispatch cmd bytes (current Channel.new s.channel)) _ _ _ _ _)
  dispatch_to-refines to_audio_key cmd bytes more s h rest =
      rw (get_lem AudioKey.new s.audio_key h.0) (
        behind (AudioKey.dispatch cmd bytes (current AudioKey.new s.audio_key))
          (λ m. record s { audio_key = record { is_made = true; cell = some m } }) _ _ _
          (λ m.
            rest (record s { audio_key = record { is_made = true; cell = some m } })
              (refl, h.1, h.2))
        ∙ first-audio_key (AudioKey.dispatch cmd bytes (current AudioKey.new s.audio_key)) _ _ _ _
            _)
  dispatch_to-refines to_mercury cmd bytes more s h rest = rw (get_lem Mercury.new s.mercury h.2) (
      behind (Mercury.dispatch proto alive cmd bytes (current Mercury.new s.mercury))
        (λ m. record s { mercury = record { is_made = true; cell = some m } }) _ _ _
        (λ m.
          rest (record s { mercury = record { is_made = true; cell = some m } }) (h.0, h.1, refl))
      ∙ first-mercury (Mercury.dispatch proto alive cmd bytes (current Mercury.new s.mercury)) _ _ _
          _ _)

  -- For a session whose components hold a state once they are made, its parts behind a run of its
  -- packets are those that each reaches alone from the packets of its own commands, in their order:
  -- 9 and 10 for the channels, 13 and 14 for the audio keys, 178 to 182 for mercury, 27 for the
  -- country, and 4 for the pings, each of which is answered by its own contents; all other packets
  -- change nothing. The session panics exactly where one of its components does.
  pub dispatch_all-refines :
      (ps : List (ℕ × Bytes)) (s : Session)
      → IsSession s
      → (dispatch_all proto is_utf8 alive ps s >>= λ s'. returns (parts s')) ≡ feed_all ps (parts s)
  unfolding dispatch_all feed_all feed side_by_side
  dispatch_all-refines [] s h = refl
  dispatch_all-refines ((cmd, bytes) ∷ more) s h =
      rw (arm-ping cmd, arm-country cmd, arm-channel cmd, arm-audio_key cmd, arm-mercury cmd)
        (dispatch_to-refines (arm cmd) cmd bytes more s h (dispatch_all-refines more))
