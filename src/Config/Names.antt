-- ===== src/Config/Names.antt =====
-- core/src/config.rs: the name that a type of device is printed by is read as that type.
use spotify_connect_scrobble.Prelude.{
  ◌≡◌, ◌⊎◌, ◌↔◌, refl, inl, inr, Option, none, some, returns, unwrap, arith, ap, returns-injective,
}
use spotify_connect_scrobble.Prelude.Words.{Bytes}
use spotify_connect_scrobble.Prelude.Eq.{bytes_beq_iff}
use spotify_connect_scrobble.Util.SpotifyId.{codes}
use spotify_connect_scrobble.Config.{
  DeviceType, unknown, computer, tablet, smartphone, speaker, tv, avr, stb, audio_dongle,
  to_lowercase, by_name, from_str, display,
}

-- The printed name of every type of device is read back as this type, in capitals or not, but for
-- the unknown type, whose name is refused.
pub from_str-display :
    (d : DeviceType)
    → ((d ≡ unknown) × (from_str (display d) ≡ none) × (from_str (to_lowercase (display d)) ≡ none))
      ⊎ ((from_str (display d) ≡ some d) × (from_str (to_lowercase (display d)) ≡ some d))
unfolding from_str display
from_str-display unknown = inl (refl, refl, refl)
from_str-display computer = inr (refl, refl)
from_str-display tablet = inr (refl, refl)
from_str-display smartphone = inr (refl, refl)
from_str-display speaker = inr (refl, refl)
from_str-display tv = inr (refl, refl)
from_str-display avr = inr (refl, refl)
from_str-display stb = inr (refl, refl)
from_str-display audio_dongle = inr (refl, refl)

-- The one name, in small letters, that the user may give for a type; the unknown type has none.
abbrev pub Names : Bytes → DeviceType → Type 0
Names name unknown = ⊥
Names name computer = name ≡ codes "computer"
Names name tablet = name ≡ codes "tablet"
Names name smartphone = name ≡ codes "smartphone"
Names name speaker = name ≡ codes "speaker"
Names name tv = name ≡ codes "tv"
Names name avr = name ≡ codes "avr"
Names name stb = name ≡ codes "stb"
Names name audio_dongle = name ≡ codes "audiodongle"

by_name-Names : (name : Bytes) (d : DeviceType) → by_name name ≡ some d → Names name d
by_name-Names name unknown h = ground arith
by_name-Names name computer h = ground (arith, bytes_beq_iff name (codes "computer"))
by_name-Names name tablet h = ground (arith, bytes_beq_iff name (codes "tablet"))
by_name-Names name smartphone h = ground (arith, bytes_beq_iff name (codes "smartphone"))
by_name-Names name speaker h = ground (arith, bytes_beq_iff name (codes "speaker"))
by_name-Names name tv h = ground (arith, bytes_beq_iff name (codes "tv"))
by_name-Names name avr h = ground (arith, bytes_beq_iff name (codes "avr"))
by_name-Names name stb h = ground (arith, bytes_beq_iff name (codes "stb"))
by_name-Names name audio_dongle h = ground (arith, bytes_beq_iff name (codes "audiodongle"))

Names-by_name : (name : Bytes) (d : DeviceType) → Names name d → by_name name ≡ some d
Names-by_name name unknown h = absurd h
Names-by_name name computer h = rw h refl
Names-by_name name tablet h = rw h refl
Names-by_name name smartphone h = rw h refl
Names-by_name name speaker h = rw h refl
Names-by_name name tv h = rw h refl
Names-by_name name avr h = rw h refl
Names-by_name name stb h = rw h refl
Names-by_name name audio_dongle h = rw h refl

-- The type that an option of the command line stands for: the one that its text names, in capitals
-- or not, and a speaker if it is not given.
abbrev pub IsType : Option Bytes → DeviceType → Type 0
IsType none d = d ≡ speaker
IsType (some text) d = Names (to_lowercase text) d

unwrap_iff : {A : Type 0} (o : Option A) (a : A) → (unwrap o ≡ returns a) ↔ (o ≡ some a)
unwrap_iff none a = (λ h. cc, λ h. cc)
unwrap_iff (some b) a = (λ h. ap some (returns-injective b a h), λ h. ap unwrap h)

-- A text is read as a type exactly if it names this type, in capitals or not.
pub from_str-Names :
    (text : Bytes) (d : DeviceType)
    → (unwrap (from_str text) ≡ returns d) ↔ Names (to_lowercase text) d
unfolding from_str
from_str-Names text d = (
  λ h. by_name-Names (to_lowercase text) d ((unwrap_iff (by_name (to_lowercase text)) d).0 h),
  λ h. (unwrap_iff (by_name (to_lowercase text)) d).1 (Names-by_name (to_lowercase text) d h),
)
