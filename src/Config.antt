-- ===== src/Config.antt =====
-- core/src/config.rs: the types of devices, their names and the names that the user may give.
pub mod Names
use spotify_connect_scrobble.Prelude.{
  ℕ, ◌+◌, List, [], ◌∷◌, map, Option, none, some, leb, ◌&&◌, if◌then◌else◌,
}
use spotify_connect_scrobble.Prelude.Words.{Bytes}
use spotify_connect_scrobble.Prelude.Eq.{bytes_beq}
use spotify_connect_scrobble.Util.SpotifyId.{codes}

pub data DeviceType : Type 0 where
  unknown computer tablet smartphone speaker tv avr stb audio_dongle : DeviceType

-- The number of the enum.
unfoldable pub discriminant : DeviceType → ℕ
discriminant unknown = 0
discriminant computer = 1
discriminant tablet = 2
discriminant smartphone = 3
discriminant speaker = 4
discriminant tv = 5
discriminant avr = 6
discriminant stb = 7
discriminant audio_dongle = 8

-- `to_lowercase` at ASCII, the only characters that the model's texts have.
abbrev pub lower : ℕ → ℕ
lower c = if leb 65 c && leb c 90 then c + 32 else c

abbrev pub to_lowercase : Bytes → Bytes
to_lowercase = map lower

-- The arms of `from_str`; the error value is empty.
abbrev pub by_name : Bytes → Option DeviceType
by_name s =
    if bytes_beq s (codes "computer")
    then some computer
    else if bytes_beq s (codes "tablet")
    then some tablet
    else if bytes_beq s (codes "smartphone")
    then some smartphone
    else if bytes_beq s (codes "speaker")
    then some speaker
    else if bytes_beq s (codes "tv")
    then some tv
    else if bytes_beq s (codes "avr")
    then some avr
    else if bytes_beq s (codes "stb")
    then some stb
    else if bytes_beq s (codes "audiodongle")
    then some audio_dongle
    else none

unfoldable pub from_str : Bytes → Option DeviceType
from_str s = by_name (to_lowercase s)

-- `Display::fmt`
unfoldable pub display : DeviceType → Bytes
display unknown = codes "Unknown"
display computer = codes "Computer"
display tablet = codes "Tablet"
display smartphone = codes "Smartphone"
display speaker = codes "Speaker"
display tv = codes "TV"
display avr = codes "AVR"
display stb = codes "STB"
display audio_dongle = codes "AudioDongle"

abbrev pub default : DeviceType
default = speaker

pub record ConnectConfig : Type 0 where
  pub name : Bytes
  pub device_type : DeviceType
