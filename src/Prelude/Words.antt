-- ===== src/Prelude/Words.antt =====
-- Machine words as native numbers, big-endian byte strings, and the build's overflow checks.
pub mod Digits
use spotify_connect_scrobble.Prelude.Tests.{ltb, if◌then◌else◌}
use spotify_connect_scrobble.Prelude.Panic.{Run, returns, panics}
use Prim.Native.Nat.{ℕ, zero, suc, ◌+◌, ◌*◌, ◌/◌, ◌%◌, ◌^◌, ◌<◌}
use mathlib.Core.List.{List, [], ◌∷◌, ◌++◌}

abbrev pub Bytes : Type 0
Bytes = List ℕ

abbrev pub IsByte : ℕ → Type 0
IsByte b = b < 256

-- Whether arithmetic overflow panics (the debug profile of `cargo build`) or wraps (release).
pub data Overflow : Type 0 where
  checked wrapping : Overflow

-- `a + b` at a type of `w` bits.
abbrev pub add_word : Overflow → ℕ → ℕ → ℕ → Run ℕ
add_word checked w a b = if ltb (a + b) (2 ^ w) then returns (a + b) else panics
add_word wrapping w a b = returns ((a + b) % 2 ^ w)

-- `a * b` at a type of `w` bits.
abbrev pub mul_word : Overflow → ℕ → ℕ → ℕ → Run ℕ
mul_word checked w a b = if ltb (a * b) (2 ^ w) then returns (a * b) else panics
mul_word wrapping w a b = returns (a * b % 2 ^ w)

-- The number that digits write in a base, most significant first, behind what was read before.
abbrev pub number_from : ℕ → ℕ → List ℕ → ℕ
number_from base acc [] = acc
number_from base acc (d ∷ ds) = number_from base (acc * base + d) ds

-- The last `w` digits of a number in a base, most significant first.
abbrev pub digits_of : ℕ → ℕ → ℕ → List ℕ
digits_of base zero v = []
digits_of base (suc w) v = (v / base ^ w % base) ∷ digits_of base w v

abbrev pub be_value : Bytes → ℕ
be_value = number_from 256 0

abbrev pub be_bytes : ℕ → ℕ → Bytes
be_bytes = digits_of 256
