-- ===== src/Checksum/Table.antt =====
-- The table of protocol/build.rs against the division that it stands for.
use spotify_connect_scrobble.Prelude.{
  ℕ, zero, suc, ◌*◌, ◌%◌, ◌^◌, ◌<◌, ◌≡◌, refl, Option, none, some, Bool, true, false, get_elem?,
  leb, ◌==◌, ==_iff, if◌then◌else◌, all_below, all_below_sound, ap,
}
use spotify_connect_scrobble.Checksum.{crc_lookup_array}
use Prim.Native.Nat.{bit_xor}

-- The remainder of 32 bits after so many steps of the division by the polynomial 0x04c11db7: a step
-- shifts by one bit, and subtracts the polynomial if a bit went out.
unfoldable pub divide : ℕ → ℕ → ℕ
divide zero value = value
divide (suc steps) value =
    divide steps (if leb (2 ^ 31) value then bit_xor (value * 2 % 2 ^ 32) 0x04c11db7 else value * 2)

abbrev is_entry : ℕ → Option ℕ → Bool
is_entry k none = false
is_entry k (some entry) = entry == divide 8 (k * 2 ^ 24)

entry_found : (k : ℕ) (o : Option ℕ) → is_entry k o ≡ true → o ≡ some (divide 8 (k * 2 ^ 24))
entry_found k none h = absurd (cc h)
entry_found k (some entry) h = ap some ((==_iff entry (divide 8 (k * 2 ^ 24))).0 h)

-- The table has at every byte the remainder of the byte and 24 bits behind it.
pub crc_lookup_array_lem :
    (k : ℕ) → k < 256 → get_elem? crc_lookup_array k ≡ some (divide 8 (k * 2 ^ 24))
unfolding all_below divide
crc_lookup_array_lem k h =
    entry_found k (get_elem? crc_lookup_array k)
      (all_below_sound k (λ j. is_entry j (get_elem? crc_lookup_array j)) 256 h refl)
