-- ===== src/Util/Int128.antt =====
-- core/src/util/int128.rs: an unsigned 128-bit integer in two 64-bit halves.
pub mod Add
pub mod Mul
pub mod Numbers
use spotify_connect_scrobble.Prelude.{
  ℕ, zero, suc, ◌+◌, ◌-◌, ◌*◌, ◌/◌, ◌%◌, ◌^◌, ◌<◌, List, [], ◌∷◌, get_elem?, Run, returns, panics,
  ◌>>=◌, unwrap, ltb, ◌==◌, if◌then◌else◌,
}
use spotify_connect_scrobble.Prelude.Words.{Overflow, add_word, mul_word}

pub record U128 : Type 0 where
  pub high : ℕ
  pub low : ℕ

abbrev pub from_parts : ℕ → ℕ → U128
from_parts high low = record { high = high; low = low }

abbrev pub parts : U128 → ℕ × ℕ
parts n = (n.high, n.low)

abbrev pub zero128 : U128
zero128 = from_parts 0 0

abbrev pub from_u8 : ℕ → U128
from_u8 n = from_parts 0 n

-- `low < self.low` is the carry out of a wrapped low half.
unfoldable pub add : Overflow → U128 → U128 → Run U128
add mode a b = do
  low ← add_word mode 64 a.low b.low
  sum ← add_word mode 64 a.high b.high
  high ← add_word mode 64 sum (if ltb low a.low then 1 else 0)
  returns (from_parts high low)

-- `x & 0xFFFFFFFF` is the remainder by 2 ^ 32.
abbrev pub limbs : U128 → List ℕ
limbs n = (n.high / 2 ^ 32) ∷ (n.high % 2 ^ 32) ∷ (n.low / 2 ^ 32) ∷ (n.low % 2 ^ 32) ∷ []

-- The `match shift`: `<<` drops the bits above 64, and never panics at 32.
unfoldable pub place : ℕ → ℕ → Run U128
place zero p = returns (from_parts 0 p)
place (suc zero) p = returns (from_parts (p / 2 ^ 32) (p * 2 ^ 32 % 2 ^ 64))
place (suc (suc zero)) p = returns (from_parts p 0)
place (suc (suc (suc zero))) p = returns (from_parts (p * 2 ^ 32 % 2 ^ 64) 0)
place shift p = if p == 0 then returns (from_parts 0 0) else panics

-- The body of the inner loop: row `j * 4 + i`.
unfoldable pub row : Overflow → List ℕ → List ℕ → ℕ → ℕ → Run U128
row mode top bottom i j = do
  t ← unwrap (get_elem? top (3 - i))
  b ← unwrap (get_elem? bottom (3 - j))
  product ← mul_word mode 64 t b
  place (i + j) product

-- The sixteen rows are computed first and then summed from row 0 on. A row that panics stops the
-- multiplication wherever it stands, so the rows are listed in the order of the sum.
unfoldable pub rows : Overflow → List ℕ → List ℕ → List (ℕ × ℕ) → Run (List U128)
rows mode top bottom [] = returns []
rows mode top bottom ((i, j) ∷ rest) = do
  r ← row mode top bottom i j
  rs ← rows mode top bottom rest
  returns (r ∷ rs)

abbrev pub row_order : List (ℕ × ℕ)
row_order =
    (0, 0)
    ∷ (1, 0)
    ∷ (2, 0)
    ∷ (3, 0)
    ∷ (0, 1)
    ∷ (1, 1)
    ∷ (2, 1)
    ∷ (3, 1)
    ∷ (0, 2)
    ∷ (1, 2)
    ∷ (2, 2)
    ∷ (3, 2)
    ∷ (0, 3)
    ∷ (1, 3)
    ∷ (2, 3)
    ∷ (3, 3)
    ∷ []

-- `rows.iter().fold(u128::zero(), Add::add)`
unfoldable pub sum_from : Overflow → U128 → List U128 → Run U128
sum_from mode acc [] = returns acc
sum_from mode acc (r ∷ rs) = do acc' ← add mode acc r; sum_from mode acc' rs

unfoldable pub mul : Overflow → U128 → U128 → Run U128
mul mode a b = do rs ← rows mode (limbs a) (limbs b) row_order; sum_from mode zero128 rs

-- The number that the two halves stand for, and the range of the halves.
abbrev pub value : U128 → ℕ
value n = n.high * 2 ^ 64 + n.low

pub record IsU128 (n : U128) : Type 0 where
  pub high_fits : n.high < 2 ^ 64
  pub low_fits : n.low < 2 ^ 64
