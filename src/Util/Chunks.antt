-- ===== src/Util/Chunks.antt =====
-- `StrChunks` of core/src/util/mod.rs: the pieces of a string, given as its bytes.
use spotify_connect_scrobble.Prelude.{
  ℕ, zero, suc, [], ◌∷◌, length, take, drop, Option, none, some, Bool, true, false, not, ◌&&◌, leb,
  ltb, Run, returns, panics, ◌>>=◌, ◌>>◌, assert, if◌then◌else◌,
}
use spotify_connect_scrobble.Prelude.Words.{Bytes}

pub record StrChunks : Type 0 where
  pub text : Bytes
  pub size : ℕ

abbrev pub chunks : Bytes → ℕ → StrChunks
chunks text size = record { text = text; size = size }

-- No character goes on here: a byte of the form 10xxxxxx continues one.
abbrev pub is_boundary : Bytes → Bool
is_boundary [] = true
is_boundary (b ∷ bs) = not (leb 128 b && ltb b 192)

-- The cut of a string behind `size` bytes panics outside it and inside a character.
abbrev pub cut : ℕ → Bytes → Run (Bytes × Bytes)
cut size text = do
  assert (leb size (length text) && is_boundary (drop size text))
  returns (take size text, drop size text)

abbrev pub next_of : Bytes → ℕ → Run (Option Bytes × StrChunks)
next_of [] size = returns (none, chunks [] size)
next_of (b ∷ bs) size = do (front, rest) ← cut size (b ∷ bs); returns (some front, chunks rest size)

abbrev pub next : StrChunks → Run (Option Bytes × StrChunks)
next c = next_of c.text c.size

-- What `Iterator::any` does with the piece that `next` gives, the rest being tested by `more`.
abbrev pub any_piece : (Bytes → Bool) → (StrChunks → Run Bool) → Option Bytes × StrChunks → Run Bool
any_piece test more (none, c) = returns false
any_piece test more (some piece, c) = if test piece then returns true else more c

-- `Iterator::any`, with a number of rounds; it would go on for ever at size 0 only.
unfoldable pub any : ℕ → (Bytes → Bool) → StrChunks → Run Bool
any zero test c = panics
any (suc rounds) test c = next c >>= any_piece test (any rounds test)
