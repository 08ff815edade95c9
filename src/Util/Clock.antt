-- ===== src/Util/Clock.antt =====
-- `now_ms` and `run_program` of core/src/util/mod.rs.
use spotify_connect_scrobble.Prelude.{
  ℕ, ◌+◌, ◌-◌, ◌*◌, ◌/◌, ◌^◌, ◌<◌, ◌≡◌, List, [], ◌∷◌, ◌++◌, Option, Bool, ◌||◌, ◌&&◌, ◌==◌, leb,
  ltb, Run, returns, panics, ◌>>=◌, unwrap, if◌then◌else◌, arith,
}
use spotify_connect_scrobble.Prelude.Words.{Bytes, Overflow, checked, wrapping, add_word, mul_word}
use spotify_connect_scrobble.Prelude.Int.{ℤ, pos, negsuc}

-- The time since 1970, or until then: `Duration` counts seconds and nanoseconds.
pub data SinceEpoch : Type 0 where
  ok : ℕ → ℕ → SinceEpoch
  err : ℕ → ℕ → SinceEpoch

-- `n as i64`, of a number of 64 bits.
abbrev pub as_i64 : ℕ → ℤ
as_i64 n = if ltb n (2 ^ 63) then pos n else negsuc (2 ^ 64 - 1 - n)

unfoldable pub millis : Overflow → ℕ → ℕ → Run ℤ
millis mode secs nanos = do
  whole ← mul_word mode 64 secs 1000
  sum ← add_word mode 64 whole (nanos / 1000000)
  returns (as_i64 sum)

-- The arm of the error takes the duration without its sign.
unfoldable pub now_ms : Overflow → SinceEpoch → Run ℤ
now_ms mode (ok secs nanos) = millis mode secs nanos
now_ms mode (err secs nanos) = millis mode secs nanos

abbrev pub is_whitespace : ℕ → Bool
is_whitespace c = c == 32 || (leb 9 c && leb c 13)

-- A word that is over, if it is one.
abbrev close_word : Bytes → List Bytes → List Bytes
close_word [] rest = rest
close_word (c ∷ word) rest = (c ∷ word) ∷ rest

-- `split_whitespace`, at ASCII: `word` is what the present word has, in front of the rest.
abbrev pub words_from : Bytes → Bytes → List Bytes
words_from word [] = close_word word []
words_from word (c ∷ text) =
    let ended = words_from [] text in
    let longer = words_from (word ++ c ∷ []) text in
    if is_whitespace c then close_word word ended else longer

-- `v.remove(0)`, and the start of the program with its arguments: `status` is the system's answer.
unfoldable pub run_program : (Bytes → List Bytes → Option ℕ) → Bytes → Run ℕ
run_program status program = started (words_from [] program)
  where
    started : List Bytes → Run ℕ
    started [] = panics
    started (name ∷ args) = unwrap (status name args)

-- Below 2 ^ 53 seconds the clock counts milliseconds, in both build profiles.
pub now_ms_lem :
    (mode : Overflow) (secs nanos : ℕ)
    → nanos < 10 ^ 9
    → secs < 2 ^ 53
    → now_ms mode (ok secs nanos) ≡ returns (pos (secs * 1000 + nanos / 1000000))
unfolding now_ms millis
now_ms_lem checked secs nanos h k = ground arith
now_ms_lem wrapping secs nanos h k = ground arith
