-- ===== src/Util/Subfile.antt =====
-- core/src/util/subfile.rs: a stream from some offset on.
use spotify_connect_scrobble.Prelude.{
  ℕ, ◌+◌, ◌-◌, ◌^◌, ◌<◌, ◌≡◌, ap, Option, none, some, Run, returns, panics, ◌>>=◌, ltb,
  if◌then◌else◌, arith,
}
use spotify_connect_scrobble.Prelude.Words.{Bytes, Overflow, checked, wrapping, add_word}
use spotify_connect_scrobble.Prelude.Int.{ℤ}
use native.Mathlib.Nat.{mod-eq_of_lt}

-- `std::io::SeekFrom`
pub data SeekFrom : Type 0 where
  start : ℕ → SeekFrom
  end current : ℤ → SeekFrom

-- A stream under `Read` and `Seek`; `none` is an error.
pub record ReadSeek : Type 1 where
  pub State : Type 0
  pub read : ℕ → State → Option Bytes × State
  pub seek : SeekFrom → State → Option ℕ × State

module _ (T : ReadSeek) where
  pub record Subfile : Type 0 where
    pub stream : T.State
    pub offset : ℕ

  abbrev pub sought : ℕ → Option ℕ × T.State → Run Subfile
  sought offset (none, t) = panics
  sought offset (some pos, t) = returns (record { stream = t; offset = offset })

  unfoldable pub new : T.State → ℕ → Run Subfile
  new stream offset = sought offset (T.seek (start offset) stream)

  unfoldable pub read : ℕ → Subfile → Option Bytes × Subfile
  read n f = let (bytes, t) = T.read n f.stream in (bytes, record f { stream = t })

  -- The position in the stream that is asked for.
  abbrev pub shifted : Overflow → SeekFrom → ℕ → Run SeekFrom
  shifted mode (start pos) offset = add_word mode 64 pos offset >>= λ p. returns (start p)
  shifted mode (end d) offset = returns (end d)
  shifted mode (current d) offset = returns (current d)

  -- A position in front of the offset is given as 0.
  abbrev pub inside : ℕ → Option ℕ × T.State → Option ℕ × Subfile
  inside offset (none, t) = (none, record { stream = t; offset = offset })
  inside offset (some newpos, t) = (
    some (if ltb offset newpos then newpos - offset else 0),
    record { stream = t; offset = offset },
  )

  unfoldable pub seek : Overflow → SeekFrom → Subfile → Run (Option ℕ × Subfile)
  seek mode pos f = do
    pos' ← shifted mode pos f.offset
    returns (inside f.offset (T.seek pos' f.stream))

  -- A seek from the start goes to the place behind the offset and gives the position that was asked
  -- for, on a stream that goes where it is told, for positions within 64 bits.
  pub seek-start :
      (mode : Overflow) (pos : ℕ) (f : Subfile) (t : T.State)
      → pos + f.offset < 2 ^ 64
      → T.seek (start (pos + f.offset)) f.stream ≡ (some (pos + f.offset), t)
      → seek mode (start pos) f ≡ returns (some pos, record f { stream = t })
  unfolding seek
  seek-start mode pos f t h e =
      rw (fits mode, e) (ap (λ p. returns (some p, record f { stream = t })) (ground arith))
    where
      fits : (mode : Overflow) → add_word mode 64 pos f.offset ≡ returns (pos + f.offset)
      fits checked = ground arith
      fits wrapping = rw (mod-eq_of_lt h)
