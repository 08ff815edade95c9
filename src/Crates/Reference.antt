-- ===== src/Crates/Reference.antt =====
-- Plain functions that behave as the interfaces ask, for evaluating the model on inputs.
use spotify_connect_scrobble.Prelude.{
  ℕ, ◌≡◌, ◌<◌, refl, ◌++◌, length, take, drop, Run, returns, panics, ltb, if◌then◌else◌, arith,
  take-length-append, length-append, drop-length-append,
}
use spotify_connect_scrobble.Prelude.Words.{Bytes, be_value, be_bytes}
use spotify_connect_scrobble.Crates.{ByteOrder, EasyBuf}

abbrev read_be : ℕ → Bytes → Run ℕ
read_be w bs = if ltb (length bs) w then panics else returns (be_value (take w bs))

pub read_be_lem :
    (w : ℕ) (bs rest : Bytes) → length bs ≡ w → read_be w (bs ++ rest) ≡ returns (be_value bs)
read_be_lem w bs rest e = rw (← e) (rw take-length-append (ground (arith, length-append bs rest)))

pub read_be_short : (w : ℕ) (bs : Bytes) → length bs < w → read_be w bs ≡ panics
read_be_short w bs h = ground arith

abbrev drain : ℕ → Bytes → Run (Bytes × Bytes)
drain n bs = if ltb (length bs) n then panics else returns (take n bs, drop n bs)

pub drain_front :
    (front rest : Bytes) → drain (length front) (front ++ rest) ≡ returns (front, rest)
drain_front front rest =
    rw (take-length-append, drop-length-append) (ground (arith, length-append front rest))

pub drain_short : (n : ℕ) (bs : Bytes) → length bs < n → drain n bs ≡ panics
drain_short n bs h = ground arith

instance abbrev pub byte_order : ByteOrder
byte_order = record {
  read_u16 = read_be 2;
  read_u32 = read_be 4;
  read_u64 = read_be 8;
  write_u16 = be_bytes 2;
  write_u32 = be_bytes 4;
  write_u64 = be_bytes 8;
  read_u16_be = read_be_lem 2;
  read_u32_be = read_be_lem 4;
  read_u64_be = read_be_lem 8;
  read_u16_short = read_be_short 2;
  read_u32_short = read_be_short 4;
  write_u16_be = λ v h. refl;
  write_u32_be = λ v h. refl;
  write_u64_be = λ v h. refl;
}

instance abbrev pub easy_buf : EasyBuf
easy_buf = record { drain_to = drain; drain_to_front = drain_front; drain_to_short = drain_short }
