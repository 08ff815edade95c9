-- ===== src/Connection/Shift.antt =====
-- A cipher that shifts every byte, to evaluate core/src/connection with: not the one of the crate.
use spotify_connect_scrobble.Prelude.{
  ℕ, suc, ◌+◌, ◌-◌, ◌≡◌, refl, ap, ap₂, [], ◌∷◌, ◌++◌, length, arith,
}
use spotify_connect_scrobble.Prelude.Words.{Bytes, be_bytes}
use spotify_connect_scrobble.Prelude.Eq.{bytes_eq}
use spotify_connect_scrobble.Connection.Codec.{Shannon}
use spotify_connect_scrobble.Connection.Codec.RoundTrip.{IsLawful}

abbrev shift : ℕ → Bytes → Bytes
shift n [] = []
shift n (b ∷ bs) = (b + n) ∷ shift n bs

abbrev unshift : ℕ → Bytes → Bytes
unshift n [] = []
unshift n (b ∷ bs) = (b - n) ∷ unshift n bs

abbrev pub shifting : Shannon
shifting = record {
  Cipher = Bytes × ℕ;
  new = λ key. (key, 0);
  nonce_u32 = λ n c. (c.0, n + length c.0);
  encrypt = λ text c. (shift c.1 text, c);
  decrypt = λ text c. (unshift c.1 text, c);
  finish = λ c. (be_bytes 4 c.1, c);
  check_mac = λ mac c. (bytes_eq.beq mac (be_bytes 4 c.1), c);
}

length-shift : (n : ℕ) (text : Bytes) → length (shift n text) ≡ length text
length-shift n [] = refl
length-shift n (b ∷ bs) = ap suc (length-shift n bs)

shift-append : (n : ℕ) (a b : Bytes) → shift n (a ++ b) ≡ shift n a ++ shift n b
shift-append n [] b = refl
shift-append n (x ∷ a) b = rw (shift-append n a b)

unshift-shift : (n : ℕ) (text : Bytes) → unshift n (shift n text) ≡ text
unshift-shift n [] = refl
unshift-shift n (b ∷ bs) = ap₂ ◌∷◌ (omega arith) (unshift-shift n bs)

pub shifting-IsLawful : IsLawful shifting
shifting-IsLawful = record {
  key = λ c. c.0;
  key-nonce_u32 = λ n c. refl;
  key-encrypt = λ text c. refl;
  key-finish = λ c. refl;
  key-check_mac = λ mac c. refl;
  nonce_u32_same = λ n c d e. ap (λ (k : Bytes). (k, n + length k)) e;
  length-encrypt = λ text c. length-shift c.1 text;
  length-finish = λ c. refl;
  encrypt-append = λ a b c. ap (λ (t : Bytes). (t, c)) (shift-append c.1 a b);
  decrypt-encrypt = λ text c. ap (λ (t : Bytes). (t, c)) (unshift-shift c.1 text);
  check_mac-finish = λ c. (bytes_eq.beq_iff (be_bytes 4 c.1) (be_bytes 4 c.1)).1 refl;
}
