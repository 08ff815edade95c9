-- ===== src/Authentication/Blob.antt =====
-- The loop over the decrypted blob in core/src/authentication.rs, block by block.
use spotify_connect_scrobble.Prelude.{
  ℕ, zero, suc, ◌+◌, ◌-◌, ◌≤◌, ◌≡◌, refl, sym, ap, ◌∙◌, [], ◌∷◌, length, get_elem?, set,
  get_elem?-lt, get_elem?-set, set_elem?-set, length-set, Option, none, some, true, leb, Bool-cases,
  inl, inr, subst, false, ◌==◌, returns, if◌then◌else◌, arith,
}
use spotify_connect_scrobble.Prelude.Words.{Bytes}
use spotify_connect_scrobble.Authentication.{unchain, decrypted}
use Prim.Native.Nat.{bit_xor}

-- A byte and the byte at the same place of the block before it, which is sixteen bytes long.
abbrev pub both : Option ℕ → Option ℕ → Option ℕ
both (some x) (some y) = some (bit_xor x y)
both (some x) none = none
both none y = none

abbrev pub with_block_before : Bytes → ℕ → Option ℕ
with_block_before bytes k = both (get_elem? bytes k) (get_elem? bytes (k - 16))

-- The bytes from `from` on are combined with the block before, those in front are as they were.
abbrev pub combined_from : ℕ → Bytes → ℕ → Option ℕ
combined_from from bytes k = if leb from k then with_block_before bytes k else get_elem? bytes k

written_next :
    (l i k v : ℕ) (now first : Bytes)
    → i + 17 ≤ l
    → length now ≡ l
    → get_elem? now k ≡ combined_from (l - i) first k
    → with_block_before first (l - i - 1) ≡ some v
    → get_elem? (set now (l - i - 1) v) k ≡ combined_from (l - (i + 1)) first k
written_next l i k v now first h len e w =
    rw (get_elem?-set now (l - i - 1) k v (omega arith)) (elim (Bool-cases (l - i - 1 == k)) [
      | inl here ↦
          let same : l - i - 1 ≡ k = ground (arith, here) in
          let behind : leb (l - (i + 1)) k ≡ true = ground (arith, same) in
          rw (here, behind) (sym (subst (λ j. with_block_before first j ≡ some v) same w))
      | inr elsewhere ↦
          let side : leb (l - i) k ≡ leb (l - (i + 1)) k = ground (arith, elsewhere) in
          rw elsewhere
            (e ∙ ap (λ b. if b then with_block_before first k else get_elem? first k) side)
    ])

unchain_lem :
    (rounds i l : ℕ) (now first : Bytes)
    → rounds + i + 16 ≡ l
    → length now ≡ l
    → length first ≡ l
    → ((k : ℕ) → get_elem? now k ≡ combined_from (l - i) first k)
    → (out : Bytes) × (unchain rounds i l now ≡ returns out)
      × (length out ≡ l)
      × ((k : ℕ) → get_elem? out k ≡ combined_from 16 first k)
unfolding unchain
unchain_lem zero i l now first h len len' e =
    let start : l - i ≡ 16 = omega arith in (now, refl, len, λ k. rw start at (e k))
unchain_lem (suc rounds) i l now first h len len' e =
    let at : ℕ = l - i - 1 in
    let before : ℕ = l - i - 17 in
    let (x, ex) = get_elem?-lt first at (omega arith) in
    let (y, ey) = get_elem?-lt first before (omega arith) in
    let front : leb (l - i) at ≡ false = ground arith in
    let farther : leb (l - i) before ≡ false = ground arith in
    let now_x : get_elem? now at ≡ some x =
      e at ∙ ap (λ b. if b then with_block_before first at else get_elem? first at) front ∙ ex in
    let now_y : get_elem? now before ≡ some y =
      e before
      ∙ ap (λ b. if b then with_block_before first before else get_elem? first before) farther
      ∙ ey in
    let value : with_block_before first at ≡ some (bit_xor x y) =
      rw ex (ap (both (some x)) (ap (get_elem? first) (omega arith) ∙ ey)) in
    let next : Bytes = set now at (bit_xor x y) in
    let (out, runs, size, bytes) =
      unchain_lem rounds (i + 1) l next first (omega arith) (length-set now at (bit_xor x y) ∙ len)
        len' (λ k. written_next l i k (bit_xor x y) now first (omega arith) len (e k) value) in
    (out, rw (now_x, now_y, set_elem?-set now at (bit_xor x y) (omega arith)) runs, size, bytes)

get_elem?-past : (bs : Bytes) (k : ℕ) → length bs ≤ k → get_elem? bs k ≡ none
get_elem?-past [] k h = refl
get_elem?-past (b ∷ bs) zero h = absurd (omega arith)
get_elem?-past (b ∷ bs) (suc k) h = get_elem?-past bs k (omega arith)

untouched : (bs : Bytes) (k : ℕ) → get_elem? bs k ≡ combined_from (length bs - 0) bs k
untouched bs k = elim (Bool-cases (leb (length bs - 0) k)) [
  | inl past ↦ rw (past, get_elem?-past bs k (ground (arith, past))) refl
  | inr inside ↦ rw inside refl
]

-- Behind sixteen bytes or more, the loop gives as many bytes: the first sixteen are those of before,
-- and every other one is combined with the byte of before that stands sixteen places in front of it.
pub decrypted_lem :
    (bytes : Bytes)
    → 16 ≤ length bytes
    → (out : Bytes) × (decrypted (length bytes) bytes ≡ returns out)
      × (length out ≡ length bytes)
      × ((k : ℕ) → get_elem? out k ≡ combined_from 16 bytes k)
unfolding decrypted
decrypted_lem bytes h =
    let enough : leb 0x10 (length bytes) ≡ true = ground (arith, h) in
    let l : ℕ = length bytes in
    let (out, runs, size, same) =
      unchain_lem (l - 0x10) 0 l bytes bytes (omega arith) refl refl (untouched bytes) in
    (out, rw enough runs, size, same)
