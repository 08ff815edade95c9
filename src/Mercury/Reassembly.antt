-- ===== src/Mercury/Reassembly.antt =====
-- A response of core/src/mercury that comes in several packets: a part that one packet leaves open
-- goes on in the next one.
use spotify_connect_scrobble.Prelude.{
  ℕ, ◌+◌, ◌^◌, ◌<◌, ◌≡◌, refl, sym, ap₂, ◌∙◌, List, [], ◌∷◌, ◌++◌, length, All, Option, none, some,
  append_assoc, Bool, true, false, ◌>>=◌, arith, All-append, length-append,
}
use spotify_connect_scrobble.Prelude.Words.{Bytes}
use spotify_connect_scrobble.Prelude.Eq.{bytes_eq}
use spotify_connect_scrobble.Prelude.Dict
use spotify_connect_scrobble.Prelude.Dict.{Dict}
use spotify_connect_scrobble.Crates.{ByteOrder, EasyBuf}
use spotify_connect_scrobble.Mercury.{
  MercuryManager, MercuryPending, ChannelId, add_part, join_partial, pending_for, dispatch,
}
use spotify_connect_scrobble.Mercury.Types.{Protobuf}
use spotify_connect_scrobble.Mercury.Parts.{Fits, frame, absorb, Absorbed, dispatch-frame}

join_twice :
    (partial : Option Bytes) (a b : Bytes)
    → join_partial partial a ++ b ≡ join_partial partial (a ++ b)
join_twice none a b = refl
join_twice (some c) a b = append_assoc c a b

-- Parts read one packet after the other are the parts of one packet.
absorb-absorb :
    (ps qs : List Bytes) (a b : Bytes) (p : MercuryPending)
    → absorb false (b ∷ qs) (absorb true (ps ++ a ∷ []) p) ≡ absorb false (ps ++ (a ++ b) ∷ qs) p
absorb-absorb [] [] a b p = rw (join_twice p.partial a b)
absorb-absorb [] (q ∷ qs) a b p = rw (join_twice p.partial a b)
absorb-absorb (x ∷ []) qs a b p = absorb-absorb [] qs a b (add_part false x p)
absorb-absorb (x ∷ y ∷ ps) qs a b p = absorb-absorb (y ∷ ps) qs a b (add_part false x p)

none_twice :
    (cmd : ℕ) (o : Option MercuryPending) → pending_for cmd o ≡ none → pending_for cmd none ≡ none
none_twice cmd none e = e
none_twice cmd (some p) e = ground (arith, e)

-- The manager with the pending response of a sequence number taken out.
abbrev taken : Bytes → MercuryManager → MercuryManager
taken seq m = record m { pending = Dict.remove seq m.pending }

module _ ⦃order : ByteOrder⦄ ⦃buffer : EasyBuf⦄ where
  -- What the final packet does after one that leaves its last part open is what one packet does
  -- that has the two halves of that part in one.
  absorbed_twice :
      (proto : Protobuf) (alive : ChannelId → Bool) (cmd : ℕ) (seq : Bytes) (ps qs : List Bytes)
      (a b : Bytes) (o : Option MercuryPending) (m : MercuryManager)
      → pending_for cmd (Dict.get seq m.pending) ≡ o
      → (Absorbed proto alive cmd 2 seq (ps ++ a ∷ []) o (taken seq m) >>= λ n.
          Absorbed proto alive cmd 1 seq
            (b ∷ qs)
            (pending_for cmd (Dict.get seq n.pending))
            (taken seq n))
        ≡ Absorbed proto alive cmd 1 seq (ps ++ (a ++ b) ∷ qs) o (taken seq m)
  absorbed_twice proto alive cmd seq ps qs a b none m e = rw (
    Dict.get-remove_same seq m.pending,
    none_twice cmd (Dict.get seq m.pending) e,
    Dict.remove-remove seq m.pending,
  )
  absorbed_twice proto alive cmd seq ps qs a b (some p) m e = rw (
    Dict.get-insert_same seq (absorb true (ps ++ a ∷ []) p) (Dict.remove seq m.pending),
    Dict.remove-insert seq (absorb true (ps ++ a ∷ []) p) (Dict.remove seq m.pending),
    Dict.remove-remove seq m.pending,
    absorb-absorb ps qs a b p,
  )

  -- A response may be cut anywhere inside a part: a packet whose last part is the first half, left
  -- open by flags 2, and a final packet that starts with the other half do to the manager what one
  -- final packet with the whole part does, for any pending response, also for one that has an open
  -- part of its own, and for a packet that no request waits for.
  pub dispatch-dispatch :
      (proto : Protobuf) (alive : ChannelId → Bool) (cmd : ℕ) (seq : Bytes) (ps qs : List Bytes)
      (a b rest rest' : Bytes) (m : MercuryManager)
      → Fits seq
      → length ps + length qs + 1 < 2 ^ 16
      → All Fits ps
      → All Fits qs
      → Fits (a ++ b)
      → (dispatch proto alive cmd (frame seq 2 (ps ++ a ∷ []) rest) m
          >>= dispatch proto alive cmd (frame seq 1 (b ∷ qs) rest'))
        ≡ dispatch proto alive cmd (frame seq 1 (ps ++ (a ++ b) ∷ qs) rest) m
  dispatch-dispatch proto alive cmd seq ps qs a b rest rest' m hs hn hp hq hab =
      let fits_a : Fits a = omega (arith, hab, length-append a b) in
      let fits_b : Fits b = omega (arith, hab, length-append a b) in
      let first =
        dispatch-frame proto alive cmd 2 seq (ps ++ a ∷ []) rest m hs
          (omega (arith, hn, length-append ps (a ∷ [])))
          (All-append Fits ps (a ∷ []) hp (fits_a, tt)) in
      let second = λ (n : MercuryManager).
        dispatch-frame proto alive cmd 1 seq (b ∷ qs) rest' n hs (omega (arith, hn)) (fits_b, hq) in
      let whole =
        dispatch-frame proto alive cmd 1 seq (ps ++ (a ++ b) ∷ qs) rest m hs
          (omega (arith, hn, length-append ps ((a ++ b) ∷ qs)))
          (All-append Fits ps ((a ++ b) ∷ qs) hp (hab, hq)) in
      ap₂ (λ r k. r >>= k) first (λ i n. second n i)
      ∙ (absorbed_twice proto alive cmd seq ps qs a b _ m refl ∙ sym whole)
