-- ===== src/Metadata/Codes.antt =====
-- The country lists of metadata/src/lib.rs as lists of codes.
use spotify_connect_scrobble.Prelude.{
  ℕ, zero, suc, ◌+◌, ◌<◌, ◌≡◌, refl, ap, List, [], ◌∷◌, ◌++◌, length, Bool, true, false, ◌||◌,
  returns, All, arith,
}
use spotify_connect_scrobble.Prelude.Words.{Bytes}
use spotify_connect_scrobble.Prelude.Eq.{bytes_beq}
use spotify_connect_scrobble.Util.Chunks.{chunks, any, is_boundary, cut}
use spotify_connect_scrobble.Metadata.Countries.{countrylist_contains}

-- A country code: two letters.
abbrev pub Code : Type 0
Code = ℕ × ℕ

abbrev pub IsCode : Code → Type 0
IsCode c = (c.0 < 128) × (c.1 < 128)

abbrev pub text : List Code → Bytes
text [] = []
text (c ∷ cs) = c.0 ∷ c.1 ∷ text cs

abbrev pub member : Bytes → List Code → Bool
member country [] = false
member country (c ∷ cs) = bytes_beq (c.0 ∷ c.1 ∷ []) country || member country cs

text-boundary : (cs : List Code) → All IsCode cs → is_boundary (text cs) ≡ true
text-boundary [] h = refl
text-boundary (c ∷ cs) h = ground (arith, h.0.0)

cut-text :
    (c : Code) (cs : List Code)
    → All IsCode cs
    → cut 2 (text (c ∷ cs)) ≡ returns (c.0 ∷ c.1 ∷ [], text cs)
cut-text c cs h = ground (arith, text-boundary cs h)

any-text :
    (country : Bytes) (rounds : ℕ) (cs : List Code)
    → All IsCode cs
    → length cs < rounds
    → any rounds (λ cc. bytes_beq cc country) (chunks (text cs) 2) ≡ returns (member country cs)
unfolding any
any-text country zero cs h k = absurd (omega arith)
any-text country (suc rounds) [] h k = refl
any-text country (suc rounds) (c ∷ cs) h k =
    rw (cut-text c cs h.1) (ground (arith, any-text country rounds cs h.1))

length-text : (cs : List Code) → length (text cs) ≡ length cs + length cs
length-text [] = refl
length-text (c ∷ cs) = omega (arith, length-text cs)

-- A list of codes contains a country exactly if one of the codes is the country.
pub countrylist_contains-text :
    (country : Bytes) (cs : List Code)
    → All IsCode cs
    → countrylist_contains (text cs) country ≡ returns (member country cs)
unfolding countrylist_contains
countrylist_contains-text country cs h =
    any-text country (suc (length (text cs))) cs h (omega (arith, length-text cs))

pub text-append : (cs ds : List Code) → text (cs ++ ds) ≡ text cs ++ text ds
text-append [] ds = refl
text-append (c ∷ cs) ds = ap (λ t. c.0 ∷ c.1 ∷ t) (text-append cs ds)

pub member-append :
    (country : Bytes) (cs ds : List Code)
    → member country (cs ++ ds) ≡ (member country cs || member country ds)
member-append country [] ds = refl
member-append country (c ∷ cs) ds = ground (arith, member-append country cs ds)
