-- ===== src/Util/Powm.antt =====
-- `powm` of core/src/util/mod.rs, a power modulo a number by repeated squaring.
use spotify_connect_scrobble.Prelude.{
  ℕ, ◌+◌, ◌*◌, ◌/◌, ◌%◌, ◌^◌, ◌<◌, ◌≡◌, ◌≢◌, suc, refl, sym, ap, ◌∙◌, Run, returns, panics, ◌>>=◌,
  ◌==◌, if◌then◌else◌, arith, Bool-cases, inl, inr,
}
use spotify_connect_scrobble.Prelude.Modular.{mul_congr, pow_congr, mul-pow, pow-add}
use spotify_connect_scrobble.Prelude.Order.{lt-Acc}
use mathlib.Core.Logic.{dite, dif_pos, dif_neg}
use mathlib.Core.WellFounded.{Acc}
use native.Mathlib.Bridge.{le_prop}
use native.Mathlib.Decide.{dec_lt}
use native.Mathlib.Nat.{mod-eq_of_lt, mod-mod, mod-lt, pow-suc, pow-zero}

-- `rem` of a big number panics at a modulus of 0.
unfoldable pub rem : ℕ → ℕ → Run ℕ
rem a modulus = if modulus == 0 then panics else returns (a % modulus)

-- One round of the loop before the shift of the exponent: the new result and the new base.
unfoldable pub powm_round : ℕ → ℕ → ℕ → ℕ → Run (ℕ × ℕ)
powm_round base exp modulus result = do
  result' ← (if exp % 2 == 1 then rem (result * base) modulus else returns result)
  base' ← rem (base * base) modulus
  returns (result', base')

-- `while !exp.is_zero()`
unfoldable pub powm_loop : (exp : ℕ) → Acc ◌<◌ exp → ℕ → ℕ → ℕ → Run ℕ
powm_loop exp (Acc.intro _ smaller) base modulus result =
    dite (dec_lt 0 exp)
      (λ h. powm_round base exp modulus result >>= λ r.
        powm_loop (exp / 2) (smaller (exp / 2) (omega arith)) r.1 modulus r.0)
      (λ done. returns result)

unfoldable pub powm : ℕ → ℕ → ℕ → Run ℕ
unfolding powm_loop rem powm_round
powm base exp modulus = powm_loop exp (lt-Acc exp) base modulus 1

powm_round_lem :
    (base exp m result : ℕ)
    → 1 < m
    → powm_round base exp m result
      ≡ returns (if exp % 2 == 1 then result * base % m else result, base * base % m)
unfolding powm_round rem
powm_round_lem base exp m result h = ground arith

-- The exponent of a round is twice that of the next one, or one more.
round_value :
    (base exp m result : ℕ)
    → 0 < exp
    → (if exp % 2 == 1 then result * base % m else result) * (base * base % m) ^ (exp / 2) % m
      ≡ result * base ^ exp % m
round_value base exp m result h = elim (Bool-cases (exp % 2 == 1)) [
  | inl odd ↦ rw odd (
      squared (result * base % m) (result * base) (mod-mod (result * base) m)
      ∙ ap (λ (t : ℕ). t % m) (odd_power (ground (arith, odd))))
  | inr even ↦
      rw even
        (squared result result refl ∙ ap (λ (t : ℕ). t % m) (even_power (ground (arith, even))))
]
  where
    squared :
        (r r' : ℕ)
        → r % m ≡ r' % m
        → r * (base * base % m) ^ (exp / 2) % m ≡ r' * (base * base) ^ (exp / 2) % m
    squared r r' e =
        mul_congr m r r' _ _ e
          (pow_congr m (base * base % m) (base * base) (exp / 2) (mod-mod (base * base) m))

    half : (base * base) ^ (exp / 2) ≡ base ^ (exp / 2 + exp / 2)
    half = mul-pow base base (exp / 2) ∙ sym (pow-add base (exp / 2) (exp / 2))

    even_power : exp % 2 ≢ 1 → result * (base * base) ^ (exp / 2) ≡ result * base ^ exp
    even_power e =
        let same : exp / 2 + exp / 2 ≡ exp = omega arith in
        ap (λ (t : ℕ). result * t) (half ∙ ap (λ (t : ℕ). base ^ t) same)

    odd_power : exp % 2 ≡ 1 → result * base * (base * base) ^ (exp / 2) ≡ result * base ^ exp
    odd_power e =
        let same : suc (exp / 2 + exp / 2) ≡ exp = omega arith in
        let grouped : result * base * base ^ (exp / 2 + exp / 2)
            ≡ result * base ^ suc (exp / 2 + exp / 2) =
          rw (pow-suc base (exp / 2 + exp / 2)) (grind arith) in
        ap (λ (t : ℕ). result * base * t) half ∙ grouped ∙ ap (λ (t : ℕ). result * base ^ t) same

powm_loop_lem :
    (exp : ℕ) (w : Acc ◌<◌ exp) (base m result : ℕ)
    → 1 < m
    → result < m
    → powm_loop exp w base m result ≡ returns (result * base ^ exp % m)
unfolding powm_loop
powm_loop_lem exp (Acc.intro _ smaller) base m result h k = elim (dec_lt 0 exp) [
  | no done ↦
      let ended : exp ≡ 0 = omega arith in
      rw (dif_neg (dec_lt 0 exp) done, ended, pow-zero base)
        (ap returns (sym (mod-eq_of_lt (omega arith)) ∙ ap (λ (t : ℕ). t % m) (omega arith)))
  | yes more ↦
      rw (dif_pos (dec_lt 0 exp) le_prop more, powm_round_lem base exp m result h)
        (powm_loop_lem (exp / 2) (smaller (exp / 2) _) (base * base % m) m _ h
            (ground (arith, mod-lt (result * base) {m = m}))
          ∙ ap returns (round_value base exp m result more))
]

-- Repeated squaring gives the power modulo a modulus above 1, and no division panics.
pub powm_lem : (base exp m : ℕ) → 1 < m → powm base exp m ≡ returns (base ^ exp % m)
unfolding powm
powm_lem base exp m h =
    powm_loop_lem exp (lt-Acc exp) base m 1 h h
    ∙ ap (λ (t : ℕ). returns (t % m)) (let same : 1 * base ^ exp ≡ base ^ exp = omega arith in same)
