-- ===== src/Prelude/Modular.antt =====
-- Products and powers modulo a number.
use Prim.Native.Nat.{ℕ, zero, suc, ◌+◌, ◌*◌, ◌/◌, ◌%◌, ◌^◌}
use mathlib.Core.Path.{◌≡◌, refl, sym, ap, ◌∙◌}
use native.Mathlib.Nat.{pow-zero, pow-suc, mul_comm, mod-add-div', add-mul-mod_self_right}
use native.Mathlib.Omega.{arith}

mod-mul_left : (a b m : ℕ) → a % m * b % m ≡ a * b % m
mod-mul_left a b m =
    sym (add-mul-mod_self_right (a % m * b) (a / m * b) m)
    ∙ ap (λ (t : ℕ). t % m) (grind (arith, ap (λ (t : ℕ). t * b) (mod-add-div' a m)))

-- Factors count modulo `m` only.
pub mul_congr : (m a b c d : ℕ) → a % m ≡ b % m → c % m ≡ d % m → a * c % m ≡ b * d % m
mul_congr m a b c d e k =
    same_left a b c e
    ∙ (ap (λ (t : ℕ). t % m) (mul_comm b c) ∙ same_left c d b k)
    ∙ ap (λ (t : ℕ). t % m) (mul_comm d b)
  where
    same_left : (a b c : ℕ) → a % m ≡ b % m → a * c % m ≡ b * c % m
    same_left a b c e = sym (mod-mul_left a c m) ∙ ap (λ (t : ℕ). t * c % m) e ∙ mod-mul_left b c m

pub pow_congr : (m a b n : ℕ) → a % m ≡ b % m → a ^ n % m ≡ b ^ n % m
pow_congr m a b zero e = rw (pow-zero a, pow-zero b)
pow_congr m a b (suc n) e =
    rw (pow-suc a n, pow-suc b n) (mul_congr m (a ^ n) (b ^ n) a b (pow_congr m a b n e) e)

pub mul-pow : (a b n : ℕ) → (a * b) ^ n ≡ a ^ n * b ^ n
mul-pow a b zero = rw (pow-zero (a * b), pow-zero a, pow-zero b)
mul-pow a b (suc n) = rw (pow-suc (a * b) n, pow-suc a n, pow-suc b n, mul-pow a b n) (grind arith)

pub pow-add : (x a b : ℕ) → x ^ (a + b) ≡ x ^ a * x ^ b
pow-add x zero b = rw (pow-zero x) (let same : zero + b ≡ b = omega arith in rw same (omega arith))
pow-add x (suc a) b =
    let same : suc a + b ≡ suc (a + b) = omega arith in
    rw (same, pow-suc x (a + b), pow-suc x a, pow-add x a b) (grind arith)

one-pow : (n : ℕ) → 1 ^ n ≡ 1
one-pow zero = refl
one-pow (suc n) = rw (pow-suc 1 n, one-pow n)

-- The exponents of a power of a power may be exchanged.
pub pow_pow_comm : (x a b : ℕ) → (x ^ a) ^ b ≡ (x ^ b) ^ a
pow_pow_comm x zero b = rw (pow-zero x, pow-zero (x ^ b)) (one-pow b)
pow_pow_comm x (suc a) b =
    rw (pow-suc x a, mul-pow (x ^ a) x b, pow-suc (x ^ b) a, pow_pow_comm x a b)
