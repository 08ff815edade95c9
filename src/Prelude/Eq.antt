-- ===== src/Prelude/Eq.antt =====
-- `PartialEq` as an instance, at numbers, at bytes, and at paths of names.
use spotify_connect_scrobble.Prelude.Tests.{◌==◌ as nat_beq, ==_iff}
use Prim.Native.Nat.{ℕ}
use mathlib.Core.Path.{◌≡◌}
use mathlib.Core.Logic.{◌↔◌}
use mathlib.Core.Bool.{Bool, true, false, ◌&&◌}
use mathlib.Core.List.{List, [], ◌∷◌}
use native.Mathlib.Omega.{arith}

pub record Eq {ℓ} (A : Type ℓ) : Type ℓ where
  pub beq : A → A → Bool
  pub beq_iff : (a b : A) → (beq a b ≡ true) ↔ (a ≡ b)

abbrev pub bytes_beq : List ℕ → List ℕ → Bool
bytes_beq [] [] = true
bytes_beq [] (y ∷ ys) = false
bytes_beq (x ∷ xs) [] = false
bytes_beq (x ∷ xs) (y ∷ ys) = nat_beq x y && bytes_beq xs ys

pub bytes_beq_iff : (xs ys : List ℕ) → (bytes_beq xs ys ≡ true) ↔ (xs ≡ ys)
bytes_beq_iff [] [] = ground arith
bytes_beq_iff [] (y ∷ ys) = ground arith
bytes_beq_iff (x ∷ xs) [] = ground arith
bytes_beq_iff (x ∷ xs) (y ∷ ys) = ground (arith, bytes_beq_iff xs ys)

instance abbrev pub nat_eq : Eq ℕ
nat_eq = record { beq = nat_beq; beq_iff = ==_iff }

instance abbrev pub bytes_eq : Eq (List ℕ)
bytes_eq = record { beq = bytes_beq; beq_iff = bytes_beq_iff }

abbrev pub path_beq : List (List ℕ) → List (List ℕ) → Bool
path_beq [] [] = true
path_beq [] (y ∷ ys) = false
path_beq (x ∷ xs) [] = false
path_beq (x ∷ xs) (y ∷ ys) = bytes_beq x y && path_beq xs ys

pub path_beq_iff : (xs ys : List (List ℕ)) → (path_beq xs ys ≡ true) ↔ (xs ≡ ys)
path_beq_iff [] [] = ground arith
path_beq_iff [] (y ∷ ys) = ground arith
path_beq_iff (x ∷ xs) [] = ground arith
path_beq_iff (x ∷ xs) (y ∷ ys) = ground (arith, bytes_beq_iff x y, path_beq_iff xs ys)

instance abbrev pub path_eq : Eq (List (List ℕ))
path_eq = record { beq = path_beq; beq_iff = path_beq_iff }
