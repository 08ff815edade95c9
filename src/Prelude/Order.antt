-- ===== src/Prelude/Order.antt =====
-- The order of the native numbers is well founded.
use Prim.Native.Nat.{ℕ, zero, suc, ◌<◌}
use mathlib.Core.WellFounded.{Acc}
use native.Mathlib.Omega.{arith}

Acc_under : (bound n : ℕ) → n < bound → Acc ◌<◌ n
Acc_under zero n h = elim h [ ]
Acc_under (suc bound) n h = Acc.intro n (λ k below. Acc_under bound k (omega arith))

unfoldable pub lt-Acc : (n : ℕ) → Acc ◌<◌ n
unfolding Acc_under
lt-Acc n = Acc_under (suc n) n (omega arith)
