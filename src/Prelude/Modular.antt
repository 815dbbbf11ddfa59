-- ===== src/Prelude/Modular.antt =====
-- Remainders by a variable modulus: the positions of a ring.
use Prim.Native.Nat.{ℕ, suc, ◌+◌, ◌%◌, ◌<◌}
use mathlib.Core.Path.{◌≡◌}
use native.Mathlib.Nat.{mod-add-mod}
use native.Mathlib.Numerals.{add-one}
use native.Mathlib.Omega.{arith}

-- Two positions less than a round apart that share a slot are the same position.
pub mod_injective : (x k n : ℕ) → k < n → (x + k) % n ≡ x % n → k ≡ 0
mod_injective x k n h e = grind arith

pub mod_lt : (x n : ℕ) → 0 < n → x % n < n
mod_lt x n h = omega arith

-- Going on from the remainder is going on from the number.
pub mod-suc-mod : (x n : ℕ) → suc (x % n) % n ≡ suc x % n
mod-suc-mod x n = rw (← add-one (x % n), ← add-one x) (mod-add-mod x n 1)
