-- ===== src/Prelude/Bits.antt =====
-- Tables that are checked by evaluation, powers of two, and the or of numbers whose digits do not
-- meet.
use Prim.Native.Nat.{
  ℕ, zero, suc, ◌+◌, ◌*◌, ◌/◌, ◌%◌, ◌^◌, ◌≤◌, ◌<◌, max, bit_or, digits, bit_or-bitwise,
}
use mathlib.Core.Path.{◌≡◌, refl, ap, ap₂, ◌∙◌}
use mathlib.Core.Bool.{Bool, true, false}
use native.Mathlib.Nat.{pow-suc}
use native.Mathlib.Omega.{arith}
use mod_h.Prelude.Tests.{if◌then◌else◌}

-- Whether a test is true of the numbers in front of a bound.
unfoldable pub passes : (ℕ → Bool) → ℕ → Bool
passes test zero = true
passes test (suc bound) = let front = passes test bound in if test bound then front else false

pub passes_at :
    (test : ℕ → Bool) (bound i : ℕ) → i < bound → passes test bound ≡ true → test i ≡ true
unfolding passes
passes_at test zero i l e = elim l [ ]
passes_at test (suc bound) i l e = ground (arith, e, passes_at test bound i)

pub pow_add : (a b : ℕ) → 2 ^ (a + b) ≡ 2 ^ a * 2 ^ b
pow_add a zero = grind arith
pow_add a (suc b) = grind (arith, pow_add a b, pow-suc 2 (a + b), pow-suc 2 b)

pub pow_pos : (b : ℕ) → 0 < 2 ^ b
pow_pos zero = grind arith
pow_pos (suc b) = grind (arith, pow_pos b, pow-suc 2 b)

-- The or of two digits is the greater.
digit_left : (c : ℕ) → max c 0 ≡ c
digit_left c = ground arith

digit_right : (c : ℕ) → max 0 c ≡ c
digit_right c = ground arith

-- With enough digits to go, nothing is added to the first number by 0.
ors_nothing : (go a : ℕ) → a ≤ go → digits (λ y. y) max go a 0 ≡ a
ors_nothing zero zero l = refl
ors_nothing zero (suc a) l = elim l [ ]
ors_nothing (suc go) zero l = refl
ors_nothing (suc go) (suc a) l =
    ap₂ (λ q r. q * 2 + r) (ors_nothing go (suc a / 2) (omega arith)) (digit_left (suc a % 2))
    ∙ omega arith

ors_above :
    (p go a b x : ℕ) → x ≡ a * 2 ^ p → x ≤ go → b < 2 ^ p → digits (λ y. y) max go x b ≡ x + b
ors_above zero go a zero x e l h = ors_nothing go x l ∙ omega arith
ors_above zero go a (suc b) x e l h = absurd (omega (arith, h))
ors_above (suc p) zero a b zero e l h = omega arith
ors_above (suc p) zero a b (suc x) e l h = elim l [ ]
ors_above (suc p) (suc go) a b zero e l h = omega arith
ors_above (suc p) (suc go) a b (suc x) e l h =
    ap₂ (λ q r. q * 2 + max r (b % 2))
      (ors_above p go a (b / 2) (suc x / 2) (omega (arith, twice)) (omega arith)
        (omega (arith, h, pow-suc 2 p)))
      (omega (arith, twice))
    ∙ ap (λ r. (suc x / 2 + b / 2) * 2 + r) (digit_right (b % 2))
    ∙ omega (arith, twice)
  where
    out : (q : ℕ) → a * (q * 2) ≡ a * q * 2
    out q = grind arith

    twice : suc x ≡ a * 2 ^ p * 2
    twice = e ∙ ap (λ q. a * q) (pow-suc 2 p) ∙ out (2 ^ p)

-- Numbers whose digits do not meet are added.
pub bit_or_above : (a b p : ℕ) → b < 2 ^ p → bit_or (a * 2 ^ p) b ≡ a * 2 ^ p + b
bit_or_above a b p h =
    bit_or-bitwise (a * 2 ^ p) b ∙ ors_above p (a * 2 ^ p) a b (a * 2 ^ p) refl (omega arith) h
