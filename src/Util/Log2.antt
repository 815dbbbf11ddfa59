-- ===== src/Util/Log2.antt =====
-- h2_log2 of mod_http2/h2_util.c, on an int that is not negative, with the shifts modulo 2 ^ 32.
use native.Mathlib.Nat.{le-div_iff_mul-le, mod-eq_of_lt, le_of_mul-le-mul_right}
use mod_h.Prelude.{
  Bool-cases, inl, inr, ℕ, suc, ◌+◌, ◌-◌, ◌*◌, ◌/◌, ◌%◌, ◌^◌, ◌<◌, ◌≤◌, ◌≡◌, refl, false, arith,
  if◌then◌else◌, ◌==◌, if-both, pow_add, pow_pos, ◌∙◌, sym, ap, subst,
}

-- One test: whether the highest `w` of 32 bits, which begin at the value `low`, are clear. Then
-- `lz` counts them and the rest is shifted up by them, which is times `up`.
unfoldable pub clear_bits : ℕ → ℕ → ℕ → ℕ × ℕ → ℕ × ℕ
clear_bits w low up (lz, n) = if n / low == 0 then (lz + w, (n * up) % 4294967296) else (lz, n)

unfoldable pub h2_log2 : ℕ → ℕ
unfolding clear_bits
h2_log2 n =
    if n == 0
    then 0
    else 31
      - (clear_bits 1 2147483648 2 (
          clear_bits 2 1073741824 4 (
            clear_bits 4 268435456 16
              (clear_bits 8 16777216 256 (clear_bits 16 65536 65536 (0, n)))))).0

-- The number `n` shifted up by `lz` bits, with one of the highest bits from `low` on set.
abbrev Shifted : ℕ → ℕ → ℕ × ℕ → Type 0
Shifted n low r = (r.1 ≡ n * 2 ^ r.0) × (low ≤ r.1) × (r.1 < 4294967296)

below : (m low : ℕ) → 0 < low → m / low ≡ 0 → m < low
below m low h e = grind arith

above : (m low : ℕ) → 0 < low → (m / low == 0) ≡ false → low ≤ m
above m low h e =
    let some : 1 ≤ m / low = ground (arith, e) in
    omega (arith, (le-div_iff_mul-le {k = low} {x = 1} {y = m} h).0 some)

times_pow : (n lz w up : ℕ) → 2 ^ w ≡ up → n * 2 ^ (lz + w) ≡ n * 2 ^ lz * up
times_pow n lz w up e = grind (arith, pow_add lz w, e)

below_times : (m low up : ℕ) → 0 < up → m < low → m * up < low * up
below_times m low up h l = grind arith

le_times : (a m up : ℕ) → a ≤ m → a * up ≤ m * up
le_times a m up l = grind arith

-- The other way round.
cancel_lt : (a b p : ℕ) → a * p < b * p → a < b
cancel_lt a b p h = grind arith

split_pow : (k lz : ℕ) → lz ≤ k → 2 ^ k ≡ 2 ^ (k - lz) * 2 ^ lz
split_pow k lz h = ap (λ i. 2 ^ i) (omega arith) ∙ pow_add (k - lz) lz

step :
    (w low up old n : ℕ) (r : ℕ × ℕ)
    → 2 ^ w ≡ up
    → low * up ≡ 4294967296
    → old * up ≡ low
    → 0 < low
    → 0 < up
    → Shifted n old r
    → Shifted n low (clear_bits w low up r)
unfolding clear_bits
step w low up old n (lz, m) e f g p q (h, a, b) = elim (Bool-cases (m / low == 0)) [
  | inl t ↦
      let under = below m low p (ground (arith, t)) in
      let fits : m * up < 4294967296 = omega (arith, below_times m low up q under, f) in
      let same = mod-eq_of_lt {n = m * up} {m = 4294967296} fits in
      rw t (
        same ∙ ap (λ i. i * up) h ∙ sym (times_pow n lz w up e),
        omega (arith, le_times old m up a, g, same),
        omega (arith, same, fits),
      )
  | inr t ↦ rw t (h, above m low p t, b)
]

counted : (w low up : ℕ) (r : ℕ × ℕ) → (clear_bits w low up r).0 ≤ r.0 + w
unfolding clear_bits
counted w low up r = ground arith

-- From a number whose highest bit is the last of 32.
bounds :
    (n : ℕ) (r : ℕ × ℕ)
    → Shifted n 2147483648 r
    → r.0 ≤ 31
    → (2 ^ (31 - r.0) ≤ n) × (n < 2 ^ suc (31 - r.0))
bounds n (lz, m) (h, a, b) le =
    let low : 2 ^ (31 - lz) * 2 ^ lz ≤ n * 2 ^ lz = omega (arith, split_pow 31 lz le, h, a) in
    let high : n * 2 ^ lz < 2 ^ (32 - lz) * 2 ^ lz =
      omega (arith, split_pow 32 lz (omega arith), h, b) in
    (
      le_of_mul-le-mul_right low (pow_pos lz),
      subst (λ i. n < 2 ^ i) (omega arith) (cancel_lt n (2 ^ (32 - lz)) (2 ^ lz) high),
    )

-- h2_log2 of a number of at most 32 bits that is not 0 is the position of its highest bit: it is the
-- logarithm to the base 2, rounded down.
pub h2_log2_lem : (n : ℕ) → 0 < n → n < 4294967296 → (2 ^ h2_log2 n ≤ n) × (n < 2 ^ suc (h2_log2 n))
unfolding h2_log2
h2_log2_lem n p h =
    let r1 = clear_bits 16 65536 65536 (0, n) in
    let r2 = clear_bits 8 16777216 256 r1 in
    let r3 = clear_bits 4 268435456 16 r2 in
    let r4 = clear_bits 2 1073741824 4 r3 in
    let r5 = clear_bits 1 2147483648 2 r4 in
    let s0 : Shifted n 1 (0, n) = (omega arith, omega arith, omega arith) in
    let s1 = step 16 65536 65536 1 n (0, n) refl refl refl (omega arith) (omega arith) s0 in
    let s2 = step 8 16777216 256 65536 n r1 refl refl refl (omega arith) (omega arith) s1 in
    let s3 = step 4 268435456 16 16777216 n r2 refl refl refl (omega arith) (omega arith) s2 in
    let s4 = step 2 1073741824 4 268435456 n r3 refl refl refl (omega arith) (omega arith) s3 in
    let s5 = step 1 2147483648 2 1073741824 n r4 refl refl refl (omega arith) (omega arith) s4 in
    let le : r5.0 ≤ 31 = omega (
      arith,
      counted 16 65536 65536 (0, n),
      counted 8 16777216 256 r1,
      counted 4 268435456 16 r2,
      counted 2 1073741824 4 r3,
      counted 1 2147483648 2 r4,
    ) in
    if-both (λ k. (2 ^ k ≤ n) × (n < 2 ^ suc k)) (n == 0) 0 (31 - r5.0)
      (λ t. absurd (ground (arith, t))) (λ t. bounds n r5 s5 le)
