-- ===== src/Push/Gset/Cells.antt =====
-- The bits of a list of bytes, highest first, as mod_http2/h2_push.c numbers them by cbit_mask.
use Prim.Native.Nat.{bit_and}
use mod_h.Prelude.{
  ℕ, ◌+◌, ◌-◌, ◌*◌, ◌/◌, ◌%◌, ◌<◌, ◌≡◌, refl, sym, ap, ap₂, ◌∙◌, Bool, true, ◌&&◌, List,
  if◌then◌else◌, ltb, ◌==◌, get_or, passes, passes_at, arith,
}
use mod_h.Push.Gset.Encode.{mask}
use mod_h.Push.Gset.Decode.{bit_of}

-- Bit `k` of the bytes.
abbrev pub cell : List ℕ → ℕ → ℕ
cell bytes k = bit_of (get_or bytes (k / 8) 0) (k % 8)

abbrev clear_ok : ℕ → ℕ → ℕ → Bool
clear_ok b i j =
    let c = bit_and b (255 - mask i) in
    ltb c 256 && (bit_of c j == (if i == j then 0 else bit_of b j))

clear_table : passes (λ x. clear_ok (x / 64) (x / 8 % 8) (x % 8)) 16384 ≡ true
unfolding passes
clear_table = refl

tested : (c n v w : ℕ) → (ltb c n && (v == w)) ≡ true → (c < n) × (v ≡ w)
tested c n v w h = ground (arith, h)

-- Clearing a bit of a byte clears it and leaves the others.
pub clear_lem :
    (b i j : ℕ)
    → b < 256
    → i < 8
    → j < 8
    → (bit_and b (255 - mask i) < 256)
      × (bit_of (bit_and b (255 - mask i)) j ≡ (if i == j then 0 else bit_of b j))
clear_lem b i j hb hi hj =
    tested (bit_and b (255 - mask i)) 256 (bit_of (bit_and b (255 - mask i)) j)
      (if i == j then 0 else bit_of b j) (sym (same ∙ same_last) ∙ hit)
  where
    at : ℕ
    at = b * 64 + i * 8 + j

    high : at / 64 ≡ b
    high = omega arith

    middle : at / 8 % 8 ≡ i
    middle = omega arith

    low : at % 8 ≡ j
    low = omega arith

    hit : clear_ok (at / 64) (at / 8 % 8) (at % 8) ≡ true
    hit = passes_at (λ x. clear_ok (x / 64) (x / 8 % 8) (x % 8)) 16384 at (omega arith) clear_table

    same : clear_ok (at / 64) (at / 8 % 8) (at % 8) ≡ clear_ok b i (at % 8)
    same = ap₂ (λ p q. clear_ok p q (at % 8)) high middle

    same_last : clear_ok b i (at % 8) ≡ clear_ok b i j
    same_last = ap (clear_ok b i) low

ones_table : passes (λ j. bit_of 255 j == 1) 8 ≡ true
unfolding passes
ones_table = refl

pub ones_lem : (j : ℕ) → j < 8 → bit_of 255 j ≡ 1
ones_lem j h = ground (arith, passes_at (λ j. bit_of 255 j == 1) 8 j h ones_table)
