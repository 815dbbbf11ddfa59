-- ===== src/Push/Gset/Value.antt =====
-- gset_decode_next of mod_http2/h2_push.c reads back the number of a code.
use Prim.Native.Nat.{bit_or}
use mod_h.Prelude.{
  ℕ, zero, suc, ◌+◌, ◌-◌, ◌*◌, ◌/◌, ◌%◌, ◌^◌, ◌≤◌, ◌<◌, ◌≡◌, refl, sym, ap, ap₂, subst, ◌∙◌, List,
  ◌∷◌, ◌++◌, Option, none, some, replicate, arith, bit_or_above, pow_pos, mod_lt, length,
  length-append, length-replicate, append_assoc,
}
use native.Mathlib.Nat.{pow-suc, mod-eq_of_lt, zero-add, div-add-mod', mul-add-mod_self_right}
use mod_h.Push.Diary.{entries_from}
use mod_h.Push.Gset.Decode.{
  Decoder, gset_decode_next_bit, decode_flex, decode_fixed, gset_decode_next,
}
use mod_h.Push.Gset.Cells.{cell}
use mod_h.Push.Gset.Code.{code, fixed_code}
use mod_h.Push.Gset.Read.{
  next, left, Fits, Got, Got-after, next_bit-BitRead, fixed_round, decode_flex-Got, decode_flex-end,
}

regroup : (q b p r : ℕ) → (q * 2 + b) * p + r ≡ q * (p * 2) + (b * p + r)
regroup q b p r = grind arith

small : (b p r : ℕ) → b < 2 → r < p → b * p + r < p * 2
small b p r h l = grind arith

mod_double : (x p : ℕ) → 0 < p → x % (p * 2) ≡ x / p % 2 * p + x % p
mod_double x p h =
    ap (λ y. y % (p * 2))
      (sym (div-add-mod' x p)
        ∙ ap (λ q. q * p + x % p) (sym (div-add-mod' (x / p) 2))
        ∙ regroup (x / p / 2) (x / p % 2) p (x % p))
    ∙ mul-add-mod_self_right (x / p / 2) (p * 2) (x / p % 2 * p + x % p)
    ∙ mod-eq_of_lt (small (x / p % 2) p (x % p) (omega arith) (mod_lt x p h))

fixed_step :
    (fixed delta i : ℕ)
    → fixed * 2 ^ suc i + delta % 2 ^ suc i
      ≡ (fixed * 2 + delta / 2 ^ i % 2) * 2 ^ i + delta % 2 ^ i
fixed_step fixed delta i =
    ap (λ p. fixed * p + delta % p) (pow-suc 2 i)
    ∙ ap (λ r. fixed * (2 ^ i * 2) + r) (mod_double delta (2 ^ i) (pow_pos i))
    ∙ sym (regroup fixed (delta / 2 ^ i % 2) (2 ^ i) (delta % 2 ^ i))

up_le : (a b p : ℕ) → 0 < p → a * 2 ≤ (a * 2 + b) * p
up_le a b p h = grind arith

decode_fixed-Got :
    (i fixed delta : ℕ) (d : Decoder) (bs : List ℕ)
    → Fits d
    → left d ≡ fixed_code i delta ++ bs
    → fixed * 2 ^ i + delta % 2 ^ i < 2 ^ 64
    → Got d (fixed * 2 ^ i + delta % 2 ^ i) bs (decode_fixed i fixed d)
unfolding decode_fixed
decode_fixed-Got zero fixed delta d bs f q h = record {
  after = d;
  is = ap (λ v. some (v, d)) (omega arith);
  rest = q;
  follows = record { fits = f; same_p = refl; same_len = refl; same_val = refl };
}
decode_fixed-Got (suc i) fixed delta d bs f q h =
    let bit = (next_bit-BitRead d f).more (delta / 2 ^ i % 2) (fixed_code i delta ++ bs) q in
    subst (λ v. Got d v bs (decode_fixed (suc i) fixed d)) (sym (fixed_step fixed delta i))
      (Got-after d x (up * 2 ^ i + delta % 2 ^ i) bs (decode_fixed i up x)
        (decode_fixed (suc i) fixed d) bit.2
        (fixed_round i fixed d (delta / 2 ^ i % 2) bit.0
          ∙ ap (λ v. decode_fixed i (v + delta / 2 ^ i % 2) x)
              (mod-eq_of_lt {n = fixed * 2} {m = 2 ^ 64} (
                omega (
                  arith,
                  h,
                  fixed_step fixed delta i,
                  up_le fixed (delta / 2 ^ i % 2) (2 ^ i) (pow_pos i),
                ))))
        (decode_fixed-Got i up delta x bs bit.2.fits bit.1
          (omega (arith, h, fixed_step fixed delta i))))
  where
    x : Decoder
    x = (gset_decode_next_bit d).1

    up : ℕ
    up = fixed * 2 + delta / 2 ^ i % 2

times_le : (n p : ℕ) → 0 < p → n ≤ n * p
times_le n p h = grind arith

-- The two parts of a number make it again.
joined :
    (delta p n r last : ℕ)
    → n ≡ delta / 2 ^ p
    → r ≡ delta % 2 ^ p
    → delta + last < 2 ^ 64
    → (bit_or (n * 2 ^ p % 2 ^ 64) r + last) % 2 ^ 64 ≡ delta + last
joined delta p n r last e q h =
    ap (λ m. (bit_or m r + last) % 2 ^ 64) (mod-eq_of_lt {n = n * 2 ^ p} {m = 2 ^ 64} below)
    ∙ ap (λ m. (m + last) % 2 ^ 64)
        (bit_or_above n r p (subst (λ m. m < 2 ^ p) (sym q) (mod_lt delta (2 ^ p) (pow_pos p))))
    ∙ ap (λ m. (m + last) % 2 ^ 64) whole
    ∙ mod-eq_of_lt {n = delta + last} {m = 2 ^ 64} h
  where
    whole : n * 2 ^ p + r ≡ delta
    whole = ap₂ (λ i j. i * 2 ^ p + j) e q ∙ div-add-mod' delta (2 ^ p)

    below : n * 2 ^ p < 2 ^ 64
    below = omega (arith, whole, h)

pub length-entries_from : (f : ℕ → ℕ) (i k : ℕ) → length (entries_from f i k) ≡ k
unfolding entries_from
length-entries_from f i zero = refl
length-entries_from f i (suc k) = ap suc (length-entries_from f (suc i) k)

-- The number that a decoder reads, the bits that it leaves and what it remembers.
pub record Decoded (d : Decoder) (v : ℕ) (bs : List ℕ) (r : Option (ℕ × Decoder)) : Type 0 where
  pub after : Decoder
  pub is : r ≡ some (v, after)
  pub rest : left after ≡ bs
  pub fits : Fits after
  pub same_p : after.log2p ≡ d.log2p
  pub same_len : after.datalen ≡ d.datalen
  pub value : after.last_val ≡ v

abbrev value_case : Decoder → ℕ → Option (ℕ × Decoder) → Option (ℕ × Decoder)
value_case d flex none = none
value_case d flex (some (fixed, d2)) =
    let hash = (bit_or (flex * 2 ^ d.log2p % 2 ^ 64) fixed + d.last_val) % 2 ^ 64 in
    some (hash, record d2 { last_val = hash })

abbrev next_case : Decoder → Option (ℕ × Decoder) → Option (ℕ × Decoder)
next_case d none = none
next_case d (some (flex, d1)) = value_case d flex (decode_fixed d.log2p 0 d1)

opened : (d : Decoder) → gset_decode_next d ≡ next_case d (decode_flex (suc (8 * d.datalen)) 0 d)
unfolding gset_decode_next
opened d = refl

pub decode_next-Decoded :
    (d : Decoder) (delta : ℕ) (bs : List ℕ)
    → Fits d
    → left d ≡ code d.log2p delta ++ bs
    → delta + d.last_val < 2 ^ 64
    → Decoded d (delta + d.last_val) bs (gset_decode_next d)
decode_next-Decoded d delta bs f q h = record {
  after = record g2.after { last_val = delta + d.last_val };
  is =
      opened d
      ∙ ap (next_case d) g1.is
      ∙ ap (value_case d (0 + n)) g2.is
      ∙ ap (λ v. some (v, record g2.after { last_val = v }))
          (joined delta p (0 + n) (0 * 2 ^ p + delta % 2 ^ p) d.last_val (zero-add n) (omega arith)
            h);
  rest = g2.rest;
  fits = record { inside = g2.follows.fits.inside; low = g2.follows.fits.low };
  same_p = g2.follows.same_p ∙ g1.follows.same_p;
  same_len = g2.follows.same_len ∙ g1.follows.same_len;
  value = refl;
}
  where
    p : ℕ
    p = d.log2p

    n : ℕ
    n = delta / 2 ^ p

    parts : left d ≡ replicate n 1 ++ 0 ∷ (fixed_code p delta ++ bs)
    parts = q ∙ append_assoc (replicate n 1) (0 ∷ fixed_code p delta) bs

    long : n < suc (8 * d.datalen)
    long = omega (
      arith,
      ap length parts,
      length-append (replicate n 1) (0 ∷ (fixed_code p delta ++ bs)),
      length-replicate {A = ℕ} n 1,
      length-entries_from (cell d.bytes) (next d) (8 * d.datalen - next d),
    )

    fits_n : 0 + n < 2 ^ 64
    fits_n = omega (arith, h, times_le n (2 ^ p) (pow_pos p), div-add-mod' delta (2 ^ p))

    g1 : Got d (0 + n) (fixed_code p delta ++ bs) (decode_flex (suc (8 * d.datalen)) 0 d)
    g1 = decode_flex-Got n (suc (8 * d.datalen)) 0 d (fixed_code p delta ++ bs) f parts long fits_n

    g2 : Got g1.after (0 * 2 ^ p + delta % 2 ^ p) bs (decode_fixed p 0 g1.after)
    g2 =
        decode_fixed-Got p 0 delta g1.after bs g1.follows.fits g1.rest
          (omega (arith, h, div-add-mod' delta (2 ^ p)))

-- Ones up to the end end the decoding.
pub decode_next-end :
    (d : Decoder) (n : ℕ) → Fits d → left d ≡ replicate n 1 → gset_decode_next d ≡ none
decode_next-end d n f q =
    opened d ∙ ap (next_case d) (decode_flex-end n (suc (8 * d.datalen)) 0 d f q)
