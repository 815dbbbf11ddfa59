-- ===== src/Push/Digest/Header.antt =====
-- How the bytes of a digest are read: mod_http2/h2_push.c, the decoder and the header in
-- h2_push_diary_digest_set.
use mod_h.Prelude.{
  ℕ, zero, suc, ◌+◌, ◌-◌, ◌*◌, ◌/◌, ◌%◌, ◌^◌, ◌≤◌, ◌<◌, ◌≡◌, refl, ap, ap₂, ◌∙◌, false, List, [],
  ◌∷◌, ◌++◌, Option, some, if◌then◌else◌, ltb, ◌==◌, length, length-take, replicate, take, arith,
  get_or, get_or-take, set, length-set, pow_pos,
}
use mod_h.Prelude.Int.{ℤ, pos}
use mod_h.Apr.{success, Text}
use mod_h.Push.Diary.{Diary, entries_from}
use mod_h.Push.Order.{entries_from-ext, entries_from-add}
use mod_h.Push.Gset.Encode.{Encoder}
use mod_h.Push.Gset.Decode.{bit_of}
use mod_h.Push.Gset.Cells.{cell}
use mod_h.Push.Gset.Written.{Written}
use mod_h.Push.Gset.Read.{left, Fits}
use mod_h.Push.Digest.{
  new_encoder, store_all, set_authority, new_decoder, set_behind, set_rounds,
  h2_push_diary_digest_set, h2_log2inv,
}

entries_from-ones :
    (f : ℕ → ℕ) (i k : ℕ) → ((j : ℕ) → j < k → f (i + j) ≡ 1) → entries_from f i k ≡ replicate k 1
unfolding entries_from
entries_from-ones f i zero h = refl
entries_from-ones f i (suc k) h =
    ap₂ ◌∷◌ (ap f (omega arith) ∙ h 0 (omega arith))
      (entries_from-ones f (suc i) k (λ j l. ap f (omega arith) ∙ h (suc j) (omega arith)))

-- What an encoder has written is what a decoder of its bytes has left, and then ones.
pub read-Written :
    (e : Encoder) (bs : List ℕ) (p : ℕ)
    → Written e bs
    → left (new_decoder (take (suc e.offset) e.bytes) p)
      ≡ bs ++ replicate (8 * suc e.offset - (16 + length bs)) 1
unfolding new_decoder
read-Written e bs p w =
    ap (entries_from (cell m) 16) size
    ∙ entries_from-add (cell m) 16 (length bs) more
    ∙ ap₂ ◌++◌
        (entries_from-ext (cell m) (cell e.bytes) 16 16 (length bs)
            (λ j l. same (16 + j) (omega (arith, w.place, w.low, l)))
          ∙ w.cells)
        (entries_from-ones (cell m) (16 + length bs) more (λ j l.
          same (16 + length bs + j) (omega (arith, l))
          ∙ ap₂ (λ q r. bit_of (get_or e.bytes q 0) r) (at_byte j l) (at_bit j l)
          ∙ w.pad (suc e.bit + j) (omega arith) (omega (arith, w.place, w.low, l))))
  where
    m : List ℕ
    m = take (suc e.offset) e.bytes

    long : length m ≡ suc e.offset
    long = length-take (suc e.offset) e.bytes (omega (arith, w.len, w.inside))

    more : ℕ
    more = 8 * suc e.offset - (16 + length bs)

    size : 8 * length m - 16 ≡ length bs + more
    size = omega (arith, long, w.place, w.low)

    at_byte : (j : ℕ) → j < more → (16 + length bs + j) / 8 ≡ e.offset
    at_byte j l = omega (arith, w.place, w.low, l)

    at_bit : (j : ℕ) → j < more → (16 + length bs + j) % 8 ≡ suc e.bit + j
    at_bit j l = omega (arith, w.place, w.low, l)

    same : (k : ℕ) → k < 8 * suc e.offset → cell m k ≡ cell e.bytes k
    same k l =
        ap (λ b. bit_of b (k % 8)) (get_or-take (suc e.offset) e.bytes (k / 8) 0 (omega arith))

pub read-Fits :
    (e : Encoder) (bs : List ℕ) (p : ℕ)
    → Written e bs
    → Fits (new_decoder (take (suc e.offset) e.bytes) p)
unfolding new_decoder
read-Fits e bs p w = record {
  inside =
      omega (
        arith,
        w.place,
        w.low,
        length-take (suc e.offset) e.bytes (omega (arith, w.len, w.inside)),
      );
  low = omega arith;
}

pub new_encoder-Written : (n p : ℕ) → n < 256 → p < 256 → Written (new_encoder n p) []
unfolding new_encoder entries_from
new_encoder-Written n p hn hp = record {
  len = length-set (set (replicate 512 0) 0 n) 1 p ∙ refl;
  inside = omega arith;
  low = omega arith;
  byte = hp;
  place = refl;
  cells = refl;
  pad = λ j l h. absurd (omega arith);
}

-- A digest that is set, by its header.
pub rounds : Diary → ℕ → ℕ
rounds d bits = if ltb d.n_max (2 ^ bits) then d.n_max else 2 ^ bits

pub rounds_enough : (d : Diary) (bits k : ℕ) → k ≤ 2 ^ bits → k ≤ d.n_max → k ≤ rounds d bits
unfolding rounds
rounds_enough d bits k h l = ground (arith, h, l)

log2inv_small : (shl : ℕ → ℤ) (n : ℕ) → n ≤ 30 → h2_log2inv shl n ≡ pos (2 ^ n)
unfolding h2_log2inv
log2inv_small shl zero h = refl
log2inv_small shl (suc n) h = ground (arith, h)

pub set_opened :
    (shl : ℕ → ℤ) (d : Diary) (a : Option Text) (m : List ℕ) (n p : ℕ)
    → n + p ≤ 30
    → set_behind shl d a m n p
      ≡ some (
        success,
        store_all
            (rounds d (n + p))
            (record d {
              nelts = 0;
              mask_bits = n + p;
              authority = set_authority d.authority a;
              n = rounds d (n + p);
            })
            (new_decoder m p),
      )
unfolding set_behind set_rounds rounds
set_opened shl d a m n p l = rw (few, log2inv_small shl (n + p) l, some_rounds) refl
  where
    few : ltb 64 (n + p) ≡ false
    few = ground (arith, l)

    some_rounds : (2 ^ (n + p) == 0) ≡ false
    some_rounds = ground (arith, pow_pos (n + p))

pub long_enough :
    (shl : ℕ → ℤ) (d : Diary) (a : Option Text) (m : List ℕ)
    → 2 ≤ length m
    → h2_push_diary_digest_set shl d a m ≡ set_behind shl d a m (get_or m 0 0) (get_or m 1 0)
unfolding h2_push_diary_digest_set
long_enough shl d a m h = rw enough refl
  where
    enough : ltb (length m) 2 ≡ false
    enough = ground (arith, h)
