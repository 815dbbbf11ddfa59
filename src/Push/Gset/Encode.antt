-- ===== src/Push/Gset/Encode.antt =====
-- The encoder of a Golomb coded set: mod_http2/h2_push.c, gset_encoder and its operations. Bytes
-- are numbers below 256, the memory of the data is a list of them.
use Prim.Native.Nat.{bit_and}
use mod_h.Prelude.{
  ℕ, zero, suc, ◌+◌, ◌-◌, ◌*◌, ◌/◌, ◌%◌, ◌^◌, Bool, List, [], ◌∷◌, ◌++◌, if◌then◌else◌, leb, ◌==◌,
  get_or, set, replicate,
}
use mod_h.Apr.{Status, success, enomem}

-- The fields that a step reads; the others are only logged.
pub record Encoder : Type 0 where
  pub fixed_bits : ℕ
  pub bytes : List ℕ
  pub datalen : ℕ
  pub offset : ℕ
  pub bit : ℕ
  pub last : ℕ

-- Bit 0 is the highest of a byte.
abbrev pub cbit_mask : List ℕ
cbit_mask = 128 ∷ 64 ∷ 32 ∷ 16 ∷ 8 ∷ 4 ∷ 2 ∷ 1 ∷ []

abbrev pub mask : ℕ → ℕ
mask i = get_or cbit_mask i 0

-- The end of gset_encode_bit: the bit is one already, and is cleared for a zero.
unfoldable pub write_bit : Encoder → ℕ → Encoder
write_bit e b =
    if b == 0
    then record e {
      bytes = set e.bytes e.offset (bit_and (get_or e.bytes e.offset 0) (255 - mask e.bit));
    }
    else e

-- A new byte, of ones, at the offset.
unfoldable pub fresh_byte : Encoder → Encoder
fresh_byte e = record e { bit = 0; bytes = set e.bytes e.offset 255 }

-- What follows a step that did not fail.
abbrev pub and_then : Status × Encoder → (Encoder → Status × Encoder) → Status × Encoder
and_then (success, e) k = k e
and_then (s, e) k = (s, e)

-- Whether the pool has memory for so many bytes is `alloc`.
module _ (alloc : ℕ → Bool) where
  unfoldable pub gset_encode_bit : Encoder → ℕ → Status × Encoder
  unfolding write_bit fresh_byte
  gset_encode_bit e b =
      if leb 8 (suc e.bit)
      then if leb e.datalen (suc e.offset)
        then if alloc (e.datalen * 2)
          then (
            success,
            write_bit
                (fresh_byte (record e {
                  bit = suc e.bit;
                  offset = suc e.offset;
                  bytes = e.bytes ++ replicate e.datalen 0;
                  datalen = e.datalen * 2;
                }))
                b,
          )
          else (enomem, record e { bit = suc e.bit; offset = suc e.offset })
        else (
          success,
          write_bit (fresh_byte (record e { bit = suc e.bit; offset = suc e.offset })) b,
        )
      else (success, write_bit (record e { bit = suc e.bit }) b)

  -- The loop over the flexible bits.
  unfoldable pub encode_flex : ℕ → Encoder → Status × Encoder
  unfolding gset_encode_bit
  encode_flex zero e = (success, e)
  encode_flex (suc n) e = and_then (gset_encode_bit e 1) (encode_flex n)

  -- The loop over the fixed bits, from bit `i - 1` down.
  unfoldable pub encode_fixed : ℕ → ℕ → Encoder → Status × Encoder
  unfolding gset_encode_bit
  encode_fixed zero delta e = (success, e)
  encode_fixed (suc i) delta e =
      and_then (gset_encode_bit e (delta / 2 ^ i % 2)) (encode_fixed i delta)

  unfoldable pub gset_encode_next : Encoder → ℕ → Status × Encoder
  unfolding encode_flex encode_fixed gset_encode_bit
  gset_encode_next e pval =
      let delta = (pval + 2 ^ 64 - e.last) % 2 ^ 64 in
      let e1 = record e { last = pval } in
      and_then (encode_flex (delta / 2 ^ e.fixed_bits) e1)
        (λ e2. and_then (gset_encode_bit e2 0) (encode_fixed e.fixed_bits delta))
