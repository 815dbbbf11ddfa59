-- ===== src/Push/Gset/Decode.antt =====
-- The decoder of a Golomb coded set: mod_http2/h2_push.c, gset_decoder and its operations.
use Prim.Native.Nat.{bit_and, bit_or}
use mod_h.Prelude.{
  ℕ, zero, suc, ◌+◌, ◌*◌, ◌%◌, ◌^◌, List, Option, none, some, if◌then◌else◌, leb, ◌==◌, get_or,
}
use mod_h.Push.Gset.Encode.{mask}

pub record Decoder : Type 0 where
  pub log2p : ℕ
  pub bytes : List ℕ
  pub datalen : ℕ
  pub offset : ℕ
  pub bit : ℕ
  pub last_val : ℕ

abbrev pub bit_of : ℕ → ℕ → ℕ
bit_of byte i = if bit_and byte (mask i) == 0 then 0 else 1

-- -1 is `none`.
unfoldable pub gset_decode_next_bit : Decoder → Option ℕ × Decoder
gset_decode_next_bit d =
    if leb 8 (suc d.bit)
    then if leb d.datalen (suc d.offset)
      then (none, record d { bit = suc d.bit; offset = suc d.offset })
      else (
        some (bit_of (get_or d.bytes (suc d.offset) 0) 0),
        record d { bit = 0; offset = suc d.offset },
      )
    else (some (bit_of (get_or d.bytes d.offset 0) (suc d.bit)), record d { bit = suc d.bit })

-- The loop that counts ones up to a zero. `none` is APR_EINVAL, and on fuel that ran out.
unfoldable pub decode_flex : ℕ → ℕ → Decoder → Option (ℕ × Decoder)
decode_flex zero flex d = none
decode_flex (suc fuel) flex d =
    let (bit, d1) = gset_decode_next_bit d in
    let rest = decode_flex fuel ((flex + 1) % 2 ^ 64) d1 in
    elim bit [ none ↦ none | some b ↦ if b == 0 then some (flex, d1) else rest ]

-- The loop over the fixed bits; the lowest bit of the shifted number is zero.
unfoldable pub decode_fixed : ℕ → ℕ → Decoder → Option (ℕ × Decoder)
decode_fixed zero fixed d = some (fixed, d)
decode_fixed (suc n) fixed d =
    let (bit, d1) = gset_decode_next_bit d in
    elim bit [ none ↦ none | some b ↦ decode_fixed n (fixed * 2 % 2 ^ 64 + b) d1 ]

-- As many rounds of the first loop as there are bits, and one more. `none` is APR_EINVAL, after
-- which the decoder is not used again.
unfoldable pub gset_decode_next : Decoder → Option (ℕ × Decoder)
gset_decode_next d = elim (decode_flex (suc (8 * d.datalen)) 0 d) [
  | none ↦ none
  | some (flex, d1) ↦ elim (decode_fixed d.log2p 0 d1) [
    | none ↦ none
    | some (fixed, d2) ↦
        let delta = bit_or (flex * 2 ^ d.log2p % 2 ^ 64) fixed in
        let hash = (delta + d.last_val) % 2 ^ 64 in some (hash, record d2 { last_val = hash })
  ]
]
