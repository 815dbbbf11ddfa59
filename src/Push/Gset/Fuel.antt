-- ===== src/Push/Gset/Fuel.antt =====
-- That the loop of gset_decode_next in mod_http2/h2_push.c ends: it reads a bit in each round.
use mod_h.Prelude.{
  ℕ, zero, suc, ◌+◌, ◌-◌, ◌*◌, ◌%◌, ◌^◌, ◌<◌, ◌≡◌, refl, sym, ap, ◌∙◌, List, [], ◌∷◌, none, some,
  arith, length, if◌then◌else◌, ◌==◌,
}
use native.Mathlib.Nat.{suc-add}
use mod_h.Push.Gset.Decode.{Decoder, gset_decode_next_bit, decode_flex}
use mod_h.Push.Gset.Cells.{cell}
use mod_h.Push.Gset.Read.{next, left, Fits, next_bit-BitRead, flex_round}
use mod_h.Push.Gset.Value.{length-entries_from}

more_fuel :
    (fuel k flex : ℕ) (d : Decoder) (bs : List ℕ)
    → Fits d
    → left d ≡ bs
    → length bs < fuel
    → decode_flex (fuel + k) flex d ≡ decode_flex fuel flex d
more_fuel zero k flex d bs f q l = elim l [ ]
more_fuel (suc fuel) k flex d [] f q l =
    let stop = (next_bit-BitRead d f).end q in
    ap (λ n. decode_flex n flex d) (suc-add fuel k)
    ∙ flex_round (fuel + k) flex d none stop
    ∙ sym (flex_round fuel flex d none stop)
more_fuel (suc fuel) k flex d (b ∷ bs) f q l =
    let bit = (next_bit-BitRead d f).more b bs q in
    ap (λ n. decode_flex n flex d) (suc-add fuel k)
    ∙ flex_round (fuel + k) flex d (some b) bit.0
    ∙ ap (λ r. if b == 0 then some (flex, (gset_decode_next_bit d).1) else r)
        (more_fuel fuel k ((flex + 1) % 2 ^ 64) (gset_decode_next_bit d).1 bs bit.2.fits bit.1
          (omega arith))
    ∙ sym (flex_round fuel flex d (some b) bit.0)

-- The loop that counts ones comes to its end: as many rounds as the data has bits, and one more,
-- are enough, and every larger number of rounds gives the same. Condition: the decoder stands in
-- its data.
pub decode_flex-enough :
    (d : Decoder) (k flex : ℕ)
    → Fits d
    → decode_flex (suc (8 * d.datalen) + k) flex d ≡ decode_flex (suc (8 * d.datalen)) flex d
decode_flex-enough d k flex f =
    more_fuel (suc (8 * d.datalen)) k flex d (left d) f refl
      (omega (arith, length-entries_from (cell d.bytes) (next d) (8 * d.datalen - next d)))
