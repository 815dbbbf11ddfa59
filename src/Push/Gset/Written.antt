-- ===== src/Push/Gset/Written.antt =====
-- What gset_encode_bit of mod_http2/h2_push.c leaves in the memory: the bits written so far behind
-- the two bytes of the header, then ones up to the end of the byte.
use Prim.Native.Nat.{bit_and}
use mod_h.Prelude.{
  ℕ, zero, suc, ◌+◌, ◌-◌, ◌*◌, ◌/◌, ◌%◌, ◌≤◌, ◌<◌, ◌≡◌, ◌≢◌, refl, sym, ap, ap₂, subst, ◌∙◌, List,
  [], ◌∷◌, ◌++◌, if◌then◌else◌, ◌==◌, get_or, set, eq_cases, inl, inr, min, arith, length,
  get_or-set_self, get_or-set_ne, length-append, length-set,
}
use mod_h.Push.Diary.{entries_from}
use mod_h.Push.Order.{entries_from-ext, entries_from-add}
use mod_h.Push.Gset.Encode.{Encoder, mask, write_bit}
use mod_h.Push.Gset.Decode.{bit_of}
use mod_h.Push.Gset.Cells.{cell, clear_lem}

pub record Written (e : Encoder) (bs : List ℕ) : Type 0 where
  pub len : length e.bytes ≡ e.datalen
  pub inside : e.offset < e.datalen
  pub low : e.bit ≤ 8
  pub byte : get_or e.bytes e.offset 0 < 256
  pub place : e.offset * 8 + min (suc e.bit) 8 ≡ 16 + length bs
  pub cells : entries_from (cell e.bytes) 16 (length bs) ≡ bs
  pub pad : (j : ℕ) → e.bit < j → j < 8 → bit_of (get_or e.bytes e.offset 0) j ≡ 1

-- Before a bit is cleared or left: it is where the next bit goes, and is one.
pub record Ready (e : Encoder) (bs : List ℕ) : Type 0 where
  pub len : length e.bytes ≡ e.datalen
  pub inside : e.offset < e.datalen
  pub low : e.bit < 8
  pub byte : get_or e.bytes e.offset 0 < 256
  pub place : e.offset * 8 + e.bit ≡ 16 + length bs
  pub cells : entries_from (cell e.bytes) 16 (length bs) ≡ bs
  pub pad : (j : ℕ) → e.bit ≤ j → j < 8 → bit_of (get_or e.bytes e.offset 0) j ≡ 1

cells-snoc :
    (m m' bs : List ℕ) (b : ℕ)
    → entries_from (cell m) 16 (length bs) ≡ bs
    → ((k : ℕ) → k < 16 + length bs → cell m' k ≡ cell m k)
    → cell m' (16 + length bs) ≡ b
    → entries_from (cell m') 16 (length (bs ++ b ∷ [])) ≡ bs ++ b ∷ []
unfolding entries_from
cells-snoc m m' bs b h k l =
    ap (entries_from (cell m') 16) (length-append bs (b ∷ []))
    ∙ entries_from-add (cell m') 16 (length bs) 1
    ∙ ap₂ ◌++◌
        (entries_from-ext (cell m') (cell m) 16 16 (length bs) (λ j lt. k (16 + j) (omega arith))
          ∙ h)
        (ap (λ x. x ∷ []) l)

cell_at : (m : List ℕ) (o i k : ℕ) → i < 8 → o * 8 + i ≡ k → cell m k ≡ bit_of (get_or m o 0) i
cell_at m o i k h e = ap₂ (λ p q. bit_of (get_or m p 0) q) (omega arith) (omega arith)

abbrev cleared : List ℕ → ℕ → ℕ → List ℕ
cleared m o i = set m o (bit_and (get_or m o 0) (255 - mask i))

-- Clearing one bit changes that bit only.
module _ (m : List ℕ) (o i : ℕ) (hb : get_or m o 0 < 256) (ho : o < length m) (hi : i < 8) where
  clear_at :
      (j : ℕ)
      → j < 8
      → bit_of (get_or (cleared m o i) o 0) j ≡ (if i == j then 0 else bit_of (get_or m o 0) j)
  clear_at j hj =
      ap (λ b. bit_of b j) (get_or-set_self m o (bit_and (get_or m o 0) (255 - mask i)) 0 ho)
      ∙ (clear_lem (get_or m o 0) i j hb hi hj).1

  clear-byte : get_or (cleared m o i) o 0 < 256
  clear-byte =
      subst (λ b. b < 256) (sym (get_or-set_self m o (bit_and (get_or m o 0) (255 - mask i)) 0 ho))
        (clear_lem (get_or m o 0) i 0 hb hi (omega arith)).0

  clear_self : bit_of (get_or (cleared m o i) o 0) i ≡ 0
  clear_self = clear_at i hi ∙ ground (arith, bit_of (get_or m o 0) i)

  clear_ne :
      (j : ℕ) → j < 8 → i ≢ j → bit_of (get_or (cleared m o i) o 0) j ≡ bit_of (get_or m o 0) j
  clear_ne j hj ne = clear_at j hj ∙ other (bit_of (get_or m o 0) j)
    where
      other : (x : ℕ) → (if i == j then 0 else x) ≡ x
      other x = ground (arith, ne)

  cell-clear_ne : (k : ℕ) → o * 8 + i ≢ k → cell (cleared m o i) k ≡ cell m k
  cell-clear_ne k ne = elim (eq_cases (k / 8) o) [
    | inl e ↦
        ap (λ p. bit_of (get_or (cleared m o i) p 0) (k % 8)) e
        ∙ clear_ne (k % 8) (omega arith) (λ q. ne (omega (arith, e, q)))
        ∙ ap (λ p. bit_of (get_or m p 0) (k % 8)) (sym e)
    | inr n ↦
        ap (λ b. bit_of b (k % 8))
          (get_or-set_ne m o (k / 8) (bit_and (get_or m o 0) (255 - mask i)) 0 (λ q. n (sym q)))
  ]

-- The bit at its place.
pub write-Written :
    (e : Encoder) (bs : List ℕ) (b : ℕ)
    → Ready e bs
    → b < 2
    → Written (write_bit e b) (bs ++ b ∷ [])
unfolding write_bit
write-Written e bs zero r h = record {
  len =
      length-set e.bytes e.offset (bit_and (get_or e.bytes e.offset 0) (255 - mask e.bit)) ∙ r.len;
  inside = r.inside;
  low = omega (arith, r.low);
  byte = clear-byte e.bytes e.offset e.bit r.byte inside r.low;
  place = omega (arith, r.place, r.low, length-append bs (0 ∷ []));
  cells =
      cells-snoc e.bytes (cleared e.bytes e.offset e.bit) bs 0 r.cells
        (λ k lt.
          cell-clear_ne e.bytes e.offset e.bit r.byte inside r.low k
            (λ q. omega (arith, q, r.place)))
        (cell_at (cleared e.bytes e.offset e.bit) e.offset e.bit (16 + length bs) r.low r.place
          ∙ clear_self e.bytes e.offset e.bit r.byte inside r.low);
  pad = λ j lt lj.
      clear_ne e.bytes e.offset e.bit r.byte inside r.low j lj (λ q. omega (arith, q))
      ∙ r.pad j (omega arith) lj;
}
  where
    inside : e.offset < length e.bytes
    inside = omega (arith, r.inside, r.len)
write-Written e bs (suc zero) r h = record {
  len = r.len;
  inside = r.inside;
  low = omega (arith, r.low);
  byte = r.byte;
  place = omega (arith, r.place, r.low, length-append bs (1 ∷ []));
  cells =
      cells-snoc e.bytes e.bytes bs 1 r.cells (λ k lt. refl)
        (cell_at e.bytes e.offset e.bit (16 + length bs) r.low r.place
          ∙ r.pad e.bit (omega arith) r.low);
  pad = λ j lt lj. r.pad j (omega arith) lj;
}
write-Written e bs (suc (suc b)) r h = absurd (omega arith)
