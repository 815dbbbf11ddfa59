-- ===== src/Push/Gset/Step.antt =====
-- What one call of gset_encode_bit in mod_http2/h2_push.c does to the bits written.
use Prim.Native.Nat.{bit_and}
use mod_h.Prelude.{
  ℕ, zero, suc, ◌+◌, ◌-◌, ◌*◌, ◌/◌, ◌%◌, ◌≤◌, ◌<◌, ◌≡◌, refl, sym, ap, subst, ◌∙◌, Bool, true,
  false, List, [], ◌∷◌, ◌++◌, if◌then◌else◌, leb, leb_sound, leb_complete, get_or, set, replicate,
  if-both, arith, length, get_or-set_self, get_or-set_ne, get_or-append_left, length-append,
  length-set, length-replicate,
}
use mod_h.Apr.{Status, success, enomem}
use mod_h.Push.Order.{entries_from-ext}
use mod_h.Push.Gset.Encode.{Encoder, mask, write_bit, fresh_byte, gset_encode_bit}
use mod_h.Push.Gset.Decode.{bit_of}
use mod_h.Push.Gset.Cells.{cell, ones_lem}
use mod_h.Push.Gset.Written.{Written, Ready, write-Written}

-- A new byte of ones behind a byte that is full, in memory that keeps what was written.
fresh-Ready :
    (e : Encoder) (bs m : List ℕ) (n : ℕ)
    → Written e bs
    → 8 ≤ suc e.bit
    → length m ≡ n
    → suc e.offset < n
    → ((k : ℕ) → k ≤ e.offset → get_or m k 0 ≡ get_or e.bytes k 0)
    → Ready
        (fresh_byte (record e { bit = suc e.bit; offset = suc e.offset; bytes = m; datalen = n }))
        bs
unfolding fresh_byte
fresh-Ready e bs m n w full len room kept = record {
  len = length-set m (suc e.offset) 255 ∙ len;
  inside = room;
  low = omega arith;
  byte = subst (λ b. b < 256) (sym new) (omega arith);
  place = omega (arith, w.place, w.low, full);
  cells =
      entries_from-ext (cell (set m (suc e.offset) 255)) (cell e.bytes) 16 16 (length bs) (λ j lt.
        ap (λ b. bit_of b ((16 + j) % 8))
          (get_or-set_ne m (suc e.offset) ((16 + j) / 8) 255 0
              (λ q. omega (arith, q, w.place, w.low, full, lt))
            ∙ kept ((16 + j) / 8) (omega (arith, w.place, w.low, full, lt))))
      ∙ w.cells;
  pad = λ j lt lj. ap (λ b. bit_of b j) new ∙ ones_lem j lj;
}
  where
    new : get_or (set m (suc e.offset) 255) (suc e.offset) 0 ≡ 255
    new = get_or-set_self m (suc e.offset) 255 0 (omega (arith, len, room))

write_bit-fixed_bits : (e : Encoder) (b : ℕ) → (write_bit e b).fixed_bits ≡ e.fixed_bits
unfolding write_bit
write_bit-fixed_bits e b = ground arith

write_bit-last : (e : Encoder) (b : ℕ) → (write_bit e b).last ≡ e.last
unfolding write_bit
write_bit-last e b = ground arith

same-Ready :
    (e : Encoder) (bs : List ℕ)
    → Written e bs
    → suc e.bit < 8
    → Ready (record e { bit = suc e.bit }) bs
same-Ready e bs w h = record {
  len = w.len;
  inside = w.inside;
  low = h;
  byte = w.byte;
  place = omega (arith, w.place, h);
  cells = w.cells;
  pad = λ j lt lj. w.pad j (omega arith) lj;
}

-- A step that writes these bits behind those written.
pub record Wrote (e : Encoder) (bs : List ℕ) (r : Status × Encoder) : Type 0 where
  pub fine : r.0 ≡ success
  pub written : Written r.1 bs
  pub same_fixed : r.1.fixed_bits ≡ e.fixed_bits
  pub same_last : r.1.last ≡ e.last
  pub header : (k : ℕ) → k < 2 → get_or r.1.bytes k 0 ≡ get_or e.bytes k 0

write_bit-header :
    (e : Encoder) (bs : List ℕ) (b k : ℕ)
    → Ready e bs
    → k < 2
    → get_or (write_bit e b).bytes k 0 ≡ get_or e.bytes k 0
unfolding write_bit
write_bit-header e bs zero k r h =
    get_or-set_ne e.bytes e.offset k (bit_and (get_or e.bytes e.offset 0) (255 - mask e.bit)) 0
      (λ q. omega (arith, q, r.place, r.low, h))
write_bit-header e bs (suc b) k r h = ground arith

wrote :
    (e x : Encoder) (bs : List ℕ) (b : ℕ)
    → x.fixed_bits ≡ e.fixed_bits
    → x.last ≡ e.last
    → ((k : ℕ) → k < 2 → get_or x.bytes k 0 ≡ get_or e.bytes k 0)
    → Ready x bs
    → b < 2
    → Wrote e (bs ++ b ∷ []) (success, write_bit x b)
wrote e x bs b f l g r h = record {
  fine = refl;
  written = write-Written x bs b r h;
  same_fixed = write_bit-fixed_bits x b ∙ f;
  same_last = write_bit-last x b ∙ l;
  header = λ k lt. write_bit-header x bs b k r lt ∙ g k lt;
}

module _ (alloc : ℕ → Bool) (ok : (n : ℕ) → alloc n ≡ true) where
  pub encode_bit-Wrote :
      (e : Encoder) (bs : List ℕ) (b : ℕ)
      → Written e bs
      → b < 2
      → Wrote e (bs ++ b ∷ []) (gset_encode_bit alloc e b)
  unfolding gset_encode_bit fresh_byte
  encode_bit-Wrote e bs b w h =
      if-both (Wrote e (bs ++ b ∷ [])) (leb 8 (suc e.bit))
        (if leb e.datalen (suc e.offset)
          then if alloc (e.datalen * 2) then (success, write_bit (fresh_byte grown) b) else failed
          else (success, write_bit (fresh_byte moved) b))
        (success, write_bit (record e { bit = suc e.bit }) b)
        (λ t.
          if-both (Wrote e (bs ++ b ∷ [])) (leb e.datalen (suc e.offset))
            (if alloc (e.datalen * 2) then (success, write_bit (fresh_byte grown) b) else failed)
            (success, write_bit (fresh_byte moved) b)
            (λ u.
              if-both (Wrote e (bs ++ b ∷ [])) (alloc (e.datalen * 2))
                (success, write_bit (fresh_byte grown) b) failed
                (λ v.
                  wrote e (fresh_byte grown) bs b refl refl
                    (λ k lt. behind grown.bytes k lt ∙ longer k lt)
                    (fresh-Ready e bs grown.bytes (e.datalen * 2) w (leb_sound 8 (suc e.bit) t)
                      (omega (
                        arith,
                        length-append e.bytes (replicate e.datalen 0),
                        w.len,
                        length-replicate {A = ℕ} e.datalen 0,
                      ))
                      (omega (arith, w.inside))
                      (λ k lt.
                        get_or-append_left e.bytes (replicate e.datalen 0) k 0
                          (omega (arith, w.inside, w.len))))
                    h)
                (λ v. absurd (clash (sym (ok (e.datalen * 2)) ∙ v))))
            (λ u.
              wrote e (fresh_byte moved) bs b refl refl (behind e.bytes)
                (fresh-Ready e bs e.bytes e.datalen w (leb_sound 8 (suc e.bit) t) w.len
                  (leb_complete e.datalen (suc e.offset) u) (λ k lt. refl))
                h))
        (λ f.
          wrote e (record e { bit = suc e.bit }) bs b refl refl (λ k lt. refl)
            (same-Ready e bs w (leb_complete 8 (suc e.bit) f)) h)
    where
      grown : Encoder
      grown = record e {
        bit = suc e.bit;
        offset = suc e.offset;
        bytes = e.bytes ++ replicate e.datalen 0;
        datalen = e.datalen * 2;
      }

      moved : Encoder
      moved = record e { bit = suc e.bit; offset = suc e.offset }

      failed : Status × Encoder
      failed = (enomem, moved)

      -- The new byte is behind the header.
      behind : (m : List ℕ) (k : ℕ) → k < 2 → get_or (set m (suc e.offset) 255) k 0 ≡ get_or m k 0
      behind m k lt =
          get_or-set_ne m (suc e.offset) k 255 0 (λ q. omega (arith, q, w.place, w.low, lt))

      longer : (k : ℕ) → k < 2 → get_or grown.bytes k 0 ≡ get_or e.bytes k 0
      longer k lt =
          get_or-append_left e.bytes (replicate e.datalen 0) k 0
            (omega (arith, w.place, w.low, w.inside, w.len, lt))

      clash : true ≡ false → ⊥
      clash q = cc
