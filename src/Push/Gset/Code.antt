-- ===== src/Push/Gset/Code.antt =====
-- The code of a list of numbers, and that gset_encode_next of mod_http2/h2_push.c writes it.
use mod_h.Prelude.{
  ℕ, zero, suc, ◌+◌, ◌-◌, ◌/◌, ◌%◌, ◌^◌, ◌≤◌, ◌<◌, ◌≡◌, refl, sym, subst, ◌∙◌, Bool, true, List, [],
  ◌∷◌, ◌++◌, replicate, arith, append_assoc, append-nil,
}
use mod_h.Apr.{Status}
use mod_h.Push.Gset.Encode.{
  Encoder, gset_encode_bit, and_then, encode_flex, encode_fixed, gset_encode_next,
}
use mod_h.Push.Gset.Written.{Written}
use mod_h.Push.Gset.Step.{Wrote, encode_bit-Wrote}

-- The lowest `i` bits of a number, highest first.
abbrev pub fixed_code : ℕ → ℕ → List ℕ
fixed_code zero delta = []
fixed_code (suc i) delta = delta / 2 ^ i % 2 ∷ fixed_code i delta

-- What is above them as so many ones, a zero, and the bits.
abbrev pub code : ℕ → ℕ → List ℕ
code f delta = replicate (delta / 2 ^ f) 1 ++ 0 ∷ fixed_code f delta

-- Each number as its distance from the one before.
abbrev pub codes : ℕ → ℕ → List ℕ → List ℕ
codes f last [] = []
codes f last (v ∷ vs) = code f (v - last) ++ codes f v vs

and_then-Wrote :
    (e : Encoder) (bs cs : List ℕ) (r : Status × Encoder) (k : Encoder → Status × Encoder)
    → Wrote e bs r
    → (Written r.1 bs → Wrote r.1 cs (k r.1))
    → Wrote e cs (and_then r k)
and_then-Wrote e bs cs (s, x) k w f =
    subst (λ (s' : Status). Wrote e cs (and_then (s', x) k)) (sym w.fine)
      record {
        fine = next.fine;
        written = next.written;
        same_fixed = next.same_fixed ∙ w.same_fixed;
        same_last = next.same_last ∙ w.same_last;
        header = λ k lt. next.header k lt ∙ w.header k lt;
      }
  where
    next : Wrote x cs (k x)
    next = f w.written

module _ (alloc : ℕ → Bool) (ok : (n : ℕ) → alloc n ≡ true) where
  encode_flex-Wrote :
      (n : ℕ) (e : Encoder) (bs : List ℕ)
      → Written e bs
      → Wrote e (bs ++ replicate n 1) (encode_flex alloc n e)
  unfolding encode_flex
  encode_flex-Wrote zero e bs w = record {
    fine = refl;
    written = subst (Written e) (sym (append-nil bs)) w;
    same_fixed = refl;
    same_last = refl;
    header = λ k lt. refl;
  }
  encode_flex-Wrote (suc n) e bs w =
      and_then-Wrote e (bs ++ 1 ∷ []) (bs ++ 1 ∷ replicate n 1) (gset_encode_bit alloc e 1)
        (encode_flex alloc n) (encode_bit-Wrote alloc ok e bs 1 w (omega arith))
        (λ w1.
          subst (λ cs. Wrote x cs (encode_flex alloc n x))
            (append_assoc bs (1 ∷ []) (replicate n 1)) (encode_flex-Wrote n x (bs ++ 1 ∷ []) w1))
    where
      x : Encoder
      x = (gset_encode_bit alloc e 1).1

  encode_fixed-Wrote :
      (i delta : ℕ) (e : Encoder) (bs : List ℕ)
      → Written e bs
      → Wrote e (bs ++ fixed_code i delta) (encode_fixed alloc i delta e)
  unfolding encode_fixed
  encode_fixed-Wrote zero delta e bs w = record {
    fine = refl;
    written = subst (Written e) (sym (append-nil bs)) w;
    same_fixed = refl;
    same_last = refl;
    header = λ k lt. refl;
  }
  encode_fixed-Wrote (suc i) delta e bs w =
      and_then-Wrote e (bs ++ bit ∷ []) (bs ++ bit ∷ fixed_code i delta)
        (gset_encode_bit alloc e bit) (encode_fixed alloc i delta)
        (encode_bit-Wrote alloc ok e bs bit w (omega arith))
        (λ w1.
          subst (λ cs. Wrote x cs (encode_fixed alloc i delta x))
            (append_assoc bs (bit ∷ []) (fixed_code i delta))
            (encode_fixed-Wrote i delta x (bs ++ bit ∷ []) w1))
    where
      bit : ℕ
      bit = delta / 2 ^ i % 2

      x : Encoder
      x = (gset_encode_bit alloc e bit).1

  encode_code-Wrote :
      (f delta : ℕ) (e : Encoder) (bs : List ℕ)
      → Written e bs
      → Wrote e (bs ++ code f delta) (
          and_then
            (encode_flex alloc (delta / 2 ^ f) e)
            (λ e2. and_then (gset_encode_bit alloc e2 0) (encode_fixed alloc f delta)))
  encode_code-Wrote f delta e bs w =
      and_then-Wrote e (bs ++ ones) (bs ++ code f delta) (encode_flex alloc (delta / 2 ^ f) e)
        (λ e2. and_then (gset_encode_bit alloc e2 0) (encode_fixed alloc f delta))
        (encode_flex-Wrote (delta / 2 ^ f) e bs w)
        (λ w1.
          subst (λ cs. Wrote x cs (and_then y (encode_fixed alloc f delta))) together
            (and_then-Wrote x ((bs ++ ones) ++ 0 ∷ [])
              (((bs ++ ones) ++ 0 ∷ []) ++ fixed_code f delta) y (encode_fixed alloc f delta)
              (encode_bit-Wrote alloc ok x (bs ++ ones) 0 w1 (omega arith))
              (encode_fixed-Wrote f delta y.1 ((bs ++ ones) ++ 0 ∷ []))))
    where
      ones : List ℕ
      ones = replicate (delta / 2 ^ f) 1

      x : Encoder
      x = (encode_flex alloc (delta / 2 ^ f) e).1

      y : Status × Encoder
      y = gset_encode_bit alloc x 0

      together : ((bs ++ ones) ++ 0 ∷ []) ++ fixed_code f delta ≡ bs ++ code f delta
      together =
          append_assoc (bs ++ ones) (0 ∷ []) (fixed_code f delta)
          ∙ append_assoc bs ones (0 ∷ fixed_code f delta)

  relast : (e : Encoder) (bs : List ℕ) (v : ℕ) → Written e bs → Written (record e { last = v }) bs
  relast e bs v w = record {
    len = w.len;
    inside = w.inside;
    low = w.low;
    byte = w.byte;
    place = w.place;
    cells = w.cells;
    pad = w.pad;
  }

  -- gset_encode_next writes the code of the distance from the number before, and keeps the number
  -- for the next. Conditions: the number is not below the one before, and both are 64 bit.
  pub encode_next-Wrote :
      (e : Encoder) (bs : List ℕ) (v : ℕ)
      → Written e bs
      → e.last ≤ v
      → v < 2 ^ 64
      → Wrote
          (record e { last = v })
          (bs ++ code e.fixed_bits (v - e.last))
          (gset_encode_next alloc e v)
  unfolding gset_encode_next
  encode_next-Wrote e bs v w le h =
      subst (λ (d : ℕ). Wrote e1 (bs ++ code e.fixed_bits (v - e.last)) (run d)) (sym same)
        (encode_code-Wrote e.fixed_bits (v - e.last) e1 bs (relast e bs v w))
    where
      e1 : Encoder
      e1 = record e { last = v }

      same : (v + 2 ^ 64 - e.last) % 2 ^ 64 ≡ v - e.last
      same = omega arith

      run : ℕ → Status × Encoder
      run delta =
          and_then (encode_flex alloc (delta / 2 ^ e.fixed_bits) e1)
            (λ e2. and_then (gset_encode_bit alloc e2 0) (encode_fixed alloc e.fixed_bits delta))
