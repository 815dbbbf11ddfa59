-- ===== src/Push/Gset/Read.antt =====
-- What the decoder of mod_http2/h2_push.c reads: the bits that are left of its bytes.
use mod_h.Prelude.{
  ℕ, zero, suc, ◌+◌, ◌-◌, ◌*◌, ◌%◌, ◌^◌, ◌≤◌, ◌<◌, ◌≡◌, refl, sym, ap, ap₂, subst, ◌∙◌, List, [],
  ◌∷◌, ◌++◌, Option, none, some, replicate, arith, min, if◌then◌else◌, leb, ◌==◌, if-both, get_or,
  leb_sound, leb_complete,
}
use native.Mathlib.Nat.{add-zero}
use mod_h.Push.Diary.{entries_from}
use mod_h.Push.Gset.Decode.{Decoder, bit_of, gset_decode_next_bit, decode_flex, decode_fixed}
use mod_h.Push.Gset.Cells.{cell}

-- The number of the next bit.
abbrev pub next : Decoder → ℕ
next d = d.offset * 8 + min (suc d.bit) 8

-- The bits from the next on.
abbrev pub left : Decoder → List ℕ
left d = entries_from (cell d.bytes) (next d) (8 * d.datalen - next d)

pub record Fits (d : Decoder) : Type 0 where
  pub inside : d.offset < d.datalen
  pub low : d.bit ≤ 8

-- What a read leaves as it is.
pub record Follows (d x : Decoder) : Type 0 where
  pub fits : Fits x
  pub same_p : x.log2p ≡ d.log2p
  pub same_len : x.datalen ≡ d.datalen
  pub same_val : x.last_val ≡ d.last_val

-- A read of one bit: there is none, or it is the first of those left.
pub record BitRead (d : Decoder) (r : Option ℕ × Decoder) (bs : List ℕ) : Type 0 where
  pub end : bs ≡ [] → r.0 ≡ none
  pub more : (b : ℕ) (cs : List ℕ) → bs ≡ b ∷ cs → (r.0 ≡ some b) × (left r.1 ≡ cs) × Follows d r.1

entries-cons :
    (f : ℕ → ℕ) (i k : ℕ) → 0 < k → entries_from f i k ≡ f i ∷ entries_from f (suc i) (k - 1)
unfolding entries_from
entries-cons f i zero h = elim h [ ]
entries-cons f i (suc k) h = ap (λ j. f i ∷ entries_from f (suc i) j) (omega arith)

entries-nil : (f : ℕ → ℕ) (i k : ℕ) → k ≡ 0 → entries_from f i k ≡ []
unfolding entries_from
entries-nil f i zero h = refl
entries-nil f i (suc k) h = absurd (omega (arith, h))

uncons : {a b : ℕ} → {xs ys : List ℕ} → a ∷ xs ≡ b ∷ ys → (a ≡ b) × (xs ≡ ys)
uncons q = (cc, cc)

-- The decoder after a bit, at this byte and bit of it.
abbrev moved : Decoder → ℕ → ℕ → Decoder
moved d o b = record d { bit = b; offset = o }

took-BitRead :
    (d : Decoder) (o b : ℕ)
    → next d < 8 * d.datalen
    → o * 8 + b ≡ next d
    → b < 8
    → BitRead d (some (bit_of (get_or d.bytes o 0) b), moved d o b) (left d)
took-BitRead d o b room at hb = record {
  end = λ q. absurd (not_nil (sym split ∙ q));
  more = λ c cs q.
      let parts = uncons (sym split ∙ q) in
      (
        ap some (sym read ∙ parts.0),
        parts.1,
        record {
          fits = record { inside = omega (arith, room, at); low = omega arith };
          same_p = refl;
          same_len = refl;
          same_val = refl;
        },
      );
}
  where
    not_nil : {x : ℕ} → {xs : List ℕ} → x ∷ xs ≡ [] → ⊥
    not_nil q = cc

    read : cell d.bytes (next d) ≡ bit_of (get_or d.bytes o 0) b
    read =
        ap₂ (λ p q. bit_of (get_or d.bytes p 0) q) (omega (arith, at, hb)) (omega (arith, at, hb))

    split : left d ≡ cell d.bytes (next d) ∷ left (moved d o b)
    split =
        entries-cons (cell d.bytes) (next d) (8 * d.datalen - next d) (omega (arith, room))
        ∙ ap₂ (λ i k. cell d.bytes (next d) ∷ entries_from (cell d.bytes) i k)
            (omega (arith, at, hb)) (omega (arith, at, hb))

pub next_bit-BitRead : (d : Decoder) → Fits d → BitRead d (gset_decode_next_bit d) (left d)
unfolding gset_decode_next_bit
next_bit-BitRead d f =
    if-both (λ r. BitRead d r (left d)) (leb 8 (suc d.bit))
      (if leb d.datalen (suc d.offset) then over else fresh) inner
      (λ t.
        if-both (λ r. BitRead d r (left d)) (leb d.datalen (suc d.offset)) over fresh
          (λ u. record {
            end = λ q. refl;
            more = λ b cs q. absurd (
                not_cons (
                  sym (
                    entries-nil (cell d.bytes) (next d) (8 * d.datalen - next d) (
                      omega
                        (arith, leb_sound 8 (suc d.bit) t, leb_sound d.datalen (suc d.offset) u)))
                  ∙ q));
          })
          (λ u.
            took-BitRead d (suc d.offset) 0
              (omega
                (arith, f.low, leb_sound 8 (suc d.bit) t, leb_complete d.datalen (suc d.offset) u))
              (omega (arith, f.low, leb_sound 8 (suc d.bit) t)) (omega arith)))
      (λ t.
        took-BitRead d d.offset (suc d.bit) (omega (arith, f.inside, leb_complete 8 (suc d.bit) t))
          (omega (arith, leb_complete 8 (suc d.bit) t)) (leb_complete 8 (suc d.bit) t))
  where
    over : Option ℕ × Decoder
    over = (none, record d { bit = suc d.bit; offset = suc d.offset })

    fresh : Option ℕ × Decoder
    fresh = (some (bit_of (get_or d.bytes (suc d.offset) 0) 0), moved d (suc d.offset) 0)

    inner : Option ℕ × Decoder
    inner = (some (bit_of (get_or d.bytes d.offset 0) (suc d.bit)), moved d d.offset (suc d.bit))

    not_cons : {x : ℕ} → {xs : List ℕ} → [] ≡ x ∷ xs → ⊥
    not_cons q = cc

pub Follows-trans : (d x y : Decoder) → Follows d x → Follows x y → Follows d y
Follows-trans d x y a b = record {
  fits = b.fits;
  same_p = b.same_p ∙ a.same_p;
  same_len = b.same_len ∙ a.same_len;
  same_val = b.same_val ∙ a.same_val;
}

-- A read that gives this number, and leaves these bits.
pub record Got (d : Decoder) (v : ℕ) (bs : List ℕ) (r : Option (ℕ × Decoder)) : Type 0 where
  pub after : Decoder
  pub is : r ≡ some (v, after)
  pub rest : left after ≡ bs
  pub follows : Follows d after

-- One round of each loop, by the bit that is read.
abbrev flex_case : ℕ → ℕ → Decoder → Option ℕ → Option (ℕ × Decoder)
flex_case fuel flex x none = none
flex_case fuel flex x (some b) =
    if b == 0 then some (flex, x) else decode_flex fuel ((flex + 1) % 2 ^ 64) x

pub flex_round :
    (fuel flex : ℕ) (d : Decoder) (o : Option ℕ)
    → (gset_decode_next_bit d).0 ≡ o
    → decode_flex (suc fuel) flex d ≡ flex_case fuel flex (gset_decode_next_bit d).1 o
unfolding decode_flex
flex_round fuel flex d o e = ap (flex_case fuel flex (gset_decode_next_bit d).1) e

abbrev fixed_case : ℕ → ℕ → Decoder → Option ℕ → Option (ℕ × Decoder)
fixed_case n fixed x none = none
fixed_case n fixed x (some b) = decode_fixed n (fixed * 2 % 2 ^ 64 + b) x

pub fixed_round :
    (n fixed : ℕ) (d : Decoder) (b : ℕ)
    → (gset_decode_next_bit d).0 ≡ some b
    → decode_fixed (suc n) fixed d
      ≡ decode_fixed n (fixed * 2 % 2 ^ 64 + b) (gset_decode_next_bit d).1
unfolding decode_fixed
fixed_round n fixed d b e = ap (fixed_case n fixed (gset_decode_next_bit d).1) e

-- What a read finds after a bit is what it finds from before it.
pub Got-after :
    (d x : Decoder) (v : ℕ) (bs : List ℕ) (r r' : Option (ℕ × Decoder))
    → Follows d x
    → r' ≡ r
    → Got x v bs r
    → Got d v bs r'
Got-after d x v bs r r' f e g = record {
  after = g.after;
  is = e ∙ g.is;
  rest = g.rest;
  follows = Follows-trans d x g.after f g.follows;
}

-- Ones and a zero are read as their number, given a round for each.
pub decode_flex-Got :
    (n fuel flex : ℕ) (d : Decoder) (bs : List ℕ)
    → Fits d
    → left d ≡ replicate n 1 ++ 0 ∷ bs
    → n < fuel
    → flex + n < 2 ^ 64
    → Got d (flex + n) bs (decode_flex fuel flex d)
decode_flex-Got n zero flex d bs f q l h = absurd (omega arith)
decode_flex-Got zero (suc fuel) flex d bs f q l h =
    let bit = (next_bit-BitRead d f).more 0 bs q in
    record {
      after = (gset_decode_next_bit d).1;
      is =
          flex_round fuel flex d (some 0) bit.0
          ∙ ap (λ v. some (v, (gset_decode_next_bit d).1)) (sym (add-zero flex));
      rest = bit.1;
      follows = bit.2;
    }
decode_flex-Got (suc n) (suc fuel) flex d bs f q l h =
    let bit = (next_bit-BitRead d f).more 1 (replicate n 1 ++ 0 ∷ bs) q in
    Got-after d x (flex + suc n) bs (decode_flex fuel (flex + 1) x) (decode_flex (suc fuel) flex d)
      bit.2 (flex_round fuel flex d (some 1) bit.0 ∙ ap (λ v. decode_flex fuel v x) (omega arith))
      (subst (λ v. Got x v bs (decode_flex fuel (flex + 1) x)) (omega arith)
        (decode_flex-Got n fuel (flex + 1) x bs bit.2.fits bit.1 (omega arith) (omega arith)))
  where
    x : Decoder
    x = (gset_decode_next_bit d).1

-- Ones up to the end are no number.
pub decode_flex-end :
    (n fuel flex : ℕ) (d : Decoder)
    → Fits d
    → left d ≡ replicate n 1
    → decode_flex fuel flex d ≡ none
unfolding decode_flex
decode_flex-end n zero flex d f q = refl
decode_flex-end zero (suc fuel) flex d f q =
    flex_round fuel flex d none ((next_bit-BitRead d f).end q)
decode_flex-end (suc n) (suc fuel) flex d f q =
    let bit = (next_bit-BitRead d f).more 1 (replicate n 1) q in
    flex_round fuel flex d (some 1) bit.0
    ∙ decode_flex-end n fuel ((flex + 1) % 2 ^ 64) (gset_decode_next_bit d).1 bit.2.fits bit.1
