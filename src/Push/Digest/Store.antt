-- ===== src/Push/Digest/Store.antt =====
-- What the loops of h2_push_diary_digest_get and h2_push_diary_digest_set in mod_http2/h2_push.c
-- write and read.
use mod_h.Prelude.{
  ℕ, zero, suc, ◌+◌, ◌-◌, ◌^◌, ◌≤◌, ◌<◌, ◌≡◌, refl, sym, ap, ap₂, subst, ◌∙◌, Bool, true, List, [],
  ◌∷◌, ◌++◌, append_assoc, append-nil, Option, none, some, if◌then◌else◌, ◌==◌, length, replicate,
  arith, get_or, Bool-cases, inl, inr,
}
use mod_h.Push.Diary.{Diary, h2_push_diary_append, entries}
use mod_h.Push.Order.{append_room, append_room-nelts, append-n}
use mod_h.Push.Gset.Encode.{Encoder, gset_encode_next}
use mod_h.Push.Gset.Decode.{Decoder, gset_decode_next}
use mod_h.Push.Gset.Written.{Written}
use mod_h.Push.Gset.Step.{Wrote}
use mod_h.Push.Gset.Code.{code, codes, encode_next-Wrote}
use mod_h.Push.Gset.Read.{left, Fits}
use mod_h.Push.Gset.Value.{Decoded, decode_next-Decoded, decode_next-end}
use mod_h.Push.Digest.{encode_hashes, store_all}

-- 64 bit numbers that do not go down, from a first bound on.
abbrev pub Ascending : ℕ → List ℕ → Type 0
Ascending low [] = Unit
Ascending low (v ∷ vs) = (low ≤ v) × (v < 2 ^ 64) × Ascending v vs

pub Ascending-weaken : (low v : ℕ) (vs : List ℕ) → low ≤ v → Ascending v vs → Ascending low vs
Ascending-weaken low v [] h a = a
Ascending-weaken low v (w ∷ vs) h a = (omega (arith, a.0), a.1, a.2)

-- Without a number that is as the one before.
abbrev pub distinct : Option ℕ → List ℕ → List ℕ
distinct prev [] = []
distinct none (v ∷ vs) = v ∷ distinct (some v) vs
distinct (some p) (v ∷ vs) = if v == p then distinct (some v) vs else v ∷ distinct (some v) vs

-- An encoder that has come from another, with these bits written.
pub record Series (e x : Encoder) (bs : List ℕ) : Type 0 where
  pub written : Written x bs
  pub same_fixed : x.fixed_bits ≡ e.fixed_bits
  pub header : (k : ℕ) → k < 2 → get_or x.bytes k 0 ≡ get_or e.bytes k 0

module _ (alloc : ℕ → Bool) (ok : (n : ℕ) → alloc n ≡ true) where
  one_more :
      (e y : Encoder) (h : ℕ) (bs : List ℕ) (hs : List ℕ)
      → Written e bs
      → e.last ≤ h
      → h < 2 ^ 64
      → (Written (gset_encode_next alloc e h).1 (bs ++ code e.fixed_bits (h - e.last))
          → Series (gset_encode_next alloc e h).1 y (
              (bs ++ code e.fixed_bits (h - e.last))
              ++ codes
                  (gset_encode_next alloc e h).1.fixed_bits
                  (gset_encode_next alloc e h).1.last
                  hs))
      → Series e y (bs ++ codes e.fixed_bits e.last (h ∷ hs))
  one_more e y h bs hs w le lt k = record {
    written =
        subst (Written y)
          (ap₂ (λ f l. (bs ++ code e.fixed_bits (h - e.last)) ++ codes f l hs) step.same_fixed
              step.same_last
            ∙ append_assoc bs (code e.fixed_bits (h - e.last)) (codes e.fixed_bits h hs))
          rest.written;
    same_fixed = rest.same_fixed ∙ step.same_fixed;
    header = λ i l. rest.header i l ∙ step.header i l;
  }
    where
      x : Encoder
      x = (gset_encode_next alloc e h).1

      step :
          Wrote
            (record e { last = h })
            (bs ++ code e.fixed_bits (h - e.last))
            (gset_encode_next alloc e h)
      step = encode_next-Wrote alloc ok e bs h w le lt

      rest : Series x y ((bs ++ code e.fixed_bits (h - e.last)) ++ codes x.fixed_bits x.last hs)
      rest = k step.written

  next_last :
      (e : Encoder) (h : ℕ) (bs : List ℕ)
      → Written e bs
      → e.last ≤ h
      → h < 2 ^ 64
      → (gset_encode_next alloc e h).1.last ≡ h
  next_last e h bs w le lt =
      let step : Wrote (record e { last = h }) (bs ++ code e.fixed_bits (h - e.last))
          (gset_encode_next alloc e h) =
        encode_next-Wrote alloc ok e bs h w le lt in
      step.same_last

  pub encode_hashes-Series :
      (vs : List ℕ) (prev : Option ℕ) (e : Encoder) (bs : List ℕ)
      → Written e bs
      → Ascending e.last vs
      → Series e
          (encode_hashes alloc prev vs e)
          (bs ++ codes e.fixed_bits e.last (distinct prev vs))
  unfolding encode_hashes
  encode_hashes-Series [] prev e bs w a = record {
    written = subst (Written e) (sym (append-nil bs)) w;
    same_fixed = refl;
    header = λ k l. refl;
  }
  encode_hashes-Series (v ∷ vs) none e bs w a =
      one_more e (encode_hashes alloc (some v) vs x) v bs (distinct (some v) vs) w a.0 a.1 (λ w1.
        encode_hashes-Series vs (some v) x (bs ++ code e.fixed_bits (v - e.last)) w1
          (subst (λ l. Ascending l vs) (sym (next_last e v bs w a.0 a.1)) a.2))
    where
      x : Encoder
      x = (gset_encode_next alloc e v).1
  encode_hashes-Series (v ∷ vs) (some p) e bs w a = elim (Bool-cases (v == p)) [
    | inl t ↦
        subst Goal (sym t)
          (encode_hashes-Series vs (some v) e bs w (Ascending-weaken e.last v vs a.0 a.2))
    | inr t ↦ subst Goal (sym t) (
        one_more e (encode_hashes alloc (some v) vs x) v bs (distinct (some v) vs) w a.0 a.1 (λ w1.
          encode_hashes-Series vs (some v) x (bs ++ code e.fixed_bits (v - e.last)) w1
            (subst (λ l. Ascending l vs) (sym (next_last e v bs w a.0 a.1)) a.2)))
  ]
    where
      x : Encoder
      x = (gset_encode_next alloc e v).1

      Goal : Bool → Type 0
      Goal b = Series e (encode_hashes alloc (some v) vs (if b then e else x)) (
          bs
          ++ codes e.fixed_bits e.last
              (if b then distinct (some v) vs else v ∷ distinct (some v) vs))

abbrev store_case : ℕ → Diary → Option (ℕ × Decoder) → Diary
store_case n d none = d
store_case n d (some (hash, dec')) = store_all n (h2_push_diary_append d hash) dec'

-- A decoder that has the codes of these numbers left, and then ones, stores them: behind the
-- entries, in their order. Conditions: the numbers ascend from the last one, there are as many
-- rounds, and there is room.
pub store_all_lem :
    (vs : List ℕ) (n k : ℕ) (d : Diary) (dec : Decoder)
    → Fits dec
    → left dec ≡ codes dec.log2p dec.last_val vs ++ replicate k 1
    → Ascending dec.last_val vs
    → length vs ≤ n
    → d.nelts + length vs ≤ d.n
    → entries (store_all n d dec) ≡ entries d ++ vs
unfolding store_all
store_all_lem [] zero k d dec f q a l r = sym (append-nil (entries d))
store_all_lem [] (suc n) k d dec f q a l r =
    ap entries (ap (store_case n d) (decode_next-end dec k f q)) ∙ sym (append-nil (entries d))
store_all_lem (v ∷ vs) zero k d dec f q a l r = elim l [ ]
store_all_lem (v ∷ vs) (suc n) k d dec f q a l r =
    ap entries (ap (store_case n d) (got.is ∙ ap (λ w. some (w, got.after)) same))
    ∙ store_all_lem vs n k (h2_push_diary_append d v) got.after got.fits
        (got.rest ∙ ap₂ (λ p w. codes p w vs ++ replicate k 1) (sym got.same_p) (sym last))
        (subst (λ w. Ascending w vs) (sym last) a.2) (omega arith)
        (omega (arith, kept.0, append-n d v, r))
    ∙ ap (λ es. es ++ vs) (append_room d v (omega arith))
    ∙ append_assoc (entries d) (v ∷ []) vs
  where
    same : v - dec.last_val + dec.last_val ≡ v
    same = omega (arith, a.0)

    got :
        Decoded dec
          (v - dec.last_val + dec.last_val)
          (codes dec.log2p v vs ++ replicate k 1)
          (gset_decode_next dec)
    got =
        decode_next-Decoded dec (v - dec.last_val) (codes dec.log2p v vs ++ replicate k 1) f
          (q
            ∙ append_assoc (code dec.log2p (v - dec.last_val)) (codes dec.log2p v vs)
                (replicate k 1))
          (omega (arith, same, a.1))

    last : got.after.last_val ≡ v
    last = got.value ∙ same

    kept :
        ((h2_push_diary_append d v).nelts ≡ suc d.nelts)
        × ((h2_push_diary_append d v).mask_bits ≡ d.mask_bits)
    kept = append_room-nelts d v (omega arith)
