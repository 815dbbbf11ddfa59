-- ===== src/Push/Digest/Bounds.antt =====
-- How much h2_push_diary_digest_set of mod_http2/h2_push.c stores.
use mod_h.Prelude.{
  leb, ◌^◌, ℕ, zero, suc, false, ◌+◌, ◌≤◌, ◌≡◌, refl, ◌∙◌, List, Option, none, some, if◌then◌else◌,
  ltb, ◌==◌, length, get_or, arith, if-both,
}
use mod_h.Prelude.Int.{ℤ, pos, negsuc}
use mod_h.Apr.{Status, success, einval, enotimpl, Text}
use mod_h.Push.Diary.{Diary, move_to_last, h2_push_diary_append}
use mod_h.Push.Order.{append-n, append-nelts}
use mod_h.Push.Gset.Decode.{Decoder, gset_decode_next}
use mod_h.Push.Digest.{
  store_all, set_authority, new_decoder, set_rounds, set_behind, h2_push_diary_digest_set,
  h2_log2inv,
}

-- A diary that holds no more than it may, which is no more than it was made for.
pub record Within (d : Diary) : Type 0 where
  pub held : d.nelts ≤ d.n
  pub limit : d.n ≤ d.n_max

move_to_last-n_max : (d : Diary) (i : ℕ) → (move_to_last d i).n_max ≡ d.n_max
unfolding move_to_last
move_to_last-n_max d i = ground arith

append-n_max : (d : Diary) (e : ℕ) → (h2_push_diary_append d e).n_max ≡ d.n_max
unfolding h2_push_diary_append
append-n_max d e = ground (arith, move_to_last-n_max d 0)

append-Within : (d : Diary) (e : ℕ) → Within d → Within (h2_push_diary_append d e)
append-Within d e w = record {
  held = omega (arith, (append-nelts d e w.held).0, append-n d e);
  limit = omega (arith, append-n d e, append-n_max d e, w.limit);
}

-- What a call with these bytes leaves: the diary within its limits, made for as much as before. Only
-- a header that takes from 31 to 64 bits can leave it without.
abbrev pub Sound : Diary → List ℕ → Option (Status × Diary) → Type 0
Sound d m none =
    (2 ≤ length m) × (31 ≤ get_or m 0 0 + get_or m 1 0) × (get_or m 0 0 + get_or m 1 0 ≤ 64)
Sound d m (some (s, d')) = Within d' × (d'.n_max ≡ d.n_max)

store_all-Within :
    (n : ℕ) (d : Diary) (dec : Decoder)
    → Within d
    → Within (store_all n d dec) × ((store_all n d dec).n_max ≡ d.n_max)
unfolding store_all
store_all-Within zero d dec w = (w, refl)
store_all-Within (suc n) d dec w = elim (gset_decode_next dec) as (λ o. Stored o) [
  | none ↦ (w, refl)
  | some r ↦
      let rest = store_all-Within n (h2_push_diary_append d r.0) r.1 (append-Within d r.0 w) in
      (rest.0, rest.1 ∙ append-n_max d r.0)
]
  where
    store_case : Option (ℕ × Decoder) → Diary
    store_case none = d
    store_case (some r) = store_all n (h2_push_diary_append d r.0) r.1

    Stored : Option (ℕ × Decoder) → Type 0
    Stored o = Within (store_case o) × ((store_case o).n_max ≡ d.n_max)

set_rounds-Within :
    (d : Diary) (m : List ℕ) (p n : ℕ)
    → d.nelts ≡ 0
    → Within (set_rounds d m p n).1 × ((set_rounds d m p n).1.n_max ≡ d.n_max)
unfolding set_rounds
set_rounds-Within d m p n e =
    if-both (λ (r : Status × Diary). Within r.1 × (r.1.n_max ≡ d.n_max)) (n == 0)
      (success, record d { n = d.n_max })
      (success, store_all rounds (record d { n = rounds }) (new_decoder m p))
      (λ t. (record { held = omega (arith, e); limit = omega arith }, refl))
      (λ f.
        store_all-Within rounds (record d { n = rounds }) (new_decoder m p)
          record { held = omega (arith, e); limit = few })
  where
    rounds : ℕ
    rounds = if ltb d.n_max n then d.n_max else n

    few : (if ltb d.n_max n then d.n_max else n) ≤ d.n_max
    few = ground arith

small_shift : (shl : ℕ → ℤ) (n k : ℕ) → h2_log2inv shl n ≡ negsuc k → 31 ≤ n
unfolding h2_log2inv
small_shift shl n k h =
    if-both (λ (z : ℤ). z ≡ negsuc k → 31 ≤ n) (n == 0) (pos 1)
      (if leb n 30 then pos (2 ^ n) else shl n) (λ t q. cc)
      (λ f.
        if-both (λ (z : ℤ). z ≡ negsuc k → 31 ≤ n) (leb n 30) (pos (2 ^ n)) (shl n) (λ t q. cc)
          (λ g q. ground (arith, g)))
      h

module _ (shl : ℕ → ℤ) (d : Diary) (a : Option Text) (m : List ℕ) (w : Within d) where
  set_behind-Sound :
      (n p : ℕ)
      → 2 ≤ length m
      → n ≡ get_or m 0 0
      → p ≡ get_or m 1 0
      → Sound d m (set_behind shl d a m n p)
  unfolding set_behind
  set_behind-Sound n p l e g =
      if-both (Sound d m) (ltb 64 (n + p)) (some (enotimpl, d1)) (found (h2_log2inv shl (n + p)))
        (λ t. (record { held = w.held; limit = w.limit }, refl))
        (λ f. at (h2_log2inv shl (n + p)) refl f)
    where
      d1 : Diary
      d1 = record d { mask_bits = n + p }

      d2 : Diary
      d2 = record d1 { nelts = 0; authority = set_authority d.authority a }

      found : ℤ → Option (Status × Diary)
      found (negsuc k) = none
      found (pos k) = some (set_rounds d2 m p k)

      at : (z : ℤ) → h2_log2inv shl (n + p) ≡ z → ltb 64 (n + p) ≡ false → Sound d m (found z)
      at (pos k) q f = set_rounds-Within d2 m p k refl
      at (negsuc k) q f =
          let least = small_shift shl (n + p) k q in
          (l, omega (arith, least, e, g), ground (arith, f, e, g))

  -- Whatever digest is set into a diary, and whatever a shift gives that C leaves undefined, the
  -- diary holds no more entries than it may afterwards, may hold no more than it was made for, and
  -- is made for as much as before; a negative N, for which nothing is stated, is left only by a
  -- header with log2n + log2p from 31 to 64. Condition: it kept these limits before.
  pub digest_set-Sound : Sound d m (h2_push_diary_digest_set shl d a m)
  unfolding h2_push_diary_digest_set
  digest_set-Sound =
      if-both (Sound d m) (ltb (length m) 2) (some (einval, d))
        (set_behind shl d a m (get_or m 0 0) (get_or m 1 0)) (λ t. (w, refl))
        (λ f. set_behind-Sound (get_or m 0 0) (get_or m 1 0) (ground (arith, f)) refl refl)
