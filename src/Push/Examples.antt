-- ===== src/Push/Examples.antt =====
-- The push diary and its digest, of mod_http2/h2_push.c, on concrete diaries.
use mod_h.Prelude.{
  ◌+◌, ◌*◌, ◌/◌, ◌%◌, ◌==◌, ℕ, zero, suc, ◌^◌, ◌≤◌, ◌≡◌, ◌⊎◌, inr, refl, List, [], ◌∷◌, ◌++◌, none,
  arith, get_or, map, if◌then◌else◌, leb,
}
use mod_h.Prelude.Int.{ℤ, pos, negsuc}
use mod_h.Push.Diary.{Diary, update_all, entries, entries_from}
use mod_h.Push.Update.{Kept, update_all-Kept, update_new}
use mod_h.Push.Forgotten.{full_forgets}
use mod_h.Push.Gset.Decode.{Decoder}
use mod_h.Push.Digest.{h2_push_diary_digest_set, h2_push_diary_digest64_set}
use mod_h.Push.Digest.RoundTrip.{digest64_set-encode}
use mod_h.Push.Digest.Bounds.{Sound, digest_set-Sound}
use mod_h.Util.Base64.{h2_util_base64url_encode}

-- A push is its hash.
abbrev by_hash : Diary → ℕ → ℕ
by_hash d h = h

-- A diary of 3 entries, of this limit.
abbrev three : ℕ → Diary
three limit = record {
  slots = λ j. get_or (7 ∷ 9 ∷ 4 ∷ []) j 0;
  nelts = 3;
  n_max = 16;
  n = limit;
  mask_bits = 64;
  authority = none;
}

update_all-Kept_example : Kept (three 4) (update_all by_hash (three 4) (5 ∷ 7 ∷ 8 ∷ 8 ∷ [])).0
update_all-Kept_example = update_all-Kept by_hash (three 4) (5 ∷ 7 ∷ 8 ∷ 8 ∷ []) (omega arith)

update_new_example :
    ((update_all by_hash (three 16) (5 ∷ 8 ∷ [])).1 ≡ 5 ∷ 8 ∷ [])
    × (entries (update_all by_hash (three 16) (5 ∷ 8 ∷ [])).0
        ≡ entries (three 16) ++ map (by_hash (three 16)) (5 ∷ 8 ∷ []))
unfolding entries_from
update_new_example =
    update_new by_hash (three 16) (5 ∷ 8 ∷ []) (λ a b p e. refl) (omega arith) (refl, (refl, tt))

not_there :
    (h i : ℕ) (j : ℕ)
    → (h ≡ 7) × (i ≡ 0) ⊎ (h ≡ 5) × (i ≡ 9)
    → j ≤ 3
    → (j ≡ i → ⊥)
    → get_or (7 ∷ 9 ∷ 4 ∷ []) j 0 ≡ h
    → ⊥
not_there h i zero c l n e = ground (arith, c, n, e)
not_there h i (suc zero) c l n e = ground (arith, c, e)
not_there h i (suc (suc zero)) c l n e = ground (arith, c, e)
not_there h i (suc (suc (suc zero))) c l n e = ground (arith, c, e)
not_there h i (suc (suc (suc (suc j)))) c l n e = omega (arith, l)

full_forgets_example : (update_all by_hash (three 3) (5 ∷ 5 ∷ [])).1 ≡ 5 ∷ 5 ∷ []
full_forgets_example =
    full_forgets by_hash (three 3) 5 (λ a b e. refl) (omega arith) (omega arith)
      (λ j l. not_there 5 9 j (inr (refl, refl)) l (λ q. omega (arith, q, l)))

-- A decoder of 3 bytes of digest.
abbrev short : Decoder
short = record {
  log2p = 2;
  bytes = 2 ∷ 2 ∷ 160 ∷ [];
  datalen = 3;
  offset = 1;
  bit = 8;
  last_val = 0;
}

-- A processor that shifts by the lowest five bits of the number.
abbrev shl : ℕ → ℤ
shl n = if n % 32 == 31 then negsuc 2147483647 else pos (2 ^ (n % 32))

-- A pool that gives blocks of 32 bytes.
abbrev block : ℕ → ℕ
block n = (n / 32 + 1) * 32

digest_set-Sound_example :
    Sound
      (three 16)
      (2 ∷ 2 ∷ 160 ∷ [])
      (h2_push_diary_digest_set shl (three 16) none (2 ∷ 2 ∷ 160 ∷ []))
digest_set-Sound_example =
    digest_set-Sound shl (three 16) none (2 ∷ 2 ∷ 160 ∷ [])
      record { held = omega arith; limit = omega arith }

digest64_set-encode_example :
    h2_push_diary_digest64_set shl (three 16) none (h2_util_base64url_encode (2 ∷ 2 ∷ 160 ∷ []))
    ≡ h2_push_diary_digest_set shl (three 16) none (2 ∷ 2 ∷ 160 ∷ [])
digest64_set-encode_example =
    digest64_set-encode shl (three 16) none (2 ∷ 2 ∷ 160 ∷ [])
      (omega arith, (omega arith, (omega arith, tt)))

-- qsort for the examples.
insert : ℕ → List ℕ → List ℕ
insert x [] = x ∷ []
insert x (y ∷ ys) = let rest = insert x ys in if leb x y then x ∷ y ∷ ys else y ∷ rest

sort : List ℕ → List ℕ
sort [] = []
sort (x ∷ xs) = insert x (sort xs)

-- A diary of 5 * 2 ^ 54, 3 * 2 ^ 54 and 5 * 2 ^ 54 + 1: the first and the last are the same in the
-- bits of the digest.
abbrev large : Diary
large = record {
  slots = λ j. get_or (90071992547409920 ∷ 54043195528445952 ∷ 90071992547409921 ∷ []) j 0;
  nelts = 3;
  n_max = 16;
  n = 16;
  mask_bits = 64;
  authority = none;
}
