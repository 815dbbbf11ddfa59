-- ===== src/Push/Digest/RoundTrip.antt =====
-- That a digest that h2_push_diary_digest_get of mod_http2/h2_push.c makes is stored again by
-- h2_push_diary_digest_set.
use mod_h.Prelude.{
  ℕ, suc, ◌-◌, ◌/◌, ◌^◌, ◌<◌, ◌≡◌, refl, ap, ◌∙◌, Bool, List, [], ◌∷◌, ◌++◌, Option, none, some,
  length, replicate, take, All, map,
}
use mod_h.Prelude.Int.{ℤ}
use mod_h.Apr.{Status, Text}
use mod_h.Util.Base64.{h2_util_base64url_encode}
use mod_h.Util.Base64.RoundTrip.{decode-encode}
use mod_h.Push.Diary.{Diary, entries}
use mod_h.Push.Gset.Encode.{Encoder}
use mod_h.Push.Digest.{
  new_encoder, encode_hashes, h2_push_diary_digest_get, h2_push_diary_digest_set,
  h2_push_diary_digest64_set,
}

-- What a digest that is set leaves of a diary: the status and the entries.
abbrev pub stored : Option (Status × Diary) → Option (Status × List ℕ)
stored none = none
stored (some (s, d)) = some (s, entries d)

module _ (alloc : ℕ → Bool) where
  -- The encoder after these hashes, and the bytes that it has made.
  abbrev pub made : ℕ → ℕ → List ℕ → Encoder
  made n p hs = encode_hashes alloc none hs (new_encoder n p)

  abbrev pub bytes_made : ℕ → ℕ → List ℕ → List ℕ
  bytes_made n p hs = take (suc (made n p hs).offset) (made n p hs).bytes

-- The hashes of a diary as far as the digest keeps them.
abbrev pub kept_hashes : Diary → ℕ → List ℕ
kept_hashes d bits = map (λ h. h / 2 ^ (d.mask_bits - bits)) (entries d)

-- A digest of one diary, set into another.
abbrev pub carried :
    (ℕ → Bool)
    → (ℕ → ℕ)
    → (List ℕ → List ℕ)
    → (ℕ → ℤ)
    → Diary
    → ℕ
    → Option Text
    → Diary
    → Option Text
    → Option (Status × List ℕ)
carried alloc block qsort shl d max_p a d' a' =
    elim (h2_push_diary_digest_get alloc block qsort d max_p a) [
      | none ↦ none
      | some r ↦ stored (h2_push_diary_digest_set shl d' a' r.1)
    ]

take_front : (xs ys : List ℕ) → take (length xs) (xs ++ ys) ≡ xs
take_front [] ys = refl
take_front (x ∷ xs) ys = ap (◌∷◌ x) (take_front xs ys)

-- A digest in base64 is set as the digest that was encoded. Condition: that consists of bytes.
pub digest64_set-encode :
    (shl : ℕ → ℤ) (d : Diary) (a : Option Text) (bytes : List ℕ)
    → All (λ b. b < 256) bytes
    → h2_push_diary_digest64_set shl d a (h2_util_base64url_encode bytes)
      ≡ h2_push_diary_digest_set shl d a bytes
unfolding h2_push_diary_digest64_set
digest64_set-encode shl d a bytes h =
    ap
      (λ (r : List ℕ × ℕ).
        h2_push_diary_digest_set shl d a
          (take r.1 (r.0 ++ replicate (suc (length (h2_util_base64url_encode bytes))) 0)))
      (decode-encode bytes h)
    ∙ ap (h2_push_diary_digest_set shl d a)
        (take_front bytes (replicate (suc (length (h2_util_base64url_encode bytes))) 0))
