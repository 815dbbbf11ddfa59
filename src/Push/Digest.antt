-- ===== src/Push/Digest.antt =====
-- The digest of a push diary, a Golomb coded set of its hashes behind two bytes of header, and how
-- diaries are made: mod_http2/h2_push.c.
pub mod Store
pub mod Header
pub mod RoundTrip
pub mod Bounds
use Prim.Native.Nat.{bit_or}
use mod_h.Prelude.{
  ℕ, zero, suc, ◌+◌, ◌-◌, ◌*◌, ◌/◌, ◌%◌, ◌^◌, ◌≡◌, Bool, true, false, ◌&&◌, Option, none, some,
  List, [], ◌∷◌, ◌++◌, if◌then◌else◌, ltb, leb, ◌==◌, get_or, set, replicate, take, length, map,
  min, not,
}
use mod_h.Prelude.Int.{ℤ, pos, negsuc}
use mod_h.Apr.{Status, success, einval, enotimpl, Text}
use mod_h.Util.Base64.{h2_util_base64url_decode}
use mod_h.Util.Log2.{h2_log2}
use mod_h.Push.Diary.{Diary, h2_push_diary_append, entries}
use mod_h.Push.Gset.Encode.{Encoder, gset_encode_next}
use mod_h.Push.Gset.Decode.{Decoder, gset_decode_next}

-- On an int from 0 to 2 ^ 30; the shifts and the ors of the source.
unfoldable pub ceil_power_of_2 : ℕ → ℕ
ceil_power_of_2 n =
    if leb n 2
    then 2
    else let n0 = n - 1 in
      let n1 = bit_or n0 (n0 / 2) in
      let n2 = bit_or n1 (n1 / 4) in
      let n3 = bit_or n2 (n2 / 16) in let n4 = bit_or n3 (n3 / 256) in suc (bit_or n4 (n4 / 65536))

-- An int; C leaves a shift into or past its sign undefined, and `shl` is what it makes of that.
unfoldable pub h2_log2inv : (ℕ → ℤ) → ℕ → ℤ
h2_log2inv shl log2 = if log2 == 0 then pos 1 else if leb log2 30 then pos (2 ^ log2) else shl log2

-- The kind of digest is left out; N is an int, 0 for a negative one. The memory is what apr_array
-- gives.
unfoldable pub diary_create : (ℕ → ℕ) → ℕ → Option Diary
diary_create memory n =
    if n == 0
    then none
    else let n_max = ceil_power_of_2 n in
      some record {
        slots = memory;
        nelts = 0;
        n_max = n_max;
        n = n_max;
        mask_bits = 64;
        authority = none;
      }

abbrev pub text_eq : Text → Text → Bool
text_eq [] [] = true
text_eq (a ∷ s) (b ∷ t) = a == b && text_eq s t
text_eq _ _ = false

-- "*"
abbrev pub star : Text
star = 42 ∷ []

-- The bits of a hash that the digest keeps and those that each number keeps as they are; `none` is
-- a diary with fewer relevant bits than log2n, for which the code shifts by a negative number.
unfoldable pub digest_bits : Diary → ℕ → Option (ℕ × ℕ)
digest_bits d max_p =
    let log2n = h2_log2 (ceil_power_of_2 d.nelts) in
    let log2pmax = h2_log2 (ceil_power_of_2 max_p) in
    if ltb d.mask_bits log2n then none else some (log2n, min (d.mask_bits - log2n) log2pmax)

-- Whether the entries are of this authority.
unfoldable pub wanted : Option Text → Option Text → Bool
wanted none held = true
wanted (some a) none = true
wanted (some a) (some h) = if text_eq star a then true else text_eq h a

unfoldable pub new_encoder : ℕ → ℕ → Encoder
new_encoder log2n log2p = record {
  fixed_bits = log2p;
  bytes = set (set (replicate 512 0) 0 log2n) 1 log2p;
  datalen = 512;
  offset = 1;
  bit = 8;
  last = 0;
}

-- Whether the pool has memory for so many bytes is `alloc`.
module _ (alloc : ℕ → Bool) where
  -- The loop over the sorted hashes, which leaves out one that is as the one before, `prev`. What
  -- gset_encode_next returns is not looked at.
  unfoldable pub encode_hashes : Option ℕ → List ℕ → Encoder → Encoder
  encode_hashes prev [] e = e
  encode_hashes none (h ∷ hs) e = encode_hashes (some h) hs (gset_encode_next alloc e h).1
  encode_hashes (some p) (h ∷ hs) e =
      encode_hashes (some h) hs (if h == p then e else (gset_encode_next alloc e h).1)

-- The C library's qsort is a parameter, and so is the size of the block that the pool gives for so
-- many bytes, `block`.
module _ (alloc : ℕ → Bool) (block : ℕ → ℕ) (qsort : List ℕ → List ℕ) where
  abbrev finished : Encoder → Option (Status × List ℕ)
  finished e = some (success, take (suc e.offset) e.bytes)

  -- The status and the bytes, with log2n and log2p of the header. The code asks for a byte for each
  -- hash and writes 8 of them; `none` is a write behind the block, after which C says nothing.
  unfoldable pub digest_with : Diary → Option Text → ℕ → ℕ → Option (Status × List ℕ)
  digest_with d authority log2n log2p =
      let e0 = new_encoder log2n log2p in
      let delta_bits = d.mask_bits - (log2n + log2p) in
      let hashes = map (λ h. h / 2 ^ delta_bits) (entries d) in
      if not (wanted authority d.authority)
      then finished e0
      else if ltb (block d.nelts) (8 * d.nelts)
      then none
      else finished (encode_hashes alloc none (qsort hashes) e0)

  unfoldable pub h2_push_diary_digest_get : Diary → ℕ → Option Text → Option (Status × List ℕ)
  h2_push_diary_digest_get d max_p authority = elim (digest_bits d max_p) [
    | none ↦ none
    | some bits ↦ digest_with d authority bits.0 bits.1
  ]

-- At most `n` rounds of decoding, up to the first that fails.
unfoldable pub store_all : ℕ → Diary → Decoder → Diary
store_all zero d dec = d
store_all (suc n) d dec = elim (gset_decode_next dec) [
  | none ↦ d
  | some r ↦ let (hash, dec') = r in store_all n (h2_push_diary_append d hash) dec'
]

-- The authority of a diary that a digest is set into.
unfoldable pub set_authority : Option Text → Option Text → Option Text
set_authority held none = none
set_authority held (some a) =
    if text_eq star a
    then none
    else elim held [ none ↦ some a | some h ↦ if text_eq h a then some h else some a ]

unfoldable pub new_decoder : List ℕ → ℕ → Decoder
new_decoder bytes log2p = record {
  log2p = log2p;
  bytes = bytes;
  datalen = length bytes;
  offset = 1;
  bit = 8;
  last_val = 0;
}

-- With N known: how many entries the diary may hold, and the loop.
unfoldable pub set_rounds : Diary → List ℕ → ℕ → ℕ → Status × Diary
set_rounds d bytes log2p n =
    if n == 0
    then (success, record d { n = d.n_max })
    else (let n1 = if ltb d.n_max n then d.n_max else n in
        (success, store_all n1 (record d { n = n1 }) (new_decoder bytes log2p)))

-- Behind the header that says log2n and log2p. `none` is a negative N, which only an undefined shift
-- gives: the call succeeds, and a diary is left that has room for less than no entry.
unfoldable pub set_behind : (ℕ → ℤ) → Diary → Option Text → List ℕ → ℕ → ℕ → Option (Status × Diary)
set_behind shl d authority bytes log2n log2p =
    let d1 = record d { mask_bits = log2n + log2p } in
    let d2 = record d1 { nelts = 0; authority = set_authority d.authority authority } in
    if ltb 64 (log2n + log2p) then some (enotimpl, d1) else elim (h2_log2inv shl (log2n + log2p)) [
      | negsuc k ↦ none
      | pos n ↦ some (set_rounds d2 bytes log2p n)
    ]

unfoldable pub h2_push_diary_digest_set :
    (ℕ → ℤ) → Diary → Option Text → List ℕ → Option (Status × Diary)
h2_push_diary_digest_set shl d authority bytes =
    if ltb (length bytes) 2
    then some (einval, d)
    else set_behind shl d authority bytes (get_or bytes 0 0) (get_or bytes 1 0)

-- The memory that the text is decoded into is of zeros, and one byte longer than the text.
unfoldable pub h2_push_diary_digest64_set :
    (ℕ → ℤ) → Diary → Option Text → Text → Option (Status × Diary)
h2_push_diary_digest64_set shl d authority data64url =
    let (bytes, len) = h2_util_base64url_decode data64url in
    h2_push_diary_digest_set shl d authority
      (take len (bytes ++ replicate (suc (length data64url)) 0))
