-- ===== src/Util/Base64/RoundTrip.antt =====
-- That h2_util_base64url_decode of mod_http2/h2_util.c takes back h2_util_base64url_encode.
use mod_h.Prelude.{
  ℕ, ◌+◌, ◌*◌, ◌/◌, ◌%◌, ◌<◌, ◌≡◌, refl, sym, ap, ap₂, ◌∙◌, Bool, true, false, List, [], ◌∷◌,
  Option, none, some, All, arith, length, get_or, passes, passes_at, ◌==◌, if◌then◌else◌,
}
use native.Mathlib.Nat.{mod-mod}
use mod_h.Util.Base64.{
  base64url_chars, base64url_char, base64url_uint6, values, decode_values, decoded_length,
  h2_util_base64url_decode, h2_util_base64url_encode,
}

is_value : Option ℕ → ℕ → Bool
is_value none x = false
is_value (some v) x = v == x

is_value_lem : (o : Option ℕ) (x : ℕ) → is_value o x ≡ true → o ≡ some x
unfolding is_value
is_value_lem none x h = absurd (ground (arith, h))
is_value_lem (some v) x h = ap some (ground (arith, h))

chars_table : passes (λ x. is_value (base64url_uint6 (base64url_char x)) x) 64 ≡ true
unfolding passes is_value base64url_uint6
chars_table = refl

char_lem : (x : ℕ) → base64url_uint6 (base64url_char x) ≡ some (x % 64)
char_lem x =
    ap (λ y. base64url_uint6 (get_or base64url_chars y 0)) (sym (mod-mod x 64))
    ∙ is_value_lem (base64url_uint6 (base64url_char (x % 64))) (x % 64) (
        passes_at (λ x. is_value (base64url_uint6 (base64url_char x)) x) 64 (x % 64) (omega arith)
          chars_table)

-- The values of a text that starts with a character of the alphabet.
values-cons : (x : ℕ) (cs : List ℕ) → values (base64url_char x ∷ cs) ≡ x % 64 ∷ values cs
unfolding values
values-cons x cs = ap more (char_lem x)
  where
    more : Option ℕ → List ℕ
    more none = []
    more (some v) = v ∷ values cs

-- The sixes of bits of the data.
sixes : List ℕ → List ℕ
sixes (a ∷ b ∷ c ∷ more) =
    a / 4 % 64 ∷ (a * 16 + b / 16) % 64 ∷ (b * 4 + c / 64) % 64 ∷ c % 64 ∷ sixes more
sixes (a ∷ b ∷ []) = a / 4 % 64 ∷ (a * 16 + b / 16) % 64 ∷ b * 4 % 64 ∷ []
sixes (a ∷ []) = a / 4 % 64 ∷ a * 16 % 64 ∷ []
sixes [] = []

no_values : values [] ≡ []
unfolding values
no_values = refl

values-encode : (bytes : List ℕ) → values (h2_util_base64url_encode bytes) ≡ sixes bytes
unfolding sixes h2_util_base64url_encode
values-encode (a ∷ b ∷ c ∷ more) =
    rw
      (
        values-cons (a / 4) (
            base64url_char (a * 16 + b / 16)
            ∷ base64url_char (b * 4 + c / 64)
            ∷ base64url_char c
            ∷ h2_util_base64url_encode more),
        values-cons (a * 16 + b / 16)
            (base64url_char (b * 4 + c / 64) ∷ base64url_char c ∷ h2_util_base64url_encode more),
        values-cons (b * 4 + c / 64) (base64url_char c ∷ h2_util_base64url_encode more),
        values-cons c (h2_util_base64url_encode more),
        values-encode more,
      )
      refl
values-encode (a ∷ b ∷ []) =
    rw
      (
        values-cons (a / 4) (base64url_char (a * 16 + b / 16) ∷ base64url_char (b * 4) ∷ []),
        values-cons (a * 16 + b / 16) (base64url_char (b * 4) ∷ []),
        values-cons (b * 4) [],
        no_values,
      )
      refl
values-encode (a ∷ []) =
    rw (values-cons (a / 4) (base64url_char (a * 16) ∷ []), values-cons (a * 16) [], no_values) refl
values-encode [] = no_values

decode-sixes : (bytes : List ℕ) → All (λ b. b < 256) bytes → decode_values (sixes bytes) ≡ bytes
unfolding sixes decode_values
decode-sixes (a ∷ b ∷ c ∷ more) h = ap₂ ◌∷◌ (omega (arith, h.0, h.1.0, h.1.1.0)) (
    ap₂ ◌∷◌ (omega (arith, h.0, h.1.0, h.1.1.0))
      (ap₂ ◌∷◌ (omega (arith, h.0, h.1.0, h.1.1.0)) (decode-sixes more h.1.1.1)))
decode-sixes (a ∷ b ∷ []) h =
    ap₂ (λ x y. x ∷ y ∷ []) (omega (arith, h.0, h.1.0)) (omega (arith, h.0, h.1.0))
decode-sixes (a ∷ []) h = ap (λ x. x ∷ []) (omega (arith, h.0))
decode-sixes [] h = refl

length-sixes : (bytes : List ℕ) → decoded_length (length (sixes bytes)) ≡ length bytes
unfolding sixes decoded_length
length-sixes (a ∷ b ∷ c ∷ more) = ground (arith, length-sixes more)
length-sixes (a ∷ b ∷ []) = refl
length-sixes (a ∷ []) = refl
length-sixes [] = refl

-- Decoding takes back encoding: the bytes are those that were encoded, and the length is their
-- number. Condition: they are bytes.
pub decode-encode :
    (bytes : List ℕ)
    → All (λ b. b < 256) bytes
    → h2_util_base64url_decode (h2_util_base64url_encode bytes) ≡ (bytes, length bytes)
unfolding h2_util_base64url_decode
decode-encode bytes h =
    ap (λ vs. (decode_values vs, decoded_length (length vs))) (values-encode bytes)
    ∙ ap₂ (λ x y. (x, y)) (decode-sixes bytes h) (length-sixes bytes)

length-decode_values :
    (vs : List ℕ)
    → decoded_length (length vs) ≡ length (decode_values vs) + (if length vs % 4 == 1 then 1 else 0)
unfolding decode_values decoded_length
length-decode_values (a ∷ b ∷ c ∷ d ∷ vs) = ground (arith, length-decode_values vs)
length-decode_values (a ∷ b ∷ c ∷ []) = refl
length-decode_values (a ∷ b ∷ []) = refl
length-decode_values (a ∷ []) = refl
length-decode_values [] = refl

-- The length that decoding returns is the number of bytes written, but for a text whose characters
-- leave a remainder of one, where it is one more.
pub decode-length :
    (encoded : List ℕ)
    → (h2_util_base64url_decode encoded).1
      ≡ length (h2_util_base64url_decode encoded).0
        + (if length (values encoded) % 4 == 1 then 1 else 0)
unfolding h2_util_base64url_decode
decode-length encoded = length-decode_values (values encoded)
