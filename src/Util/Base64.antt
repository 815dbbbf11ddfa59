-- ===== src/Util/Base64.antt =====
-- The base64 of URLs: mod_http2/h2_util.c, h2_util_base64url_decode and h2_util_base64url_encode.
-- Text and data are lists of bytes, each below 256.
pub mod RoundTrip
use mod_h.Prelude.{
  ℕ, zero, suc, ◌+◌, ◌-◌, ◌*◌, ◌/◌, ◌%◌, ◌≡◌, Bool, true, false, ◌||◌, ◌&&◌, List, [], ◌∷◌, ◌++◌,
  get_or, if◌then◌else◌, leb, ltb, ◌==◌, length, Option, none, some, not,
}

-- BASE64URL_CHARS.
abbrev pub base64url_chars : List ℕ
base64url_chars =
    65 ∷ 66 ∷ 67 ∷ 68 ∷ 69 ∷ 70 ∷ 71 ∷ 72 ∷ 73 ∷ 74 ∷ 75 ∷ 76 ∷ 77 ∷ 78 ∷ 79 ∷ 80 ∷ 81 ∷ 82 ∷ 83
    ∷ 84 ∷ 85 ∷ 86 ∷ 87 ∷ 88 ∷ 89 ∷ 90 ∷ 97 ∷ 98 ∷ 99 ∷ 100 ∷ 101 ∷ 102 ∷ 103 ∷ 104 ∷ 105 ∷ 106
    ∷ 107 ∷ 108 ∷ 109 ∷ 110 ∷ 111 ∷ 112 ∷ 113 ∷ 114 ∷ 115 ∷ 116 ∷ 117 ∷ 118 ∷ 119 ∷ 120 ∷ 121 ∷ 122
    ∷ 48 ∷ 49 ∷ 50 ∷ 51 ∷ 52 ∷ 53 ∷ 54 ∷ 55 ∷ 56 ∷ 57 ∷ 45 ∷ 95 ∷ 32 ∷ 32 ∷ 32 ∷ 32 ∷ 32 ∷ 32 ∷ []

-- BASE64URL_CHAR: the lowest six bits.
abbrev pub base64url_char : ℕ → ℕ
base64url_char x = get_or base64url_chars (x % 64) 0

-- BASE64URL_UINT6, by its ranges; N6 is `none`.
unfoldable pub base64url_uint6 : ℕ → Option ℕ
base64url_uint6 c =
    if c == 45
    then some 62
    else if c == 95
    then some 63
    else if leb 48 c && leb c 57
    then some (c + 4)
    else if leb 65 c && leb c 90
    then some (c - 65)
    else if leb 97 c && leb c 122
    then some (c - 71)
    else none

-- The values up to the first byte that is none; a 0 byte is none.
unfoldable pub values : List ℕ → List ℕ
values [] = []
values (c ∷ cs) = let rest = values cs in elim (base64url_uint6 c) [ none ↦ [] | some v ↦ v ∷ rest ]

-- The bytes that are written: three for each four, and one or two for the remainder.
unfoldable pub decode_values : List ℕ → List ℕ
decode_values (a ∷ b ∷ c ∷ d ∷ vs) =
    let n = a * 262144 + b * 4096 + c * 64 + d in
    n / 65536 % 256 ∷ n / 256 % 256 ∷ n % 256 ∷ decode_values vs
decode_values (a ∷ b ∷ c ∷ []) =
    let n = a * 262144 + b * 4096 + c * 64 in n / 65536 % 256 ∷ n / 256 % 256 ∷ []
decode_values (a ∷ b ∷ []) = let n = a * 262144 + b * 4096 in n / 65536 % 256 ∷ []
decode_values _ = []

-- What is returned of `len` values: a remainder of one is not changed.
unfoldable pub decoded_length : ℕ → ℕ
decoded_length len =
    let remain = len % 4 in
    len / 4 * 3 + (if remain == 2 then 1 else if remain == 3 then 2 else remain)

-- The bytes and the length that is returned.
unfoldable pub h2_util_base64url_decode : List ℕ → List ℕ × ℕ
h2_util_base64url_decode encoded =
    let vs = values encoded in (decode_values vs, decoded_length (length vs))

-- The characters in front of the 0 at the end.
unfoldable pub h2_util_base64url_encode : List ℕ → List ℕ
h2_util_base64url_encode (a ∷ b ∷ c ∷ more) =
    base64url_char (a / 4)
    ∷ base64url_char (a * 16 + b / 16)
    ∷ base64url_char (b * 4 + c / 64)
    ∷ base64url_char c
    ∷ h2_util_base64url_encode more
h2_util_base64url_encode (a ∷ b ∷ []) =
    base64url_char (a / 4) ∷ base64url_char (a * 16 + b / 16) ∷ base64url_char (b * 4) ∷ []
h2_util_base64url_encode (a ∷ []) = base64url_char (a / 4) ∷ base64url_char (a * 16) ∷ []
h2_util_base64url_encode [] = []
