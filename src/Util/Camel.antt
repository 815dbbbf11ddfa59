-- ===== src/Util/Camel.antt =====
-- h2_util_camel_case_header of mod_http2/h2_util.c, on the bytes of a header's name.
use mod_h.Prelude.{
  ℕ, ◌-◌, ◌≡◌, refl, ap₂, Bool, true, false, [], ◌∷◌, map, arith, leb, ◌==◌, ◌&&◌, if◌then◌else◌,
}
use mod_h.Apr.{Text}

-- s[i] >= 'a' && s[i] <= 'z'
abbrev is_lower : ℕ → Bool
is_lower c = leb 97 c && leb c 122

abbrev pub upper : ℕ → ℕ
upper c = if is_lower c then c - 32 else c

-- The loop, with `start`.
unfoldable pub camel_from : Bool → Text → Text
camel_from start [] = []
camel_from true (c ∷ cs) = upper c ∷ camel_from false cs
camel_from false (c ∷ cs) = c ∷ camel_from (c == 45) cs

unfoldable pub camel_case_header : Text → Text
unfolding camel_from
camel_case_header = camel_from true

upper_again : (c : ℕ) → upper (upper c) ≡ upper c
upper_again c = ground arith

camel_from-twice :
    (start : Bool) (s : Text) → camel_from start (camel_from start s) ≡ camel_from start s
unfolding camel_from
camel_from-twice start [] = refl
camel_from-twice true (c ∷ cs) = ap₂ ◌∷◌ (upper_again c) (camel_from-twice false cs)
camel_from-twice false (c ∷ cs) = ap₂ ◌∷◌ refl (camel_from-twice (c == 45) cs)

camel_from-upper : (start : Bool) (s : Text) → map upper (camel_from start s) ≡ map upper s
unfolding camel_from
camel_from-upper start [] = refl
camel_from-upper true (c ∷ cs) = ap₂ ◌∷◌ (upper_again c) (camel_from-upper false cs)
camel_from-upper false (c ∷ cs) = ap₂ ◌∷◌ refl (camel_from-upper (c == 45) cs)

-- h2_util_camel_case_header changes the case of letters only, so that the result is the same header
-- name, and a second pass changes nothing.
pub camel_case_header_lem :
    (s : Text)
    → (map upper (camel_case_header s) ≡ map upper s)
      × (camel_case_header (camel_case_header s) ≡ camel_case_header s)
unfolding camel_case_header
camel_case_header_lem s = (camel_from-upper true s, camel_from-twice true s)
