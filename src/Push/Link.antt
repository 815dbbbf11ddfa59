-- ===== src/Push/Link.antt =====
-- Link headers, mod_http2/h2_push.c: inspect_link and the pushes that h2_push_collect makes of them.
-- The text of a link_ctx from its place `i` on is the argument of the readers, and what they return
-- besides a result is the text from the new place on; NULL and 0 are `none`.
pub mod Printed
use mod_h.Prelude.{
  ℕ, zero, suc, ◌+◌, Bool, true, false, not, ◌&&◌, ◌||◌, List, [], ◌∷◌, ◌++◌, length, Option, none,
  some, if◌then◌else◌, leb, ◌==◌,
}
use mod_h.Prelude.Int.{ℤ, pos}
use mod_h.Apr.{Text}
use mod_h.Session.Priority.{Priority, dependant_before}
use mod_h.Apr.{same_text, same_case}
use mod_h.Request.{Tables, Request, h2_req_create, h2_request_end_headers}

-- apr_isalnum, of ASCII.
abbrev is_alnum : ℕ → Bool
is_alnum c = leb b'0' c && leb c b'9' || leb b'A' c && leb c b'Z' || leb b'a' c && leb c b'z'

abbrev is_any : List ℕ → ℕ → Bool
is_any [] c = false
is_any (x ∷ xs) c = c == x || is_any xs c

unfoldable pub attr_char : ℕ → Bool
attr_char c =
    is_any (33 ∷ 35 ∷ 36 ∷ 38 ∷ 43 ∷ 45 ∷ 46 ∷ 94 ∷ 95 ∷ 96 ∷ 124 ∷ 126 ∷ []) c || is_alnum c

unfoldable pub ptoken_char : ℕ → Bool
ptoken_char c =
    is_any
      (33 ∷ 35 ∷ 36 ∷ 38 ∷ 39 ∷ 40 ∷ 41 ∷ 42 ∷ 43 ∷ 45 ∷ 46 ∷ 47 ∷ 58 ∷ 60 ∷ 61 ∷ 62 ∷ 63 ∷ 64 ∷ 91
        ∷ 93 ∷ 94 ∷ 95 ∷ 96 ∷ 123 ∷ 124 ∷ 125 ∷ 126 ∷ [])
      c
    || is_alnum c

abbrev pub is_ws : ℕ → Bool
is_ws c = c == 32 || c == 9

unfoldable pub skip_ws : Text → Text
skip_ws [] = []
skip_ws (c ∷ s) = if is_ws c then skip_ws s else c ∷ s

-- Whether the character is there, and the text behind it.
unfoldable pub read_chr : ℕ → Text → Bool × Text
read_chr c [] = (false, [])
read_chr c (x ∷ s) = if x == c then (true, s) else (false, x ∷ s)

-- find_chr with mk_str: what stands before the character, and behind it.
unfoldable pub find_chr : ℕ → Text → Option (Text × Text)
find_chr c [] = none
find_chr c (x ∷ s) =
    let rest = find_chr c s in
    if x == c then some ([], s) else elim rest [ none ↦ none | some (a, b) ↦ some (x ∷ a, b) ]

-- The characters in front that satisfy a test, and the others.
unfoldable pub span : (ℕ → Bool) → Text → Text × Text
span p [] = ([], [])
span p (c ∷ s) = let (a, b) = span p s in if p c then (c ∷ a, b) else ([], c ∷ s)

-- What stands between two characters; without the second one the first is behind all the same.
unfoldable pub read_between : ℕ → ℕ → Text → Option Text × Text
read_between from to t =
    let (found, s) = read_chr from (skip_ws t) in
    if found
    then elim (find_chr to s) [ none ↦ (none, s) | some (a, b) ↦ (some a, b) ]
    else (none, s)

unfoldable pub read_qstring : Text → Option Text × Text
read_qstring t = read_between 34 34 t

unfoldable pub read_link : Text → Option Text × Text
read_link t = read_between b'<' b'>' t

unfoldable pub some_token : Text × Text → Option Text × Text
some_token ([], s) = (none, s)
some_token (c ∷ a, s) = (some (c ∷ a), s)

unfoldable pub read_ptoken : Text → Option Text × Text
unfolding some_token
read_ptoken t = some_token (span ptoken_char (skip_ws t))

unfoldable pub read_pname : Text → Option Text × Text
unfolding some_token
read_pname t = some_token (span attr_char (skip_ws t))

unfoldable pub quoted_or_token : Option Text × Text → Option Text × Text
quoted_or_token (some v, s) = (some v, s)
quoted_or_token (none, s) = read_ptoken s

unfoldable pub read_pvalue : Text → Option Text × Text
read_pvalue t =
    let (found, s) = read_chr b'=' (skip_ws t) in
    if found then quoted_or_token (read_qstring s) else (none, s)

abbrev pub or_empty : Option Text → Text
or_empty none = []
or_empty (some v) = v

-- The name and the value, which is optional.
unfoldable pub with_value : Option Text × Text → Option (Text × Text) × Text
with_value (none, s) = (none, s)
with_value (some name, s) = let (v, rest) = read_pvalue s in (some (name, or_empty v), rest)

unfoldable pub read_param : Text → Option (Text × Text) × Text
read_param t =
    let (found, s) = read_chr b';' (skip_ws t) in
    if found then with_value (read_pname s) else (none, s)

unfoldable pub read_sep : Text → Bool × Text
read_sep t = read_chr b',' (skip_ws t)

abbrev pub text_rel : Text
text_rel = b'r' ∷ b'e' ∷ b'l' ∷ []

abbrev pub text_preload : Text
text_preload = b'p' ∷ b'r' ∷ b'e' ∷ b'l' ∷ b'o' ∷ b'a' ∷ b'd' ∷ []

abbrev pub text_nopush : Text
text_nopush = b'n' ∷ b'o' ∷ b'p' ∷ b'u' ∷ b's' ∷ b'h' ∷ []

abbrev pub text_critical : Text
text_critical = b'c' ∷ b'r' ∷ b'i' ∷ b't' ∷ b'i' ∷ b'c' ∷ b'a' ∷ b'l' ∷ []

-- Whether a text begins with another, and what stands behind that.
unfoldable pub after_prefix : Text → Text → Option Text
after_prefix [] t = some t
after_prefix (a ∷ s) [] = none
after_prefix (a ∷ s) (b ∷ t) = if a == b then after_prefix s t else none

-- ap_strstr_c: the character before the first place, 32 in front of all, and what stands behind.
unfoldable pub strstr : ℕ → Text → Text → Option (ℕ × Text)
strstr before rel [] = elim (after_prefix rel []) [ none ↦ none | some t ↦ some (before, t) ]
strstr before rel (c ∷ s) =
    let later = strstr c rel s in
    elim (after_prefix rel (c ∷ s)) [ none ↦ later | some t ↦ some (before, t) ]

-- The end of a text or a blank.
abbrev pub ends_word : Text → Bool
ends_word [] = true
ends_word (c ∷ s) = c == 32

unfoldable pub holds_relation : Text → Text → Bool
unfolding strstr
holds_relation rel val =
    if same_text rel val
    then true
    else elim (strstr 32 rel val) [ none ↦ false | some (c, t) ↦ c == 32 && ends_word t ]

-- h2_push_policy.
pub data Policy : Type 0 where
  push_none push_default push_head push_fast_load : Policy

pub record Uri : Type 0 where
  pub scheme : Option Text
  pub hostinfo : Option Text
  pub path : Option Text

pub record Push (T : Type 0) : Type 0 where
  pub req : Request T
  pub priority : Option Priority

abbrev pub is_set : {A : Type 0} → Option A → Bool
is_set none = false
is_set (some a) = true

-- The address is what may be missing on the left, and the request on the right.
abbrev differs : (Text → Bool) → Option Text → Option Text → Bool
differs null none x = false
differs null (some s) none = null s
differs null (some s) (some t) = not (same_text s t)

abbrev text_get : Text
text_get = b'G' ∷ b'E' ∷ b'T' ∷ []

abbrev text_head : Text
text_head = b'H' ∷ b'E' ∷ b'A' ∷ b'D' ∷ []

abbrev pub method_of : Policy → Text
method_of push_head = text_head
method_of _ = text_get

-- Without an authority of the request the code gives strcmp a NULL, which C leaves undefined: `null`
-- is whether that answers with a difference. h2_request_end_headers lets no request pass without one.
unfoldable pub same_authority : (Text → Bool) → Text → Option Text → Uri → Bool
same_authority null scheme authority uri =
    if differs null uri.scheme (some scheme)
    then false
    else not (differs null uri.hostinfo authority)
