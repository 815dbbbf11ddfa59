-- ===== src/Push/Link/Printed.antt =====
-- Link headers in print, as the readers of mod_http2/h2_push.c take them in.
use mod_h.Prelude.{
  ℕ, ◌≡◌, refl, ap, ◌∙◌, Bool, true, false, ◌||◌, List, [], ◌∷◌, ◌++◌, All, Option, none, some,
  if◌then◌else◌, ◌==◌, arith,
}
use mod_h.Apr.{Text}
use mod_h.Push.Link.{
  is_ws, attr_char, ptoken_char, skip_ws, read_chr, find_chr, span, read_between, read_qstring,
  read_link, some_token, read_ptoken, read_pname, quoted_or_token, read_pvalue, or_empty,
  with_value, read_param, read_sep,
}

-- A value is missing, a token, or in quotes.
pub data Value : Type 0 where
  bare : Value
  token quoted : Text → Value

abbrev pub value_of : Value → Text
value_of bare = []
value_of (token v) = v
value_of (quoted v) = v

abbrev pub Param : Type 0
Param = Text × Value

-- In front of what follows.
abbrev pub put_value : Value → Text → Text
put_value bare rest = rest
put_value (token v) rest = 61 ∷ v ++ rest
put_value (quoted v) rest = 61 ∷ 34 ∷ v ++ 34 ∷ rest

abbrev pub put_param : Param → Text → Text
put_param (name, v) rest = 59 ∷ 32 ∷ name ++ put_value v rest

abbrev pub put_params : List Param → Text → Text
put_params [] rest = rest
put_params (p ∷ ps) rest = put_param p (put_params ps rest)

-- A word of characters that satisfy a test, one at least.
abbrev pub IsWord : (ℕ → Bool) → Text → Type 0
IsWord p [] = ⊥
IsWord p (c ∷ s) = All (λ x. p x ≡ true) (c ∷ s)

abbrev pub Lacks : ℕ → Text → Type 0
Lacks c s = All (λ x. (x == c) ≡ false) s

abbrev pub IsValue : Value → Type 0
IsValue bare = Unit
IsValue (token v) = IsWord ptoken_char v
IsValue (quoted v) = Lacks 34 v

abbrev pub IsParam : Param → Type 0
IsParam (name, v) = IsWord attr_char name × IsValue v

-- What may follow a parameter.
abbrev pub Ends : Text → Type 0
Ends [] = Unit
Ends (c ∷ s) = (c == 59 || c == 44) ≡ true

abbrev Stops : (ℕ → Bool) → Text → Type 0
Stops p [] = Unit
Stops p (c ∷ s) = p c ≡ false

skip_ws-Ends : (s : Text) → Ends s → skip_ws s ≡ s
unfolding skip_ws
skip_ws-Ends [] h = refl
skip_ws-Ends (c ∷ s) h = ground (arith, h)

attr-Ends : (s : Text) → Ends s → Stops attr_char s
unfolding attr_char
attr-Ends [] h = tt
attr-Ends (c ∷ s) h = ground (arith, h)

ptoken-Ends : (s : Text) → Ends s → Stops ptoken_char s
unfolding ptoken_char
ptoken-Ends [] h = tt
ptoken-Ends (c ∷ s) h = ground (arith, h)

pub span_word :
    (p : ℕ → Bool) (v rest : Text)
    → All (λ x. p x ≡ true) v
    → Stops p rest
    → span p (v ++ rest) ≡ (v, rest)
unfolding span
span_word p [] [] h k = refl
span_word p [] (c ∷ rest) h k =
    ap (λ b. if b then (c ∷ (span p rest).0, (span p rest).1) else ([], c ∷ rest)) k
span_word p (c ∷ v) rest h k =
    ap
      (λ b.
        if b then (c ∷ (span p (v ++ rest)).0, (span p (v ++ rest)).1) else ([], c ∷ (v ++ rest)))
      h.0
    ∙ ap (λ r. (c ∷ r.0, r.1)) (span_word p v rest h.1 k)

pub find_first : (c : ℕ) (a b : Text) → Lacks c a → find_chr c (a ++ c ∷ b) ≡ some (a, b)
unfolding find_chr
find_first c [] b h = ground (arith)
find_first c (x ∷ a) b h = ground (arith, h.0, find_first c a b h.1)

skip_ws-attr : (c : ℕ) (s : Text) → attr_char c ≡ true → skip_ws (c ∷ s) ≡ c ∷ s
unfolding skip_ws attr_char
skip_ws-attr c s h = ground (arith, h)

skip_ws-ptoken : (c : ℕ) (s : Text) → ptoken_char c ≡ true → skip_ws (c ∷ s) ≡ c ∷ s
unfolding skip_ws ptoken_char
skip_ws-ptoken c s h = ground (arith, h)

read_pname_word :
    (name rest : Text)
    → IsWord attr_char name
    → Stops attr_char rest
    → read_pname (32 ∷ name ++ rest) ≡ (some name, rest)
unfolding read_pname skip_ws some_token
read_pname_word [] rest h k = absurd h
read_pname_word (c ∷ s) rest h k =
    ap (λ t. some_token (span attr_char t)) (skip_ws-attr c (s ++ rest) h.0)
    ∙ ap some_token (span_word attr_char (c ∷ s) rest h k)

read_ptoken_word :
    (v rest : Text)
    → IsWord ptoken_char v
    → Stops ptoken_char rest
    → read_ptoken (v ++ rest) ≡ (some v, rest)
unfolding read_ptoken some_token
read_ptoken_word [] rest h k = absurd h
read_ptoken_word (c ∷ s) rest h k =
    ap (λ t. some_token (span ptoken_char t)) (skip_ws-ptoken c (s ++ rest) h.0)
    ∙ ap some_token (span_word ptoken_char (c ∷ s) rest h k)

pub read_between_lem :
    (from to : ℕ) (a b : Text)
    → (skip_ws (from ∷ a ++ to ∷ b) ≡ from ∷ a ++ to ∷ b)
    → Lacks to a
    → read_between from to (from ∷ a ++ to ∷ b) ≡ (some a, b)
unfolding read_between read_chr
read_between_lem from to a b w h = ground (arith, w, find_first to a b h)

-- A token is not in quotes.
read_qstring_token :
    (v rest : Text) → IsWord ptoken_char v → read_qstring (v ++ rest) ≡ (none, v ++ rest)
unfolding read_qstring read_between read_chr skip_ws ptoken_char
read_qstring_token [] rest h = absurd h
read_qstring_token (c ∷ s) rest h = ground (arith, h.0)

value_read : Value → Option Text
value_read bare = none
value_read (token v) = some v
value_read (quoted v) = some v

read_pvalue_lem :
    (v : Value) (rest : Text)
    → IsValue v
    → Ends rest
    → read_pvalue (put_value v rest) ≡ (value_read v, rest)
unfolding read_pvalue value_read read_chr quoted_or_token skip_ws read_qstring
read_pvalue_lem bare [] h k = refl
read_pvalue_lem bare (c ∷ rest) h k = ground (arith, k)
read_pvalue_lem (token v) rest h k =
    ap quoted_or_token (read_qstring_token v rest h)
    ∙ read_ptoken_word v rest h (ptoken-Ends rest k)
read_pvalue_lem (quoted v) rest h k = ap quoted_or_token (read_between_lem 34 34 v rest refl h)

value_read_lem : (v : Value) → or_empty (value_read v) ≡ value_of v
unfolding value_read
value_read_lem bare = refl
value_read_lem (token v) = refl
value_read_lem (quoted v) = refl

-- What stands behind a name in a parameter ends it.
name-Ends : (v : Value) (rest : Text) → Ends rest → Stops attr_char (put_value v rest)
unfolding attr_char
name-Ends bare rest k = attr-Ends rest k
name-Ends (token v) rest k = refl
name-Ends (quoted v) rest k = refl

pub read_param_lem :
    (p : Param) (rest : Text)
    → IsParam p
    → Ends rest
    → read_param (put_param p rest) ≡ (some (p.0, value_of p.1), rest)
unfolding read_param read_chr skip_ws with_value
read_param_lem (name, v) rest h k =
    ap with_value (read_pname_word name (put_value v rest) h.0 (name-Ends v rest k))
    ∙ ap (λ r. (some (name, or_empty r.0), r.1)) (read_pvalue_lem v rest h.1 k)
    ∙ ap (λ x. (some (name, x), rest)) (value_read_lem v)

-- A name with a star, as in `title*=`, is read without the star.
pub read_param_star :
    (name rest : Text)
    → IsWord attr_char name
    → read_param (59 ∷ 32 ∷ name ++ 42 ∷ rest) ≡ (some (name, []), 42 ∷ rest)
unfolding read_param read_chr skip_ws with_value attr_char read_pvalue
read_param_star name rest h = ap with_value (read_pname_word name (42 ∷ rest) h refl)

-- A text that does not go on with white space or the character.
abbrev pub Blocked : ℕ → Text → Type 0
Blocked k [] = Unit
Blocked k (c ∷ s) = (is_ws c ≡ false) × ((c == k) ≡ false)

blocked_lem : (k : ℕ) (s : Text) → Blocked k s → read_chr k (skip_ws s) ≡ (false, s)
unfolding read_chr skip_ws
blocked_lem k [] h = refl
blocked_lem k (c ∷ s) h = ground (arith, h)

pub read_param-Blocked : (s : Text) → Blocked 59 s → read_param s ≡ (none, s)
unfolding read_param
read_param-Blocked s h =
    ap (λ r. if r.0 then with_value (read_pname r.1) else (none, r.1)) (blocked_lem 59 s h)

pub read_sep-Blocked : (s : Text) → Blocked 44 s → read_sep s ≡ (false, s)
unfolding read_sep
read_sep-Blocked s h = blocked_lem 44 s h

pub read_link_lem :
    (uri rest : Text) → Lacks 62 uri → read_link (60 ∷ uri ++ 62 ∷ rest) ≡ (some uri, rest)
unfolding read_link skip_ws
read_link_lem uri rest h = read_between_lem 60 62 uri rest refl h

pub read_link_blank :
    (uri rest : Text) → Lacks 62 uri → read_link (32 ∷ 60 ∷ uri ++ 62 ∷ rest) ≡ (some uri, rest)
unfolding read_link skip_ws read_between
read_link_blank uri rest h = read_link_lem uri rest h
