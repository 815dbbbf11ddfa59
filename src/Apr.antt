-- ===== src/Apr.antt =====
-- What the model shares of the Apache Portable Runtime: status codes, tables, and texts.
use mod_h.Prelude.{ℕ, ◌+◌, ◌==◌, leb, ◌&&◌, if◌then◌else◌, Bool, true, false, List, [], ◌∷◌, map}

-- apr_status_t. The codes that the source tests have a name.
pub data Status : Type 0 where
  success einval eof eagain econnreset econnaborted eexist enomem badarg egeneral timeup enotimpl :
      Status
  other : ℕ → Status

abbrev pub is_success : Status → Bool
is_success success = true
is_success _ = false

-- apr_table_t: names and values, which are texts as lists of bytes.
abbrev pub Text : Type 0
Text = List ℕ

abbrev pub Table : Type 0
Table = List (Text × Text)

abbrev pub lower : ℕ → ℕ
lower c = if leb b'A' c && leb c b'Z' then c + 32 else c

-- Whether strcmp and strcasecmp return 0; the letters are those of ASCII.
abbrev pub same_text : Text → Text → Bool
same_text [] [] = true
same_text (a ∷ s) (b ∷ t) = a == b && same_text s t
same_text _ _ = false

abbrev pub same_case : Text → Text → Bool
same_case s t = same_text (map lower s) (map lower t)
