-- ===== src/AltSvc/Examples.antt =====
-- Alternative services in directives and in headers: mod_http2/h2_alt_svc.c.
use mod_h.Prelude.{ℕ, ◌≡◌, refl, false, [], ◌∷◌, ◌++◌, none, some, ◌==◌, if◌then◌else◌, arith}
use mod_h.Prelude.Int.{ℤ, pos, negsuc}
use mod_h.Apr.{Text}
use mod_h.AltSvc.{AltSvc, h2_alt_svc_parse, alt_svc_text}
use mod_h.AltSvc.Laws.{parse_print, joined, entries, alt_svc_text_lem}
use mod_h.Apr.{same_text}

abbrev atoi : Text → ℤ
atoi s = if same_text s (52 ∷ 52 ∷ 51 ∷ []) then pos 443 else negsuc 0

abbrev show : ℕ → Text
show n = if n == 443 then 52 ∷ 52 ∷ 51 ∷ [] else 56 ∷ 49 ∷ []

abbrev text_h2 : Text
text_h2 = b'h' ∷ b'2' ∷ []

-- h2=:443 and h2=b:81.
abbrev own : AltSvc
own = record { alpn = text_h2; host = none; port = 443 }

abbrev other : AltSvc
other = record { alpn = text_h2; host = some (b'b' ∷ []); port = 81 }

parse_print_example :
    h2_alt_svc_parse atoi (text_h2 ++ 61 ∷ ([] ++ 58 ∷ 52 ∷ 52 ∷ 51 ∷ [])) ≡ some own
parse_print_example =
    parse_print atoi own [] (52 ∷ 51 ∷ []) 52 (refl, (refl, tt)) refl tt refl (omega arith)
      (omega arith)

-- On an insecure connection to host a, the service of host b is not told.
alt_svc_text_lem_example :
    alt_svc_text show same_text false (b'a' ∷ []) [] [] (other ∷ own ∷ [])
    ≡ joined (entries show same_text false (b'a' ∷ []) [] (other ∷ own ∷ []))
alt_svc_text_lem_example = alt_svc_text_lem show same_text false (b'a' ∷ []) [] (other ∷ own ∷ [])
