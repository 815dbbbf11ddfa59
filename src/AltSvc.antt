-- ===== src/AltSvc.antt =====
-- Alternative services: mod_http2/h2_alt_svc.c. A text is a list of bytes, without the 0 byte at its
-- end.
pub mod Laws
pub mod Examples
use mod_h.Prelude.{
  ℕ, ◌≡◌, Bool, true, false, not, ◌||◌, ◌&&◌, List, [], ◌∷◌, ◌++◌, Option, none, some,
  if◌then◌else◌, ltb, ◌==◌, ◌^◌,
}
use mod_h.Prelude.Int.{ℤ, pos, negsuc}
use mod_h.Apr.{Text}

-- h2_alt_svc; a host that is NULL is `none`.
pub record AltSvc : Type 0 where
  pub alpn : Text
  pub host : Option Text
  pub port : ℕ

-- ap_strchr_c: what stands before the first `c`, and what stands behind it.
unfoldable pub split_at : ℕ → Text → Option (Text × Text)
split_at c [] = none
split_at c (x ∷ s) =
    let rest = split_at c s in
    if x == c then some ([], s) else elim rest [ none ↦ none | some (a, b) ↦ some (x ∷ a, b) ]

unfoldable pub optional_host : Text → Option Text
optional_host [] = none
optional_host (c ∷ s) = some (c ∷ s)

-- The text behind the colon; `port` is apr_atoi64 cut to an int.
unfoldable pub with_port : Text → Option Text → ℤ → Text → Option AltSvc
with_port alpn host port [] = none
with_port alpn host (negsuc n) (c ∷ s) = none
with_port alpn host (pos n) (c ∷ s) =
    if ltb 0 n && ltb n (2 ^ 16) then some record { alpn = alpn; host = host; port = n } else none

-- `atoi` is apr_atoi64, cut to an int.
module _ (atoi : Text → ℤ) where
  unfoldable pub parse_host : Text → Text → Option AltSvc
  parse_host alpn s = elim (split_at b':' s) [
    | none ↦ none
    | some (h, port) ↦ with_port alpn (optional_host h) (atoi port) port
  ]

  unfoldable pub h2_alt_svc_parse : Text → Option AltSvc
  h2_alt_svc_parse s = elim (split_at b'=' s) [
    | none ↦ none
    | some (alpn, rest) ↦ parse_host alpn rest
  ]

-- The text of a number, by printf, is an argument `show`; `same` is !apr_strnatcasecmp.
module _ (show : ℕ → Text) (same : Text → Text → Bool) where
  -- The host that is written: none for the host of the request.
  unfoldable pub other_host : Text → AltSvc → Option Text
  other_host hostname svc = elim svc.host [
    | none ↦ none
    | some h ↦ if same h hostname then none else some h
  ]

  abbrev pub text_or_empty : Option Text → Text
  text_or_empty none = []
  text_or_empty (some s) = s

  -- One service: alpn="host:port", and the maximal age.
  abbrev pub entry : Text → Text → AltSvc → Text
  entry hostname svc_ma svc =
      svc.alpn
      ++ (61
          ∷ 34
          ∷ (text_or_empty (other_host hostname svc) ++ (58 ∷ (show svc.port ++ (34 ∷ svc_ma)))))

  abbrev comma : Text → Text
  comma [] = []
  comma (c ∷ s) = 44 ∷ 32 ∷ []

  abbrev is_none : Option Text → Bool
  is_none none = true
  is_none (some h) = false

  -- The services that a request may be told: on an insecure connection those of its own host.
  abbrev pub may_tell : Bool → Text → AltSvc → Bool
  may_tell secure hostname svc = secure || is_none (other_host hostname svc)

  -- The loop over alt_svcs, with the text so far.
  unfoldable pub alt_svc_text : Bool → Text → Text → Text → List AltSvc → Text
  alt_svc_text secure hostname svc_ma text [] = text
  alt_svc_text secure hostname svc_ma text (svc ∷ svcs) =
      alt_svc_text secure hostname svc_ma
        (if may_tell secure hostname svc
          then text ++ (comma text ++ entry hostname svc_ma svc)
          else text)
        svcs

  -- "; ma=%d", for an age that is not negative.
  unfoldable pub max_age : ℤ → Text
  max_age (pos n) = 59 ∷ 32 ∷ 109 ∷ 97 ∷ 61 ∷ show n
  max_age (negsuc n) = []

  abbrev non_empty : Text → Option Text
  non_empty [] = none
  non_empty (c ∷ s) = some (c ∷ s)

  -- The Alt-Svc header that the handler sets. `first` is whether the request is the first of its
  -- connection, `h2` whether it came by HTTP/2, `used` the header Alt-Svc-Used.
  unfoldable pub h2_alt_svc_handler :
      Bool → Bool → Bool → ℤ → Option Text → Option (List AltSvc) → Option Text → Option Text
  h2_alt_svc_handler first h2 secure ma (some hostname) (some svcs) none =
      if not first || h2
      then none
      else non_empty (alt_svc_text secure hostname (max_age ma) [] svcs)
  h2_alt_svc_handler first h2 secure ma hostname svcs used = none
