-- ===== src/Push/Collect.antt =====
-- The pushes that a response asks for: add_push, inspect_link and h2_push_collect of
-- mod_http2/h2_push.c. The array of pushes is a list, an array that is NULL `none`.
pub mod Examples
pub mod RoundTrip
pub mod Announced
pub mod Dropped
use mod_h.Prelude.{
  ℕ, zero, suc, Bool, true, false, not, ◌&&◌, ◌||◌, List, [], ◌∷◌, ◌++◌, length, Option, none, some,
  if◌then◌else◌, ◌==◌,
}
use mod_h.Prelude.Int.{pos}
use mod_h.Apr.{Text}
use mod_h.Session.Priority.{Priority, dependant_before}
use mod_h.Apr.{same_text}
use mod_h.Request.{Tables, Request, h2_req_create, h2_request_end_headers}
use mod_h.Push.Link.{
  read_link, read_param, read_sep, holds_relation, text_rel, text_preload, text_nopush,
  text_critical, Policy, push_none, push_default, push_head, push_fast_load, Uri, Push, is_set,
  same_authority, method_of,
}

abbrev text_link : Text
text_link = b'l' ∷ b'i' ∷ b'n' ∷ b'k' ∷ []

abbrev push_policy : Text
push_policy = b'p' ∷ b'u' ∷ b's' ∷ b'h' ∷ b'-' ∷ b'p' ∷ b'o' ∷ b'l' ∷ b'i' ∷ b'c' ∷ b'y' ∷ []

abbrev accept : Text → Text
accept s = b'A' ∷ b'c' ∷ b'c' ∷ b'e' ∷ b'p' ∷ b't' ∷ s

-- The headers that a push takes from the request.
abbrev pub push_headers : List Text
push_headers =
    (b'U' ∷ b's' ∷ b'e' ∷ b'r' ∷ b'-' ∷ b'A' ∷ b'g' ∷ b'e' ∷ b'n' ∷ b't' ∷ [])
    ∷ accept []
    ∷ accept (b'-' ∷ b'E' ∷ b'n' ∷ b'c' ∷ b'o' ∷ b'd' ∷ b'i' ∷ b'n' ∷ b'g' ∷ [])
    ∷ accept (b'-' ∷ b'L' ∷ b'a' ∷ b'n' ∷ b'g' ∷ b'u' ∷ b'a' ∷ b'g' ∷ b'e' ∷ [])
    ∷ (b'C' ∷ b'a' ∷ b'c' ∷ b'h' ∷ b'e' ∷ b'-' ∷ b'C' ∷ b'o' ∷ b'n' ∷ b't' ∷ b'r' ∷ b'o' ∷ b'l'
        ∷ [])
    ∷ []

unfoldable pub policy_str : Policy → Text
policy_str push_none = b'n' ∷ b'o' ∷ b'n' ∷ b'e' ∷ []
policy_str push_fast_load = b'f' ∷ b'a' ∷ b's' ∷ b't' ∷ b'-' ∷ b'l' ∷ b'o' ∷ b'a' ∷ b'd' ∷ []
policy_str push_head = b'h' ∷ b'e' ∷ b'a' ∷ b'd' ∷ []
policy_str push_default = b'd' ∷ b'e' ∷ b'f' ∷ b'a' ∷ b'u' ∷ b'l' ∷ b't' ∷ []

-- The C library of Apache: its tables, `same` for !apr_strnatcasecmp, apr_uri_parse, and
-- apr_uri_unparse without the site, and whether strcmp of a text and a NULL is not 0.
pub record Apr (T : Type 0) : Type 0 where
  pub tables : Tables T
  pub same : Text → Text → Bool
  pub uri_parse : Text → Option Uri
  pub uri_unparse : Uri → Text
  pub strcmp_null : Text → Bool

module _ {T : Type 0} (apr : Apr T) where
  abbrev pub Pushes : Type 0
  Pushes = Option (List (Push T))

  abbrev matches : Text → List Text → Bool
  matches key [] = false
  matches key (l ∷ ls) = length key == length l && apr.same l key || matches key ls

  unfoldable pub set_push_header : T → Text × Text → T
  set_push_header t (key, value) =
      if matches key push_headers then apr.tables.setn t key value else t

  unfoldable pub set_push_headers : T → List (Text × Text) → T
  set_push_headers t [] = t
  set_push_headers t (h ∷ hs) = set_push_headers (set_push_header t h) hs

  unfoldable pub has_param : T → Text → Bool
  has_param params name = is_set (apr.tables.get params name)

  unfoldable pub has_relation : T → Text → Bool
  has_relation params rel = elim (apr.tables.get params text_rel) [
    | none ↦ false
    | some val ↦ holds_relation rel val
  ]

  unfoldable pub push_of : Request T → Policy → T → Uri → Push T
  push_of req policy params uri =
      let headers = set_push_headers apr.tables.make (apr.tables.each req.headers) in
      let fresh =
        h2_req_create apr.tables (method_of policy) req.scheme req.authority (apr.uri_unparse uri)
          (some headers) req.serialize in
      let (status, ended) = h2_request_end_headers apr.tables fresh true 0 in
      record {
        req = ended;
        priority =
            if has_param params text_critical
            then some record { dependency = dependant_before; weight = pos 0 }
            else none;
      }

  abbrev pub appended : Pushes → Push T → Pushes
  appended none p = some (p ∷ [])
  appended (some ps) p = some (ps ++ p ∷ [])

  -- The push of a link, if there is one.
  unfoldable pub wanted : Request T → Policy → Text → T → Option (Push T)
  wanted req policy link params =
      if has_relation params text_preload && not (has_param params text_nopush)
      then elim (apr.uri_parse link) [
        | none ↦ none
        | some uri ↦
            if is_set uri.path && same_authority apr.strcmp_null req.scheme req.authority uri
            then some (push_of req policy params uri)
            else none
      ]
      else none

  unfoldable pub add_push : Request T → Policy → Text → T → Pushes → Pushes
  add_push req policy link params pushes = elim (wanted req policy link params) [
    | none ↦ pushes
    | some p ↦ appended pushes p
  ]

  -- The loop over read_param: the parameters and the text behind them.
  unfoldable pub read_params : ℕ → T → Text → T × Text
  read_params zero params t = (params, t)
  read_params (suc fuel) params t =
      let (found, s) = read_param t in
      elim found [
        | none ↦ (params, s)
        | some (name, value) ↦ read_params fuel (apr.tables.setn params name value) s
      ]

  -- The loop over read_link.
  unfoldable pub read_links : ℕ → Request T → Policy → Text → Pushes → Pushes
  read_links zero req policy t pushes = pushes
  read_links (suc fuel) req policy t pushes =
      let (found, s) = read_link t in
      let (params, rest) = read_params (length s) apr.tables.make s in
      let (more, behind) = read_sep rest in
      elim found [
        | none ↦ pushes
        | some link ↦
            let ps = add_push req policy link params pushes in
            let next = read_links fuel req policy behind ps in if more then next else ps
      ]

  unfoldable pub inspect_link : Request T → Policy → Text → Pushes → Pushes
  inspect_link req policy s pushes = read_links (length s) req policy s pushes

  unfoldable pub head_iter : Request T → Policy → List (Text × Text) → Pushes → Pushes
  head_iter req policy [] pushes = pushes
  head_iter req policy ((key, value) ∷ hs) pushes =
      head_iter req policy hs
        (if apr.same text_link key then inspect_link req policy value pushes else pushes)

  -- The pushes and the headers of the response; headers that are NULL are `none`.
  unfoldable pub collect : Request T → Policy → T → Pushes × T
  collect req policy headers =
      let pushes = head_iter req policy (apr.tables.each headers) none in
      (
        pushes,
        if is_set pushes then apr.tables.setn headers push_policy (policy_str policy) else headers,
      )

  abbrev is_none : Policy → Bool
  is_none push_none = true
  is_none _ = false

  unfoldable pub h2_push_collect : Option (Request T) → Policy → Option T → Pushes × Option T
  h2_push_collect none policy headers = (none, headers)
  h2_push_collect (some req) policy none = (none, none)
  h2_push_collect (some req) policy (some headers) =
      if is_none policy
      then (none, some headers)
      else (let (pushes, after) = collect req policy headers in (pushes, some after))
