-- ===== src/Push/Collect/Announced.antt =====
-- Resources that H2PushResource lists: mod_http2/h2_h2.c, check_push, announces them in Link headers,
-- which mod_http2/h2_push.c takes in.
use mod_h.Prelude.{
  ℕ, ◌≡◌, refl, ap, ap₂, ◌∙◌, Bool, true, false, not, ◌&&◌, List, [], ◌∷◌, ◌++◌, All, Option, none,
  some, if◌then◌else◌, arith,
}
use mod_h.Apr.{Text}
use mod_h.Apr.{same_case}
use mod_h.Prelude.Int.{pos}
use mod_h.Session.Priority.{Priority, dependant_before}
use mod_h.Request.{
  Tables, Request, h2_req_create, h2_request_end_headers, end_with_host, add_length,
}
use mod_h.Push.Link.{
  attr_char, ptoken_char, text_rel, text_preload, text_nopush, text_critical, holds_relation,
  Policy, Uri, Push, is_set, same_authority, method_of,
}
use mod_h.Push.Link.Printed.{bare, token, Param, IsParam, Lacks}
use mod_h.Push.Collect.{
  Apr, set_push_headers, Pushes, has_relation, has_param, push_of, wanted, add_push, appended,
  inspect_link,
}
use mod_h.Push.Collect.RoundTrip.{IsLink, put_links, set_params, inspect_link-put_links}

-- The text of a Link header in check_push.
unfoldable pub announce : Text → Bool → Text
announce uri critical =
    60
    ∷ (uri
        ++ 62
          ∷ 59
          ∷ 32
          ∷ (text_rel ++ 61 ∷ (text_preload ++ (if critical then 59 ∷ 32 ∷ text_critical else []))))

-- Names of headers are the same in any case.
pub record TableLaws {T : Type 0} (t : Tables T) : Type 0 where
  pub get-make : (k : Text) → t.get t.make k ≡ none
  pub get-setn :
      (h : T) (k v j : Text)
      → t.get (t.setn h k v) j ≡ (if same_case k j then some v else t.get h j)

abbrev params_of : Bool → List Param
params_of true = (text_rel, token text_preload) ∷ (text_critical, bare) ∷ []
params_of false = (text_rel, token text_preload) ∷ []

announce_printed : (uri : Text) (b : Bool) → announce uri b ≡ put_links ((uri, params_of b) ∷ [])
unfolding announce
announce_printed uri true = refl
announce_printed uri false = refl

end_headers_keeps :
    {T : Type 0} (t : Tables T) (req : Request T) (eos : Bool) (n : ℕ)
    → ((h2_request_end_headers t req eos n).1.path ≡ req.path)
      × ((h2_request_end_headers t req eos n).1.method ≡ req.method)
unfolding h2_request_end_headers end_with_host add_length
end_headers_keeps t req eos n = ground arith

params_fit : (b : Bool) → All IsParam (params_of b)
unfolding attr_char ptoken_char
params_fit true = ground arith
params_fit false = ground arith

is_set_if : (p : Priority) (b : Bool) → is_set (if b then some p else none) ≡ b
is_set_if p true = refl
is_set_if p false = refl

module _ {T : Type 0} (apr : Apr T) (law : TableLaws apr.tables) where
  abbrev params : Bool → T
  params b = set_params apr apr.tables.make (params_of b)

  relation_there : (b : Bool) → apr.tables.get (params b) text_rel ≡ some text_preload
  relation_there true = law.get-setn _ _ _ _ ∙ law.get-setn _ _ _ _
  relation_there false = law.get-setn _ _ _ _

  nopush_absent : (b : Bool) → apr.tables.get (params b) text_nopush ≡ none
  nopush_absent true = law.get-setn _ _ _ _ ∙ law.get-setn _ _ _ _ ∙ law.get-make _
  nopush_absent false = law.get-setn _ _ _ _ ∙ law.get-make _

  critical_there : (b : Bool) → has_param apr (params b) text_critical ≡ b
  unfolding has_param
  critical_there true = ap is_set (law.get-setn _ _ _ _)
  critical_there false = ap is_set (law.get-setn _ _ _ _ ∙ law.get-make _)

  preloads : (b : Bool) → has_relation apr (params b) text_preload ≡ true
  unfolding has_relation holds_relation
  preloads b =
      ap
        (λ (o : Option Text). elim o as (λ x. Bool) [
          | none ↦ false
          | some v ↦ holds_relation text_preload v
        ])
        (relation_there b)

  not_nopush : (b : Bool) → has_param apr (params b) text_nopush ≡ false
  unfolding has_param
  not_nopush b = ap is_set (nopush_absent b)

  module _ (req : Request T) (policy : Policy) (uri : Text) (u : Uri) (critical : Bool)
      (parsed : apr.uri_parse uri ≡ some u) (path : is_set u.path ≡ true)
      (same : same_authority apr.strcmp_null req.scheme req.authority u ≡ true) where
    wanted_lem :
        wanted apr req policy uri (params critical)
        ≡ some (push_of apr req policy (params critical) u)
    unfolding wanted
    wanted_lem =
        let found : Option (Push T) = some (push_of apr req policy (params critical) u) in
        let of_uri = λ (o : Option Uri). elim o as (λ x. Option (Push T)) [
          | none ↦ none
          | some v ↦
              if is_set v.path && same_authority apr.strcmp_null req.scheme req.authority v
              then some (push_of apr req policy (params critical) v)
              else none
        ] in
        ap₂ (λ a b. if a && not b then of_uri (apr.uri_parse uri) else none) (preloads critical)
          (not_nopush critical)
        ∙ ap of_uri parsed
        ∙ ap₂ (λ a b. if a && b then found else none) path same

    pushed : Push T
    pushed = push_of apr req policy (params critical) u

    pushed_priority : is_set pushed.priority ≡ critical
    unfolding push_of pushed
    pushed_priority =
        ap
          (λ b.
            is_set
              (if b then some record { dependency = dependant_before; weight = pos 0 } else none))
          (critical_there critical)
        ∙ is_set_if record { dependency = dependant_before; weight = pos 0 } critical

    pushed_request : (pushed.req.path ≡ apr.uri_unparse u) × (pushed.req.method ≡ method_of policy)
    unfolding push_of pushed h2_req_create
    pushed_request =
        end_headers_keeps apr.tables
          (h2_req_create apr.tables (method_of policy) req.scheme req.authority (apr.uri_unparse u)
            (some (set_push_headers apr apr.tables.make (apr.tables.each req.headers)))
            req.serialize)
          true 0

    -- A resource that check_push announces is pushed: inspect_link makes one push of the header, with
    -- the method of the policy, the path of the address, and a priority when it is critical and else
    -- none. Conditions: the address holds no `>`, Apache parses it, and it has a path and the
    -- authority of the request; tables find what was set last, in any case.
    pub announced :
        (pushes : Pushes apr)
        → Lacks 62 uri
        → (p : Push T) × (inspect_link apr req policy (announce uri critical) pushes
            ≡ appended apr pushes p)
          × (is_set p.priority ≡ critical)
          × (p.req.path ≡ apr.uri_unparse u)
          × (p.req.method ≡ method_of policy)
    unfolding add_push pushed
    announced pushes h = (
      pushed,
      ap (λ t. inspect_link apr req policy t pushes) (announce_printed uri critical)
          ∙ inspect_link-put_links apr req policy ((uri, params_of critical) ∷ []) pushes
              (links_fit critical)
          ∙ ap
              (λ (o : Option (Push T)). elim o as (λ x. Pushes apr) [
                | none ↦ pushes
                | some p ↦ appended apr pushes p
              ])
              wanted_lem,
      pushed_priority,
      pushed_request.0,
      pushed_request.1,
    )
      where
        links_fit : (b : Bool) → All IsLink ((uri, params_of b) ∷ [])
        links_fit b = ((h, params_fit b), tt)
