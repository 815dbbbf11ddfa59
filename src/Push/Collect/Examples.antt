-- ===== src/Push/Collect/Examples.antt =====
-- Link headers, mod_http2/h2_push.c, with tables that are lists.
use mod_h.Prelude.{◌≡◌, refl, true, false, [], ◌∷◌, ◌++◌, Option, none, some, if◌then◌else◌, arith}
use mod_h.Apr.{Text, Table}
use mod_h.Apr.{same_case}
use mod_h.Request.{Tables, Request}
use mod_h.Push.Link.{
  attr_char, holds_relation, text_rel, text_preload, text_critical, method_of, push_default, Uri,
  Push, is_set, same_authority,
}
use mod_h.Push.Link.Printed.{bare, quoted, IsWord}
use mod_h.Push.Collect.{Apr, add_push, appended, inspect_link}
use mod_h.Push.Collect.RoundTrip.{
  LinkValue, IsLink, put_link, put_links, set_params, add_all, inspect_link-put_links,
}
use mod_h.Push.Collect.Announced.{announce, TableLaws, announced}
use mod_h.Push.Collect.Dropped.{relation_missed, star_ends_header}

abbrev get : Table → Text → Option Text
get [] k = none
get ((j, v) ∷ t) k = if same_case j k then some v else get t k

abbrev tables : Tables Table
tables = record {
  make = [];
  get = get;
  setn = λ t k v. (k, v) ∷ t;
  mergen = λ t k v. (k, v) ∷ t;
  each = λ t. t;
}

tables_laws : TableLaws tables
tables_laws = record { get-make = λ k. refl; get-setn = λ h k v j. refl }

-- Each address is a path.
abbrev apr : Apr Table
apr = record {
  tables = tables;
  same = same_case;
  uri_parse = λ t. some record { scheme = none; hostinfo = none; path = some t };
  uri_unparse = λ u. elim u.path [ none ↦ [] | some p ↦ p ];
  strcmp_null = λ s. true;
}

abbrev req : Request Table
req = record {
  method = b'G' ∷ b'E' ∷ b'T' ∷ [];
  scheme = b'h' ∷ [];
  authority = some (b'a' ∷ []);
  path = b'/' ∷ [];
  headers = [];
  chunked = false;
  serialize = false;
  raw_bytes = 0;
}

abbrev path_of : Text → Uri
path_of t = record { scheme = none; hostinfo = none; path = some t }

-- </x>; rel="preload"; critical
abbrev link_x : LinkValue
link_x = (b'/' ∷ b'x' ∷ [], (text_rel, quoted text_preload) ∷ (text_critical, bare) ∷ [])

links_fit : IsLink link_x
unfolding attr_char
links_fit = ground arith

inspect_link-put_links_example :
    inspect_link apr req push_default (put_links (link_x ∷ link_x ∷ [])) none
    ≡ add_all apr req push_default (link_x ∷ link_x ∷ []) none
inspect_link-put_links_example =
    inspect_link-put_links apr req push_default (link_x ∷ link_x ∷ []) none
      (links_fit, (links_fit, tt))

-- rel="preloads preload"
relation_missed_example :
    holds_relation text_preload (text_preload ++ b's' ∷ ([] ++ 32 ∷ text_preload)) ≡ false
relation_missed_example = relation_missed text_preload [] b's' refl

name_fits : IsLink (b'/' ∷ [], [])
name_fits = (ground arith, tt)

abbrev title : Text
title = b't' ∷ []

title_fits : IsWord attr_char title
unfolding attr_char
title_fits = (refl, tt)

-- </>; t*=,</x>; rel=...
star_ends_header_example :
    inspect_link apr req push_default
      (put_link (b'/' ∷ [], []) (59 ∷ 32 ∷ title ++ 42 ∷ (61 ∷ 44 ∷ put_links (link_x ∷ []))))
      none
    ≡ add_push apr req push_default (b'/' ∷ []) (tables.setn (set_params apr [] []) title []) none
star_ends_header_example =
    star_ends_header apr req push_default (b'/' ∷ []) title (61 ∷ 44 ∷ put_links (link_x ∷ [])) []
      none name_fits title_fits

announced_example :
    (p : Push Table) × (inspect_link apr req push_default (announce (b'/' ∷ b'x' ∷ []) true) none
      ≡ appended apr none p)
    × (is_set p.priority ≡ true)
    × (p.req.path ≡ b'/' ∷ b'x' ∷ [])
    × (p.req.method ≡ method_of push_default)
unfolding same_authority
announced_example =
    announced apr tables_laws req push_default (b'/' ∷ b'x' ∷ []) (path_of (b'/' ∷ b'x' ∷ [])) true
      refl refl refl none (refl, (refl, tt))
