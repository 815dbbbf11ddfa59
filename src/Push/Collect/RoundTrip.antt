-- ===== src/Push/Collect/RoundTrip.antt =====
-- Whole Link headers in print, and inspect_link of mod_http2/h2_push.c.
use mod_h.Prelude.{
  ℕ, zero, suc, ◌+◌, ◌≤◌, ◌≡◌, refl, ap, ◌∙◌, Bool, true, false, List, [], ◌∷◌, ◌++◌, All, length,
  length-append, Option, none, some, if◌then◌else◌, arith,
}
use mod_h.Apr.{Text}
use mod_h.Request.{Request}
use mod_h.Push.Link.{read_link, read_param, read_sep, read_chr, skip_ws, Policy}
use mod_h.Push.Link.Printed.{
  Value, bare, token, quoted, value_of, Param, put_value, put_params, IsParam, Lacks, Ends, Blocked,
  read_param_lem, read_param-Blocked, read_sep-Blocked, read_link_lem, read_link_blank,
}
use mod_h.Push.Collect.{Apr, Pushes, add_push, read_params, read_links, inspect_link}

-- A link and its parameters.
abbrev pub LinkValue : Type 0
LinkValue = Text × List Param

abbrev pub IsLink : LinkValue → Type 0
IsLink (uri, ps) = Lacks 62 uri × All IsParam ps

abbrev pub put_link : LinkValue → Text → Text
put_link (uri, ps) rest = 60 ∷ uri ++ 62 ∷ put_params ps rest

abbrev pub put_more : List LinkValue → Text
put_more [] = []
put_more (l ∷ ls) = 44 ∷ 32 ∷ put_link l (put_more ls)

abbrev pub put_links : List LinkValue → Text
put_links [] = []
put_links (l ∷ ls) = put_link l (put_more ls)

abbrev blank : Bool → Text → Text
blank true t = 32 ∷ t
blank false t = t

pub put_params-Ends : (ps : List Param) (rest : Text) → Ends rest → Ends (put_params ps rest)
put_params-Ends [] rest h = h
put_params-Ends (p ∷ ps) rest h = refl

length-put_value : (v : Value) (rest : Text) → length rest ≤ length (put_value v rest)
length-put_value bare rest = omega arith
length-put_value (token v) rest = omega (arith, length-append {0} v rest)
length-put_value (quoted v) rest = omega (arith, length-append {0} v (34 ∷ rest))

pub length-put_params :
    (ps : List Param) (rest : Text) → length ps + length rest ≤ length (put_params ps rest)
length-put_params [] rest = omega arith
length-put_params ((name, v) ∷ ps) rest = omega (
  arith,
  length-append {0} name (put_value v (put_params ps rest)),
  length-put_value v (put_params ps rest),
  length-put_params ps rest,
)

length-put_link : (l : LinkValue) (rest : Text) → suc (length rest) ≤ length (put_link l rest)
length-put_link (uri, ps) rest =
    omega (arith, length-append {0} uri (62 ∷ put_params ps rest), length-put_params ps rest)

length-put_more : (ls : List LinkValue) → length ls ≤ length (put_more ls)
length-put_more [] = omega arith
length-put_more (l ∷ ls) = omega (arith, length-put_link l (put_more ls), length-put_more ls)

more-Ends : (ls : List LinkValue) → Ends (put_more ls)
more-Ends [] = tt
more-Ends (l ∷ ls) = refl

more-Blocked : (ls : List LinkValue) → Blocked 59 (put_more ls)
more-Blocked [] = tt
more-Blocked (l ∷ ls) = (refl, refl)

pub read_link-put :
    (b : Bool) (l : LinkValue) (rest : Text)
    → IsLink l
    → read_link (blank b (put_link l rest)) ≡ (some l.0, put_params l.1 rest)
read_link-put true (uri, ps) rest h = read_link_blank uri (put_params ps rest) h.0
read_link-put false (uri, ps) rest h = read_link_lem uri (put_params ps rest) h.0

module _ {T : Type 0} (apr : Apr T) where
  -- The table of the parameters, the last of a name in place of the ones before.
  abbrev pub set_params : T → List Param → T
  set_params t [] = t
  set_params t ((name, v) ∷ ps) = set_params (apr.tables.setn t name (value_of v)) ps

  -- With no parameter in front there is nothing to read.
  pub read_params-Blocked :
      (fuel : ℕ) (t : T) (s : Text) → Blocked 59 s → read_params apr fuel t s ≡ (t, s)
  unfolding read_params
  read_params-Blocked zero t s b = refl
  read_params-Blocked (suc fuel) t s b =
      ap
        (λ (r : Option (Text × Text) × Text). elim r.0 as (λ o. T × Text) [
          | none ↦ (t, r.1)
          | some (name, value) ↦ read_params apr fuel (apr.tables.setn t name value) r.1
        ])
        (read_param-Blocked s b)

  -- One parameter and those behind it.
  pub read_params_step :
      (fuel : ℕ) (t : T) (s rest : Text) (name value : Text)
      → read_param s ≡ (some (name, value), rest)
      → read_params apr (suc fuel) t s ≡ read_params apr fuel (apr.tables.setn t name value) rest
  unfolding read_params
  read_params_step fuel t s rest name value e =
      ap
        (λ (r : Option (Text × Text) × Text). elim r.0 as (λ o. T × Text) [
          | none ↦ (t, r.1)
          | some (key, v) ↦ read_params apr fuel (apr.tables.setn t key v) r.1
        ])
        e

  pub read_params_lem :
      (fuel : ℕ) (t : T) (ps : List Param) (rest : Text)
      → All IsParam ps
      → length ps ≤ fuel
      → Ends rest
      → Blocked 59 rest
      → read_params apr fuel t (put_params ps rest) ≡ (set_params t ps, rest)
  read_params_lem fuel t [] rest h n e b = read_params-Blocked fuel t rest b
  read_params_lem zero t (p ∷ ps) rest h n e b = absurd (omega arith)
  read_params_lem (suc fuel) t (p ∷ ps) rest h n e b =
      read_params_step fuel t (put_params (p ∷ ps) rest) (put_params ps rest) p.0 (value_of p.1)
        (read_param_lem p (put_params ps rest) h.0 (put_params-Ends ps rest e))
      ∙ read_params_lem fuel (apr.tables.setn t p.0 (value_of p.1)) ps rest h.1 (omega arith) e b

  module _ (req : Request T) (policy : Policy) where
    -- add_push for each link, with its parameters.
    abbrev pub add_all : List LinkValue → Pushes apr → Pushes apr
    add_all [] pushes = pushes
    add_all ((uri, ps) ∷ ls) pushes =
        add_all ls (add_push apr req policy uri (set_params apr.tables.make ps) pushes)

    -- What read_links does behind a link, and behind its parameters.
    abbrev pub after_params : ℕ → Pushes apr → Text → T × Text → Pushes apr
    after_params fuel pushes link r =
        let ps : Pushes apr = add_push apr req policy link r.0 pushes in
        let sep : Bool × Text = read_sep r.1 in
        if sep.0 then read_links apr fuel req policy sep.1 ps else ps

    abbrev pub after_link : ℕ → Pushes apr → Option Text × Text → Pushes apr
    after_link fuel pushes r = elim r.0 [
      | none ↦ pushes
      | some link ↦ after_params fuel pushes link (read_params apr (length r.1) apr.tables.make r.1)
    ]

    pub read_links_step :
        (fuel : ℕ) (t : Text) (pushes : Pushes apr)
        → read_links apr (suc fuel) req policy t pushes ≡ after_link fuel pushes (read_link t)
    unfolding read_links
    read_links_step fuel t pushes = refl

    sep_more :
        (l : LinkValue) (ls : List LinkValue)
        → read_sep (put_more (l ∷ ls)) ≡ (true, 32 ∷ put_link l (put_more ls))
    unfolding read_sep read_chr skip_ws
    sep_more l ls = refl

    -- A link with its parameters, and what stands behind them.
    pub read_link_step :
        (fuel : ℕ) (b : Bool) (l : LinkValue) (rest : Text) (pushes : Pushes apr)
        → IsLink l
        → Ends rest
        → Blocked 59 rest
        → read_links apr (suc fuel) req policy (blank b (put_link l rest)) pushes
          ≡ after_params fuel pushes l.0 (set_params apr.tables.make l.1, rest)
    read_link_step fuel b l rest pushes h e k =
        read_links_step fuel (blank b (put_link l rest)) pushes
        ∙ ap (after_link fuel pushes) (read_link-put b l rest h)
        ∙ ap (after_params fuel pushes l.0) (
            read_params_lem (length (put_params l.1 rest)) apr.tables.make l.1 rest h.1
              (omega (arith, length-put_params l.1 rest)) e k)

    add_sep : ℕ → Pushes apr → Bool × Text → Pushes apr
    add_sep fuel ps sep = if sep.0 then read_links apr fuel req policy sep.1 ps else ps

    read_links_lem :
        (fuel : ℕ) (b : Bool) (l : LinkValue) (ls : List LinkValue) (pushes : Pushes apr)
        → All IsLink (l ∷ ls)
        → length (l ∷ ls) ≤ fuel
        → read_links apr fuel req policy (blank b (put_link l (put_more ls))) pushes
          ≡ add_all (l ∷ ls) pushes
    unfolding add_sep
    read_links_lem zero b l ls pushes h n = absurd (omega arith)
    read_links_lem (suc fuel) b l [] pushes h n =
        read_link_step fuel b l [] pushes h.0 tt tt
        ∙ ap (add_sep fuel (add_push apr req policy l.0 (set_params apr.tables.make l.1) pushes))
            (read_sep-Blocked [] tt)
    read_links_lem (suc fuel) b l (m ∷ ms) pushes h n =
        let ps = add_push apr req policy l.0 (set_params apr.tables.make l.1) pushes in
        read_link_step fuel b l (put_more (m ∷ ms)) pushes h.0 refl (refl, refl)
        ∙ ap (add_sep fuel ps) (sep_more m ms)
        ∙ read_links_lem fuel true m ms ps h.1 (omega arith)

    -- What inspect_link makes of a header that lists links is what add_push makes of each of them in
    -- turn, with its parameters. Conditions: the addresses hold no `>`, the names consist of the
    -- characters that attr_char takes and the tokens of those that ptoken_char takes, one at least,
    -- and texts in quotes hold no quote.
    pub inspect_link-put_links :
        (ls : List LinkValue) (pushes : Pushes apr)
        → All IsLink ls
        → inspect_link apr req policy (put_links ls) pushes ≡ add_all ls pushes
    unfolding inspect_link read_links
    inspect_link-put_links [] pushes h = refl
    inspect_link-put_links (l ∷ ls) pushes h =
        read_links_lem (length (put_links (l ∷ ls))) false l ls pushes h
          (omega (arith, length-put_link l (put_more ls), length-put_more ls))
