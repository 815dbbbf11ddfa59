-- ===== src/Push/Collect/Dropped.antt =====
-- Links that mod_http2/h2_push.c passes over.
use mod_h.Prelude.{
  ℕ, zero, suc, ◌<◌, ◌&&◌, ◌≡◌, refl, ap, ◌∙◌, Bool, true, false, List, [], ◌∷◌, ◌++◌, All, length,
  Option, none, some, if◌then◌else◌, ◌==◌, arith,
}
use mod_h.Apr.{Text}
use mod_h.Apr.{same_text}
use mod_h.Request.{Request}
use mod_h.Push.Link.{attr_char, after_prefix, strstr, holds_relation, ends_word, Policy}
use mod_h.Push.Link.Printed.{
  Param, value_of, put_params, IsParam, IsWord, read_param_lem, read_param_star, read_sep-Blocked,
}
use mod_h.Push.Collect.{Apr, Pushes, add_push, read_params, read_links, inspect_link}
use mod_h.Push.Collect.RoundTrip.{
  read_params_step, read_params-Blocked, IsLink, put_link, put_params-Ends, set_params,
  after_params, after_link, read_links_step, read_link-put, length-put_params,
}

same_longer : (s t : Text) (c : ℕ) → same_text s (s ++ c ∷ t) ≡ false
same_longer [] t c = refl
same_longer (a ∷ s) t c = ground (arith, same_longer s t c)

prefix_lem : (s t : Text) → after_prefix s (s ++ t) ≡ some t
unfolding after_prefix
prefix_lem [] t = refl
prefix_lem (a ∷ s) t = ground (arith, prefix_lem s t)

strstr_front : (rel t : Text) (b : ℕ) → strstr b rel (rel ++ t) ≡ some (b, t)
unfolding strstr after_prefix
strstr_front [] [] b = refl
strstr_front [] (c ∷ t) b = refl
strstr_front (a ∷ rel) t b =
    ap
      (λ (o : Option Text). elim o as (λ x. Option (ℕ × Text)) [
        | none ↦ strstr a (a ∷ rel) (rel ++ t)
        | some u ↦ some (b, u)
      ])
      (prefix_lem (a ∷ rel) t)

-- A relation that a list of relations begins another one with is not found, even where it stands as a
-- word of its own at the end of the list: the search stops at its first place.
pub relation_missed :
    (rel s : Text) (c : ℕ)
    → (c == 32) ≡ false
    → holds_relation rel (rel ++ c ∷ (s ++ 32 ∷ rel)) ≡ false
unfolding holds_relation
relation_missed rel s c h =
    ap (λ b. if b then true else at_word (strstr 32 rel (rel ++ c ∷ (s ++ 32 ∷ rel))))
      (same_longer rel (s ++ 32 ∷ rel) c)
    ∙ ap at_word (strstr_front rel (c ∷ (s ++ 32 ∷ rel)) 32)
    ∙ h
  where
    at_word : Option (ℕ × Text) → Bool
    at_word none = false
    at_word (some (b, t)) = b == 32 && ends_word t

module _ {T : Type 0} (apr : Apr T) (req : Request T) (policy : Policy) where
  starred : Text → Text → Text
  starred name rest = 59 ∷ 32 ∷ name ++ 42 ∷ rest

  read_params_star :
      (fuel : ℕ) (t : T) (ps : List Param) (name rest : Text)
      → All IsParam ps
      → IsWord attr_char name
      → length ps < fuel
      → read_params apr fuel t (put_params ps (starred name rest))
        ≡ (apr.tables.setn (set_params apr t ps) name [], 42 ∷ rest)
  unfolding starred
  read_params_star zero t ps name rest h w n = absurd (omega arith)
  read_params_star (suc fuel) t [] name rest h w n =
      read_params_step apr fuel t (starred name rest) (42 ∷ rest) name []
        (read_param_star name rest w)
      ∙ read_params-Blocked apr fuel (apr.tables.setn t name []) (42 ∷ rest) (refl, refl)
  read_params_star (suc fuel) t (p ∷ ps) name rest h w n =
      read_params_step apr fuel t (put_params (p ∷ ps) (starred name rest))
        (put_params ps (starred name rest)) p.0 (value_of p.1)
        (read_param_lem p (put_params ps (starred name rest)) h.0
          (put_params-Ends ps (starred name rest) refl))
      ∙ read_params_star fuel (apr.tables.setn t p.0 (value_of p.1)) ps name rest h.1 w
          (omega arith)

  -- A parameter whose name ends with a star, such as `title*=`, ends the header: it counts as one
  -- without the star and without a value, and what stands behind it is not read, other links
  -- included. Conditions on the link as in a header that is read.
  pub star_ends_header :
      (uri name rest : Text) (ps : List Param) (pushes : Pushes apr)
      → IsLink (uri, ps)
      → IsWord attr_char name
      → inspect_link apr req policy (put_link (uri, ps) (59 ∷ 32 ∷ name ++ 42 ∷ rest)) pushes
        ≡ add_push apr req policy uri
            (apr.tables.setn (set_params apr apr.tables.make ps) name [])
            pushes
  unfolding inspect_link starred
  star_ends_header uri name rest ps pushes h w =
      let behind : Text = put_params ps (starred name rest) in
      let fuel : ℕ = length (uri ++ 62 ∷ behind) in
      let ended : T = apr.tables.setn (set_params apr apr.tables.make ps) name [] in
      let ps' : Pushes apr = add_push apr req policy uri ended pushes in
      read_links_step apr req policy fuel (put_link (uri, ps) (starred name rest)) pushes
      ∙ ap (after_link apr req policy fuel pushes)
          (read_link-put false (uri, ps) (starred name rest) h)
      ∙ ap (after_params apr req policy fuel pushes uri) (
          read_params_star (length behind) apr.tables.make ps name rest h.1 w
            (omega (arith, length-put_params ps (starred name rest))))
      ∙ ap (λ (sep : Bool × Text). if sep.0 then read_links apr fuel req policy sep.1 ps' else ps')
          (read_sep-Blocked (42 ∷ rest) (refl, refl))
