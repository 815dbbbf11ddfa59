-- ===== src/AltSvc/Laws.antt =====
-- What mod_http2/h2_alt_svc.c reads of a directive, and tells of its services.
use mod_h.Prelude.{
  ℕ, ◌^◌, ◌<◌, ◌≡◌, refl, ap, ◌∙◌, sym, Bool, false, List, [], ◌∷◌, ◌++◌, append_assoc, append-nil,
  All, Option, none, some, if◌then◌else◌, ◌==◌, Bool-cases, inl, inr, arith,
}
use mod_h.Prelude.Int.{ℤ, pos}
use mod_h.Apr.{Text}
use mod_h.AltSvc.{
  AltSvc, split_at, optional_host, with_port, parse_host, h2_alt_svc_parse, entry, may_tell,
  alt_svc_text,
}

split_first :
    (c : ℕ) (a b : Text) → All (λ x. (x == c) ≡ false) a → split_at c (a ++ c ∷ b) ≡ some (a, b)
unfolding split_at
split_first c [] b h = ground arith
split_first c (x ∷ a) b h = ground (arith, h.0, split_first c a b h.1)

-- A host in print; none is an empty text.
abbrev pub IsHost : Option Text → Text → Type 0
IsHost none t = t ≡ []
IsHost (some []) t = ⊥
IsHost (some (c ∷ s)) t = t ≡ c ∷ s

optional_lem : (h : Option Text) (t : Text) → IsHost h t → optional_host t ≡ h
unfolding optional_host
optional_lem none t e = ap optional_host e
optional_lem (some []) t e = absurd e
optional_lem (some (c ∷ s)) t e = ap optional_host e

port_lem :
    (alpn : Text) (host : Option Text) (n c : ℕ) (s : Text)
    → 0 < n
    → n < 2 ^ 16
    → with_port alpn host (pos n) (c ∷ s) ≡ some record { alpn = alpn; host = host; port = n }
unfolding with_port
port_lem alpn host n c s h k = ground arith

-- A specifier alpn=host:port is read back as the service that it names, also without a host.
-- Conditions: the protocol holds no `=` and the host no `:`, a host is not empty, and the text of the
-- port is read by apr_atoi64 as a number from 1 to 65535.
pub parse_print :
    (atoi : Text → ℤ) (svc : AltSvc) (h digits : Text) (c : ℕ)
    → All (λ x. (x == 61) ≡ false) svc.alpn
    → IsHost svc.host h
    → All (λ x. (x == 58) ≡ false) h
    → atoi (c ∷ digits) ≡ pos svc.port
    → 0 < svc.port
    → svc.port < 2 ^ 16
    → h2_alt_svc_parse atoi (svc.alpn ++ 61 ∷ (h ++ 58 ∷ c ∷ digits)) ≡ some svc
unfolding h2_alt_svc_parse parse_host
parse_print atoi svc h digits c a i l e p q =
    ap
      (λ (o : Option (Text × Text)). elim o as (λ x. Option AltSvc) [
        | none ↦ none
        | some (alpn, rest) ↦ parse_host atoi alpn rest
      ])
      (split_first 61 svc.alpn (h ++ 58 ∷ c ∷ digits) a)
    ∙ ap
        (λ (o : Option (Text × Text)). elim o as (λ x. Option AltSvc) [
          | none ↦ none
          | some (g, port) ↦ with_port svc.alpn (optional_host g) (atoi port) port
        ])
        (split_first 58 h (c ∷ digits) l)
    ∙ ap (λ o. with_port svc.alpn o (atoi (c ∷ digits)) (c ∷ digits)) (optional_lem svc.host h i)
    ∙ ap (λ n. with_port svc.alpn svc.host n (c ∷ digits)) e
    ∙ port_lem svc.alpn svc.host svc.port c digits p q

-- Texts with a comma and a blank between them.
abbrev commas : List Text → Text
commas [] = []
commas (t ∷ ts) = 44 ∷ 32 ∷ (t ++ commas ts)

abbrev pub joined : List Text → Text
joined [] = []
joined (t ∷ ts) = t ++ commas ts

module _ (show : ℕ → Text) (same : Text → Text → Bool) (secure : Bool) (hostname ma : Text) where
  -- The services that may be told, in print.
  abbrev pub entries : List AltSvc → List Text
  entries [] = []
  entries (svc ∷ svcs) =
      let rest = entries svcs in
      if may_tell show same secure hostname svc
      then entry show same hostname ma svc ∷ rest
      else rest

  abbrev text_of : Text → List AltSvc → Text
  text_of = alt_svc_text show same secure hostname ma

  started :
      (c : ℕ) (s : Text) (svcs : List AltSvc)
      → text_of (c ∷ s) svcs ≡ (c ∷ s) ++ commas (entries svcs)
  unfolding alt_svc_text
  started c s [] = ap (◌∷◌ c) (sym (append-nil s))
  started c s (svc ∷ svcs) =
      let e : Text = entry show same hostname ma svc in
      let longer : Text = s ++ 44 ∷ 32 ∷ e in
      let es : List Text = entries svcs in
      let both = λ (d : Bool). text_of (if d then c ∷ longer else c ∷ s) svcs in
      let listed = λ (d : Bool). (c ∷ s) ++ commas (if d then e ∷ es else es) in
      elim (Bool-cases (may_tell show same secure hostname svc)) [
        | inl t ↦
            ap both t
            ∙ started c longer svcs
            ∙ ap (◌∷◌ c) (append_assoc s (44 ∷ 32 ∷ e) (commas es))
            ∙ ap listed (sym t)
        | inr f ↦ ap both f ∙ started c s svcs ∙ ap listed (sym f)
      ]

  -- An entry is not empty.
  first_entry :
      (a u : Text) (svcs : List AltSvc)
      → text_of (a ++ 61 ∷ u) svcs ≡ (a ++ 61 ∷ u) ++ commas (entries svcs)
  first_entry [] u svcs = started 61 u svcs
  first_entry (c ∷ a) u svcs = started c (a ++ 61 ∷ u) svcs

  -- The text that the handler puts together lists the services that may be told, in their order, with
  -- a comma and a blank between them and nowhere else.
  pub alt_svc_text_lem : (svcs : List AltSvc) → text_of [] svcs ≡ joined (entries svcs)
  unfolding alt_svc_text
  alt_svc_text_lem [] = refl
  alt_svc_text_lem (svc ∷ svcs) =
      let e : Text = entry show same hostname ma svc in
      let es : List Text = entries svcs in
      let both = λ (d : Bool). text_of (if d then e else []) svcs in
      let listed = λ (d : Bool). joined (if d then e ∷ es else es) in
      elim (Bool-cases (may_tell show same secure hostname svc)) [
        | inl t ↦ ap both t ∙ first_entry svc.alpn _ svcs ∙ ap listed (sym t)
        | inr f ↦ ap both f ∙ alt_svc_text_lem svcs ∙ ap listed (sym f)
      ]
