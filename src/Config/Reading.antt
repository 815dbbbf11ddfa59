-- ===== src/Config/Reading.antt =====
-- What h2_config_geti of mod_http2/h2_config.c reads of a configuration that was set or merged.
use mod_h.Prelude.{
  ◌≡◌, ◌<◌, ◌^◌, refl, sym, ap, ap₂, ◌∙◌, Option, none, some, Bool, true, false, if◌then◌else◌,
  ==_refl, arith,
}
use mod_h.Prelude.Int.{ℤ, pos, negsuc}
use mod_h.Config.{
  Var, conf_alt_svc_max_age, conf_upgrade, conf_push, conf_early_hints, Srv, Dir, def_val, is_def,
  to_int, first_set, defconf, h2_config_merge,
}
use mod_h.Config.Access.{
  h2_srv_config_geti64, h2_srv_config_seti, h2_dir_config_geti64, h2_config_seti, h2_config_sgeti64,
  h2_config_geti64, h2_config_geti,
}
use mod_h.Config.Fields.{
  stored, code, has_field, ◌is_var◌, is_direct, stored-seti, stored-merge, geti64-stored,
}

-- A number that an int of 32 bits holds.
abbrev pub IsInt : ℤ → Type 0
IsInt (pos n) = n < 2 ^ 31
IsInt (negsuc n) = n < 2 ^ 31

pub to_int_id : (v : ℤ) → IsInt v → to_int v ≡ v
to_int_id (pos n) h = ground arith
to_int_id (negsuc n) h = ground arith

-- What a reader gets of a number that was set.
abbrev pub shown : Var → ℤ → ℤ
shown v x = if is_direct v then pos 1 else x

first_set_set : (x y : ℤ) → is_def x ≡ false → first_set x y ≡ x
first_set_set x y h = ap (λ b. if b then y else x) h

pub to_int-shown :
    (b : Bool) (x : ℤ) → IsInt x → to_int (if b then pos 1 else x) ≡ (if b then pos 1 else x)
to_int-shown true x i = refl
to_int-shown false x i = to_int_id x i

-- The first number that is set of an added one, a base and a default.
first_set_three :
    (b : Bool) (a c d : ℤ)
    → (if b then pos 1 else first_set (first_set a c) d) ≡ (
        if is_def a
        then (if b then pos 1 else first_set c d)
        else (if b then pos 1 else first_set a d))
first_set_three b a c d = ground arith

module _ {H : Type 0} where
  stored_set :
      (s : Srv H) (v : Var) (x : ℤ) → has_field v ≡ true → stored (h2_srv_config_seti s v x) v ≡ x
  stored_set s v x h =
      stored-seti s v v x
      ∙ ap (λ b. if b then (if v is_var v then x else stored s v) else stored s v) h
      ∙ ap (λ b. if b then x else stored s v) (==_refl (code v))

  sgeti64_set :
      (s : Srv H) (v : Var) (x : ℤ)
      → has_field v ≡ true
      → is_def x ≡ false
      → h2_config_sgeti64 (h2_srv_config_seti s v x) v ≡ shown v x
  unfolding h2_config_sgeti64
  sgeti64_set s v x h d =
      geti64-stored (h2_srv_config_seti s v x) v
      ∙ ap (λ y. if is_direct v then pos 1 else first_set y (stored (defconf {H = H}) v))
          (stored_set s v x h)
      ∙ ap (λ y. if is_direct v then pos 1 else y) (first_set_set x (stored (defconf {H = H}) v) d)

  -- With no number of the directory, the server's is read.
  server_read :
      (r : Option Dir) (s : Srv H) (v : Var) (x : ℤ)
      → IsInt x
      → h2_config_sgeti64 s v ≡ shown v x
      → elim r [ none ↦ def_val | some d ↦ h2_dir_config_geti64 d v ] ≡ def_val
      → h2_config_geti r s v ≡ shown v x
  unfolding h2_config_geti h2_config_geti64
  server_read none s v x i e h = ap to_int e ∙ to_int-shown (is_direct v) x i
  server_read (some d) s v x i e h =
      ap (λ y. to_int (if is_def (to_int y) then h2_config_sgeti64 s v else to_int y)) h
      ∙ ap to_int e
      ∙ to_int-shown (is_direct v) x i

  dir_read :
      (d : Dir) (s : Srv H) (v : Var) (x : ℤ)
      → IsInt x
      → is_def x ≡ false
      → h2_dir_config_geti64 d v ≡ first_set x def_val
      → h2_config_geti (some d) s v ≡ x
  unfolding h2_config_geti h2_config_geti64
  dir_read d s v x i n e =
      ap (λ y. to_int (if is_def (to_int y) then h2_config_sgeti64 s v else to_int y))
        (e ∙ first_set_set x def_val n)
      ∙ ap (λ y. to_int (if is_def y then h2_config_sgeti64 s v else y)) (to_int_id x i)
      ∙ ap (λ b. to_int (if b then h2_config_sgeti64 s v else x)) n
      ∙ to_int_id x i

  -- What h2_config_seti stores, in the configuration of a directory or of a server, h2_config_geti
  -- reads: the number itself, and 1 for H2_CONF_DIRECT, whatever was stored. Conditions: the number
  -- is an int other than -1, and the variable is not H2_CONF_ALT_SVCS, which has no number.
  pub geti-seti :
      (d : Option Dir) (s : Srv H) (v : Var) (x : ℤ)
      → has_field v ≡ true
      → IsInt x
      → is_def x ≡ false
      → let (d', s') = h2_config_seti d s v x in h2_config_geti d' s' v ≡ shown v x
  unfolding h2_config_seti h2_dir_config_geti64
  geti-seti none s v x h i n =
      server_read none (h2_srv_config_seti s v x) v x i (sgeti64_set s v x h n) refl
  geti-seti (some d) s conf_alt_svc_max_age x h i n =
      dir_read (record d { alt_svc_max_age = x }) s conf_alt_svc_max_age x i n refl
  geti-seti (some d) s conf_upgrade x h i n =
      dir_read (record d { h2_upgrade = x }) s conf_upgrade x i n refl
  geti-seti (some d) s conf_push x h i n =
      dir_read (record d { h2_push = x }) s conf_push x i n refl
  geti-seti (some d) s conf_early_hints x h i n =
      dir_read (record d { early_hints = x }) s conf_early_hints x i n refl
  geti-seti (some d) s v x h i n =
      server_read (some d) (h2_srv_config_seti s v x) v x i (sgeti64_set s v x h n) refl

  -- What is read of a merged configuration is what is read of the one that was added, or of the base
  -- where the added one has no number.
  pub geti64-merge :
      (overlay : H → H → H) (base add : Srv H) (v : Var)
      → h2_srv_config_geti64 (h2_config_merge overlay base add) v ≡ (
          if is_def (stored add v) then h2_srv_config_geti64 base v else h2_srv_config_geti64 add v)
  geti64-merge overlay base add v =
      let d : ℤ = stored (defconf {H = H}) v in
      geti64-stored (h2_config_merge overlay base add) v
      ∙ ap (λ y. if is_direct v then pos 1 else first_set y d) (stored-merge overlay base add v)
      ∙ first_set_three (is_direct v) (stored add v) (stored base v) d
      ∙ ap₂ (λ x y. if is_def (stored add v) then x else y) (sym (geti64-stored base v))
          (sym (geti64-stored add v))
