-- ===== src/Config/Directives/Ranges.antt =====
-- The numbers that the directives of mod_http2/h2_config.c let through.
use mod_h.Prelude.{
  ℕ, ◌^◌, ◌≡◌, refl, sym, ap, ◌∙◌, subst, Bool, true, false, not, ◌&&◌, ◌||◌, List, [], ◌∷◌, get_or,
  if◌then◌else◌, leb, ◌==◌, if-both, arith,
}
use mod_h.Prelude.Int.{ℤ, pos, negsuc}
use mod_h.Apr.{Text}
use mod_h.Config.{
  Var, conf_max_streams, conf_win_size, conf_min_workers, conf_max_workers,
  conf_max_worker_idle_secs, conf_stream_max_mem, conf_alt_svcs, conf_alt_svc_max_age,
  conf_ser_headers, conf_direct, conf_modern_tls_only, conf_upgrade, conf_tls_warmup_size,
  conf_tls_cooldown_secs, conf_push, conf_push_diary_size, conf_copy_files, conf_early_hints,
  conf_padding_bits, conf_padding_always, Srv, Dir, is_def, first_set, h2_config_create_svr,
  h2_config_merge,
}
use mod_h.Config.Access.{h2_srv_config_seti, h2_dir_config_geti64}
use mod_h.Config.Fields.{
  stored, has_field, code, ◌is_var◌, stored-seti, stored-merge, stored-create,
}
use mod_h.Config.Directives.{above, has_two_bits}

abbrev pub at_least : ℕ → ℤ → Bool
at_least n (pos v) = leb n v
at_least n (negsuc v) = false

abbrev is_switch : ℤ → Bool
is_switch (pos v) = v == 0 || v == 1
is_switch (negsuc v) = false

abbrev is_one : ℤ → Bool
is_one (pos v) = v == 1
is_one (negsuc v) = false

-- The numbers that the documentation of a directive allows. None sets padding_always.
abbrev pub allowed : Var → ℤ → Bool
allowed conf_max_streams x = at_least 1 x
allowed conf_win_size x = at_least 1024 x
allowed conf_min_workers x = at_least 1 x
allowed conf_max_workers x = at_least 1 x
allowed conf_max_worker_idle_secs x = at_least 1 x
allowed conf_stream_max_mem x = at_least 1024 x
allowed conf_alt_svcs x = false
allowed conf_alt_svc_max_age x = true
allowed conf_ser_headers x = is_switch x
allowed conf_direct x = is_switch x
allowed conf_modern_tls_only x = is_switch x
allowed conf_upgrade x = is_switch x
allowed conf_tls_warmup_size x = true
allowed conf_tls_cooldown_secs x = true
allowed conf_push x = is_switch x
allowed conf_push_diary_size x = at_least 0 x && not (above (2 ^ 15) x) && not (has_two_bits x)
allowed conf_copy_files x = is_switch x
allowed conf_early_hints x = is_switch x
allowed conf_padding_bits x = at_least 0 x && not (above 8 x)
allowed conf_padding_always x = is_one x

-- A number is unset or allowed.
abbrev pub fits : Var → ℤ → Bool
fits v x = is_def x || allowed v x

abbrev vars : List Var
vars =
    conf_max_streams ∷ conf_win_size ∷ conf_min_workers ∷ conf_max_workers
    ∷ conf_max_worker_idle_secs ∷ conf_stream_max_mem ∷ conf_alt_svcs ∷ conf_alt_svc_max_age
    ∷ conf_ser_headers ∷ conf_direct ∷ conf_modern_tls_only ∷ conf_upgrade ∷ conf_tls_warmup_size
    ∷ conf_tls_cooldown_secs ∷ conf_push ∷ conf_push_diary_size ∷ conf_copy_files ∷ conf_early_hints
    ∷ conf_padding_bits ∷ conf_padding_always ∷ []

code_back : (v : Var) → get_or vars (code v) conf_max_streams ≡ v
code_back conf_max_streams = refl
code_back _ = refl

==_sound : (a b : ℕ) → (a == b) ≡ true → a ≡ b
==_sound a b h = ground (arith, h)

is_var_sound : (v w : Var) → (v is_var w) ≡ true → v ≡ w
is_var_sound v w h =
    sym (code_back v)
    ∙ ap (λ n. get_or vars n conf_max_streams) (==_sound (code v) (code w) h)
    ∙ code_back w

-- The server's and the directory's numbers are unset or allowed.
pub record InRange {H : Type 0} (s : Srv H) : Type 0 where
  pub srv_fits : (v : Var) → fits v (stored s v) ≡ true

pub record DirInRange (d : Dir) : Type 0 where
  pub dir_fits : (v : Var) → fits v (h2_dir_config_geti64 d v) ≡ true

pub fits_first :
    (v : Var) (a b : ℤ) → fits v a ≡ true → fits v b ≡ true → fits v (first_set a b) ≡ true
fits_first v a b h k = if-both (λ x. fits v x ≡ true) (is_def a) b a (λ _. k) (λ _. h)

module _ {H : Type 0} where
  pub create-InRange : (name : Text) → InRange (h2_config_create_svr {H = H} name)
  create-InRange name = record { srv_fits = λ v. ap (fits v) (stored-create H name v) ∙ refl }

  pub merge-InRange :
      (overlay : H → H → H) (base add : Srv H)
      → InRange base
      → InRange add
      → InRange (h2_config_merge overlay base add)
  merge-InRange overlay base add h k = record {
    srv_fits = λ v.
        ap (fits v) (stored-merge overlay base add v)
        ∙ fits_first v (stored add v) (stored base v) (k.srv_fits v) (h.srv_fits v);
  }

  pub seti-InRange :
      (s : Srv H) (v : Var) (x : ℤ)
      → fits v x ≡ true
      → InRange s
      → InRange (h2_srv_config_seti s v x)
  seti-InRange s v x f h = record { srv_fits = at }
    where
      picked : (w : Var) → fits w (if v is_var w then x else stored s w) ≡ true
      picked w =
          if-both (λ y. fits w y ≡ true) (v is_var w) x (stored s w)
            (λ t. subst (λ u. fits u x ≡ true) (is_var_sound v w t) f) (λ _. h.srv_fits w)

      at : (w : Var) → fits w (stored (h2_srv_config_seti s v x) w) ≡ true
      at w =
          ap (fits w) (stored-seti s v w x)
          ∙ if-both (λ y. fits w y ≡ true) (has_field v) (if v is_var w then x else stored s w)
              (stored s w) (λ _. picked w) (λ _. h.srv_fits w)
