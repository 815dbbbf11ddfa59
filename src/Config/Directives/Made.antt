-- ===== src/Config/Directives/Made.antt =====
-- Configurations that directives make: h2_cmds of mod_http2/h2_config.c over any directives and
-- merges.
use mod_h.Prelude.{
  ◌≡◌, refl, sym, ap, subst, Bool, true, false, ◌&&◌, ◌||◌, Option, if◌then◌else◌, if-both,
  Bool-cases, inl, inr, arith,
}
use mod_h.Prelude.Int.{ℤ, pos}
use mod_h.Apr.{Text}
use mod_h.Session.Priority.{Priority}
use mod_h.Config.{
  Var, conf_max_streams, conf_min_workers, conf_max_workers, conf_alt_svcs, conf_alt_svc_max_age,
  conf_direct, conf_upgrade, conf_push, conf_early_hints, Dir, def_val, is_def, first_set, defconf,
  h2_config_create_svr, h2_config_create_dir, h2_config_merge, h2_config_merge_dir,
}
use mod_h.Config.Access.{h2_srv_config_geti64, h2_dir_config_geti64}
use mod_h.Config.Fields.{stored, is_direct, geti64-stored}
use mod_h.Config.Directives.{Confs, done}
use mod_h.Config.Directives.Table.{Directive, h2_cmds}
use mod_h.Config.Directives.Ranges.{
  allowed, fits, DirInRange, fits_first, create-InRange, merge-InRange,
}
use mod_h.Config.Directives.Kept.{Good, GoodReply}
use mod_h.Config.Directives.Cmds.{h2_cmds-Good}

-- The variables that have no default, which are then read as -1.
abbrev pub no_default : Var → Bool
no_default conf_min_workers = true
no_default conf_max_workers = true
no_default conf_alt_svcs = true
no_default conf_alt_svc_max_age = true
no_default conf_upgrade = true
no_default _ = false

-- What may be read of a variable.
abbrev pub Reads : Var → ℤ → Type 0
Reads v x = (allowed v x || (no_default v && is_def x)) ≡ true

fits_of_first : (v : Var) (a : ℤ) → fits v (first_set a def_val) ≡ true → fits v a ≡ true
fits_of_first v a h = elim (Bool-cases (is_def a)) [
  | inl e ↦ ap (λ b. b || allowed v a) e
  | inr e ↦ subst (λ b. fits v (if b then def_val else a) ≡ true) e h
]

create_dir-DirInRange : (x : Option Text) → DirInRange (h2_config_create_dir x)
unfolding h2_config_create_dir h2_dir_config_geti64
create_dir-DirInRange x = record { dir_fits = at }
  where
    at : (v : Var) → fits v (h2_dir_config_geti64 (h2_config_create_dir x) v) ≡ true
    at conf_upgrade = refl
    at _ = refl

merged_first :
    (v : Var) (a b : ℤ)
    → fits v (first_set a def_val) ≡ true
    → fits v (first_set b def_val) ≡ true
    → fits v (first_set (first_set a b) def_val) ≡ true
merged_first v a b h k =
    fits_first v (first_set a b) def_val
      (fits_first v a b (fits_of_first v a h) (fits_of_first v b k)) refl

merge_dir-DirInRange :
    (base add : Dir) → DirInRange base → DirInRange add → DirInRange (h2_config_merge_dir base add)
unfolding h2_config_merge_dir h2_dir_config_geti64
merge_dir-DirInRange base add h k = record { dir_fits = at }
  where
    at : (v : Var) → fits v (h2_dir_config_geti64 (h2_config_merge_dir base add) v) ≡ true
    at conf_alt_svc_max_age =
        merged_first conf_alt_svc_max_age add.alt_svc_max_age base.alt_svc_max_age
          (k.dir_fits conf_alt_svc_max_age) (h.dir_fits conf_alt_svc_max_age)
    at conf_upgrade =
        merged_first conf_upgrade add.h2_upgrade base.h2_upgrade (k.dir_fits conf_upgrade)
          (h.dir_fits conf_upgrade)
    at conf_push =
        merged_first conf_push add.h2_push base.h2_push (k.dir_fits conf_push)
          (h.dir_fits conf_push)
    at conf_early_hints =
        merged_first conf_early_hints add.early_hints base.early_hints (k.dir_fits conf_early_hints)
          (h.dir_fits conf_early_hints)
    at _ = refl

kept_or : (a b c : Bool) → a ≡ false → (a || b) ≡ true → (b || c) ≡ true
kept_or a b c h k = ground (arith, h, k)

set_Reads : (v : Var) (x : ℤ) → is_def x ≡ false → fits v x ≡ true → Reads v x
set_Reads v x e h = kept_or (is_def x) (allowed v x) (no_default v && is_def x) e h

-- What is set is read, else the default.
default_Reads :
    (H : Type 0) (v : Var) (x : ℤ)
    → fits v x ≡ true
    → Reads v (if is_direct v then pos 1 else first_set x (stored (defconf {H = H}) v))
default_Reads H conf_direct x h = refl
default_Reads H conf_max_streams x h =
    if-both (Reads conf_max_streams) (is_def x) (pos 100) x (λ _. refl)
      (λ e. set_Reads conf_max_streams x e h)
default_Reads H v x h =
    if-both (Reads v) (is_def x) (stored (defconf {H = H}) v) x (λ _. refl) (λ e. set_Reads v x e h)

module _ {H : Type 0} (atoi : Text → ℤ) (fresh : H) (set : H → Text → Priority → H)
    (overlay : H → H → H) where
  -- Configurations that the server makes: new ones, after a directive that is not refused, merged,
  -- and the directory's part of one with the server's part of another.
  pub data Made : Confs H → Type 0 where
    created :
        (x : Option Text) (name : Text)
        → Made record { dir = h2_config_create_dir x; srv = h2_config_create_svr name }
    directive :
        {c e : Confs H} (d : Directive) (path : Bool)
        → Made c
        → h2_cmds atoi fresh set d path c ≡ done e
        → Made e
    merged :
        {base add : Confs H}
        → Made base
        → Made add
        → Made record {
          dir = h2_config_merge_dir base.dir add.dir;
          srv = h2_config_merge overlay base.srv add.srv;
        }
    paired : {c e : Confs H} → Made c → Made e → Made record { dir = c.dir; srv = e.srv }

  Made-Good : {c : Confs H} → Made c → Good c
  Made-Good (created x name) = record {
    srv_good = create-InRange name;
    dir_good = create_dir-DirInRange x;
  }
  Made-Good (directive {c} {e} d path m h) =
      subst GoodReply h (h2_cmds-Good atoi fresh set d path c (Made-Good m))
  Made-Good (merged {base} {add} m n) =
      let g : Good base = Made-Good m in
      let k : Good add = Made-Good n in
      record {
        srv_good = merge-InRange overlay base.srv add.srv g.srv_good k.srv_good;
        dir_good = merge_dir-DirInRange base.dir add.dir g.dir_good k.dir_good;
      }
  Made-Good (paired {c} {e} m n) =
      let g : Good c = Made-Good m in
      let k : Good e = Made-Good n in record { srv_good = k.srv_good; dir_good = g.dir_good }

  -- Whatever directives and merges make a configuration, each variable of it reads as a number that
  -- its directive allows, or as -1 where there is no default; and so does each of a directory, where
  -- -1 is a variable that is not set. So the size of the push diary is no more than 2 ^ 15 and a power
  -- of two or 0, there are at most 8 bits of padding, and windows hold 1024 bytes or more.
  pub Made-Reads :
      {c : Confs H}
      → Made c
      → (v : Var)
      → Reads v (h2_srv_config_geti64 c.srv v) × (fits v (h2_dir_config_geti64 c.dir v) ≡ true)
  Made-Reads {c} m v =
      let g : Good c = Made-Good m in
      (
        subst (Reads v) (sym (geti64-stored c.srv v))
            (default_Reads H v (stored c.srv v) (g.srv_good.srv_fits v)),
        g.dir_good.dir_fits v,
      )
