-- ===== src/Config/Directives/Cmds.antt =====
-- The directives of h2_cmds in mod_http2/h2_config.c, one by one, and the ranges of numbers.
use mod_h.Prelude.{
  ◌≡◌, refl, ap, ◌∙◌, Bool, true, false, [], ◌∷◌, Option, none, some, if-both, arith,
}
use mod_h.Prelude.Int.{ℤ, pos, negsuc}
use mod_h.Apr.{Text}
use mod_h.Session.Priority.{
  Priority, Dependency, dependant_after, dependant_before, dependant_interleaved,
}
use mod_h.AltSvc.{AltSvc, h2_alt_svc_parse}
use mod_h.Config.{
  Var, conf_win_size, conf_min_workers, conf_max_workers, conf_max_worker_idle_secs,
  conf_stream_max_mem, conf_ser_headers, conf_direct, conf_modern_tls_only, conf_upgrade, conf_push,
  conf_copy_files, conf_early_hints, Srv, PushRes, to_int,
}
use mod_h.Config.Access.{h2_dir_config_geti64}
use mod_h.Config.Fields.{stored}
use mod_h.Config.Reading.{IsInt}
use mod_h.Config.Directives.{
  Message, Confs, error, done, add_alt_svc, add_push, with_last, h2_conf_add_push_res, text_add,
  text_critical, text_after, text_before, text_interleaved, weight_of, below, with_weight,
  push_priority, push_args, h2_conf_add_push_priority, h2_add_alt_svc,
}
use mod_h.Apr.{same_case}
use mod_h.Config.Directives.Table.{Directive, h2_cmds}
use mod_h.Config.Directives.Ranges.{fits}
use mod_h.Config.Directives.Kept.{
  Good, GoodReply, above-Good, switch-Good, max_streams-Good, diary_size-Good, padding-Good,
  tls-Good, max_age-Good,
}

to_int-IsInt : (x : ℤ) → IsInt (to_int x)
to_int-IsInt (pos n) = ground arith
to_int-IsInt (negsuc n) = ground arith

module _ {H : Type 0} where
  lists_kept :
      (c e : Confs H)
      → Good c
      → (srv : (v : Var) → stored e.srv v ≡ stored c.srv v)
      → ((v : Var) → h2_dir_config_geti64 e.dir v ≡ h2_dir_config_geti64 c.dir v)
      → Good e
  lists_kept c e g s d = record {
    srv_good = record { srv_fits = λ v. ap (fits v) (s v) ∙ g.srv_good.srv_fits v };
    dir_good = record { dir_fits = λ v. ap (fits v) (d v) ∙ g.dir_good.dir_fits v };
  }

  srv_same :
      (c : Confs H) (s : Srv H)
      → Good c
      → ((v : Var) → stored s v ≡ stored c.srv v)
      → Good (record c { srv = s })
  srv_same c s g e = lists_kept c (record c { srv = s }) g e (λ v. refl)

  alt_svc_added : (path : Bool) (c : Confs H) (a : AltSvc) → Good c → Good (add_alt_svc path c a)
  unfolding add_alt_svc h2_dir_config_geti64
  alt_svc_added true c a g = lists_kept c (add_alt_svc true c a) g (λ v. refl) same
    where
      same :
          (v : Var)
          → h2_dir_config_geti64 (add_alt_svc true c a).dir v ≡ h2_dir_config_geti64 c.dir v
      same conf_upgrade = refl
      same _ = refl
  alt_svc_added false c a g = lists_kept c (add_alt_svc false c a) g same (λ v. refl)
    where
      same : (v : Var) → stored (add_alt_svc false c a).srv v ≡ stored c.srv v
      same conf_upgrade = refl
      same _ = refl

  push_added : (path : Bool) (c : Confs H) (p : PushRes) → Good c → Good (add_push path c p)
  unfolding add_push h2_dir_config_geti64
  push_added true c p g = lists_kept c (add_push true c p) g (λ v. refl) same
    where
      same :
          (v : Var) → h2_dir_config_geti64 (add_push true c p).dir v ≡ h2_dir_config_geti64 c.dir v
      same conf_upgrade = refl
      same _ = refl
  push_added false c p g = lists_kept c (add_push false c p) g same (λ v. refl)
    where
      same : (v : Var) → stored (add_push false c p).srv v ≡ stored c.srv v
      same conf_upgrade = refl
      same _ = refl

  last_Good :
      (path : Bool) (c : Confs H) (uri last : Option Text)
      → Good c
      → GoodReply (with_last path c uri last)
  unfolding with_last
  last_Good path c uri none g = push_added path c _ g
  last_Good path c uri (some l) g =
      if-both GoodReply (same_case text_critical l)
        (done (add_push path c record { uri_ref = uri; critical = true }))
        (error Message.bad_last_param) (λ _. push_added path c _ g) (λ _. tt)

  push_res-Good :
      (path : Bool) (c : Confs H) (a : Text) (b d : Option Text)
      → Good c
      → GoodReply (h2_conf_add_push_res path c a b d)
  unfolding h2_conf_add_push_res
  push_res-Good path c a b none g =
      if-both GoodReply (same_case text_add a) (with_last path c b none)
        (with_last path c (some a) b) (λ _. last_Good path c b none g)
        (λ _. last_Good path c (some a) b g)
  push_res-Good path c a b (some d) g =
      if-both GoodReply (same_case text_add a) (with_last path c b (some d))
        (error Message.too_many_params) (λ _. last_Good path c b (some d) g) (λ _. tt)

  module _ (atoi : Text → ℤ) (fresh : H) (set : H → Text → Priority → H) where
    weight-Good :
        (c : Confs H) (ctype : Text) (dep : Dependency) (w : ℤ)
        → Good c
        → GoodReply (with_weight atoi fresh set c ctype dep w)
    unfolding with_weight
    weight-Good c ctype dep w g =
        if-both GoodReply (below 1 w) (error Message.weight_too_low)
          (done (record c { srv = after })) (λ _. tt) (λ _. srv_same c after g same)
      where
        after : Srv H
        after = record (c.srv) {
          priorities = some (
              set (elim c.srv.priorities [ none ↦ fresh | some h ↦ h ]) ctype
                record { dependency = dep; weight = w });
        }

        same : (v : Var) → stored after v ≡ stored c.srv v
        same conf_upgrade = refl
        same _ = refl

    before-Good :
        (c : Confs H) (ctype : Text) (sweight : Option Text)
        → Good c
        → GoodReply (elim sweight [
          | none ↦ with_weight atoi fresh set c ctype dependant_before (pos 16)
          | some _ ↦ error Message.weight_with_before
        ])
    before-Good c ctype none g = weight-Good c ctype dependant_before (pos 16) g
    before-Good c ctype (some w) g = tt

    priority-Good :
        (c : Confs H) (ctype dep : Text) (w : Option Text)
        → Good c
        → GoodReply (push_priority atoi fresh set c ctype dep w)
    unfolding push_priority
    priority-Good c ctype dep w g =
        if-both GoodReply (same_case text_after dep) _ _
          (λ _. weight-Good c ctype dependant_after (weight_of atoi fresh set w 16) g)
          λ _.
            if-both GoodReply (same_case text_before dep) _ _ (λ _. before-Good c ctype w g)
              λ _.
                if-both GoodReply (same_case text_interleaved dep) _ (error Message.bad_dependency)
                  (λ _.
                    weight-Good c ctype dependant_interleaved (weight_of atoi fresh set w 256) g)
                  (λ _. tt)

    add_priority-Good :
        (c : Confs H) (ctype dep : Text) (w : Option Text)
        → Good c
        → GoodReply (h2_conf_add_push_priority atoi fresh set c ctype dep w)
    unfolding h2_conf_add_push_priority
    add_priority-Good c [] dep w g = tt
    add_priority-Good c (t ∷ ctype) dep w g =
        priority-Good c (t ∷ ctype) (push_args dep w).0 (push_args dep w).1 g

    add_alt-Good :
        (path : Bool) (c : Confs H) (v : Text)
        → Good c
        → GoodReply (h2_add_alt_svc atoi fresh set path c v)
    unfolding h2_add_alt_svc
    add_alt-Good path c [] g = g
    add_alt-Good path c (t ∷ v) g =
        elim (h2_alt_svc_parse (λ s. to_int (atoi s)) (t ∷ v))
          as (λ o. GoodReply (elim o [
            | none ↦ error Message.bad_alt_svc
            | some svc ↦ done (add_alt_svc path c svc)
          ])) [ none ↦ tt | some svc ↦ alt_svc_added path c svc g ]

    pub h2_cmds-Good :
        (d : Directive) (path : Bool) (c : Confs H)
        → Good c
        → GoodReply (h2_cmds atoi fresh set d path c)
    unfolding h2_cmds
    h2_cmds-Good (Directive.h2_max_session_streams v) path c g =
        max_streams-Good path c (to_int (atoi v)) (to_int-IsInt (atoi v)) g
    h2_cmds-Good (Directive.h2_window_size v) path c g =
        above-Good conf_win_size 1024 Message.below_1024 path c (to_int (atoi v)) (λ h. h) g
    h2_cmds-Good (Directive.h2_min_workers v) path c g =
        above-Good conf_min_workers 1 Message.not_positive path c (to_int (atoi v)) (λ h. h) g
    h2_cmds-Good (Directive.h2_max_workers v) path c g =
        above-Good conf_max_workers 1 Message.not_positive path c (to_int (atoi v)) (λ h. h) g
    h2_cmds-Good (Directive.h2_max_worker_idle_seconds v) path c g =
        above-Good conf_max_worker_idle_secs 1 Message.not_positive path c (to_int (atoi v))
          (λ h. h) g
    h2_cmds-Good (Directive.h2_stream_max_mem_size v) path c g =
        above-Good conf_stream_max_mem 1024 Message.below_1024 path c (to_int (atoi v)) (λ h. h) g
    h2_cmds-Good (Directive.h2_alt_svc v) path c g = add_alt-Good path c v g
    h2_cmds-Good (Directive.h2_alt_svc_max_age v) path c g = max_age-Good path c (to_int (atoi v)) g
    h2_cmds-Good (Directive.h2_serialize_headers v) path c g =
        switch-Good conf_ser_headers path c v refl refl g
    h2_cmds-Good (Directive.h2_modern_tls_only v) path c g =
        switch-Good conf_modern_tls_only path c v refl refl g
    h2_cmds-Good (Directive.h2_upgrade v) path c g = switch-Good conf_upgrade path c v refl refl g
    h2_cmds-Good (Directive.h2_direct v) path c g = switch-Good conf_direct path c v refl refl g
    h2_cmds-Good (Directive.h2_session_extra_files v) path c g = g
    h2_cmds-Good (Directive.h2_tls_warm_up_size v) path c g = (tls-Good path c (atoi v) g).0
    h2_cmds-Good (Directive.h2_tls_cool_down_secs v) path c g =
        (tls-Good path c (to_int (atoi v)) g).1
    h2_cmds-Good (Directive.h2_push v) path c g = switch-Good conf_push path c v refl refl g
    h2_cmds-Good (Directive.h2_push_priority t d w) path c g = add_priority-Good c t d w g
    h2_cmds-Good (Directive.h2_push_diary_size v) path c g =
        diary_size-Good path c (to_int (atoi v)) g
    h2_cmds-Good (Directive.h2_copy_files v) path c g =
        switch-Good conf_copy_files path c v refl refl g
    h2_cmds-Good (Directive.h2_push_resource a b d) path c g = push_res-Good path c a b d g
    h2_cmds-Good (Directive.h2_early_hints v) path c g =
        switch-Good conf_early_hints path c v refl refl g
    h2_cmds-Good (Directive.h2_padding v) path c g = padding-Good path c (to_int (atoi v)) g
