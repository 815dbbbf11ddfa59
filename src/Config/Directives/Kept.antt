-- ===== src/Config/Directives/Kept.antt =====
-- The setters of mod_http2/h2_config.c and the ranges of numbers.
use mod_h.Prelude.{
  ℕ, ◌^◌, ◌≡◌, refl, ap, ◌∙◌, Bool, true, false, not, ◌&&◌, some, if◌then◌else◌, if-both, arith,
}
use mod_h.Prelude.Int.{ℤ, pos, negsuc}
use mod_h.Apr.{Text}
use mod_h.Config.{
  Var, conf_max_streams, conf_alt_svc_max_age, conf_upgrade, conf_tls_warmup_size,
  conf_tls_cooldown_secs, conf_push, conf_push_diary_size, conf_early_hints, conf_padding_bits, Dir,
  def_val, to_int, first_set,
}
use mod_h.Config.Access.{
  h2_srv_config_seti, h2_srv_config_seti64, h2_dir_config_geti64, h2_config_seti, h2_config_seti64,
}
use mod_h.Config.Reading.{IsInt, to_int_id}
use mod_h.Config.Directives.{
  Message, text_on, text_off, below, above, has_two_bits, Confs, Reply, error, done, keep,
  config_cmd_set, config_cmd_set64, set_switch, set_above, h2_conf_set_max_streams,
  h2_conf_set_push_diary_size, h2_conf_set_padding,
}
use mod_h.Apr.{same_case}
use mod_h.Config.Directives.Ranges.{
  at_least, allowed, fits, InRange, DirInRange, fits_first, seti-InRange,
}

pub record Good {H : Type 0} (c : Confs H) : Type 0 where
  pub srv_good : InRange c.srv
  pub dir_good : DirInRange c.dir

-- An error leaves the configurations as they are.
abbrev pub GoodReply : {H : Type 0} → Reply H → Type 0
GoodReply (error m) = Unit
GoodReply (done c) = Good c

fits_allowed : (v : Var) (x : ℤ) → allowed v x ≡ true → fits v x ≡ true
fits_allowed v x h = ground (arith, h)

fits_unset : (v : Var) (x : ℤ) → fits v x ≡ true → fits v (first_set x def_val) ≡ true
fits_unset v x h = fits_first v x def_val h refl

alt_svc_max_age_set :
    (d : Dir) (x : ℤ)
    → fits conf_alt_svc_max_age x ≡ true
    → DirInRange d
    → DirInRange (record d { alt_svc_max_age = x })
unfolding h2_dir_config_geti64
alt_svc_max_age_set d x f h = record { dir_fits = at }
  where
    at : (v : Var) → fits v (h2_dir_config_geti64 (record d { alt_svc_max_age = x }) v) ≡ true
    at conf_alt_svc_max_age = fits_unset conf_alt_svc_max_age x f
    at v = h.dir_fits v

upgrade_set :
    (d : Dir) (x : ℤ)
    → fits conf_upgrade x ≡ true
    → DirInRange d
    → DirInRange (record d { h2_upgrade = x })
unfolding h2_dir_config_geti64
upgrade_set d x f h = record { dir_fits = at }
  where
    at : (v : Var) → fits v (h2_dir_config_geti64 (record d { h2_upgrade = x }) v) ≡ true
    at conf_upgrade = fits_unset conf_upgrade x f
    at v = h.dir_fits v

push_set :
    (d : Dir) (x : ℤ)
    → fits conf_push x ≡ true
    → DirInRange d
    → DirInRange (record d { h2_push = x })
unfolding h2_dir_config_geti64
push_set d x f h = record { dir_fits = at }
  where
    at : (v : Var) → fits v (h2_dir_config_geti64 (record d { h2_push = x }) v) ≡ true
    at conf_push = fits_unset conf_push x f
    at v = h.dir_fits v

early_hints_set :
    (d : Dir) (x : ℤ)
    → fits conf_early_hints x ≡ true
    → DirInRange d
    → DirInRange (record d { early_hints = x })
unfolding h2_dir_config_geti64
early_hints_set d x f h = record { dir_fits = at }
  where
    at : (v : Var) → fits v (h2_dir_config_geti64 (record d { early_hints = x }) v) ≡ true
    at conf_early_hints = fits_unset conf_early_hints x f
    at v = h.dir_fits v

not_below : (n : ℕ) (x : ℤ) → below n x ≡ false → at_least n x ≡ true
not_below n (pos v) h = ground (arith, h)
not_below n (negsuc v) h = ground (arith, h)

within_limits : {a b c : Bool} → a ≡ true → b ≡ false → c ≡ false → (a && not b && not c) ≡ true
within_limits h k l = ground (arith, h, k, l)

module _ {H : Type 0} where
  seti-Good :
      (c : Confs H) (v : Var) (x : ℤ)
      → fits v x ≡ true
      → Good c
      → Good (record c { srv = h2_srv_config_seti c.srv v x })
  seti-Good c v x f g = record {
    srv_good = seti-InRange c.srv v x f g.srv_good;
    dir_good = g.dir_good;
  }

  dir_set-Good :
      (c : Confs H) (v : Var) (x : ℤ)
      → fits v x ≡ true
      → Good c
      → Good (keep c (h2_config_seti (some c.dir) c.srv v x))
  unfolding h2_config_seti
  dir_set-Good c conf_alt_svc_max_age x f g = record {
    srv_good = g.srv_good;
    dir_good = alt_svc_max_age_set c.dir x f g.dir_good;
  }
  dir_set-Good c conf_upgrade x f g = record {
    srv_good = g.srv_good;
    dir_good = upgrade_set c.dir x f g.dir_good;
  }
  dir_set-Good c conf_push x f g = record {
    srv_good = g.srv_good;
    dir_good = push_set c.dir x f g.dir_good;
  }
  dir_set-Good c conf_early_hints x f g = record {
    srv_good = g.srv_good;
    dir_good = early_hints_set c.dir x f g.dir_good;
  }
  dir_set-Good c v x f g = record {
    srv_good = seti-InRange c.srv v x f g.srv_good;
    dir_good = g.dir_good;
  }

  set-Good :
      (path : Bool) (c : Confs H) (v : Var) (x : ℤ)
      → allowed v x ≡ true
      → Good c
      → Good (config_cmd_set path c v x)
  unfolding config_cmd_set h2_config_seti
  set-Good true c v x a g = dir_set-Good c v x (fits_allowed v x a) g
  set-Good false c v x a g = seti-Good c v x (fits_allowed v x a) g

  -- A handler that refuses a number or sets it.
  refused_or_set :
      (bad : Bool) (m : Message) (r : Reply H)
      → (bad ≡ false → GoodReply r)
      → GoodReply (if bad then error m else r)
  refused_or_set true m r h = tt
  refused_or_set false m r h = h refl

  pub above-Good :
      (v : Var) (least : ℕ) (m : Message) (path : Bool) (c : Confs H) (x : ℤ)
      → (at_least least x ≡ true → allowed v x ≡ true)
      → Good c
      → GoodReply (set_above v least m path c x)
  unfolding set_above
  above-Good v least m path c x a g =
      refused_or_set (below least x) m (done (config_cmd_set path c v x))
        (λ b. set-Good path c v x (a (not_below least x b)) g)

  pub switch-Good :
      (v : Var) (path : Bool) (c : Confs H) (value : Text)
      → allowed v (pos 0) ≡ true
      → allowed v (pos 1) ≡ true
      → Good c
      → GoodReply (set_switch v path c value)
  unfolding set_switch
  switch-Good v path c value z o g =
      if-both GoodReply (same_case value text_on) (done (config_cmd_set path c v (pos 1)))
        (if same_case value text_off
          then done (config_cmd_set path c v (pos 0))
          else error Message.not_on_off)
        (λ _. set-Good path c v (pos 1) o g)
        (λ _.
          if-both GoodReply (same_case value text_off) (done (config_cmd_set path c v (pos 0)))
            (error Message.not_on_off) (λ _. set-Good path c v (pos 0) z g) (λ _. tt))

  max_streams_set :
      (c : Confs H) (x : ℤ)
      → IsInt x
      → Good c
      → GoodReply (
          if below 1 x
          then error Message.not_positive
          else done (record c { srv = h2_srv_config_seti c.srv conf_max_streams (to_int x) }))
  max_streams_set c x i g =
      refused_or_set (below 1 x) Message.not_positive
        (done (record c { srv = h2_srv_config_seti c.srv conf_max_streams (to_int x) }))
        (λ b.
          seti-Good c conf_max_streams (to_int x)
            (fits_allowed conf_max_streams (to_int x)
              (ap (at_least 1) (to_int_id x i) ∙ not_below 1 x b))
            g)

  pub max_streams-Good :
      (path : Bool) (c : Confs H) (x : ℤ)
      → IsInt x
      → Good c
      → GoodReply (h2_conf_set_max_streams path c x)
  unfolding h2_conf_set_max_streams config_cmd_set64 h2_config_seti64 h2_srv_config_seti64
  max_streams-Good true c x i g = max_streams_set c x i g
  max_streams-Good false c x i g = max_streams_set c x i g

  pub diary_size-Good :
      (path : Bool) (c : Confs H) (x : ℤ)
      → Good c
      → GoodReply (h2_conf_set_push_diary_size path c x)
  unfolding h2_conf_set_push_diary_size
  diary_size-Good path c x g = refused_or_set (below 0 x) Message.negative _ λ p.
      refused_or_set (has_two_bits x) Message.not_power_of_2 _ λ q.
        refused_or_set (above (2 ^ 15) x) Message.above_65536
          (done (config_cmd_set path c conf_push_diary_size x))
          λ r. set-Good path c conf_push_diary_size x (within_limits (not_below 0 x p) r q) g

  pub padding-Good :
      (path : Bool) (c : Confs H) (x : ℤ) → Good c → GoodReply (h2_conf_set_padding path c x)
  unfolding h2_conf_set_padding
  padding-Good path c x g = refused_or_set (below 0 x) Message.negative _ λ p.
      refused_or_set (above 8 x) Message.above_8 (done (config_cmd_set path c conf_padding_bits x))
        λ r. set-Good path c conf_padding_bits x (ground (arith, not_below 0 x p, r)) g

  -- The sizes of TLS records have no range.
  pub tls-Good :
      (path : Bool) (c : Confs H) (x : ℤ)
      → Good c
      → Good (config_cmd_set64 path c conf_tls_warmup_size x)
        × Good (config_cmd_set64 path c conf_tls_cooldown_secs x)
  unfolding config_cmd_set64 h2_config_seti64 h2_srv_config_seti64 h2_srv_config_seti
  tls-Good true c x g = (
    seti-Good c conf_tls_warmup_size x (fits_allowed conf_tls_warmup_size x refl) g,
    seti-Good c conf_tls_cooldown_secs (to_int x)
        (fits_allowed conf_tls_cooldown_secs (to_int x) refl) g,
  )
  tls-Good false c x g = (
    seti-Good c conf_tls_warmup_size x (fits_allowed conf_tls_warmup_size x refl) g,
    seti-Good c conf_tls_cooldown_secs (to_int x)
        (fits_allowed conf_tls_cooldown_secs (to_int x) refl) g,
  )

  pub max_age-Good :
      (path : Bool) (c : Confs H) (x : ℤ)
      → Good c
      → Good (config_cmd_set path c conf_alt_svc_max_age x)
  max_age-Good path c x g = set-Good path c conf_alt_svc_max_age x refl g
