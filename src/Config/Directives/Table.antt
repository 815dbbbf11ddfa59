-- ===== src/Config/Directives/Table.antt =====
-- The table h2_cmds of mod_http2/h2_config.c: the directives and the functions that they run.
use mod_h.Prelude.{Bool, Option}
use mod_h.Prelude.Int.{ℤ}
use mod_h.Apr.{Text}
use mod_h.Session.Priority.{Priority}
use mod_h.Config.{
  conf_win_size, conf_min_workers, conf_max_workers, conf_max_worker_idle_secs, conf_stream_max_mem,
  conf_alt_svc_max_age, conf_ser_headers, conf_direct, conf_modern_tls_only, conf_upgrade,
  conf_tls_warmup_size, conf_tls_cooldown_secs, conf_push, conf_copy_files, conf_early_hints,
  to_int,
}
use mod_h.Config.Directives.{
  below_1024, not_positive, Confs, Reply, done, config_cmd_set, config_cmd_set64, set_switch,
  set_above, h2_conf_set_max_streams, h2_conf_set_push_diary_size, h2_conf_set_padding,
  h2_conf_add_push_res, h2_conf_add_push_priority, h2_add_alt_svc,
}

pub data Directive : Type 0 where
  h2_max_session_streams h2_window_size h2_min_workers h2_max_workers h2_max_worker_idle_seconds :
      Text → Directive
  h2_stream_max_mem_size h2_alt_svc h2_alt_svc_max_age h2_serialize_headers h2_modern_tls_only :
      Text → Directive
  h2_upgrade h2_direct h2_session_extra_files h2_tls_warm_up_size h2_tls_cool_down_secs :
      Text → Directive
  h2_push h2_push_diary_size h2_copy_files h2_early_hints h2_padding : Text → Directive
  h2_push_priority : Text → Text → Option Text → Directive
  h2_push_resource : Text → Option Text → Option Text → Directive

module _ {H : Type 0} (atoi : Text → ℤ) (fresh : H) (set : H → Text → Priority → H) where
  abbrev int_of : Text → ℤ
  int_of s = to_int (atoi s)

  -- The table h2_cmds.
  unfoldable pub h2_cmds : Directive → Bool → Confs H → Reply H
  h2_cmds (h2_max_session_streams v) path c = h2_conf_set_max_streams path c (int_of v)
  h2_cmds (h2_window_size v) path c = set_above conf_win_size 1024 below_1024 path c (int_of v)
  h2_cmds (h2_min_workers v) path c = set_above conf_min_workers 1 not_positive path c (int_of v)
  h2_cmds (h2_max_workers v) path c = set_above conf_max_workers 1 not_positive path c (int_of v)
  h2_cmds (h2_max_worker_idle_seconds v) path c =
      set_above conf_max_worker_idle_secs 1 not_positive path c (int_of v)
  h2_cmds (h2_stream_max_mem_size v) path c =
      set_above conf_stream_max_mem 1024 below_1024 path c (int_of v)
  h2_cmds (h2_alt_svc v) path c = h2_add_alt_svc atoi fresh set path c v
  h2_cmds (h2_alt_svc_max_age v) path c =
      done (config_cmd_set path c conf_alt_svc_max_age (int_of v))
  h2_cmds (h2_serialize_headers v) path c = set_switch conf_ser_headers path c v
  h2_cmds (h2_modern_tls_only v) path c = set_switch conf_modern_tls_only path c v
  h2_cmds (h2_upgrade v) path c = set_switch conf_upgrade path c v
  h2_cmds (h2_direct v) path c = set_switch conf_direct path c v
  h2_cmds (h2_session_extra_files v) path c = done c
  h2_cmds (h2_tls_warm_up_size v) path c =
      done (config_cmd_set64 path c conf_tls_warmup_size (atoi v))
  h2_cmds (h2_tls_cool_down_secs v) path c =
      done (config_cmd_set64 path c conf_tls_cooldown_secs (int_of v))
  h2_cmds (h2_push v) path c = set_switch conf_push path c v
  h2_cmds (h2_push_priority ctype dep weight) path c =
      h2_conf_add_push_priority atoi fresh set c ctype dep weight
  h2_cmds (h2_push_diary_size v) path c = h2_conf_set_push_diary_size path c (int_of v)
  h2_cmds (h2_copy_files v) path c = set_switch conf_copy_files path c v
  h2_cmds (h2_push_resource a b d) path c = h2_conf_add_push_res path c a b d
  h2_cmds (h2_early_hints v) path c = set_switch conf_early_hints path c v
  h2_cmds (h2_padding v) path c = h2_conf_set_padding path c (int_of v)
