-- ===== src/Config/Access.antt =====
-- What is read of a configuration and stored into one: the functions h2_config_geti, h2_config_seti
-- and others of mod_http2/h2_config.c.
use mod_h.Prelude.{ℕ, max, ◌||◌, ◌==◌, ◌*◌, ◌/◌, List, [], ◌∷◌, Option, none, some, if◌then◌else◌}
use mod_h.Prelude.Int.{ℤ, pos, pos_part}
use mod_h.Apr.{Text}
use mod_h.AltSvc.{AltSvc}
use mod_h.Session.Priority.{Priority}
use mod_h.Config.{
  Var, conf_max_streams, conf_win_size, conf_min_workers, conf_max_workers,
  conf_max_worker_idle_secs, conf_stream_max_mem, conf_alt_svcs, conf_alt_svc_max_age,
  conf_ser_headers, conf_direct, conf_modern_tls_only, conf_upgrade, conf_tls_warmup_size,
  conf_tls_cooldown_secs, conf_push, conf_push_diary_size, conf_copy_files, conf_early_hints,
  conf_padding_bits, conf_padding_always, def_val, is_def, first_set, to_int, first_some,
  positive_or, Srv, Dir, PushRes,
}

unfoldable pub h2_srv_config_geti64 : {H : Type 0} → Srv H → Var → ℤ
h2_srv_config_geti64 conf conf_max_streams = first_set conf.h2_max_streams (pos 100)
h2_srv_config_geti64 conf conf_win_size = first_set conf.h2_window_size (pos 65535)
h2_srv_config_geti64 conf conf_min_workers = first_set conf.min_workers (def_val)
h2_srv_config_geti64 conf conf_max_workers = first_set conf.max_workers (def_val)
h2_srv_config_geti64 conf conf_max_worker_idle_secs = first_set conf.max_worker_idle_secs (pos 600)
h2_srv_config_geti64 conf conf_stream_max_mem = first_set conf.stream_max_mem_size (pos 32768)
h2_srv_config_geti64 conf conf_alt_svcs = def_val
h2_srv_config_geti64 conf conf_alt_svc_max_age = first_set conf.alt_svc_max_age (def_val)
h2_srv_config_geti64 conf conf_ser_headers = first_set conf.serialize_headers (pos 0)
h2_srv_config_geti64 conf conf_direct = pos 1
h2_srv_config_geti64 conf conf_modern_tls_only = first_set conf.modern_tls_only (pos 1)
h2_srv_config_geti64 conf conf_upgrade = first_set conf.h2_upgrade (def_val)
h2_srv_config_geti64 conf conf_tls_warmup_size = first_set conf.tls_warmup_size (pos 1048576)
h2_srv_config_geti64 conf conf_tls_cooldown_secs = first_set conf.tls_cooldown_secs (pos 1)
h2_srv_config_geti64 conf conf_push = first_set conf.h2_push (pos 1)
h2_srv_config_geti64 conf conf_push_diary_size = first_set conf.push_diary_size (pos 256)
h2_srv_config_geti64 conf conf_copy_files = first_set conf.copy_files (pos 0)
h2_srv_config_geti64 conf conf_early_hints = first_set conf.early_hints (pos 0)
h2_srv_config_geti64 conf conf_padding_bits = first_set conf.padding_bits (pos 0)
h2_srv_config_geti64 conf conf_padding_always = first_set conf.padding_always (pos 1)

unfoldable pub h2_srv_config_seti : {H : Type 0} → Srv H → Var → ℤ → Srv H
h2_srv_config_seti conf conf_max_streams val = record conf { h2_max_streams = val }
h2_srv_config_seti conf conf_win_size val = record conf { h2_window_size = val }
h2_srv_config_seti conf conf_min_workers val = record conf { min_workers = val }
h2_srv_config_seti conf conf_max_workers val = record conf { max_workers = val }
h2_srv_config_seti conf conf_max_worker_idle_secs val = record conf { max_worker_idle_secs = val }
h2_srv_config_seti conf conf_stream_max_mem val = record conf { stream_max_mem_size = val }
h2_srv_config_seti conf conf_alt_svcs val = conf
h2_srv_config_seti conf conf_alt_svc_max_age val = record conf { alt_svc_max_age = val }
h2_srv_config_seti conf conf_ser_headers val = record conf { serialize_headers = val }
h2_srv_config_seti conf conf_direct val = record conf { h2_direct = val }
h2_srv_config_seti conf conf_modern_tls_only val = record conf { modern_tls_only = val }
h2_srv_config_seti conf conf_upgrade val = record conf { h2_upgrade = val }
h2_srv_config_seti conf conf_tls_warmup_size val = record conf { tls_warmup_size = val }
h2_srv_config_seti conf conf_tls_cooldown_secs val = record conf { tls_cooldown_secs = val }
h2_srv_config_seti conf conf_push val = record conf { h2_push = val }
h2_srv_config_seti conf conf_push_diary_size val = record conf { push_diary_size = val }
h2_srv_config_seti conf conf_copy_files val = record conf { copy_files = val }
h2_srv_config_seti conf conf_early_hints val = record conf { early_hints = val }
h2_srv_config_seti conf conf_padding_bits val = record conf { padding_bits = val }
h2_srv_config_seti conf conf_padding_always val = record conf { padding_always = val }

-- A value for an int is cut to one.
unfoldable pub h2_srv_config_seti64 : {H : Type 0} → Srv H → Var → ℤ → Srv H
h2_srv_config_seti64 conf conf_tls_warmup_size val = record conf { tls_warmup_size = val }
h2_srv_config_seti64 conf var val = h2_srv_config_seti conf var (to_int val)

unfoldable pub h2_dir_config_geti64 : Dir → Var → ℤ
h2_dir_config_geti64 conf conf_alt_svc_max_age = first_set conf.alt_svc_max_age def_val
h2_dir_config_geti64 conf conf_upgrade = first_set conf.h2_upgrade def_val
h2_dir_config_geti64 conf conf_push = first_set conf.h2_push def_val
h2_dir_config_geti64 conf conf_early_hints = first_set conf.early_hints def_val
h2_dir_config_geti64 conf var = def_val

-- The directory's configuration, when there is one, and the server's.
unfoldable pub h2_config_seti : {H : Type 0} → Option Dir → Srv H → Var → ℤ → Option Dir × Srv H
h2_config_seti (some dconf) conf conf_alt_svc_max_age val =
    (some (record dconf { alt_svc_max_age = val }), conf)
h2_config_seti (some dconf) conf conf_upgrade val = (some (record dconf { h2_upgrade = val }), conf)
h2_config_seti (some dconf) conf conf_push val = (some (record dconf { h2_push = val }), conf)
h2_config_seti (some dconf) conf conf_early_hints val =
    (some (record dconf { early_hints = val }), conf)
h2_config_seti dconf conf var val = (dconf, h2_srv_config_seti conf var val)

unfoldable pub h2_config_seti64 : {H : Type 0} → Option Dir → Srv H → Var → ℤ → Option Dir × Srv H
h2_config_seti64 dconf conf var val = (dconf, h2_srv_config_seti64 conf var val)

-- h2_config_sgeti and h2_config_cgeti, of the configuration that a server or a connection has.
unfoldable pub h2_config_sgeti : {H : Type 0} → Srv H → Var → ℤ
h2_config_sgeti conf var = to_int (h2_srv_config_geti64 conf var)

unfoldable pub h2_config_sgeti64 : {H : Type 0} → Srv H → Var → ℤ
h2_config_sgeti64 conf var = h2_srv_config_geti64 conf var

-- `r` is the directory's configuration of a request.
unfoldable pub h2_config_geti64 : {H : Type 0} → Option Dir → Srv H → Var → ℤ
h2_config_geti64 r s var =
    let mode : ℤ = elim r [ none ↦ def_val | some d ↦ to_int (h2_dir_config_geti64 d var) ] in
    if is_def mode then h2_config_sgeti64 s var else mode

unfoldable pub h2_config_geti : {H : Type 0} → Option Dir → Srv H → Var → ℤ
h2_config_geti r s var = to_int (h2_config_geti64 r s var)

unfoldable pub h2_config_push_list : {H : Type 0} → Dir → Srv H → Option (List PushRes)
h2_config_push_list conf sconf = first_some conf.push_list sconf.push_list

unfoldable pub h2_config_alt_svcs : {H : Type 0} → Dir → Srv H → Option (List AltSvc)
h2_config_alt_svcs conf sconf = first_some conf.alt_svcs sconf.alt_svcs

-- What stands before the first of "; \t".
abbrev pub media_type : Text → Text
media_type [] = []
media_type (c ∷ s) = if c == b';' || c == b' ' || c == 9 then [] else c ∷ media_type s

-- `get` is apr_hash_get; the last resort is "*".
unfoldable pub h2_cconfig_get_priority :
    {H : Type 0} → (H → Text → Option Priority) → Srv H → Option Text → Option Priority
h2_cconfig_get_priority get conf none = none
h2_cconfig_get_priority get conf (some content_type) = elim conf.priorities [
  | none ↦ none
  | some h ↦ first_some (get h (media_type content_type)) (get h (42 ∷ []))
]

-- `threads` is AP_MPMQ_MAX_THREADS; the numbers are ints.
unfoldable pub h2_get_num_workers : {H : Type 0} → ℕ → Srv H → ℤ × ℤ
h2_get_num_workers threads s =
    let minw : ℤ = positive_or (h2_config_sgeti s conf_min_workers) (pos threads) in
    (minw, positive_or (h2_config_sgeti s conf_max_workers) (pos (max (3 * pos_part minw / 2) 4)))
