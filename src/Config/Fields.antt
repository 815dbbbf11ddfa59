-- ===== src/Config/Fields.antt =====
-- What stands in a field of h2_config, for each variable: mod_http2/h2_config.c.
use mod_h.Prelude.{ℕ, ◌≡◌, refl, List, Bool, true, false, if◌then◌else◌, ◌==◌}
use mod_h.Prelude.Int.{ℤ, pos}
use mod_h.Config.{
  Var, conf_max_streams, conf_win_size, conf_min_workers, conf_max_workers,
  conf_max_worker_idle_secs, conf_stream_max_mem, conf_alt_svcs, conf_alt_svc_max_age,
  conf_ser_headers, conf_direct, conf_modern_tls_only, conf_upgrade, conf_tls_warmup_size,
  conf_tls_cooldown_secs, conf_push, conf_push_diary_size, conf_copy_files, conf_early_hints,
  conf_padding_bits, conf_padding_always, Srv, def_val, first_set, defconf, h2_config_create_svr,
  h2_config_merge,
}
use mod_h.Config.Access.{h2_srv_config_geti64, h2_srv_config_seti}

-- The field of a variable; H2_CONF_ALT_SVCS has no number.
abbrev pub stored : {H : Type 0} → Srv H → Var → ℤ
stored c conf_max_streams = c.h2_max_streams
stored c conf_win_size = c.h2_window_size
stored c conf_min_workers = c.min_workers
stored c conf_max_workers = c.max_workers
stored c conf_max_worker_idle_secs = c.max_worker_idle_secs
stored c conf_stream_max_mem = c.stream_max_mem_size
stored c conf_alt_svcs = def_val
stored c conf_alt_svc_max_age = c.alt_svc_max_age
stored c conf_ser_headers = c.serialize_headers
stored c conf_direct = c.h2_direct
stored c conf_modern_tls_only = c.modern_tls_only
stored c conf_upgrade = c.h2_upgrade
stored c conf_tls_warmup_size = c.tls_warmup_size
stored c conf_tls_cooldown_secs = c.tls_cooldown_secs
stored c conf_push = c.h2_push
stored c conf_push_diary_size = c.push_diary_size
stored c conf_copy_files = c.copy_files
stored c conf_early_hints = c.early_hints
stored c conf_padding_bits = c.padding_bits
stored c conf_padding_always = c.padding_always

abbrev pub code : Var → ℕ
code conf_max_streams = 0
code conf_win_size = 1
code conf_min_workers = 2
code conf_max_workers = 3
code conf_max_worker_idle_secs = 4
code conf_stream_max_mem = 5
code conf_alt_svcs = 6
code conf_alt_svc_max_age = 7
code conf_ser_headers = 8
code conf_direct = 9
code conf_modern_tls_only = 10
code conf_upgrade = 11
code conf_tls_warmup_size = 12
code conf_tls_cooldown_secs = 13
code conf_push = 14
code conf_push_diary_size = 15
code conf_copy_files = 16
code conf_early_hints = 17
code conf_padding_bits = 18
code conf_padding_always = 19

infix 50 ◌is_var◌
abbrev pub ◌is_var◌ : Var → Var → Bool
v is_var w = code v == code w

abbrev pub has_field : Var → Bool
has_field conf_alt_svcs = false
has_field _ = true

pub stored-seti :
    {H : Type 0} (c : Srv H) (v w : Var) (x : ℤ)
    → stored (h2_srv_config_seti c v x) w
      ≡ (if has_field v then (if v is_var w then x else stored c w) else stored c w)
unfolding h2_srv_config_seti
stored-seti c conf_max_streams conf_max_streams x = refl
stored-seti c conf_max_streams _ x = refl
stored-seti c conf_win_size conf_max_streams x = refl
stored-seti c conf_win_size _ x = refl
stored-seti c conf_min_workers conf_max_streams x = refl
stored-seti c conf_min_workers _ x = refl
stored-seti c conf_max_workers conf_max_streams x = refl
stored-seti c conf_max_workers _ x = refl
stored-seti c conf_max_worker_idle_secs conf_max_streams x = refl
stored-seti c conf_max_worker_idle_secs _ x = refl
stored-seti c conf_stream_max_mem conf_max_streams x = refl
stored-seti c conf_stream_max_mem _ x = refl
stored-seti c conf_alt_svcs conf_max_streams x = refl
stored-seti c conf_alt_svcs _ x = refl
stored-seti c conf_alt_svc_max_age conf_max_streams x = refl
stored-seti c conf_alt_svc_max_age _ x = refl
stored-seti c conf_ser_headers conf_max_streams x = refl
stored-seti c conf_ser_headers _ x = refl
stored-seti c conf_direct conf_max_streams x = refl
stored-seti c conf_direct _ x = refl
stored-seti c conf_modern_tls_only conf_max_streams x = refl
stored-seti c conf_modern_tls_only _ x = refl
stored-seti c conf_upgrade conf_max_streams x = refl
stored-seti c conf_upgrade _ x = refl
stored-seti c conf_tls_warmup_size conf_max_streams x = refl
stored-seti c conf_tls_warmup_size _ x = refl
stored-seti c conf_tls_cooldown_secs conf_max_streams x = refl
stored-seti c conf_tls_cooldown_secs _ x = refl
stored-seti c conf_push conf_max_streams x = refl
stored-seti c conf_push _ x = refl
stored-seti c conf_push_diary_size conf_max_streams x = refl
stored-seti c conf_push_diary_size _ x = refl
stored-seti c conf_copy_files conf_max_streams x = refl
stored-seti c conf_copy_files _ x = refl
stored-seti c conf_early_hints conf_max_streams x = refl
stored-seti c conf_early_hints _ x = refl
stored-seti c conf_padding_bits conf_max_streams x = refl
stored-seti c conf_padding_bits _ x = refl
stored-seti c conf_padding_always conf_max_streams x = refl
stored-seti c conf_padding_always _ x = refl

pub stored-merge :
    {H : Type 0} (overlay : H → H → H) (base add : Srv H) (v : Var)
    → stored (h2_config_merge overlay base add) v ≡ first_set (stored add v) (stored base v)
unfolding h2_config_merge
stored-merge overlay base add conf_max_streams = refl
stored-merge overlay base add _ = refl

pub stored-create :
    (H : Type 0) (name : List ℕ) (v : Var) → stored (h2_config_create_svr {H = H} name) v ≡ def_val
unfolding h2_config_create_svr
stored-create H name conf_max_streams = refl
stored-create H name _ = refl

abbrev pub is_direct : Var → Bool
is_direct conf_direct = true
is_direct _ = false

pub geti64-stored :
    {H : Type 0} (c : Srv H) (v : Var)
    → h2_srv_config_geti64 c v
      ≡ (if is_direct v then pos 1 else first_set (stored c v) (stored (defconf {H = H}) v))
unfolding h2_srv_config_geti64
geti64-stored c conf_max_streams = refl
geti64-stored c _ = refl
