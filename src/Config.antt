-- ===== src/Config.antt =====
-- The configuration: mod_http2/h2_config.c and mod_http2/h2_config.h. A text is a list of bytes, an
-- array a list; what may be NULL is an option. The hash of priorities, an apr_hash_t, is a type `H`.
pub mod Access
pub mod Fields
pub mod Reading
pub mod Merging
pub mod Examples
pub mod Directives
use mod_h.Prelude.{
  ℕ, zero, suc, max, ◌||◌, ◌==◌, ◌*◌, ◌/◌, ◌-◌, ◌%◌, ◌^◌, List, [], ◌∷◌, ◌++◌, Option, none, some,
  Bool, true, false, if◌then◌else◌, ltb,
}
use mod_h.Prelude.Int.{ℤ, pos, negsuc, pos_part}
use mod_h.Apr.{Text}
use mod_h.AltSvc.{AltSvc}
use mod_h.Session.Priority.{Priority}

-- h2_config_var_t.
pub data Var : Type 0 where
  conf_max_streams conf_win_size conf_min_workers conf_max_workers conf_max_worker_idle_secs
        conf_stream_max_mem conf_alt_svcs conf_alt_svc_max_age conf_ser_headers conf_direct
        conf_modern_tls_only conf_upgrade conf_tls_warmup_size conf_tls_cooldown_secs conf_push
        conf_push_diary_size conf_copy_files conf_early_hints conf_padding_bits
        conf_padding_always :
      Var

-- h2_push_res; uri_ref may be NULL.
pub record PushRes : Type 0 where
  pub uri_ref : Option Text
  pub critical : Bool

-- `a <= 0 ? b : a`.
abbrev pub positive_or : ℤ → ℤ → ℤ
positive_or (pos zero) b = b
positive_or (pos (suc n)) b = pos (suc n)
positive_or (negsuc n) b = b

-- DEF_VAL.
abbrev pub def_val : ℤ
def_val = negsuc 0

abbrev pub is_def : ℤ → Bool
is_def (negsuc zero) = true
is_def _ = false

-- H2_CONFIG_GET, of the two fields.
abbrev pub first_set : ℤ → ℤ → ℤ
first_set a b = if is_def a then b else a

-- A cast to int, which is as wide as 32 bits.
abbrev pub to_int : ℤ → ℤ
to_int (pos n) = let r = n % 2 ^ 32 in if ltb r (2 ^ 31) then pos r else negsuc (2 ^ 32 - 1 - r)
to_int (negsuc n) = let r = n % 2 ^ 32 in if ltb r (2 ^ 31) then negsuc r else pos (2 ^ 32 - 1 - r)

-- `a? a : b`.
abbrev pub first_some : {A : Type 0} → Option A → Option A → Option A
first_some (some a) b = some a
first_some none b = b

-- The arrays of push_list.
abbrev pub append_lists : {A : Type 0} → Option (List A) → Option (List A) → Option (List A)
append_lists (some base) (some add) = some (base ++ add)
append_lists base none = base
append_lists none (some add) = some add

-- h2_config.
pub record Srv (H : Type 0) : Type 0 where
  pub name : Text
  pub h2_max_streams : ℤ
  pub h2_window_size : ℤ
  pub min_workers : ℤ
  pub max_workers : ℤ
  pub max_worker_idle_secs : ℤ
  pub stream_max_mem_size : ℤ
  pub alt_svcs : Option (List AltSvc)
  pub alt_svc_max_age : ℤ
  pub serialize_headers : ℤ
  pub h2_direct : ℤ
  pub modern_tls_only : ℤ
  pub h2_upgrade : ℤ
  pub tls_warmup_size : ℤ
  pub tls_cooldown_secs : ℤ
  pub h2_push : ℤ
  pub priorities : Option H
  pub push_diary_size : ℤ
  pub copy_files : ℤ
  pub push_list : Option (List PushRes)
  pub early_hints : ℤ
  pub padding_bits : ℤ
  pub padding_always : ℤ

-- h2_dir_config.
pub record Dir : Type 0 where
  pub name : Text
  pub alt_svcs : Option (List AltSvc)
  pub alt_svc_max_age : ℤ
  pub h2_upgrade : ℤ
  pub h2_push : ℤ
  pub push_list : Option (List PushRes)
  pub early_hints : ℤ

abbrev pub default_name : Text
default_name = 100 ∷ 101 ∷ 102 ∷ 97 ∷ 117 ∷ 108 ∷ 116 ∷ []

abbrev pub defconf : {H : Type 0} → Srv H
defconf = record {
  name = default_name;
  h2_max_streams = pos 100;
  h2_window_size = pos 65535;
  min_workers = def_val;
  max_workers = def_val;
  max_worker_idle_secs = pos 600;
  stream_max_mem_size = pos 32768;
  alt_svcs = none;
  alt_svc_max_age = def_val;
  serialize_headers = pos 0;
  h2_direct = def_val;
  modern_tls_only = pos 1;
  h2_upgrade = def_val;
  tls_warmup_size = pos 1048576;
  tls_cooldown_secs = pos 1;
  h2_push = pos 1;
  priorities = none;
  push_diary_size = pos 256;
  copy_files = pos 0;
  push_list = none;
  early_hints = pos 0;
  padding_bits = pos 0;
  padding_always = pos 1;
}

abbrev pub defdconf : Dir
defdconf = record {
  name = default_name;
  alt_svcs = none;
  alt_svc_max_age = def_val;
  h2_upgrade = def_val;
  h2_push = def_val;
  push_list = none;
  early_hints = def_val;
}

-- "srv[", "]", "merged[" and the others around the names.
abbrev pub named : Text → Text → Text
named prefix s = prefix ++ s ++ (93 ∷ [])

abbrev pub merged_name : Text → Text → Text
merged_name add base = named (109 ∷ 101 ∷ 114 ∷ 103 ∷ 101 ∷ 100 ∷ 91 ∷ []) (add ++ 44 ∷ 32 ∷ base)

unfoldable pub h2_config_create_svr : {H : Type 0} → Text → Srv H
h2_config_create_svr defn_name = record {
  name = named (115 ∷ 114 ∷ 118 ∷ 91 ∷ []) defn_name;
  h2_max_streams = def_val;
  h2_window_size = def_val;
  min_workers = def_val;
  max_workers = def_val;
  max_worker_idle_secs = def_val;
  stream_max_mem_size = def_val;
  alt_svcs = none;
  alt_svc_max_age = def_val;
  serialize_headers = def_val;
  h2_direct = def_val;
  modern_tls_only = def_val;
  h2_upgrade = def_val;
  tls_warmup_size = def_val;
  tls_cooldown_secs = def_val;
  h2_push = def_val;
  priorities = none;
  push_diary_size = def_val;
  copy_files = def_val;
  push_list = none;
  early_hints = def_val;
  padding_bits = def_val;
  padding_always = def_val;
}

unfoldable pub h2_config_create_dir : Option Text → Dir
h2_config_create_dir x = record {
  name = named (100 ∷ 105 ∷ 114 ∷ 91 ∷ []) (elim x [ none ↦ unknown | some s ↦ s ]);
  alt_svcs = none;
  alt_svc_max_age = def_val;
  h2_upgrade = def_val;
  h2_push = def_val;
  push_list = none;
  early_hints = def_val;
}
  where
    unknown : Text
    unknown = 117 ∷ 110 ∷ 107 ∷ 110 ∷ 111 ∷ 119 ∷ 110 ∷ []

-- `overlay` is apr_hash_overlay; its first argument goes before its second.
unfoldable pub merge_priorities : {H : Type 0} → (H → H → H) → Option H → Option H → Option H
merge_priorities overlay (some add) (some base) = some (overlay add base)
merge_priorities overlay add base = first_some add base

-- h2_config_merge and h2_config_merge_svr.
unfoldable pub h2_config_merge : {H : Type 0} → (H → H → H) → Srv H → Srv H → Srv H
h2_config_merge overlay base add = record {
  name = merged_name add.name base.name;
  h2_max_streams = first_set add.h2_max_streams base.h2_max_streams;
  h2_window_size = first_set add.h2_window_size base.h2_window_size;
  min_workers = first_set add.min_workers base.min_workers;
  max_workers = first_set add.max_workers base.max_workers;
  max_worker_idle_secs = first_set add.max_worker_idle_secs base.max_worker_idle_secs;
  stream_max_mem_size = first_set add.stream_max_mem_size base.stream_max_mem_size;
  alt_svcs = first_some add.alt_svcs base.alt_svcs;
  alt_svc_max_age = first_set add.alt_svc_max_age base.alt_svc_max_age;
  serialize_headers = first_set add.serialize_headers base.serialize_headers;
  h2_direct = first_set add.h2_direct base.h2_direct;
  modern_tls_only = first_set add.modern_tls_only base.modern_tls_only;
  h2_upgrade = first_set add.h2_upgrade base.h2_upgrade;
  tls_warmup_size = first_set add.tls_warmup_size base.tls_warmup_size;
  tls_cooldown_secs = first_set add.tls_cooldown_secs base.tls_cooldown_secs;
  h2_push = first_set add.h2_push base.h2_push;
  priorities = merge_priorities overlay add.priorities base.priorities;
  push_diary_size = first_set add.push_diary_size base.push_diary_size;
  copy_files = first_set add.copy_files base.copy_files;
  push_list = append_lists base.push_list add.push_list;
  early_hints = first_set add.early_hints base.early_hints;
  padding_bits = first_set add.padding_bits base.padding_bits;
  padding_always = first_set add.padding_always base.padding_always;
}

unfoldable pub h2_config_merge_dir : Dir → Dir → Dir
h2_config_merge_dir base add = record {
  name = merged_name add.name base.name;
  alt_svcs = first_some add.alt_svcs base.alt_svcs;
  alt_svc_max_age = first_set add.alt_svc_max_age base.alt_svc_max_age;
  h2_upgrade = first_set add.h2_upgrade base.h2_upgrade;
  h2_push = first_set add.h2_push base.h2_push;
  push_list = append_lists base.push_list add.push_list;
  early_hints = first_set add.early_hints base.early_hints;
}
