-- ===== src/Config/Directives.antt =====
-- The directives: the handlers of h2_cmds in mod_http2/h2_config.c. The messages that a handler
-- returns are constructors, and a text that may be missing is an option.
use Prim.Native.Nat.{bit_and}
pub mod Table
pub mod Ranges
pub mod Kept
pub mod Cmds
pub mod Made
use mod_h.Prelude.{
  ℕ, ◌-◌, ◌+◌, ◌^◌, Bool, true, false, not, ◌&&◌, List, [], ◌∷◌, ◌++◌, map, Option, none, some,
  if◌then◌else◌, leb, ltb, ◌==◌,
}
use mod_h.Prelude.Int.{ℤ, pos, negsuc}
use mod_h.Apr.{Text, same_text, same_case}
use mod_h.AltSvc.{AltSvc, h2_alt_svc_parse}
use mod_h.Session.Priority.{
  Dependency, dependant_after, dependant_interleaved, dependant_before, Priority,
}
use mod_h.Config.{
  Var, conf_max_streams, conf_win_size, conf_min_workers, conf_max_workers,
  conf_max_worker_idle_secs, conf_stream_max_mem, conf_alt_svc_max_age, conf_ser_headers,
  conf_direct, conf_modern_tls_only, conf_upgrade, conf_tls_warmup_size, conf_tls_cooldown_secs,
  conf_push, conf_push_diary_size, conf_copy_files, conf_early_hints, conf_padding_bits, PushRes,
  Srv, Dir, to_int,
}
use mod_h.Config.Access.{h2_config_seti, h2_config_seti64}

pub data Message : Type 0 where
  not_positive below_1024 not_on_off bad_alt_svc no_mime_type weight_with_before bad_dependency
        weight_too_low negative not_power_of_2 above_65536 too_many_params bad_last_param above_8 :
      Message

abbrev pub is_digit : ℕ → Bool
is_digit c = leb b'0' c && leb c b'9'

abbrev pub starts_with_digit : Text → Bool
starts_with_digit [] = false
starts_with_digit (c ∷ s) = is_digit c

-- val < n, val > n.
abbrev pub below : ℕ → ℤ → Bool
below n (pos v) = ltb v n
below n (negsuc v) = true

abbrev pub above : ℕ → ℤ → Bool
above n (pos v) = ltb n v
above n (negsuc v) = false

-- val > 0 && (val & (val - 1)).
abbrev pub has_two_bits : ℤ → Bool
has_two_bits (pos v) = ltb 0 v && not (bit_and v (v - 1) == 0)
has_two_bits (negsuc v) = false

abbrev pub text_on : Text
text_on = b'o' ∷ b'n' ∷ []

abbrev pub text_off : Text
text_off = b'o' ∷ b'f' ∷ b'f' ∷ []

-- The configurations that a handler writes to.
pub record Confs (H : Type 0) : Type 0 where
  pub dir : Dir
  pub srv : Srv H

-- What a handler returns; an error leaves the configurations.
pub data Reply (H : Type 0) : Type 0 where
  error : Message → Reply H
  done : Confs H → Reply H

abbrev pub keep : {H : Type 0} → Confs H → Option Dir × Srv H → Confs H
keep c (none, s) = record c { srv = s }
keep c (some d, s) = record { dir = d; srv = s }

-- CONFIG_CMD_SET and CONFIG_CMD_SET64; `path` is whether the directive stands in a directory.
unfoldable pub config_cmd_set : {H : Type 0} → Bool → Confs H → Var → ℤ → Confs H
config_cmd_set path c var val =
    keep c (h2_config_seti (if path then some c.dir else none) c.srv var val)

unfoldable pub config_cmd_set64 : {H : Type 0} → Bool → Confs H → Var → ℤ → Confs H
config_cmd_set64 path c var val =
    keep c (h2_config_seti64 (if path then some c.dir else none) c.srv var val)

-- The handlers that take "On" and "Off".
unfoldable pub set_switch : {H : Type 0} → Var → Bool → Confs H → Text → Reply H
set_switch var path c value =
    if same_case value text_on
    then done (config_cmd_set path c var (pos 1))
    else if same_case value text_off
    then done (config_cmd_set path c var (pos 0))
    else error not_on_off

-- The handlers that take a number with a lower limit.
unfoldable pub set_above : {H : Type 0} → Var → ℕ → Message → Bool → Confs H → ℤ → Reply H
set_above var least refusal path c val =
    if below least val then error refusal else done (config_cmd_set path c var val)

unfoldable pub h2_conf_set_max_streams : {H : Type 0} → Bool → Confs H → ℤ → Reply H
h2_conf_set_max_streams path c val =
    if below 1 val then error not_positive else done (config_cmd_set64 path c conf_max_streams val)

unfoldable pub h2_conf_set_push_diary_size : {H : Type 0} → Bool → Confs H → ℤ → Reply H
h2_conf_set_push_diary_size path c val =
    if below 0 val
    then error negative
    else if has_two_bits val
    then error not_power_of_2
    else if above (2 ^ 15) val
    then error above_65536
    else done (config_cmd_set path c conf_push_diary_size val)

unfoldable pub h2_conf_set_padding : {H : Type 0} → Bool → Confs H → ℤ → Reply H
h2_conf_set_padding path c val =
    if below 0 val
    then error negative
    else if above 8 val
    then error above_8
    else done (config_cmd_set path c conf_padding_bits val)

-- An array that is NULL is made first.
abbrev pub pushed : {A : Type 0} → Option (List A) → A → Option (List A)
pushed none a = some (a ∷ [])
pushed (some xs) a = some (xs ++ a ∷ [])

unfoldable pub add_alt_svc : {H : Type 0} → Bool → Confs H → AltSvc → Confs H
add_alt_svc path c svc =
    if path
    then record c { dir = record (c.dir) { alt_svcs = pushed c.dir.alt_svcs svc } }
    else record c { srv = record (c.srv) { alt_svcs = pushed c.srv.alt_svcs svc } }

unfoldable pub add_push : {H : Type 0} → Bool → Confs H → PushRes → Confs H
add_push path c push =
    if path
    then record c { dir = record (c.dir) { push_list = pushed c.dir.push_list push } }
    else record c { srv = record (c.srv) { push_list = pushed c.srv.push_list push } }

abbrev pub text_add : Text
text_add = b'a' ∷ b'd' ∷ b'd' ∷ []

abbrev pub text_critical : Text
text_critical = b'c' ∷ b'r' ∷ b'i' ∷ b't' ∷ b'i' ∷ b'c' ∷ b'a' ∷ b'l' ∷ []

unfoldable pub with_last : {H : Type 0} → Bool → Confs H → Option Text → Option Text → Reply H
with_last path c uri none = done (add_push path c record { uri_ref = uri; critical = false })
with_last path c uri (some last) =
    if same_case text_critical last
    then done (add_push path c record { uri_ref = uri; critical = true })
    else error bad_last_param

-- The second and the third argument may be missing.
unfoldable pub h2_conf_add_push_res :
    {H : Type 0} → Bool → Confs H → Text → Option Text → Option Text → Reply H
h2_conf_add_push_res path c arg1 arg2 arg3 =
    if same_case text_add arg1
    then with_last path c arg2 arg3
    else elim arg3 [ none ↦ with_last path c (some arg1) arg2 | some _ ↦ error too_many_params ]

abbrev pub text_after : Text
text_after = b'a' ∷ b'f' ∷ b't' ∷ b'e' ∷ b'r' ∷ []

abbrev pub text_before : Text
text_before = b'b' ∷ b'e' ∷ b'f' ∷ b'o' ∷ b'r' ∷ b'e' ∷ []

abbrev pub text_interleaved : Text
text_interleaved = b'i' ∷ b'n' ∷ b't' ∷ b'e' ∷ b'r' ∷ b'l' ∷ b'e' ∷ b'a' ∷ b'v' ∷ b'e' ∷ b'd' ∷ []

-- The dependency and the weight of the two arguments: one alone may be either.
abbrev pub push_args : Text → Option Text → Text × Option Text
push_args sdependency (some sweight) = (sdependency, some sweight)
push_args sdependency none =
    if starts_with_digit sdependency then (text_after, some sdependency) else (sdependency, none)

-- `set` is apr_hash_set, `fresh` apr_hash_make, and `atoi` apr_atoi64.
module _ {H : Type 0} (atoi : Text → ℤ) (fresh : H) (set : H → Text → Priority → H) where
  unfoldable pub with_weight : Confs H → Text → Dependency → ℤ → Reply H
  with_weight c ctype dep weight =
      if below 1 weight
      then error weight_too_low
      else done (record c {
        srv = record (c.srv) {
          priorities = some (
              set (elim c.srv.priorities [ none ↦ fresh | some h ↦ h ]) ctype
                record { dependency = dep; weight = weight });
        };
      })

  -- The weight that is given, or the default.
  abbrev pub weight_of : Option Text → ℕ → ℤ
  weight_of (some s) w = to_int (atoi s)
  weight_of none w = pos w

  unfoldable pub push_priority : Confs H → Text → Text → Option Text → Reply H
  push_priority c ctype sdependency sweight =
      if same_case text_after sdependency
      then with_weight c ctype dependant_after (weight_of sweight 16)
      else if same_case text_before sdependency
      then elim sweight [
        | none ↦ with_weight c ctype dependant_before (pos 16)
        | some _ ↦ error weight_with_before
      ]
      else if same_case text_interleaved sdependency
      then with_weight c ctype dependant_interleaved (weight_of sweight 256)
      else error bad_dependency

  unfoldable pub h2_conf_add_push_priority : Confs H → Text → Text → Option Text → Reply H
  h2_conf_add_push_priority c [] sdependency sweight = error no_mime_type
  h2_conf_add_push_priority c (t ∷ ctype) sdependency sweight =
      let (dep, weight) = push_args sdependency sweight in push_priority c (t ∷ ctype) dep weight

  unfoldable pub h2_add_alt_svc : Bool → Confs H → Text → Reply H
  h2_add_alt_svc path c [] = done c
  h2_add_alt_svc path c (v ∷ value) = elim (h2_alt_svc_parse (λ s. to_int (atoi s)) (v ∷ value)) [
    | none ↦ error bad_alt_svc
    | some svc ↦ done (add_alt_svc path c svc)
  ]

-- A directive with its arguments.
