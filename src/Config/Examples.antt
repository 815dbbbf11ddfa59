-- ===== src/Config/Examples.antt =====
-- Directives on a configuration: mod_http2/h2_config.c. Hashes are lists here.
use mod_h.Prelude.{
  ℕ, ◌-◌, ◌≡◌, refl, true, false, List, [], ◌∷◌, ◌++◌, Option, none, some, if◌then◌else◌, arith,
}
use mod_h.Prelude.Int.{ℤ, pos}
use mod_h.Apr.{Text}
use mod_h.Session.Priority.{dependant_after, Priority}
use mod_h.Config.{
  conf_max_streams, conf_push, conf_padding_bits, Srv, Dir, is_def, first_some,
  h2_config_create_svr, h2_config_create_dir, h2_config_merge,
}
use mod_h.Config.Access.{
  h2_cconfig_get_priority, h2_srv_config_geti64, h2_dir_config_geti64, h2_config_seti,
  h2_config_geti, h2_srv_config_seti,
}
use mod_h.Config.Fields.{stored}
use mod_h.Config.Reading.{shown, geti-seti, geti64-merge}
use mod_h.Config.Merging.{get_priority-merge}
use mod_h.Config.Directives.{Confs, done, h2_conf_set_padding, config_cmd_set}
use mod_h.Apr.{same_text}
use mod_h.Config.Directives.Table.{Directive, h2_cmds}
use mod_h.Config.Directives.Ranges.{fits}
use mod_h.Config.Directives.Made.{created, directive, Reads, Made-Reads}

abbrev Hash : Type 0
Hash = List (Text × Priority)

abbrev get : Hash → Text → Option Priority
get [] t = none
get ((k, p) ∷ h) t = if same_text k t then some p else get h t

abbrev overlay : Hash → Hash → Hash
overlay a b = a ++ b

get_overlay : (a b : Hash) (t : Text) → get (overlay a b) t ≡ first_some (get a t) (get b t)
get_overlay [] b t = refl
get_overlay ((k, p) ∷ a) b t = ground (arith, get_overlay a b t)

abbrev server : Srv Hash
server = h2_config_create_svr (b's' ∷ [])

abbrev few : Srv Hash
few = h2_srv_config_seti server conf_max_streams (pos 5)

abbrev place : Dir
place = h2_config_create_dir (some (b'/' ∷ []))

geti-seti_example :
    let (d, s) = h2_config_seti (some place) server conf_push (pos 0) in
    h2_config_geti d s conf_push ≡ shown conf_push (pos 0)
geti-seti_example = geti-seti (some place) server conf_push (pos 0) refl (omega arith) refl

geti64-merge_example :
    h2_srv_config_geti64 (h2_config_merge overlay few server) conf_max_streams ≡ (
      if is_def (stored server conf_max_streams)
      then h2_srv_config_geti64 few conf_max_streams
      else h2_srv_config_geti64 server conf_max_streams)
geti64-merge_example = geti64-merge overlay few server conf_max_streams

-- A base with a priority for b, and a configuration on top of it with one for "*".
abbrev prio : ℕ → Priority
prio w = record { dependency = dependant_after; weight = pos w }

abbrev base : Srv Hash
base = record server { priorities = some ((b'b' ∷ [], prio 7) ∷ []) }

abbrev top : Srv Hash
top = record server { priorities = some ((42 ∷ [], prio 9) ∷ []) }

get_priority-merge_example :
    h2_cconfig_get_priority get (h2_config_merge overlay base top) (some (b'b' ∷ []))
    ≡ some (prio 7)
get_priority-merge_example = get_priority-merge get overlay get_overlay base top (b'b' ∷ [])

-- One digit.
abbrev atoi : Text → ℤ
atoi [] = pos 0
atoi (c ∷ s) = pos (c - 48)

abbrev fresh : Hash
fresh = []

abbrev set : Hash → Text → Priority → Hash
set h k p = (k, p) ∷ h

abbrev new : Confs Hash
new = record { dir = place; srv = server }

abbrev padded : Confs Hash
padded = record { dir = place; srv = h2_srv_config_seti server conf_padding_bits (pos 8) }

padding_taken : h2_cmds atoi fresh set (Directive.h2_padding (b'8' ∷ [])) false new ≡ done padded
unfolding h2_cmds h2_conf_set_padding config_cmd_set h2_config_seti
padding_taken = refl

Made-Reads_example :
    Reads conf_padding_bits (h2_srv_config_geti64 padded.srv conf_padding_bits)
    × (fits conf_padding_bits (h2_dir_config_geti64 padded.dir conf_padding_bits) ≡ true)
Made-Reads_example =
    Made-Reads atoi fresh set overlay
      (directive (Directive.h2_padding (b'8' ∷ [])) false (created (some (b'/' ∷ [])) (b's' ∷ []))
        padding_taken)
      conf_padding_bits
