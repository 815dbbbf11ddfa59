-- ===== src/Session/Process/Run.antt =====
-- The rounds of h2_session_process in mod_http2/h2_session.c, and what it returns. The loop runs on
-- fuel; when that runs out the result is `none`.
use mod_h.Prelude.{ℕ, zero, suc, Bool, false, not, ◌&&◌, Option, none, some, if◌then◌else◌}
use mod_h.Apr.{Status, success, eof}
use mod_h.Stream.{Env}
use mod_h.Session.{
  SessionState, st_init, st_idle, st_busy, st_wait, ev_conn_error, ev_proto_error, ev_ngh2_done,
  ev_mpm_stopping, Outside, Session, World,
}
use mod_h.Session.Callbacks.{is_done}
use mod_h.Session.Events.{dispatch_event}
use mod_h.Session.Process.{
  Loop, Round, next, leave, is_gone, process_init, process_idle, process_busy, process_wait,
}

module _ {E R : Type 0} (out : Outside E) (base : Env (Session E) R) (io : Loop E R) where
  abbrev to_next : Status × World E R → Round E R
  to_next r = next r.0 r.1

  -- The switch over the state.
  unfoldable pub process_state : Bool → Status → World E R → SessionState → Round E R
  process_state async status w st_init = to_next (process_init out base io status w)
  process_state async status w st_idle = process_idle out base io async status w
  process_state async status w st_busy = to_next (process_busy out base io w)
  process_state async status w st_wait = to_next (process_wait out base io status w)
  process_state async status w _ = next status (dispatch_event out base w ev_proto_error 0)

  -- Before the switch.
  unfoldable pub round_begin : World E R → World E R
  round_begin w =
      if w.session.local.accepting && io.mpm_stopping w
      then dispatch_event out base w ev_mpm_stopping 0
      else w

  abbrev pub wants_nothing : World E R → Bool
  wants_nothing w = not (io.want_read w.session.ext) && not (io.want_write w.session.ext)

  -- Behind the switch.
  unfoldable pub round_end : World E R → World E R
  round_end w =
      let v = if wants_nothing w then dispatch_event out base w ev_ngh2_done 0 else w in
      if v.session.reprioritize
      then (let u = io.reprioritize v in
          record u { session = record (u.session) { reprioritize = false } })
      else v

  unfoldable pub process_round : Bool → Status → World E R → Round E R
  process_round async status w =
      let v = round_begin w in process_state async status v v.session.state

  -- Behind the label `out`.
  unfoldable pub process_out : Status → World E R → Status × World E R
  process_out status w =
      let v =
        if not (is_done w.session.state) && is_gone status
        then dispatch_event out base w ev_conn_error 0
        else w in
      (if is_done v.session.state then eof else success, v)

  unfoldable pub h2_session_process : ℕ → Bool → Status → World E R → Option (Status × World E R)
  h2_session_process zero async status w = none
  h2_session_process (suc fuel) async status w =
      if is_done w.session.state
      then some (process_out status w)
      else elim (process_round async status w) [
        | next s v ↦ h2_session_process fuel async s (round_end v)
        | leave s v ↦ some (process_out s v)
      ]
