-- ===== src/Session/Events.antt =====
-- The events of a session: dispatch_event of mod_http2/h2_session.c and the handlers that it
-- chooses, h2_session_shutdown and h2_session_shutdown_notice, cleanup_unprocessed_streams over
-- h2_mplx_stream_do of mod_http2/h2_mplx.c, and session_cleanup.
--
-- A handler that calls dispatch_event with a fixed event calls that event's handler here: conn_error
-- and proto_error call h2_session_shutdown, and that calls local_goaway.
use mod_h.Prelude.{
  ℕ, zero, suc, Bool, true, false, not, List, [], ◌∷◌, if◌then◌else◌, ltb, ◌==◌, ◌&&◌, ◌||◌,
}
use mod_h.Prelude.Int.{ℤ, pos, negsuc}
use mod_h.Apr.{Status, success, is_success}
use mod_h.Stream.{Stream, Env}
use mod_h.Stream.Machine.{h2_stream_dispatch, h2_stream_rst}
use mod_h.Stream.Frames.{h2_stream_was_closed}
use mod_h.Session.{
  SessionState, st_init, st_done, st_idle, st_busy, st_wait, st_cleanup, SessionEvent, ev_init,
  ev_local_goaway, ev_remote_goaway, ev_conn_error, ev_proto_error, ev_conn_timeout, ev_no_io,
  ev_frame_rcvd, ev_ngh2_done, ev_mpm_stopping, ev_pre_close, ev_stream_change, Outside, Session,
  World,
}
use mod_h.Session.Callbacks.{
  client_initiated, is_done, is_resting, transit, h2_session_ev_stream_change, with_monitor,
}

abbrev pub is_positive : ℤ → Bool
is_positive (pos zero) = false
is_positive (pos (suc n)) = true
is_positive (negsuc n) = false

-- The states in which a connection error just leaves.
abbrev pub leaves : SessionState → Bool
leaves st_init = true
leaves st_done = true
leaves _ = false

abbrev pub is_busy : SessionState → Bool
is_busy st_busy = true
is_busy _ = false

abbrev pub is_init : SessionState → Bool
is_init st_init = true
is_init _ = false

module _ {E R : Type 0} (out : Outside E) (base : Env (Session E) R) where
  abbrev pub stream_env : Env (Session E) R
  stream_env = with_monitor out base

  -- The condition of rst_unprocessed_stream.
  unfoldable pub unprocessed : Session E → Stream R → Bool
  unprocessed x s =
      not (h2_stream_was_closed stream_env s)
      && (if client_initiated s.id
          then not x.local.accepting && ltb x.local.accepted_max s.id
          else not x.remote.accepting && ltb x.remote.accepted_max s.id)

  unfoldable pub reset : Session E → Stream R → Session E × Stream R
  reset x s = h2_stream_rst stream_env (h2_stream_dispatch stream_env) x s 0

  -- Whether a stream is one that the multiplexer has, and unprocessed.
  abbrev pub to_reset : Session E → Stream R → Bool
  to_reset x s = out.mplx_has x.ext s.id && unprocessed x s

  -- h2_mplx_stream_do with rst_unprocessed_stream, over the streams of the session that the
  -- multiplexer has. apr_hash_do ends when its callback returns 0, which this one does after a
  -- reset.
  unfoldable pub stream_do : Session E → List (Stream R) → Session E × List (Stream R)
  stream_do x [] = (x, [])
  stream_do x (s ∷ ss) =
      let (x1, t) = reset x s in
      let (x2, rest) = stream_do x ss in if to_reset x s then (x1, t ∷ ss) else (x2, s ∷ rest)

  abbrev pub W : Type 0
  W = World E R

  abbrev with_session : W → (Session E → Session E) → W
  with_session w f = record w { session = f w.session }

  abbrev to_state : SessionState → Session E → Session E
  to_state n x = transit x n

  unfoldable pub cleanup_unprocessed_streams : W → W
  unfolding stream_do
  cleanup_unprocessed_streams w =
      let (x, ss) = stream_do w.session w.streams in record { session = x; streams = ss }

  unfoldable pub h2_session_ev_local_goaway : W → W
  h2_session_ev_local_goaway w = with_session (cleanup_unprocessed_streams w) (to_state st_done)

  -- The GOAWAY frame, unless the connection is gone.
  unfoldable pub send_goaway : Session E → ℕ → Session E × Status
  send_goaway x error =
      if out.conn_aborted x.ext
      then (x, success)
      else (let (status, e) =
            out.nghttp2_send (out.submit_goaway x.ext x.local.accepted_max error) in
          let (status', e') = out.io_flush e in
          if is_success status
          then (record x { ext = e' }, status')
          else (record x { ext = e }, status))

  -- No further streams are started.
  unfoldable pub stop_streams : Session E → ℕ → Bool → Session E
  stop_streams x error force_close =
      if not (error == 0) || force_close
      then (let (last, e) = out.mplx_shutdown x.ext in
          record x { ext = e; local = record (x.local) { accepted_max = last; error = error } })
      else x

  abbrev announce : Session E → Session E
  announce x = record x { local = record (x.local) { accepting = false; shutdown = true } }

  unfoldable pub h2_session_shutdown : W → ℕ → Bool → W × Status
  unfolding stop_streams send_goaway
  h2_session_shutdown w error force_close =
      if w.session.local.shutdown
      then (w, success)
      else (let (x, status) =
            send_goaway (announce (stop_streams w.session error force_close)) error in
          (h2_session_ev_local_goaway (record w { session = x }), status))

  unfoldable pub h2_session_shutdown_notice : Session E → Session E × Status
  h2_session_shutdown_notice x =
      if not x.local.accepting
      then (x, success)
      else (let (status, e) = out.nghttp2_send (out.submit_shutdown_notice x.ext) in
          let (status', e') = out.io_flush e in
          let y = record x { local = record (x.local) { accepting = false } } in
          if is_success status
          then (record y { ext = e' }, status')
          else (record y { ext = e }, status))

  unfoldable pub h2_session_ev_init : W → W
  h2_session_ev_init w = if is_init w.session.state then with_session w (to_state st_busy) else w

  unfoldable pub h2_session_ev_remote_goaway : W → ℕ → W
  h2_session_ev_remote_goaway w arg =
      if w.session.remote.shutdown
      then w
      else with_session
          (cleanup_unprocessed_streams (
            with_session w (λ x. record x {
              remote = record (x.remote) { error = arg; accepting = false; shutdown = true };
            })))
          (to_state st_done)

  unfoldable pub h2_session_ev_conn_error : W → ℕ → W
  h2_session_ev_conn_error w arg =
      if leaves w.session.state
      then with_session w (to_state st_done)
      else (h2_session_shutdown w arg false).0

  unfoldable pub h2_session_ev_proto_error : W → ℕ → W
  h2_session_ev_proto_error w arg =
      if w.session.local.shutdown then w else (h2_session_shutdown w arg false).0

  unfoldable pub h2_session_ev_conn_timeout : W → ℕ → W
  h2_session_ev_conn_timeout w arg =
      let v = with_session w (to_state st_done) in
      if v.session.local.shutdown then v else (h2_session_shutdown v arg true).0

  abbrev flush : Session E → Session E × Status
  flush x = let (status, e) = out.io_flush x.ext in (record x { ext = e }, status)

  -- The case H2_SESSION_ST_BUSY of h2_session_ev_no_io, behind its first flush.
  unfoldable pub no_io_busy : W → ℕ → W
  unfolding transit
  no_io_busy w arg =
      if is_positive w.session.open_streams
      then if out.mplx_awaits_data w.session.ext
        then with_session w (to_state st_wait)
        else (let (x, status) = flush (transit w.session st_idle) in
            let v = record w { session = x } in
            if is_success status then v else h2_session_ev_conn_error v 0)
      else if w.session.local.accepting
      then with_session w (to_state st_idle)
      else with_session (h2_session_shutdown w arg false).0 (to_state st_done)

  unfoldable pub h2_session_ev_no_io : W → ℕ → W
  h2_session_ev_no_io w arg =
      if is_busy w.session.state then no_io_busy (with_session w (λ x. (flush x).0)) arg else w

  unfoldable pub h2_session_ev_frame_rcvd : W → W
  h2_session_ev_frame_rcvd w =
      if is_resting w.session.state then with_session w (to_state st_busy) else w

  unfoldable pub h2_session_ev_ngh2_done : W → W
  h2_session_ev_ngh2_done w =
      if is_done w.session.state then w else with_session w (to_state st_done)

  unfoldable pub h2_session_ev_mpm_stopping : W → W
  h2_session_ev_mpm_stopping w =
      if is_done w.session.state then w else with_session w (λ x. (h2_session_shutdown_notice x).0)

  unfoldable pub h2_session_ev_pre_close : W → ℕ → W
  h2_session_ev_pre_close w arg = (h2_session_shutdown w arg true).0

  unfoldable pub dispatch_event : W → SessionEvent → ℕ → W
  dispatch_event w ev_init arg = h2_session_ev_init w
  dispatch_event w ev_local_goaway arg = h2_session_ev_local_goaway w
  dispatch_event w ev_remote_goaway arg = h2_session_ev_remote_goaway w arg
  dispatch_event w ev_conn_error arg = h2_session_ev_conn_error w arg
  dispatch_event w ev_proto_error arg = h2_session_ev_proto_error w arg
  dispatch_event w ev_conn_timeout arg = h2_session_ev_conn_timeout w arg
  dispatch_event w ev_no_io arg = h2_session_ev_no_io w arg
  dispatch_event w ev_frame_rcvd arg = h2_session_ev_frame_rcvd w
  dispatch_event w ev_ngh2_done arg = h2_session_ev_ngh2_done w
  dispatch_event w ev_mpm_stopping arg = h2_session_ev_mpm_stopping w
  dispatch_event w ev_pre_close arg = h2_session_ev_pre_close w arg
  dispatch_event w ev_stream_change arg = with_session w h2_session_ev_stream_change

  -- The state that session_cleanup leaves.
  unfoldable pub session_cleanup : W → W
  session_cleanup w = with_session w (to_state st_cleanup)

  -- h2_session_pre_close.
  unfoldable pub h2_session_pre_close : W → W
  h2_session_pre_close w = session_cleanup (dispatch_event w ev_pre_close 0)
