-- ===== src/Session/Shutdown.antt =====
-- The end of a session: dispatch_event of mod_http2/h2_session.c, over each event and over lists of
-- events.
use mod_h.Prelude.{ℕ, ◌≡◌, refl, ◌∙◌, true, false, List, [], ◌∷◌, arith, if-both, if◌then◌else◌}
use mod_h.Apr.{is_success}
use mod_h.Stream.{Env}
use mod_h.Session.{
  SessionState, st_done, st_idle, st_busy, st_wait, SessionEvent, ev_init, ev_local_goaway,
  ev_remote_goaway, ev_conn_error, ev_proto_error, ev_conn_timeout, ev_no_io, ev_frame_rcvd,
  ev_ngh2_done, ev_mpm_stopping, ev_pre_close, ev_stream_change, Outside, Session, World,
}
use mod_h.Session.Callbacks.{is_done, is_resting, transit, h2_session_ev_stream_change}
use mod_h.Session.Events.{
  is_busy, is_init, is_positive, leaves, cleanup_unprocessed_streams, h2_session_shutdown,
  h2_session_shutdown_notice, h2_session_ev_init, h2_session_ev_remote_goaway,
  h2_session_ev_conn_error, h2_session_ev_proto_error, h2_session_ev_conn_timeout, no_io_busy,
  h2_session_ev_no_io, h2_session_ev_frame_rcvd, h2_session_ev_ngh2_done,
  h2_session_ev_mpm_stopping, h2_session_ev_pre_close, dispatch_event,
}
use mod_h.Session.Kept.{Goaways, stream_change-Kept}
use mod_h.Session.Goaway.{
  Ends, Ends-trans, ends, Kept-Ends, Ends-refl, cleanup-Kept, shutdown-Ends, to_done-Ends,
  from_other-Ends, local_goaway-Ends, notice-Ends,
}

module _ {E R : Type 0} (out : Outside E) (base : Env (Session E) R) where
  -- A session through a list of events with their arguments.
  unfoldable pub dispatch_all : World E R → List (SessionEvent × ℕ) → World E R
  dispatch_all w [] = w
  dispatch_all w ((ev, arg) ∷ evs) = dispatch_all (dispatch_event out base w ev arg) evs

module _ {E R : Type 0} (out : Outside E) (base : Env (Session E) R) (g : E → ℕ)
    (law : Goaways out g) where
  pub record Event (w v : World E R) : Type 0 where
    pub goes : Ends g w.session v.session

  event : (w v : World E R) → Ends g w.session v.session → Event w v
  event w v h = record { goes = h }

  remote_goaway-Ends :
      (w : World E R) (arg : ℕ) → Event w (h2_session_ev_remote_goaway out base w arg)
  unfolding h2_session_ev_remote_goaway transit
  remote_goaway-Ends w arg =
      let x = record w.session {
        remote = record (w.session.remote) { error = arg; accepting = false; shutdown = true };
      } in
      let v = cleanup_unprocessed_streams out base (record w { session = x }) in
      let (_, a, s, _, _, n) = cleanup-Kept out base g law (record w { session = x }) in
      if-both (Event w) w.session.remote.shutdown w
        (record v { session = transit v.session st_done })
        (λ t. event w w (Ends-refl out base g law w.session))
        (λ f. event w _ (ends g _ _ (λ h. refl) (λ h. s ∙ h) (ground (arith, s, n))))

  conn_error-Ends : (w : World E R) (arg : ℕ) → Event w (h2_session_ev_conn_error out base w arg)
  unfolding h2_session_ev_conn_error
  conn_error-Ends w arg =
      let done = record w { session = transit w.session st_done } in
      let v = (h2_session_shutdown out base w arg false).0 in
      if-both (Event w) (leaves w.session.state) done v
        (λ t. event w done (to_done-Ends out base g law w.session))
        (λ f. event w v (shutdown-Ends out base g law w arg false))

  conn_timeout-Ends :
      (w : World E R) (arg : ℕ) → Event w (h2_session_ev_conn_timeout out base w arg)
  unfolding h2_session_ev_conn_timeout transit
  conn_timeout-Ends w arg =
      let v = record w { session = transit w.session st_done } in
      let u = (h2_session_shutdown out base v arg true).0 in
      if-both (Event w) v.session.local.shutdown v u
        (λ t. event w v (to_done-Ends out base g law w.session))
        (λ f. event w u (
          Ends-trans g w.session v.session u.session (to_done-Ends out base g law w.session)
            (shutdown-Ends out base g law v arg true)))

  flush-Ends : (x : Session E) → Ends g x (record x { ext = (out.io_flush x.ext).1 })
  flush-Ends x = ends g _ _ (λ h. h) (λ h. h) (ground (arith, law.flush_keeps x.ext))

  no_io_busy-Ends :
      (w : World E R) (arg : ℕ)
      → is_done w.session.state ≡ false
      → Event w (no_io_busy out base w arg)
  unfolding no_io_busy transit
  no_io_busy-Ends w arg e =
      let x = w.session in
      let wait = record w { session = transit x st_wait } in
      let i = record w { session = transit x st_idle } in
      let io = out.io_flush x.ext in
      let f = record w { session = record i.session { ext = io.1 } } in
      let failed = h2_session_ev_conn_error out base f 0 in
      let flushed = if is_success io.0 then f else failed in
      let shut = (h2_session_shutdown out base w arg false).0 in
      let over = record shut { session = transit shut.session st_done } in
      let to_i = from_other-Ends out base g law x st_idle e in
      let to_f = Ends-trans g x i.session f.session to_i (flush-Ends i.session) in
      if-both (Event w) (is_positive x.open_streams)
        (if out.mplx_awaits_data x.ext then wait else flushed)
        (if x.local.accepting then i else over)
        (λ t.
          if-both (Event w) (out.mplx_awaits_data x.ext) wait flushed
            (λ t. event w wait (from_other-Ends out base g law x st_wait e))
            (λ t.
              if-both (Event w) (is_success io.0) f failed (λ t. event w f to_f)
                (λ t.
                  event w failed
                    (Ends-trans g x f.session failed.session to_f (conn_error-Ends f 0).goes))))
        (λ t.
          if-both (Event w) x.local.accepting i over (λ t. event w i to_i)
            (λ t. event w over (
              Ends-trans g x shut.session over.session (shutdown-Ends out base g law w arg false)
                (to_done-Ends out base g law shut.session))))

  is_done-not_busy : (s : SessionState) → is_busy s ≡ true → is_done s ≡ false
  is_done-not_busy st_done e = cc
  is_done-not_busy _ e = refl

  no_io-Ends : (w : World E R) (arg : ℕ) → Event w (h2_session_ev_no_io out base w arg)
  unfolding h2_session_ev_no_io
  no_io-Ends w arg =
      let x = w.session in
      let f = record x { ext = (out.io_flush x.ext).1 } in
      let v = no_io_busy out base (record w { session = f }) arg in
      if-both (Event w) (is_busy x.state) v w
        (λ t. event w v (
          Ends-trans g x f v.session (flush-Ends x)
            (no_io_busy-Ends (record w { session = f }) arg (is_done-not_busy x.state t)).goes))
        (λ t. event w w (Ends-refl out base g law x))

  is_done-not_init : (s : SessionState) → is_init s ≡ true → is_done s ≡ false
  is_done-not_init st_done e = cc
  is_done-not_init _ e = refl

  is_done-not_resting : (s : SessionState) → is_resting s ≡ true → is_done s ≡ false
  is_done-not_resting st_done e = cc
  is_done-not_resting _ e = refl

  dispatch_event-Event :
      (w : World E R) (ev : SessionEvent) (arg : ℕ) → Event w (dispatch_event out base w ev arg)
  unfolding dispatch_event h2_session_ev_init h2_session_ev_proto_error h2_session_ev_frame_rcvd
      h2_session_ev_ngh2_done h2_session_ev_mpm_stopping h2_session_ev_pre_close
  dispatch_event-Event w ev_init arg =
      if-both (Event w) (is_init w.session.state) (record w { session = transit w.session st_busy })
        w
        (λ t.
          event w _
            (from_other-Ends out base g law w.session st_busy (is_done-not_init w.session.state t)))
        (λ t. event w w (Ends-refl out base g law w.session))
  dispatch_event-Event w ev_local_goaway arg = event w _ (local_goaway-Ends out base g law w)
  dispatch_event-Event w ev_remote_goaway arg = remote_goaway-Ends w arg
  dispatch_event-Event w ev_conn_error arg = conn_error-Ends w arg
  dispatch_event-Event w ev_proto_error arg =
      if-both (Event w) (w.session.local.shutdown) w (h2_session_shutdown out base w arg false).0
        (λ t. event w w (Ends-refl out base g law w.session))
        (λ t. event w _ (shutdown-Ends out base g law w arg false))
  dispatch_event-Event w ev_conn_timeout arg = conn_timeout-Ends w arg
  dispatch_event-Event w ev_no_io arg = no_io-Ends w arg
  dispatch_event-Event w ev_frame_rcvd arg =
      if-both (Event w) (is_resting w.session.state)
        (record w { session = transit w.session st_busy }) w
        (λ t. event w _ (
          from_other-Ends out base g law w.session st_busy (is_done-not_resting w.session.state t)))
        (λ t. event w w (Ends-refl out base g law w.session))
  dispatch_event-Event w ev_ngh2_done arg =
      if-both (Event w) (is_done w.session.state) w
        (record w { session = transit w.session st_done })
        (λ t. event w w (Ends-refl out base g law w.session))
        (λ t. event w _ (to_done-Ends out base g law w.session))
  dispatch_event-Event w ev_mpm_stopping arg =
      if-both (Event w) (is_done w.session.state) w
        (record w { session = (h2_session_shutdown_notice out base w.session).0 })
        (λ t. event w w (Ends-refl out base g law w.session))
        (λ t. event w _ (notice-Ends out base g law w.session))
  dispatch_event-Event w ev_pre_close arg = event w _ (shutdown-Ends out base g law w arg true)
  dispatch_event-Event w ev_stream_change arg =
      let y = h2_session_ev_stream_change w.session in
      event w (record w { session = y }) (Kept-Ends g w.session y (stream_change-Kept g w.session))

  -- No event lets a session that is done become another, or takes back its shutdown; and the GOAWAY
  -- frames that it submits number at most one while it was not shut down, and none afterwards.
  pub dispatch_event-Ends :
      (w : World E R) (ev : SessionEvent) (arg : ℕ)
      → Ends g w.session (dispatch_event out base w ev arg).session
  dispatch_event-Ends w ev arg = (dispatch_event-Event w ev arg).goes
