-- ===== src/Session/Process.antt =====
-- The loop of a session: h2_session_process of mod_http2/h2_session.c with h2_session_send and
-- dispatch_master. `status` is the variable of that name, which a round leaves to the next one.
pub mod Run
pub mod Examples
pub mod Returns
use mod_h.Prelude.{
  ℕ, zero, suc, ◌*◌, min, Bool, true, false, not, ◌&&◌, ◌||◌, Option, none, some, if◌then◌else◌,
  ◌==◌,
}
use mod_h.Apr.{Status, success, eof, eagain, econnreset, econnaborted, egeneral, timeup, is_success}
use mod_h.Stream.{Env}
use mod_h.Session.{
  SessionState, st_init, st_done, st_idle, st_busy, st_wait, st_cleanup, ev_init, ev_conn_error,
  ev_proto_error, ev_conn_timeout, ev_no_io, ev_ngh2_done, ev_mpm_stopping, ev_stream_change,
  Outside, Session, World,
}
use mod_h.Session.Callbacks.{is_done, transit}
use mod_h.Session.Events.{dispatch_event, h2_session_shutdown}

-- What nghttp2_session_send returns: an error that is fatal has a code.
pub data Sent : Type 0 where
  sent : Sent
  fatal : ℕ → Sent

-- What the loop calls of nghttp2, the input filters, the multiplexer and the server. The calls back
-- into the session change it, so that these are functions on the whole of it. h2_session_start and
-- h2_session_read stand here as the steps of nghttp2 and the input that they are.
pub record Loop (E R : Type 0) : Type 0 where
  pub mpm_stopping : World E R → Bool
  pub acceptable : World E R → Bool
  pub start : World E R → Status × World E R
  pub read : Bool → World E R → Status × World E R
  pub ngh2_send : World E R → Sent × World E R
  pub master_events : World E R → Status × World E R
  pub mplx_idle : World E R → Status × World E R
  pub trywait : World E R → Status × World E R
  pub reprioritize : World E R → World E R
  pub want_read : E → Bool
  pub want_write : E → Bool
  -- Whether from one state to another a response was submitted or the data of a stream resumed; each
  -- of the two sets have_written.
  pub resumed : E → E → Bool
  -- The time for idling is over. The time for synchronous reads is, in a session without a request
  -- that it was upgraded from.
  pub idle_over : World E R → Bool
  pub sync_over : World E R → Bool

-- H2_ERR_ENHANCE_YOUR_CALM, NGHTTP2_INADEQUATE_SECURITY and H2_ERR_INTERNAL_ERROR.
abbrev pub enhance_your_calm : ℕ
enhance_your_calm = 11

abbrev pub inadequate_security : ℕ
inadequate_security = 12

abbrev pub internal_error : ℕ
internal_error = 2

abbrev pub max_wait_micros : ℕ
max_wait_micros = 200000

-- APR_EAGAIN and APR_TIMEUP.
abbrev pub waits : Status → Bool
waits eagain = true
waits timeup = true
waits _ = false

abbrev pub is_eagain : Status → Bool
is_eagain eagain = true
is_eagain _ = false

abbrev pub is_timeup : Status → Bool
is_timeup timeup = true
is_timeup _ = false

-- APR_EOF, APR_ECONNRESET and APR_ECONNABORTED.
abbrev pub is_gone : Status → Bool
is_gone eof = true
is_gone econnreset = true
is_gone econnaborted = true
is_gone _ = false

abbrev pub is_reset : Status → Bool
is_reset econnreset = true
is_reset econnaborted = true
is_reset _ = false

-- What a round ends with: the next one, or the label `out`.
pub data Round (E R : Type 0) : Type 0 where
  next : Status → World E R → Round E R
  leave : Status → World E R → Round E R

module _ {E R : Type 0} (out : Outside E) (base : Env (Session E) R) (io : Loop E R) where
  abbrev pub W : Type 0
  W = World E R

  abbrev pub conn_error : ℕ → W → W
  conn_error arg w = dispatch_event out base w ev_conn_error arg

  -- The written flag is set in any case.
  unfoldable pub h2_session_send : W → Status × W
  h2_session_send w =
      let (rv, v) = io.ngh2_send w in
      elim rv [
        | sent ↦ (success, v)
        | fatal code ↦ (egeneral, dispatch_event out base v ev_proto_error code)
      ]

  abbrev pub flush : W → Status × W
  flush w =
      let (status, e) = out.io_flush w.session.ext in
      (status, record w { session = record (w.session) { ext = e } })

  -- Sending with a flush.
  unfoldable pub send_and_flush : W → Status × W
  send_and_flush w =
      let (status, v) = h2_session_send w in if is_success status then flush v else (status, v)

  unfoldable pub dispatch_master : W → Status × W
  dispatch_master w =
      let (status, v) = io.master_events w in
      if is_success status || is_eagain status
      then (status, v)
      else (status, conn_error internal_error v)

  -- H2_SESSION_ST_INIT.
  unfoldable pub process_init : Status → W → Status × W
  process_init status w =
      if not (io.acceptable w)
      then (status, (h2_session_shutdown out base w inadequate_security true).0)
      else (let (s, v) = io.start w in
          (s, dispatch_event out base (if is_success s then v else conn_error 0 v) ev_init 0))

  -- What is to be written at the end of H2_SESSION_ST_IDLE.
  unfoldable pub idle_write : Status → W → Status × W
  idle_write status w =
      if io.want_write w.session.ext
      then (let (s, v) = send_and_flush w in
          if is_success s then (s, v) else (s, conn_error internal_error v))
      else (status, w)

  -- The nonblocking read of an idle session.
  unfoldable pub idle_async : W → Round E R
  idle_async w =
      let (s, v) = io.read false w in
      let (s1, v1) = idle_write s v in
      let (s2, v2) = idle_write s (conn_error 0 v) in
      if is_success s then next s1 v1 else if waits s then leave eagain v else next s2 v2

  -- The blocking read, of a second at most.
  unfoldable pub idle_sync : W → Round E R
  idle_sync w =
      let (s, v) = io.mplx_idle w in
      let calm = if is_success s then v else conn_error enhance_your_calm v in
      let (s1, v1) = io.read true calm in
      let (s2, v2) = idle_write s1 (if is_success s1 || waits s1 then v1 else conn_error 0 v1) in
      if is_eagain s then next s v else next s2 v2

  -- Before an idle session reads.
  unfoldable pub idle_ready : W → W
  idle_ready w = (flush (record w { session = record (w.session) { idle_delay = 0 } })).1

  -- H2_SESSION_ST_IDLE, of a connection that is asynchronous or not.
  unfoldable pub process_idle : Bool → Status → W → Round E R
  process_idle async status w =
      let v = idle_ready w in
      if io.idle_over w
      then leave status (dispatch_event out base w ev_conn_timeout 0)
      else if async && io.sync_over w
      then idle_async v
      else idle_sync v

  -- The end of H2_SESSION_ST_BUSY, with whether there was input or output.
  unfoldable pub busy_end : Bool → W → W
  busy_end moved w =
      if moved
      then record w { session = record (w.session) { wait_us = 0 } }
      else if not (io.want_write w.session.ext)
      then dispatch_event out base w ev_no_io 0
      else w

  unfoldable pub busy_write : Status → Bool → W → Status × W
  busy_write status moved w =
      if io.want_write w.session.ext
      then (let (s, v) = send_and_flush w in
          if is_success s then (s, busy_end true v) else (s, conn_error internal_error v))
      else (status, busy_end moved w)

  unfoldable pub busy_master : Bool → W → Status × W
  busy_master read w =
      let (s, v) = dispatch_master w in
      if is_success s || is_eagain s
      then busy_write s (read || io.resumed w.session.ext v.session.ext) v
      else (s, v)

  -- H2_SESSION_ST_BUSY.
  unfoldable pub process_busy : W → Status × W
  process_busy w =
      let (s, v) = io.read false w in
      if not (io.want_read w.session.ext)
      then busy_master false w
      else if is_success s
      then busy_master true v
      else if is_eagain s
      then busy_master false v
      else if is_timeup s
      then (s, dispatch_event out base v ev_conn_timeout 0)
      else busy_master false (conn_error 0 v)

  abbrev pub with_wait : ℕ → W → W
  with_wait n w = record w { session = record (w.session) { wait_us = n } }

  abbrev pub shuts : W → SessionState
  shuts w = if w.session.local.shutdown then st_done else st_busy

  -- Waiting for the streams, H2_SESSION_ST_WAIT.
  unfoldable pub wait_streams : W → Status × W
  unfolding transit
  wait_streams w =
      let (s, v) = io.trywait w in
      if is_success s
      then (s, dispatch_event out base (with_wait 0 v) ev_stream_change 0)
      else if is_timeup s
      then (s, record v { session = transit v.session (shuts v) })
      else if is_reset s
      then (s, conn_error 0 v)
      else (s, (h2_session_shutdown out base v internal_error false).0)

  unfoldable pub process_wait : Status → W → Status × W
  process_wait status w =
      let (s, v) = flush (with_wait 10 w) in
      if not (w.session.wait_us == 0)
      then wait_streams (with_wait (min (w.session.wait_us * 2) max_wait_micros) w)
      else if is_success s
      then wait_streams v
      else (status, conn_error 0 v)
