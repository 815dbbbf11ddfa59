-- ===== src/Session.antt =====
-- Sessions: mod_http2/h2_session.c and mod_http2/h2_session.h, with the enumerations of
-- mod_http2/h2.h. Callbacks are the calls that a stream makes; Events are the session's events.
pub mod Callbacks
pub mod Events
pub mod Kept
pub mod Goaway
pub mod Shutdown
pub mod Resets
pub mod Counting
pub mod Priority
pub mod Process
pub mod Examples
use mod_h.Prelude.{ℕ, Bool, List}
use mod_h.Prelude.Int.{ℤ}
use mod_h.Apr.{Status}
use mod_h.Util.IQueue.{IQueue}
use mod_h.Stream.{Stream}

-- h2_session_state.
pub data SessionState : Type 0 where
  st_init st_done st_idle st_busy st_wait st_cleanup : SessionState

-- h2_session_event_t.
pub data SessionEvent : Type 0 where
  ev_init ev_local_goaway ev_remote_goaway ev_conn_error ev_proto_error ev_conn_timeout ev_no_io
        ev_frame_rcvd ev_ngh2_done ev_mpm_stopping ev_pre_close ev_stream_change :
      SessionEvent

-- h2_session_props.
pub record Props : Type 0 where
  pub accepted_max : ℕ
  pub completed_max : ℕ
  pub emitted_count : ℕ
  pub emitted_max : ℕ
  pub error : ℕ
  pub accepting : Bool
  pub shutdown : Bool

-- What a session calls: the nghttp2 session, the connection's output, and the multiplexer, whose
-- states are one value of `E`.
pub record Outside (E : Type 0) : Type 0 where
  pub submit_rst_stream : E → ℕ → ℕ → E
  pub submit_goaway : E → ℕ → ℕ → E
  pub submit_shutdown_notice : E → E
  pub nghttp2_send : E → Status × E
  pub io_flush : E → Status × E
  pub pass_eos : E → ℕ → E
  pub conn_aborted : E → Bool
  pub mplx_shutdown : E → ℕ × E
  pub mplx_awaits_data : E → Bool
  pub mplx_stream_cleanup : E → ℕ → E
  -- Whether the stream with this id is in the streams of the multiplexer.
  pub mplx_has : E → ℕ → Bool

-- struct h2_session. Timers, the scoreboard and the log are left out.
pub record Session (E : Type 0) : Type 0 where
  pub state : SessionState
  pub local : Props
  pub remote : Props
  pub reprioritize : Bool
  pub open_streams : ℤ
  pub streams_reset : ℕ
  pub pushes_reset : ℕ
  pub frames_received : ℕ
  pub idle_frames : ℕ
  pub idle_delay : ℕ
  pub wait_us : ℕ
  pub in_pending : IQueue
  pub in_process : IQueue
  pub ext : E

-- A session and its streams, in the order in which the hash of the multiplexer is walked.
pub record World (E R : Type 0) : Type 0 where
  pub session : Session E
  pub streams : List (Stream R)
