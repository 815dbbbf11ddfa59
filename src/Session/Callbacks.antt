-- ===== src/Session/Callbacks.antt =====
-- The callbacks that h2_session_create gives a stream's monitor: on_stream_state_enter,
-- on_stream_event and on_stream_state_event of mod_http2/h2_session.c, with what they call.
use mod_h.Prelude.{ℕ, suc, ◌%◌, Bool, true, false, if◌then◌else◌, ltb, ◌==◌, ◌&&◌}
use mod_h.Prelude.Int.{pos, ◌+ℤ◌, ◌-ℤ◌}
use mod_h.Util.IQueue.{iq_append}
use mod_h.Stream.{
  State, idle, rsvd_l, opened, closed, cleanup, StreamEvent, cancelled, in_data_pending, Stream,
  Env,
}
use mod_h.Session.{SessionState, st_done, st_idle, st_busy, st_wait, Outside, Session}

-- H2_STREAM_CLIENT_INITIATED.
abbrev pub client_initiated : ℕ → Bool
client_initiated id = id % 2 == 1

-- A state that another frame or a stream's change makes busy.
abbrev pub is_resting : SessionState → Bool
is_resting st_idle = true
is_resting st_wait = true
is_resting _ = false

abbrev pub is_done : SessionState → Bool
is_done st_done = true
is_done _ = false

module _ {E : Type 0} where
  -- transit: the state alone.
  unfoldable pub transit : Session E → SessionState → Session E
  transit x nstate = record x { state = nstate }

  unfoldable pub h2_session_ev_stream_change : Session E → Session E
  unfolding transit
  h2_session_ev_stream_change x = if is_resting x.state then transit x st_busy else x

  unfoldable pub ev_stream_open : Session E → ℕ → Session E
  ev_stream_open x id = record x { in_process = (iq_append x.in_process id).0 }

  -- The case H2_SS_IDLE of on_stream_state_enter.
  unfoldable pub ev_stream_created : Session E → ℕ → Session E
  ev_stream_created x0 id =
      if client_initiated id
      then (let counted = record x {
        remote = record (x.remote) { emitted_count = suc x.remote.emitted_count };
      } in
          if ltb x.remote.emitted_max id
          then record counted {
            remote = record (counted.remote) { emitted_max = id };
            local = record (counted.local) { accepted_max = id };
          }
          else counted)
      else if ltb x.local.emitted_max id
      then record x {
        local = record (x.local) { emitted_count = suc x.local.emitted_count };
        remote = record (x.remote) { emitted_max = id };
      }
      else x
    where
      x : Session E
      x = record x0 { open_streams = x0.open_streams +ℤ pos 1 }

module _ {E : Type 0} (out : Outside E) where
  unfoldable pub ev_stream_closed : Session E → ℕ → Session E
  ev_stream_closed x id = record y { ext = out.pass_eos y.ext id }
    where
      y : Session E
      y =
          if client_initiated id && ltb x.local.completed_max id
          then record x { local = record (x.local) { completed_max = id } }
          else x

  -- The switch of on_stream_state_enter. What h2_mplx_stream_cleanup does to the stream itself, its
  -- beams and its buffer, is left out: it leaves the state and the fields that the session reads.
  unfoldable pub on_entered : Session E → ℕ → State → Session E
  unfolding ev_stream_created ev_stream_open ev_stream_closed
  on_entered x id idle = ev_stream_created x id
  on_entered x id opened = ev_stream_open x id
  on_entered x id rsvd_l = ev_stream_open x id
  on_entered x id closed = ev_stream_closed (record x { open_streams = x.open_streams -ℤ pos 1 }) id
  on_entered x id cleanup = record x { ext = out.mplx_stream_cleanup x.ext id }
  on_entered x id _ = x

module _ {E R : Type 0} (out : Outside E) where
  unfoldable pub on_stream_state_enter : Session E → Stream R → Session E
  unfolding on_entered h2_session_ev_stream_change
  on_stream_state_enter x s = h2_session_ev_stream_change (on_entered out x s.id s.state)

  unfoldable pub on_stream_event : Session E → Stream R → StreamEvent → Session E
  on_stream_event x s in_data_pending = record x { in_pending = (iq_append x.in_pending s.id).0 }
  on_stream_event x s _ = x

  unfoldable pub on_stream_state_event : Session E → Stream R → StreamEvent → Session E
  on_stream_state_event x s cancelled =
      if is_done x.state then x else record x { ext = out.submit_rst_stream x.ext s.id s.rst_error }
  on_stream_state_event x s _ = x

  -- The monitor of a session's streams; on_state_invalid is NULL.
  unfoldable pub with_monitor : Env (Session E) R → Env (Session E) R
  unfolding on_stream_state_enter on_stream_event on_stream_state_event
  with_monitor env = record env {
    on_state_enter = on_stream_state_enter;
    on_state_invalid = λ x s. x;
    on_state_event = on_stream_state_event;
    on_event = on_stream_event;
  }
