-- ===== src/Stream/Examples.antt =====
-- mod_http2/h2_stream.c on concrete streams: contexts count the closed streams that were entered.
use mod_h.Prelude.{ℕ, suc, false, none, some, [], ◌∷◌, ◌≡◌, refl}
use mod_h.Apr.{success}
use mod_h.Stream.{State, idle, opened, closed, remote_closed, cancelled, Stream, Env}
use mod_h.Stream.Tables.{on_line, trans_on_event}
use mod_h.Stream.Machine.{dispatch_in, h2_stream_dispatch}
use mod_h.Stream.Depth.{dispatch_depth}
use mod_h.Stream.Frames.{
  headers_frame, err_protocol_error, recv_trailers, h2_stream_send_frame, h2_stream_recv_frame,
}
use mod_h.Stream.States.{landed}
use mod_h.Stream.Effects.{dispatch-state}
use mod_h.Stream.Paths.{
  IfDone, Along, Ends, send_frame-Along, recv_frame-Along, recv_trailers_reopen,
}

-- An environment over requests that are numbers: how many headers they have.
abbrev pub counting : {C : Type 0} → Env C ℕ
counting = record {
  on_state_enter = λ c s. c;
  on_state_invalid = λ c s. c;
  on_state_event = λ c s ev. c;
  on_event = λ c s ev. c;
  end_headers = λ r fin n. (success, r);
  set_policy_for = λ c r. (1, r);
  req_create = λ id. 0;
  req_add_header = λ r name value. (success, suc r);
  req_rcreate = λ t. (success, 0);
  headers_die = λ status r. record { status = status; fields = []; raw_bytes = 0 };
  ignore_trailer = λ name. false;
  table_merge = λ t name value. (name, value) ∷ t;
}

abbrev env : Env ℕ ℕ
env = counting

-- A stream of the client in some state.
abbrev pub in_state : State → Stream ℕ
in_state state = record {
  id = 1;
  initiated_on = 0;
  state = state;
  request = none;
  rtmp = some 3;
  trailers = none;
  request_headers_added = 3;
  input = none;
  in_buffer = none;
  output = none;
  out_buffer = none;
  max_mem = 65536;
  rst_error = 0;
  scheduled = false;
  has_response = false;
  input_eof = false;
  push_policy = 0;
  out_frames = 0;
  out_frame_octets = 0;
  in_data_frames = 0;
  in_data_octets = 0;
  in_trailer_octets = 0;
}

send_frame-Along_example :
    IfDone
      (λ r. Along env (in_state opened) r.1)
      (h2_stream_send_frame env 0 (in_state opened) 1 1 20)
send_frame-Along_example = send_frame-Along env 0 (in_state opened) 1 1 20

recv_frame-Along_example :
    IfDone (λ r. Along env (in_state idle) r.1) (h2_stream_recv_frame env 0 (in_state idle) 1 1 20)
recv_frame-Along_example = recv_frame-Along env 0 (in_state idle) 1 1 20 refl

dispatch_depth_example :
    dispatch_in env 7 0 (in_state opened) cancelled
    ≡ h2_stream_dispatch env 0 (in_state opened) cancelled
dispatch_depth_example = dispatch_depth env 4 0 (in_state opened) cancelled

dispatch-state_example :
    ((h2_stream_dispatch env 0 (in_state opened) remote_closed).1.state
      ≡ landed opened (on_line opened (trans_on_event remote_closed)))
    × ((h2_stream_dispatch env 0 (in_state opened) remote_closed).1.id ≡ 1)
dispatch-state_example = dispatch-state env 0 (in_state opened) remote_closed

recv_trailers_reopen_example :
    Ends env closed err_protocol_error (recv_trailers env 0 (in_state opened) false 20).1
    × IfDone
        (λ r. Ends env opened err_protocol_error r.1)
        (h2_stream_recv_frame env 0 (in_state opened) headers_frame 4 20)
recv_trailers_reopen_example = recv_trailers_reopen env 0 (in_state opened) 4 20 refl refl
