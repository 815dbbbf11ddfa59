-- ===== src/Stream/Frames.antt =====
-- The operations of mod_http2/h2_stream.c on a stream: frames sent and received, data, headers,
-- resets, and the creation. Frame types and flags are nghttp2's numbers; the flag END_STREAM is bit
-- 0. A result `none` is a failed ap_assert, which ends the process.
use mod_h.Prelude.{
  ℕ, suc, ◌+◌, ◌%◌, Bool, true, false, Option, none, some, List, [], ◌∷◌, ◌++◌, if◌then◌else◌, ◌==◌,
  ltb, not, ◌&&◌, ◌||◌, length,
}
use mod_h.Apr.{Status, success, einval, econnreset, is_success, Text, Table}
use mod_h.Stream.{
  State, idle, opened, closed, cleanup, StreamEvent, local_closed, remote_closed, cancelled,
  in_data_pending, Bucket, eos, headers, bytes, Stream, Env,
}
use mod_h.Util.Camel.{camel_case_header}
use mod_h.Stream.Tables.{Next, xxx, err, into, on_frame_send, on_frame_recv}
use mod_h.Stream.Machine.{
  num, content, is_present, on_event, transit, h2_stream_dispatch, h2_stream_rst, setup_input,
}

abbrev pub data_frame : ℕ
data_frame = 0

abbrev pub headers_frame : ℕ
headers_frame = 1

abbrev pub push_promise_frame : ℕ
push_promise_frame = 5

abbrev pub err_protocol_error : ℕ
err_protocol_error = 1

abbrev pub err_enhance_your_calm : ℕ
err_enhance_your_calm = 11

abbrev pub end_stream : ℕ → Bool
end_stream flags = flags % 2 == 1

-- server_rec's LimitRequestLine, LimitRequestFieldSize and LimitRequestFields.
pub record Limits : Type 0 where
  pub limit_req_line : ℕ
  pub limit_req_fieldsize : ℕ
  pub limit_req_fields : ℕ

abbrev is_headers : Bucket → Bool
is_headers (headers h) = true
is_headers _ = false

-- get_first_headers_bucket: whether there is one.
abbrev pub has_headers : List Bucket → Bool
has_headers [] = false
has_headers (b ∷ bs) = is_headers b || has_headers bs

abbrev pub is_pseudo : Text → Bool
is_pseudo [] = false
is_pseudo (c ∷ cs) = c == b':'

module _ {C R : Type 0} (env : Env C R) where
  -- h2_stream_dispatch, to the depth that Machine shows to be enough.
  abbrev disp : C → Stream R → StreamEvent → C × Stream R
  disp = h2_stream_dispatch env

  abbrev Result : Type 0
  Result = C × Stream R × Status

  -- rtmp becomes the request once its headers are complete.
  unfoldable pub start_request : C → Stream R → R → Bool → ℕ → Stream R × Status
  start_request c s r fin raw_bytes =
      let (status, r1) = env.end_headers r fin raw_bytes in
      let (policy, r2) = env.set_policy_for c r1 in
      if is_success status
      then (record s { push_policy = policy; request = some r2; rtmp = none }, success)
      else (record s { rtmp = some r1 }, status)

  -- transit to `next`, and on through H2_SEV_CLOSED_L or H2_SEV_CLOSED_R at the end of the stream.
  unfoldable pub move : C → Stream R → Next → Bool → StreamEvent → Result
  unfolding on_event
  move c s next fin ev =
      let (c1, t, status) = transit env disp c s next in
      if is_success status && fin
      then (let (c2, next') = on_event env c1 t ev in transit env disp c2 t next')
      else (c1, t, status)

  -- On a request that did not start, the frame's handler returns at once.
  unfoldable pub go_on : C → Option (Stream R × Status) → State → Bool → StreamEvent → Option Result
  go_on c none new_state fin ev = none
  go_on c (some (t, status)) new_state fin ev =
      some (if is_success status then move c t (into new_state) fin ev else (c, t, status))

  abbrev pub carries_eos : ℕ → ℕ → Bool
  carries_eos ftype flags = (ftype == data_frame || ftype == headers_frame) && end_stream flags

  -- The case NGHTTP2_PUSH_PROMISE of h2_stream_send_frame.
  unfoldable pub promise : C → Stream R → Option R → Option R → Option (Stream R × Status)
  promise c s none (some r) = some (start_request c s r true 0)
  promise c s request rtmp = none

  unfoldable pub send_valid : C → Stream R → State → ℕ → ℕ → Option Result
  send_valid c s new_state ftype flags =
      if ftype == push_promise_frame
      then go_on c (promise c s s.request s.rtmp) new_state (carries_eos ftype flags) local_closed
      else some (move c s (into new_state) (carries_eos ftype flags) local_closed)

  unfoldable pub send_next : C → Stream R → Next → ℕ → ℕ → ℕ → Option Result
  send_next c s xxx ftype flags frame_len = some (transit env disp c s xxx)
  send_next c s err ftype flags frame_len = some (transit env disp c s err)
  send_next c s (into new_state) ftype flags frame_len =
      send_valid c
        (record s {
          out_frames = suc s.out_frames;
          out_frame_octets = s.out_frame_octets + frame_len;
        })
        new_state ftype flags

  unfoldable pub h2_stream_send_frame : C → Stream R → ℕ → ℕ → ℕ → Option Result
  h2_stream_send_frame c s ftype flags frame_len =
      send_next c s (on_frame_send s.state ftype) ftype flags frame_len

  -- Trailers: HEADERS on an open stream. Without END_STREAM the stream is reset.
  unfoldable pub recv_trailers : C → Stream R → Bool → ℕ → C × Stream R
  recv_trailers c s fin frame_len =
      let (c1, t) = if fin then (c, s) else h2_stream_rst env disp c s err_protocol_error in
      (c1, record t { in_trailer_octets = t.in_trailer_octets + frame_len })

  -- HEADERS on any other stream: the request is complete.
  unfoldable pub recv_request :
      C → Stream R → Option R → Option R → Bool → ℕ → Option (Stream R × Status)
  recv_request c s (some q) rtmp fin frame_len = none
  recv_request c s none none fin frame_len = some (s, einval)
  recv_request c s none (some r) fin frame_len = some (start_request c s r fin frame_len)

  unfoldable pub recv_headers : C → Stream R → State → Bool → ℕ → Option Result
  recv_headers c s new_state fin frame_len =
      if num s.state == num opened
      then (let (c1, t) = recv_trailers c s fin frame_len in
          some (move c1 t (into new_state) fin remote_closed))
      else go_on c (recv_request c s s.request s.rtmp fin frame_len) new_state fin remote_closed

  unfoldable pub recv_next : C → Stream R → Next → ℕ → ℕ → ℕ → Option Result
  recv_next c s xxx ftype flags frame_len = some (transit env disp c s xxx)
  recv_next c s err ftype flags frame_len = some (transit env disp c s err)
  recv_next c s (into new_state) ftype flags frame_len =
      if ftype == headers_frame
      then recv_headers c s new_state (end_stream flags) frame_len
      else some (move c s (into new_state) (carries_eos ftype flags) remote_closed)

  unfoldable pub h2_stream_recv_frame : C → Stream R → ℕ → ℕ → ℕ → Option Result
  h2_stream_recv_frame c s ftype flags frame_len =
      recv_next c s (on_frame_recv s.state ftype) ftype flags frame_len

  unfoldable pub h2_stream_recv_data : C → Stream R → List ℕ → C × Stream R
  h2_stream_recv_data c s payload =
      if length payload == 0
      then (c, t)
      else disp c
          (record t {
            in_data_octets = t.in_data_octets + length payload;
            in_buffer = some (content t.in_buffer ++ bytes payload ∷ []);
          })
          in_data_pending
    where
      t : Stream R
      t = record s { in_data_frames = suc s.in_data_frames }

  -- apr_pcalloc clears what is not given.
  unfoldable pub h2_stream_create : C → ℕ → ℕ → ℕ → C × Stream R
  h2_stream_create c id initiated_on max_mem = (env.on_state_enter c fresh, fresh)
    where
      fresh : Stream R
      fresh = record {
        id = id;
        initiated_on = initiated_on;
        state = idle;
        request = none;
        rtmp = none;
        trailers = none;
        request_headers_added = 0;
        input = none;
        in_buffer = none;
        output = none;
        out_buffer = none;
        max_mem = max_mem;
        rst_error = 0;
        scheduled = false;
        has_response = false;
        input_eof = false;
        push_policy = 0;
        out_frames = 0;
        out_frame_octets = 0;
        in_data_frames = 0;
        in_data_octets = 0;
        in_trailer_octets = 0;
      }

  unfoldable pub h2_stream_prep_processing : Stream R → Stream R × Status
  unfolding setup_input
  h2_stream_prep_processing s =
      if is_present s.request
      then (record (setup_input env s) { scheduled = true }, success)
      else (s, einval)

  unfoldable pub h2_stream_is_ready : Stream R → Bool
  h2_stream_is_ready s = s.has_response || has_headers (content s.out_buffer)

  unfoldable pub h2_stream_was_closed : Stream R → Bool
  h2_stream_was_closed s = num s.state == num closed || num s.state == num cleanup

  -- h2_stream_set_request_rec simulates the HEADERS frame of a request.
  unfoldable pub set_request_rec : C → Stream R → Text → Option R → Option R → Option Result
  set_request_rec c s r none none =
      if not (s.rst_error == 0)
      then some (c, s, econnreset)
      else (let (status, req) = env.req_rcreate r in
          if is_success status
          then h2_stream_recv_frame c (record s { rtmp = some req }) headers_frame 1 0
          else some (c, s, status))
  set_request_rec c s r request rtmp = none

  unfoldable pub set_error_response : Stream R → ℕ → Stream R
  unfolding h2_stream_is_ready
  set_error_response s http_status = if h2_stream_is_ready s then s else record s {
    out_buffer =
        some (headers (env.headers_die http_status s.request) ∷ eos ∷ content s.out_buffer);
  }

  abbrev table_of : Option Table → Table
  table_of none = []
  table_of (some t) = t

  unfoldable pub add_trailer : Stream R → Text → Text → Stream R × Status
  add_trailer s name value =
      if length name == 0 || is_pseudo name
      then (s, einval)
      else if env.ignore_trailer name
      then (s, success)
      else (
        record s {
          trailers = some (env.table_merge (table_of s.trailers) (camel_case_header name) value);
        },
        success,
      )

  -- HTTP_REQUEST_URI_TOO_LARGE and HTTP_REQUEST_HEADER_FIELDS_TOO_LARGE, or 0.
  abbrev size_error : Limits → Text → Text → ℕ
  size_error l name value =
      if is_pseudo name
      then if ltb l.limit_req_line (length value) then 414 else 0
      else if ltb l.limit_req_fieldsize (length name + 2 + length value)
      then 431
      else 0

  abbrev assembled : ℕ → Option R → R
  assembled id none = env.req_create id
  assembled id (some r) = r

  -- The header goes to the request or the trailers by the stream's state.
  unfoldable pub accept_header : Stream R → Text → Text → Stream R × Status
  accept_header s name value =
      if num s.state == num idle
      then (let (status, r) = env.req_add_header (assembled s.id s.rtmp) name value in
          (record s { rtmp = some r }, status))
      else if num s.state == num opened
      then add_trailer s name value
      else (s, einval)

  unfoldable pub h2_stream_add_header : C → Stream R → Limits → Text → Text → Result
  h2_stream_add_header c s0 l name value =
      if s0.has_response
      then (c, s0, einval)
      else if ltb (l.limit_req_fields + 4 + 100) s.request_headers_added
      then (let (c1, t) = h2_stream_rst env disp c s err_enhance_your_calm in (c1, t, econnreset))
      else if not (error == 0)
      then (c, set_error_response s error, einval)
      else (let (t, status) = accept_header s name value in
          if is_success status
          then (c, t, status)
          else (let (c1, u) = disp c t cancelled in (c1, u, status)))
    where
      s : Stream R
      s = record s0 { request_headers_added = suc s0.request_headers_added }

      error : ℕ
      error =
          if ltb (l.limit_req_fields + 4) s.request_headers_added
          then 431
          else size_error l name value
