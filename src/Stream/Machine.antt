-- ===== src/Stream/Machine.antt =====
-- The state machine of mod_http2/h2_stream.c: on_event, close_input, close_output, on_state_invalid,
-- transit, h2_stream_dispatch, h2_stream_rst and h2_stream_flush_input.
--
-- h2_stream_dispatch calls itself through on_state_invalid and h2_stream_rst, and through transit and
-- close_input. The functions below take the inner call as `disp`, and `dispatch_in` ties the knot
-- with a bound on the depth. Three is enough: an event of any kind, the H2_SEV_CANCELLED of a
-- reset, and the H2_SEV_IN_DATA_PENDING of close_input, which calls nothing.
use mod_h.Prelude.{
  ℕ, zero, suc, Bool, true, false, Option, none, some, List, [], ◌∷◌, ◌++◌, if◌then◌else◌, ◌==◌,
  ◌&&◌, ◌||◌, not,
}
use mod_h.Apr.{Status, success, einval, econnreset, Table}
use mod_h.Stream.{
  State, idle, rsvd_r, rsvd_l, opened, closed_r, closed_l, closed, cleanup, StreamEvent, cancelled,
  in_data_pending, Bucket, eos, headers, Beam, Stream, Env,
}
use mod_h.Stream.Tables.{Next, xxx, err, into, trans_on_event, on_line}
use mod_h.Stream.Beams.{beam_create, is_closed, beam_close, beam_leave, beam_abort, beam_send}

-- The number of a state in h2_stream_state_t.
abbrev pub num : State → ℕ
num idle = 0
num rsvd_r = 1
num rsvd_l = 2
num opened = 3
num closed_r = 4
num closed_l = 5
num closed = 6
num cleanup = 7

abbrev pub http_ok : ℕ
http_ok = 200

abbrev pub err_internal_error : ℕ
err_internal_error = 2

-- APR_BRIGADE_EMPTY of a brigade that may be NULL.
abbrev pub is_empty : Option (List Bucket) → Bool
is_empty none = true
is_empty (some []) = true
is_empty (some (b ∷ bs)) = false

abbrev pub content : Option (List Bucket) → List Bucket
content none = []
content (some bs) = bs

abbrev pub map_beam : (Beam → Beam) → Option Beam → Option Beam
map_beam f none = none
map_beam f (some b) = some (f b)

abbrev pub is_closed_beam : Option Beam → Bool
is_closed_beam none = false
is_closed_beam (some b) = is_closed b

abbrev pub is_present {ℓ} : {A : Type ℓ} → Option A → Bool
is_present none = false
is_present (some a) = true

-- trailers && !apr_is_empty_table(trailers)
abbrev pub trailer_table : Option Table → Table
trailer_table none = []
trailer_table (some t) = t

-- The switch of on_state_invalid.
abbrev pub resets : State → Bool
resets opened = true
resets rsvd_l = true
resets rsvd_r = true
resets closed_l = true
resets closed_r = true
resets _ = false

abbrev send_to : Option Beam → List Bucket → Option Beam × Status
send_to none bs = (none, success)
send_to (some b) bs = let (b', rv) = beam_send b bs in (some b', rv)

abbrev close_beam : Option Beam → Option Beam × Status
close_beam none = (none, success)
close_beam (some b) = let (b', rv) = beam_close b in (some b', rv)

module _ {C R : Type 0} (env : Env C R) where
  abbrev Disp : Type 0
  Disp = C → Stream R → StreamEvent → C × Stream R

  -- The callback is made for every event, and may change the context only.
  unfoldable pub on_event : C → Stream R → StreamEvent → C × Next
  on_event c s ev = (env.on_event c s ev, on_line s.state (trans_on_event ev))

  unfoldable pub setup_input : Stream R → Stream R
  unfolding beam_create
  setup_input s =
      if is_present s.input || (s.input_eof && is_empty s.in_buffer)
      then s
      else record s { input = some beam_create }

  -- The first half of h2_stream_flush_input.
  unfoldable pub flush_buffer : Stream R → Stream R × Status
  unfolding setup_input beam_send
  flush_buffer s =
      if is_empty s.in_buffer
      then (s, success)
      else (let t = setup_input s in
          let (input, rv) = send_to t.input (content s.in_buffer) in
          (record t { input = input; in_buffer = some [] }, rv))

  unfoldable pub h2_stream_flush_input : Stream R → Stream R × Status
  unfolding flush_buffer beam_close
  h2_stream_flush_input s =
      let (t, status) = flush_buffer s in
      if t.input_eof && is_present t.input && not (is_closed_beam t.input)
      then (let (input, rv) = close_beam t.input in (record t { input = input }, rv))
      else (t, status)

  -- The trailers, if any, go into the input as a headers bucket and the end of the stream.
  unfoldable pub add_table : Disp → C → Stream R → Table → C × Stream R
  add_table disp c s [] = (c, s)
  add_table disp c s (h ∷ hs) =
      disp c
        (record s {
          trailers = none;
          in_buffer = some (
              content s.in_buffer
              ++ headers
                  (record { status = http_ok; fields = h ∷ hs; raw_bytes = s.in_trailer_octets })
                ∷ eos
                ∷ []);
        })
        in_data_pending

  unfoldable pub add_trailers : Disp → C → Stream R → C × Stream R
  unfolding add_table
  add_trailers disp c s = add_table disp c s (trailer_table s.trailers)

  -- The end of close_input: the input is flushed and closed.
  unfoldable pub finish_input : Stream R → Stream R × Status
  unfolding h2_stream_flush_input beam_close
  finish_input s =
      if is_present s.input
      then (let (t, _) = h2_stream_flush_input s in
          let (input, rv) = close_beam t.input in (record t { input = input }, rv))
      else (s, success)

  unfoldable pub close_open_input : Disp → C → Stream R → C × Stream R × Status
  close_open_input disp c s =
      let (c1, t) = add_trailers disp c s in let (u, rv) = finish_input t in (c1, u, rv)

  unfoldable pub close_input : Disp → C → Stream R → C × Stream R × Status
  close_input disp c s0 =
      if is_closed_beam s.input
      then (c, s, success)
      else if not (s.rst_error == 0)
      then (c, s, econnreset)
      else close_open_input disp c s
    where
      s : Stream R
      s = record s0 { input_eof = true }

  unfoldable pub close_output : Stream R → Stream R
  unfolding beam_leave
  close_output s =
      if not (is_present s.output) || is_closed_beam s.output
      then s
      else record s { output = map_beam beam_leave s.output }

  unfoldable pub h2_stream_rst : Disp → C → Stream R → ℕ → C × Stream R
  unfolding beam_abort beam_leave
  h2_stream_rst disp c s error_code =
      disp c
        (record s {
          rst_error = error_code;
          input = map_beam beam_abort s.input;
          output = map_beam beam_leave s.output;
        })
        cancelled

  unfoldable pub on_state_invalid : Disp → C → Stream R → C × Stream R
  on_state_invalid disp c s =
      let c1 = env.on_state_invalid c s in
      if resets s.state then h2_stream_rst disp c1 s err_internal_error else (c1, s)

  -- The switch of transit over the new state.
  unfoldable pub on_new_state : Disp → C → Stream R → State → C × Stream R
  on_new_state disp c s rsvd_l = let (c1, t, _) = close_input disp c s in (c1, t)
  on_new_state disp c s closed_l = (c, close_output s)
  on_new_state disp c s closed_r = let (c1, t, _) = close_input disp c s in (c1, t)
  on_new_state disp c s closed =
      let (c1, t, _) = close_input disp c s in
      let u = close_output t in
      (c1, if is_present u.out_buffer then record u { out_buffer = some [] } else u)
  on_new_state disp c s _ = (c, s)

  unfoldable pub enter : Disp → C → Stream R → State → C × Stream R
  enter disp c s t =
      let (c1, u) = on_new_state disp c (record s { state = t }) t in (env.on_state_enter c1 u, u)

  unfoldable pub transit : Disp → C → Stream R → Next → C × Stream R × Status
  transit disp c s xxx = let (c1, t) = on_state_invalid disp c s in (c1, t, einval)
  transit disp c s err = let (c1, t) = on_state_invalid disp c s in (c1, t, einval)
  transit disp c s (into new_state) =
      if num new_state == num s.state
      then (c, s, success)
      else (let (c1, t) = enter disp c s new_state in (c1, t, success))

  -- h2_stream_dispatch behind its on_event.
  unfoldable pub react : Disp → C → Stream R → StreamEvent → Next → C × Stream R
  react disp c s ev xxx = on_state_invalid disp c s
  react disp c s ev err = on_state_invalid disp c s
  react disp c s ev (into new_state) =
      if num new_state == num s.state
      then (c, s)
      else (let (c1, t, _) = transit disp (env.on_state_event c s ev) s (into new_state) in (c1, t))

  -- h2_stream_dispatch to a depth of calls.
  unfoldable pub dispatch_in : ℕ → C → Stream R → StreamEvent → C × Stream R
  unfolding on_event
  dispatch_in zero c s ev = (c, s)
  dispatch_in (suc depth) c s ev =
      let (c1, next) = on_event c s ev in react (dispatch_in depth) c1 s ev next

  unfoldable pub h2_stream_dispatch : C → Stream R → StreamEvent → C × Stream R
  unfolding dispatch_in
  h2_stream_dispatch = dispatch_in 3
