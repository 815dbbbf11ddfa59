-- ===== src/Stream/Effects.antt =====
-- What the parts of the state machine do to a stream's state and what they leave alone.
use mod_h.Prelude.{ℕ, zero, suc, ◌≡◌, refl, true, [], ◌∷◌, arith, ==_refl, ◌==◌}
use mod_h.Apr.{Table}
use mod_h.Stream.{
  State, idle, closed, cleanup, StreamEvent, cancelled, in_data_pending, Stream, Env,
}
use mod_h.Stream.Tables.{Next, xxx, err, into, trans_on_event, on_line, on_map}
use mod_h.Stream.Machine.{
  num, h2_stream_flush_input, add_table, add_trailers, finish_input, close_open_input, close_input,
  close_output, h2_stream_rst, on_state_invalid, on_new_state, enter, transit, react, dispatch_in,
  h2_stream_dispatch, trailer_table,
}
use mod_h.Stream.States.{landed}

-- The fields of a stream that the machine reads and the closing of its ends leaves alone.
abbrev pub Kept : {R : Type 0} → Stream R → Stream R → Type 0
Kept s t =
    (t.state ≡ s.state)
    × (t.id ≡ s.id)
    × (t.initiated_on ≡ s.initiated_on)
    × (t.rst_error ≡ s.rst_error)
    × (t.input_eof ≡ s.input_eof)

-- Equal numbers mean equal states.
pub num-injective : (s t : State) → num s == num t ≡ true → s ≡ t
num-injective s t h = ground arith

-- H2_SEV_CANCELLED closes a stream that is not closed yet.
abbrev pub cancelled_state : State → State
cancelled_state cleanup = cleanup
cancelled_state _ = closed

module _ {C R : Type 0} (env : Env C R) where
  -- H2_SEV_IN_DATA_PENDING calls back and leaves the stream.
  pub dispatch_in-pending :
      (d : ℕ) (c : C) (s : Stream R) → (dispatch_in env d c s in_data_pending).1 ≡ s
  unfolding dispatch_in react trans_on_event
  dispatch_in-pending zero c s = refl
  dispatch_in-pending (suc d) c s = ground (arith, ==_refl (num s.state))

  flush-Kept : (s : Stream R) → Kept s (h2_stream_flush_input env s).0
  unfolding h2_stream_flush_input
  flush-Kept s = ground arith

  add_table-Kept :
      (d : ℕ) (c : C) (s : Stream R) (t : Table)
      → Kept s (add_table env (dispatch_in env d) c s t).1
  unfolding add_table
  add_table-Kept d c s [] = (refl, refl, refl, refl, refl)
  add_table-Kept d c s (h ∷ hs) = rw (dispatch_in-pending d) (refl, refl, refl, refl, refl)

  finish_input-Kept : (s : Stream R) → Kept s (finish_input env s).0
  unfolding finish_input
  finish_input-Kept s = ground (arith, flush-Kept s)

  close_open_input-Kept :
      (d : ℕ) (c : C) (s : Stream R) → Kept s (close_open_input env (dispatch_in env d) c s).1
  unfolding close_open_input add_trailers
  close_open_input-Kept d c s =
      let t = (add_table env (dispatch_in env d) c s (trailer_table s.trailers)).1 in
      ground (arith, add_table-Kept d c s (trailer_table s.trailers), finish_input-Kept t)

  -- close_input sets input_eof and keeps the state.
  pub close_input-keeps :
      (d : ℕ) (c : C) (s : Stream R)
      → Kept (record s { input_eof = true }) (close_input env (dispatch_in env d) c s).1
  unfolding close_input
  close_input-keeps d c s =
      ground (arith, close_open_input-Kept d c (record s { input_eof = true }))

  pub close_output-Kept : (s : Stream R) → Kept s (close_output env s)
  unfolding close_output
  close_output-Kept s = ground arith

  pub on_new_state-state :
      (d : ℕ) (c : C) (s : Stream R) (t : State)
      → ((on_new_state env (dispatch_in env d) c s t).1.state ≡ s.state)
        × ((on_new_state env (dispatch_in env d) c s t).1.id ≡ s.id)
        × ((on_new_state env (dispatch_in env d) c s t).1.rst_error ≡ s.rst_error)
  unfolding on_new_state
  on_new_state-state d c s closed =
      let u = (close_input env (dispatch_in env d) c s).1 in
      ground (arith, close_input-keeps d c s, close_output-Kept u)
  on_new_state-state d c s _ = ground (arith, close_input-keeps d c s, close_output-Kept s)

  -- transit to another state ends in that state.
  pub enter-state :
      (d : ℕ) (c : C) (s : Stream R) (t : State)
      → ((enter env (dispatch_in env d) c s t).1.state ≡ t)
        × ((enter env (dispatch_in env d) c s t).1.id ≡ s.id)
        × ((enter env (dispatch_in env d) c s t).1.rst_error ≡ s.rst_error)
  unfolding enter
  enter-state d c s t = ground (arith, on_new_state-state d c (record s { state = t }) t)

  pub cancelled-next : (s : State) → on_line s (trans_on_event cancelled) ≡ into (cancelled_state s)
  unfolding trans_on_event on_map
  cancelled-next idle = refl
  cancelled-next _ = refl

  pub transit_into-state :
      (d : ℕ) (c : C) (s : Stream R) (t : State)
      → ((transit env (dispatch_in env d) c s (into t)).1.state ≡ t)
        × ((transit env (dispatch_in env d) c s (into t)).1.id ≡ s.id)
        × ((transit env (dispatch_in env d) c s (into t)).1.rst_error ≡ s.rst_error)
  unfolding transit
  transit_into-state d c s t = ground (arith, enter-state d c s t, num-injective t s.state)

  pub react_into-state :
      (d : ℕ) (c : C) (s : Stream R) (ev : StreamEvent) (t : State)
      → ((react env (dispatch_in env d) c s ev (into t)).1.state ≡ t)
        × ((react env (dispatch_in env d) c s ev (into t)).1.id ≡ s.id)
        × ((react env (dispatch_in env d) c s ev (into t)).1.rst_error ≡ s.rst_error)
  unfolding react
  react_into-state d c s ev t =
      let c1 = env.on_state_event c s ev in
      ground (arith, transit_into-state d c1 s t, num-injective t s.state)

  pub dispatch_in-cancelled :
      (d : ℕ) (c : C) (s : Stream R)
      → ((dispatch_in env (suc d) c s cancelled).1.state ≡ cancelled_state s.state)
        × ((dispatch_in env (suc d) c s cancelled).1.id ≡ s.id)
        × ((dispatch_in env (suc d) c s cancelled).1.rst_error ≡ s.rst_error)
  unfolding dispatch_in
  dispatch_in-cancelled d c s =
      rw (cancelled-next s.state)
        (react_into-state d (env.on_event c s cancelled) s cancelled (cancelled_state s.state))

  pub rst-state :
      (d : ℕ) (c : C) (s : Stream R) (code : ℕ)
      → ((h2_stream_rst env (dispatch_in env (suc d)) c s code).1.state ≡ cancelled_state s.state)
        × ((h2_stream_rst env (dispatch_in env (suc d)) c s code).1.id ≡ s.id)
        × ((h2_stream_rst env (dispatch_in env (suc d)) c s code).1.rst_error ≡ code)
  unfolding h2_stream_rst
  rst-state d c s code = dispatch_in-cancelled d c _

  pub invalid-state :
      (d : ℕ) (c : C) (s : Stream R)
      → ((on_state_invalid env (dispatch_in env (suc d)) c s).1.state ≡ landed s.state err)
        × ((on_state_invalid env (dispatch_in env (suc d)) c s).1.id ≡ s.id)
  unfolding on_state_invalid
  invalid-state d c s = ground (arith, rst-state d (env.on_state_invalid c s) s 2)

  -- Where transit leaves the stream, for every answer of a table.
  pub transit-state :
      (d : ℕ) (c : C) (s : Stream R) (next : Next)
      → ((transit env (dispatch_in env (suc d)) c s next).1.state ≡ landed s.state next)
        × ((transit env (dispatch_in env (suc d)) c s next).1.id ≡ s.id)
  unfolding transit
  transit-state d c s xxx = invalid-state d c s
  transit-state d c s err = invalid-state d c s
  transit-state d c s (into t) = let (e, i, _) = transit_into-state (suc d) c s t in (e, i)

  react-state :
      (d : ℕ) (c : C) (s : Stream R) (ev : StreamEvent) (next : Next)
      → ((react env (dispatch_in env (suc d)) c s ev next).1.state ≡ landed s.state next)
        × ((react env (dispatch_in env (suc d)) c s ev next).1.id ≡ s.id)
  unfolding react
  react-state d c s ev xxx = invalid-state d c s
  react-state d c s ev err = invalid-state d c s
  react-state d c s ev (into t) = let (e, i, _) = react_into-state (suc d) c s ev t in (e, i)

  -- h2_stream_dispatch leaves the same stream, in the state that the table of events gives for its
  -- state; where the table has an error, a stream in use is closed and any other stays.
  pub dispatch-state :
      (c : C) (s : Stream R) (ev : StreamEvent)
      → ((h2_stream_dispatch env c s ev).1.state
          ≡ landed s.state (on_line s.state (trans_on_event ev)))
        × ((h2_stream_dispatch env c s ev).1.id ≡ s.id)
  unfolding h2_stream_dispatch
  dispatch-state c s ev =
      react-state 1 (env.on_event c s ev) s ev (on_line s.state (trans_on_event ev))
