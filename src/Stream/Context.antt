-- ===== src/Stream/Context.antt =====
-- What every callback of a stream's monitor respects, the operations of h2_stream.c respect.
use mod_h.Prelude.{ℕ, zero, suc, true, not, [], ◌∷◌, Bool-cases, inl, inr, ◌==◌}
use mod_h.Apr.{Table}
use mod_h.Stream.{
  State, rsvd_l, closed_r, closed, StreamEvent, cancelled, in_data_pending, Stream, Env,
}
use mod_h.Stream.Tables.{Next, xxx, err, into, trans_on_event, on_line}
use mod_h.Stream.Machine.{
  num, on_event, add_table, add_trailers, close_open_input, close_input, h2_stream_rst,
  on_state_invalid, on_new_state, enter, transit, react, dispatch_in, h2_stream_dispatch,
  trailer_table, resets, is_closed_beam,
}

-- A relation between the contexts before and after.
pub record Respects {C R : Type 0} (env : Env C R) (K : C → C → Type 0) : Type 0 where
  pub same : (c : C) → K c c
  pub chain : (a b c : C) → K a b → K b c → K a c
  pub entering : (c : C) (s : Stream R) → K c (env.on_state_enter c s)
  pub invalid : (c : C) (s : Stream R) → K c (env.on_state_invalid c s)
  pub event : (c : C) (s : Stream R) (ev : StreamEvent) → K c (env.on_event c s ev)
  pub state_event : (c : C) (s : Stream R) (ev : StreamEvent) → K c (env.on_state_event c s ev)

module _ {C R : Type 0} (env : Env C R) (K : C → C → Type 0) (law : Respects env K) where
  -- A dispatch that respects the relation.
  abbrev Good : (C → Stream R → StreamEvent → C × Stream R) → Type 0
  Good disp = (c : C) (s : Stream R) (ev : StreamEvent) → K c (disp c s ev).0

  module _ (disp : C → Stream R → StreamEvent → C × Stream R) (good : Good disp) where
    add_table-K : (c : C) (s : Stream R) (t : Table) → K c (add_table env disp c s t).0
    unfolding add_table
    add_table-K c s [] = law.same c
    add_table-K c s (h ∷ hs) = good c _ in_data_pending

    close_input-K : (c : C) (s : Stream R) → K c (close_input env disp c s).0
    unfolding close_input close_open_input add_trailers
    close_input-K c s = elim (Bool-cases (is_closed_beam s.input)) [
      | inl e ↦ rw e (law.same c)
      | inr e ↦ elim (Bool-cases (not (s.rst_error == 0))) [
        | inl f ↦ rw (e, f) (law.same c)
        | inr f ↦
            rw (e, f) (add_table-K c (record s { input_eof = true }) (trailer_table s.trailers))
      ]
    ]

    on_new_state-K : (c : C) (s : Stream R) (t : State) → K c (on_new_state env disp c s t).0
    unfolding on_new_state
    on_new_state-K c s closed = close_input-K c s
    on_new_state-K c s rsvd_l = close_input-K c s
    on_new_state-K c s closed_r = close_input-K c s
    on_new_state-K c s _ = law.same c

    enter-K : (c : C) (s : Stream R) (t : State) → K c (enter env disp c s t).0
    unfolding enter
    enter-K c s t =
        let r = on_new_state env disp c (record s { state = t }) t in
        law.chain c r.0 (env.on_state_enter r.0 r.1) (on_new_state-K c (record s { state = t }) t)
          (law.entering r.0 r.1)

    pub rst-K : (c : C) (s : Stream R) (code : ℕ) → K c (h2_stream_rst env disp c s code).0
    unfolding h2_stream_rst
    rst-K c s code = good c _ cancelled

    invalid-K : (c : C) (s : Stream R) → K c (on_state_invalid env disp c s).0
    unfolding on_state_invalid
    invalid-K c s = elim (Bool-cases (resets s.state)) [
      | inl e ↦ rw e (
          law.chain c (env.on_state_invalid c s)
            (h2_stream_rst env disp (env.on_state_invalid c s) s 2).0 (law.invalid c s)
            (rst-K (env.on_state_invalid c s) s 2))
      | inr e ↦ rw e (law.invalid c s)
    ]

    transit-K : (c : C) (s : Stream R) (next : Next) → K c (transit env disp c s next).0
    unfolding transit
    transit-K c s xxx = invalid-K c s
    transit-K c s err = invalid-K c s
    transit-K c s (into t) = elim (Bool-cases (num t == num s.state)) [
      | inl e ↦ rw e (law.same c)
      | inr e ↦ rw e (enter-K c s t)
    ]

    react-K :
        (c : C) (s : Stream R) (ev : StreamEvent) (next : Next) → K c (react env disp c s ev next).0
    unfolding react
    react-K c s ev xxx = invalid-K c s
    react-K c s ev err = invalid-K c s
    react-K c s ev (into t) = elim (Bool-cases (num t == num s.state)) [
      | inl e ↦ rw e (law.same c)
      | inr e ↦ rw e (
          law.chain c (env.on_state_event c s ev)
            (transit env disp (env.on_state_event c s ev) s (into t)).0 (law.state_event c s ev)
            (transit-K (env.on_state_event c s ev) s (into t)))
    ]

  dispatch_in-K :
      (d : ℕ) (c : C) (s : Stream R) (ev : StreamEvent) → K c (dispatch_in env d c s ev).0
  unfolding dispatch_in on_event
  dispatch_in-K zero c s ev = law.same c
  dispatch_in-K (suc d) c s ev =
      let next = on_line s.state (trans_on_event ev) in
      law.chain c (env.on_event c s ev)
        (react env (dispatch_in env d) (env.on_event c s ev) s ev next).0 (law.event c s ev)
        (react-K (dispatch_in env d) (dispatch_in-K d) (env.on_event c s ev) s ev next)

  pub dispatch-K : (c : C) (s : Stream R) (ev : StreamEvent) → K c (h2_stream_dispatch env c s ev).0
  unfolding h2_stream_dispatch
  dispatch-K = dispatch_in-K 3

  pub reset-K :
      (c : C) (s : Stream R) (code : ℕ)
      → K c (h2_stream_rst env (h2_stream_dispatch env) c s code).0
  reset-K = rst-K (h2_stream_dispatch env) dispatch-K
