-- ===== src/Stream/Depth.antt =====
-- How deep h2_stream_dispatch of mod_http2/h2_stream.c calls itself.
use mod_h.Prelude.{
  ℕ, suc, ◌≡◌, refl, sym, ap, ◌∙◌, true, not, some, [], ◌∷◌, arith, if◌then◌else◌, ◌==◌,
}
use mod_h.Apr.{Status, success, econnreset, Table}
use mod_h.Stream.{
  State, rsvd_l, closed_r, closed, StreamEvent, cancelled, in_data_pending, Stream, Env,
}
use mod_h.Stream.Tables.{Next, xxx, err, into, on_line, trans_on_event}
use mod_h.Stream.Machine.{
  num, add_table, add_trailers, finish_input, close_open_input, close_input, close_output,
  is_closed_beam, is_present, trailer_table, resets, h2_stream_rst, on_state_invalid, on_new_state,
  enter, transit, react, on_event, dispatch_in, h2_stream_dispatch,
}
use mod_h.Stream.Effects.{cancelled_state, cancelled-next}

module _ {C R : Type 0} (env : Env C R) where
  abbrev Disp : Type 0
  Disp = C → Stream R → StreamEvent → C × Stream R

  -- Two dispatches that do the same for an event.
  abbrev Agree : StreamEvent → Disp → Disp → Type 0
  Agree ev d e = (c : C) (s : Stream R) → d c s ev ≡ e c s ev

  module _ (d e : Disp) (pending : Agree in_data_pending d e) where
    add_table-agree :
        (c : C) (s : Stream R) (t : Table) → add_table env d c s t ≡ add_table env e c s t
    unfolding add_table
    add_table-agree c s [] = refl
    add_table-agree c s (h ∷ hs) = pending c _

    close_input-agree : (c : C) (s : Stream R) → close_input env d c s ≡ close_input env e c s
    unfolding close_input close_open_input add_trailers
    close_input-agree c s =
        let t = record s { input_eof = true } in
        ap
          (λ (r : C × Stream R).
            if is_closed_beam s.input
            then (c, t, success)
            else if not (s.rst_error == 0)
            then (c, t, econnreset)
            else (let (u, rv) = finish_input env r.1 in (r.0, u, rv)))
          (add_table-agree c t (trailer_table s.trailers))

    on_new_state-agree :
        (c : C) (s : Stream R) (t : State) → on_new_state env d c s t ≡ on_new_state env e c s t
    unfolding on_new_state
    on_new_state-agree c s rsvd_l =
        ap (λ (r : C × Stream R × Status). (r.0, r.1)) (close_input-agree c s)
    on_new_state-agree c s closed_r =
        ap (λ (r : C × Stream R × Status). (r.0, r.1)) (close_input-agree c s)
    on_new_state-agree c s closed =
        ap
          (λ (r : C × Stream R × Status).
            let u = close_output env r.1 in
            (r.0, if is_present u.out_buffer then record u { out_buffer = some [] } else u))
          (close_input-agree c s)
    on_new_state-agree c s _ = refl

    transit_into-agree :
        (c : C) (s : Stream R) (t : State) → transit env d c s (into t) ≡ transit env e c s (into t)
    unfolding transit enter
    transit_into-agree c s t =
        ap
          (λ (r : C × Stream R).
            if num t == num s.state
            then (c, s, success)
            else (env.on_state_enter r.0 r.1, r.1, success))
          (on_new_state-agree c (record s { state = t }) t)

    react_into-agree :
        (c : C) (s : Stream R) (ev : StreamEvent) (t : State)
        → react env d c s ev (into t) ≡ react env e c s ev (into t)
    unfolding react
    react_into-agree c s ev t =
        ap (λ (r : C × Stream R × Status). if num t == num s.state then (c, s) else (r.0, r.1))
          (transit_into-agree (env.on_state_event c s ev) s t)

    module _ (cancel : Agree cancelled d e) where
      invalid-agree :
          (c : C) (s : Stream R) → on_state_invalid env d c s ≡ on_state_invalid env e c s
      unfolding on_state_invalid h2_stream_rst
      invalid-agree c s =
          ap (λ (r : C × Stream R). if resets s.state then r else (env.on_state_invalid c s, s))
            (cancel (env.on_state_invalid c s) _)

      react-agree :
          (c : C) (s : Stream R) (ev : StreamEvent) (next : Next)
          → react env d c s ev next ≡ react env e c s ev next
      unfolding react
      react-agree c s ev xxx = invalid-agree c s
      react-agree c s ev err = invalid-agree c s
      react-agree c s ev (into t) = react_into-agree c s ev t

  pending-depth : (d : ℕ) → Agree in_data_pending (dispatch_in env (suc d)) (dispatch_in env 1)
  unfolding dispatch_in on_event react trans_on_event
  pending-depth d c s = ground arith

  cancelled-depth : (d : ℕ) → Agree cancelled (dispatch_in env (suc (suc d))) (dispatch_in env 2)
  unfolding dispatch_in on_event
  cancelled-depth d c s = rw (cancelled-next env s.state) (
      react_into-agree (dispatch_in env (suc d)) (dispatch_in env 1) (pending-depth d)
        (env.on_event c s cancelled) s cancelled (cancelled_state s.state))

  -- h2_stream_dispatch calls itself to the depth of three at most: a deeper recursion does the same,
  -- for every stream and event.
  pub dispatch_depth :
      (d : ℕ) (c : C) (s : Stream R) (ev : StreamEvent)
      → dispatch_in env (suc (suc (suc d))) c s ev ≡ h2_stream_dispatch env c s ev
  unfolding h2_stream_dispatch dispatch_in on_event
  dispatch_depth d c s ev =
      react-agree (dispatch_in env (suc (suc d))) (dispatch_in env 2)
        (λ c s. pending-depth (suc d) c s ∙ sym (pending-depth 1 c s)) (cancelled-depth d)
        (env.on_event c s ev) s ev (on_line s.state (trans_on_event ev))
