-- ===== src/Stream/Counting.antt =====
-- How often the callback on_state_enter hears of a closed stream: once in the life of a stream.
use mod_h.Prelude.{
  ℕ, zero, suc, ◌-◌, ◌≤◌, ◌≡◌, refl, sym, ap, subst, ◌∙◌, true, false, [], ◌∷◌, arith, Bool-cases,
  inl, inr, ◌==◌,
}
use mathlib.Core.Path.{subst₂}
use mod_h.Prelude.Int.{ℤ, Drop, Drop-refl}
use mod_h.Apr.{Table}
use mod_h.Stream.{
  State, idle, rsvd_l, closed_r, closed, cleanup, StreamEvent, cancelled, in_data_pending, Stream,
  Env,
}
use mod_h.Stream.Tables.{Next, xxx, err, into, trans_on_event, on_line}
use mod_h.Stream.Machine.{
  num, add_table, add_trailers, close_open_input, close_input, h2_stream_rst, on_state_invalid,
  on_new_state, enter, transit, react, dispatch_in, h2_stream_dispatch, trailer_table,
}
use mod_h.Stream.States.{landed, near, on_event-near}
use mod_h.Stream.Effects.{
  cancelled_state, on_new_state-state, cancelled-next, react_into-state, transit_into-state,
}

-- Whether a stream counts as open.
abbrev pub live : State → ℕ
live closed = 0
live cleanup = 0
live _ = 1

abbrev pub closing : State → ℕ
closing closed = 1
closing _ = 0

-- A number of the context that falls when a closed stream is entered, and else stays. An idle stream
-- is entered by h2_stream_create only, which the machine never calls.
pub record Counter {C R : Type 0} (env : Env C R) (M : C → ℤ) : Type 0 where
  pub enter_drops :
      (c : C) (s : Stream R)
      → num s.state == num idle ≡ false
      → Drop (M c) (closing s.state) (M (env.on_state_enter c s))
  pub event_keeps : (c : C) (s : Stream R) (ev : StreamEvent) → M (env.on_event c s ev) ≡ M c
  pub state_event_keeps :
      (c : C) (s : Stream R) (ev : StreamEvent) → M (env.on_state_event c s ev) ≡ M c
  pub invalid_keeps : (c : C) (s : Stream R) → M (env.on_state_invalid c s) ≡ M c

-- On the way to `t` the count falls once if a live stream gets closed, and else not at all.
abbrev pub lost : State → State → ℕ
lost s t = live s - live t

-- One edge on, entering the new state counts what is lost.
closing-lost :
    (s t : State)
    → near s t ≡ true
    → num t == num s ≡ false
    → (closing t ≡ lost s t) × (num t == num idle ≡ false)
closing-lost idle idle n d = ground arith
closing-lost _ _ n d = ground arith

lost_self : (s t : State) → num t == num s ≡ true → 0 ≡ lost s t
lost_self idle idle e = ground arith
lost_self _ _ e = ground arith

pub near-live : (s t : State) → near s t ≡ true → live t ≤ live s
near-live idle idle h = ground arith
near-live _ _ h = ground arith

near-cancelled : (s : State) → near s (cancelled_state s) ≡ true
near-cancelled idle = refl
near-cancelled _ = refl

module _ {C R : Type 0} (env : Env C R) (M : C → ℤ) (law : Counter env M) where
  pending-keeps : (d : ℕ) (c : C) (s : Stream R) → M (dispatch_in env d c s in_data_pending).0 ≡ M c
  unfolding dispatch_in react trans_on_event
  pending-keeps zero c s = refl
  pending-keeps (suc d) c s = ground (arith, law.event_keeps c s in_data_pending)

  add_table-keeps :
      (d : ℕ) (c : C) (s : Stream R) (t : Table)
      → M (add_table env (dispatch_in env d) c s t).0 ≡ M c
  unfolding add_table
  add_table-keeps d c s [] = refl
  add_table-keeps d c s (h ∷ hs) = pending-keeps d c _

  close_input-keeps :
      (d : ℕ) (c : C) (s : Stream R) → M (close_input env (dispatch_in env d) c s).0 ≡ M c
  unfolding close_input close_open_input add_trailers
  close_input-keeps d c s =
      ground (arith, add_table-keeps d c (record s { input_eof = true }) (trailer_table s.trailers))

  on_new_state-keeps :
      (d : ℕ) (c : C) (s : Stream R) (t : State)
      → M (on_new_state env (dispatch_in env d) c s t).0 ≡ M c
  unfolding on_new_state
  on_new_state-keeps d c s closed = close_input-keeps d c s
  on_new_state-keeps d c s rsvd_l = close_input-keeps d c s
  on_new_state-keeps d c s closed_r = close_input-keeps d c s
  on_new_state-keeps d c s _ = refl

  enter-drops :
      (d : ℕ) (c : C) (s : Stream R) (t : State)
      → near s.state t ≡ true
      → num t == num s.state ≡ false
      → Drop (M c) (lost s.state t) (M (enter env (dispatch_in env d) c s t).0)
  unfolding enter
  enter-drops d c s t n e =
      let r = on_new_state env (dispatch_in env d) c (record s { state = t }) t in
      let (is_t, _, _) = on_new_state-state env d c (record s { state = t }) t in
      let (k, new) = closing-lost s.state t n e in
      let called =
        law.enter_drops r.0 r.1 (subst (λ a. num a == num idle ≡ false) (sym is_t) new) in
      subst₂ (λ a k. Drop a k (M (env.on_state_enter r.0 r.1)))
        (on_new_state-keeps d c (record s { state = t }) t) (ap closing is_t ∙ k) called

  transit_into-drops :
      (d : ℕ) (c : C) (s : Stream R) (t : State)
      → near s.state t ≡ true
      → Drop (M c) (lost s.state t) (M (transit env (dispatch_in env d) c s (into t)).0)
  unfolding transit
  transit_into-drops d c s t n = elim (Bool-cases (num t == num s.state)) [
    | inl e ↦ rw e (subst (λ k. Drop (M c) k (M c)) (lost_self s.state t e) (Drop-refl (M c)))
    | inr e ↦ rw e (enter-drops d c s t n e)
  ]

  react_into-drops :
      (d : ℕ) (c : C) (s : Stream R) (ev : StreamEvent) (t : State)
      → near s.state t ≡ true
      → Drop (M c) (lost s.state t) (M (react env (dispatch_in env d) c s ev (into t)).0)
  unfolding react
  react_into-drops d c s ev t n = elim (Bool-cases (num t == num s.state)) [
    | inl e ↦ rw e (subst (λ k. Drop (M c) k (M c)) (lost_self s.state t e) (Drop-refl (M c)))
    | inr e ↦ rw e (
        subst
          (λ a.
            Drop a (lost s.state t)
              (M (transit env (dispatch_in env d) (env.on_state_event c s ev) s (into t)).0))
          (law.state_event_keeps c s ev) (transit_into-drops d (env.on_state_event c s ev) s t n))
  ]

  -- The count has dropped by what the stream lost, and the stream lives no more than before.
  abbrev pub Counted : C → Stream R → C × Stream R → Type 0
  Counted c s r = Drop (M c) (lost s.state r.1.state) (M r.0) × (live r.1.state ≤ live s.state)

  pub Counted-trans :
      (c : C) (s : Stream R) (r q : C × Stream R)
      → Counted c s r
      → Counted r.0 r.1 q
      → Counted c s q
  Counted-trans c s r q h k = omega arith

  -- From a drop for the state that is reached.
  counted :
      (c : C) (s : Stream R) (r : C × Stream R) (t : State)
      → r.1.state ≡ t
      → near s.state t ≡ true
      → Drop (M c) (lost s.state t) (M r.0)
      → Counted c s r
  counted c s r t e n d =
      subst (λ a. Drop (M c) (lost s.state a) (M r.0) × (live a ≤ live s.state)) (sym e)
        (d, near-live s.state t n)

  pub cancelled-Counted :
      (d : ℕ) (c : C) (s : Stream R) → Counted c s (dispatch_in env (suc d) c s cancelled)
  unfolding dispatch_in
  cancelled-Counted d c s =
      let t = cancelled_state s.state in
      let c1 = env.on_event c s cancelled in
      rw (cancelled-next env s.state) (
        counted c s (react env (dispatch_in env d) c1 s cancelled (into t)) t
          (react_into-state env d c1 s cancelled t).0 (near-cancelled s.state)
          (subst
            (λ a.
              Drop a (lost s.state t) (M (react env (dispatch_in env d) c1 s cancelled (into t)).0))
            (law.event_keeps c s cancelled)
            (react_into-drops d c1 s cancelled t (near-cancelled s.state))))

  pub rst-Counted :
      (d : ℕ) (c : C) (s : Stream R) (code : ℕ)
      → Counted c s (h2_stream_rst env (dispatch_in env (suc d)) c s code)
  unfolding h2_stream_rst
  rst-Counted d c s code = cancelled-Counted d c _

  invalid-Counted :
      (d : ℕ) (c : C) (s : Stream R)
      → Counted c s (on_state_invalid env (dispatch_in env (suc d)) c s)
  unfolding on_state_invalid
  invalid-Counted d c s =
      let c1 = env.on_state_invalid c s in
      ground (arith, law.invalid_keeps c s, rst-Counted d c1 s 2)

  pub transit-Counted :
      (d : ℕ) (c : C) (s : Stream R) (next : Next)
      → near s.state (landed s.state next) ≡ true
      → let r = transit env (dispatch_in env (suc d)) c s next in Counted c s (r.0, r.1)
  unfolding transit
  transit-Counted d c s xxx n = invalid-Counted d c s
  transit-Counted d c s err n = invalid-Counted d c s
  transit-Counted d c s (into t) n =
      let r = transit env (dispatch_in env (suc d)) c s (into t) in
      counted c s (r.0, r.1) t (transit_into-state env (suc d) c s t).0 n
        (transit_into-drops (suc d) c s t n)

  react-Counted :
      (d : ℕ) (c : C) (s : Stream R) (ev : StreamEvent) (next : Next)
      → near s.state (landed s.state next) ≡ true
      → Counted c s (react env (dispatch_in env (suc d)) c s ev next)
  unfolding react
  react-Counted d c s ev xxx n = invalid-Counted d c s
  react-Counted d c s ev err n = invalid-Counted d c s
  react-Counted d c s ev (into t) n =
      counted c s (react env (dispatch_in env (suc d)) c s ev (into t)) t
        (react_into-state env (suc d) c s ev t).0 n (react_into-drops (suc d) c s ev t n)

  -- h2_stream_dispatch counts a stream once when it gets closed.
  pub dispatch-Counted :
      (c : C) (s : Stream R) (ev : StreamEvent) → Counted c s (h2_stream_dispatch env c s ev)
  unfolding h2_stream_dispatch
  dispatch-Counted c s ev =
      let r =
        react env (dispatch_in env 2) (env.on_event c s ev) s ev
          (on_line s.state (trans_on_event ev)) in
      subst (λ a. Drop a (lost s.state r.1.state) (M r.0) × (live r.1.state ≤ live s.state))
        (law.event_keeps c s ev)
        (react-Counted 1 (env.on_event c s ev) s ev (on_line s.state (trans_on_event ev))
          (on_event-near s.state ev))
