-- ===== src/Session/Kept.antt =====
-- What a change of a stream leaves of its session: mod_http2/h2_session.c, on_stream_state_enter,
-- on_stream_event and on_stream_state_event.
use mod_h.Prelude.{ℕ, suc, ◌≡◌, refl, true, false, List, [], ◌∷◌, arith, Bool-cases, inl, inr}
use mod_h.Prelude.Int.{pos, ◌-ℤ◌}
use mod_h.Stream.{
  State, idle, closed, cleanup, StreamEvent, cancelled, in_data_pending, Stream, Env,
}
use mod_h.Stream.Context.{Respects, reset-K}
use mod_h.Session.{SessionState, st_done, Outside, Session}
use mod_h.Session.Callbacks.{
  is_done, is_resting, transit, h2_session_ev_stream_change, ev_stream_open, ev_stream_created,
  ev_stream_closed, on_entered, on_stream_state_enter, on_stream_event, on_stream_state_event,
  with_monitor,
}
use mod_h.Session.Events.{reset, stream_do, to_reset}

-- A number that the calls of a session leave, besides the submission of a GOAWAY frame: how many of
-- these were submitted.
pub record Goaways {E : Type 0} (out : Outside E) (g : E → ℕ) : Type 0 where
  pub rst_keeps : (e : E) (id code : ℕ) → g (out.submit_rst_stream e id code) ≡ g e
  pub goaway_adds : (e : E) (last code : ℕ) → g (out.submit_goaway e last code) ≡ suc (g e)
  pub notice_keeps : (e : E) → g (out.submit_shutdown_notice e) ≡ g e
  pub send_keeps : (e : E) → g (out.nghttp2_send e).1 ≡ g e
  pub flush_keeps : (e : E) → g (out.io_flush e).1 ≡ g e
  pub eos_keeps : (e : E) (id : ℕ) → g (out.pass_eos e id) ≡ g e
  pub shutdown_keeps : (e : E) → g (out.mplx_shutdown e).1 ≡ g e
  pub cleanup_keeps : (e : E) (id : ℕ) → g (out.mplx_stream_cleanup e id) ≡ g e

-- A session that is as far as before in its life: done or not, accepting, shut down, and with as
-- many GOAWAY frames.
abbrev pub Kept : {E : Type 0} → (E → ℕ) → Session E → Session E → Type 0
Kept g x y =
    (is_done y.state ≡ is_done x.state)
    × (y.local.accepting ≡ x.local.accepting)
    × (y.local.shutdown ≡ x.local.shutdown)
    × (y.remote.accepting ≡ x.remote.accepting)
    × (y.remote.shutdown ≡ x.remote.shutdown)
    × (g y.ext ≡ g x.ext)

pub Kept-trans :
    {E : Type 0} → (g : E → ℕ) (x y z : Session E) → Kept g x y → Kept g y z → Kept g x z
Kept-trans g x y z p q = ground arith

is_done-busy : (s : SessionState) → is_resting s ≡ true → is_done s ≡ false
is_done-busy st_done e = cc
is_done-busy _ e = refl

pub stream_change-Kept :
    {E : Type 0} → (g : E → ℕ) (x : Session E) → Kept g x (h2_session_ev_stream_change x)
unfolding h2_session_ev_stream_change transit
stream_change-Kept g x = ground (arith, is_done-busy x.state)

created-Kept :
    {E : Type 0} → (g : E → ℕ) (x : Session E) (id : ℕ) → Kept g x (ev_stream_created x id)
unfolding ev_stream_created
created-Kept g x id = ground arith

module _ {E : Type 0} (out : Outside E) (g : E → ℕ) (law : Goaways out g) where
  closed-Kept : (x : Session E) (id : ℕ) → Kept g x (ev_stream_closed out x id)
  unfolding ev_stream_closed
  closed-Kept x id = ground (arith, law.eos_keeps x.ext id)

  on_entered-Kept : (x : Session E) (id : ℕ) (s : State) → Kept g x (on_entered out x id s)
  unfolding on_entered ev_stream_open
  on_entered-Kept x id idle = created-Kept g x id
  on_entered-Kept x id closed = closed-Kept (record x { open_streams = x.open_streams -ℤ pos 1 }) id
  on_entered-Kept x id cleanup = ground (arith, law.cleanup_keeps x.ext id)
  on_entered-Kept x id _ = ground arith

module _ {E R : Type 0} (out : Outside E) (g : E → ℕ) (law : Goaways out g) where
  enter-Kept : (x : Session E) (s : Stream R) → Kept g x (on_stream_state_enter out x s)
  unfolding on_stream_state_enter
  enter-Kept x s =
      let y = on_entered out x s.id s.state in
      Kept-trans g x y (h2_session_ev_stream_change y) (on_entered-Kept out g law x s.id s.state)
        (stream_change-Kept g y)

  event-Kept :
      (x : Session E) (s : Stream R) (ev : StreamEvent) → Kept g x (on_stream_event out x s ev)
  unfolding on_stream_event
  event-Kept x s in_data_pending = ground arith
  event-Kept x s _ = ground arith

  state_event-Kept :
      (x : Session E) (s : Stream R) (ev : StreamEvent)
      → Kept g x (on_stream_state_event out x s ev)
  unfolding on_stream_state_event
  state_event-Kept x s cancelled = ground (arith, law.rst_keeps x.ext s.id s.rst_error)
  state_event-Kept x s _ = ground arith

  module _ (base : Env (Session E) R) where
    -- The callbacks of a session leave it as far in its life.
    monitor-Respects : Respects (with_monitor out base) (Kept g)
    unfolding with_monitor
    monitor-Respects = record {
      same = λ x. ground arith;
      chain = Kept-trans g;
      entering = enter-Kept;
      invalid = λ x s. ground arith;
      event = event-Kept;
      state_event = state_event-Kept;
    }

    reset-Kept : (x : Session E) (s : Stream R) → Kept g x (reset out base x s).0
    unfolding reset
    reset-Kept x s = reset-K (with_monitor out base) (Kept g) monitor-Respects x s 0

    pub stream_do-Kept :
        (x : Session E) (ss : List (Stream R)) → Kept g x (stream_do out base x ss).0
    unfolding stream_do
    stream_do-Kept x [] = ground arith
    stream_do-Kept x (s ∷ ss) = elim (Bool-cases (to_reset out base x s)) [
      | inl e ↦ rw e (reset-Kept x s)
      | inr e ↦ rw e (stream_do-Kept x ss)
    ]
