-- ===== src/Session/Counting.antt =====
-- The number of open streams: on_stream_state_enter of mod_http2/h2_session.c.
use mod_h.Prelude.{
  ℕ, ◌+◌, ◌-◌, ◌≤◌, ◌≡◌, refl, sym, ap, subst, ◌∙◌, false, not, Option, some, List, [], ◌∷◌, ◌++◌,
  append_assoc, if-both, arith, ◌==◌, ◌&&◌,
}
use mod_h.Prelude.Int.{ℤ, pos, negsuc, ◌+ℤ◌, ◌-ℤ◌, Drop, Drop-refl, Drop-one}
use mod_h.Stream.{State, idle, opened, closed, StreamEvent, cancelled, in_data_pending, Stream, Env}
use mod_h.Apr.{Status}
use mod_h.Stream.Machine.{num, h2_stream_dispatch, h2_stream_rst}
use mod_h.Stream.Frames.{
  headers_frame, end_stream, h2_stream_create, h2_stream_send_frame, h2_stream_recv_frame,
}
use mod_h.Stream.Paths.{IfDone}
use mod_h.Stream.Accounting.{CountedResult, send_frame-Counted, recv_frame-Counted}
use mod_h.Stream.Counting.{live, closing, Counter, Counted, dispatch-Counted, rst-Counted}
use mod_h.Session.{Outside, Session, World}
use mod_h.Session.Events.{stream_env, stream_do, reset, to_reset, cleanup_unprocessed_streams}
use mod_h.Session.Callbacks.{
  transit, h2_session_ev_stream_change, ev_stream_open, ev_stream_created, ev_stream_closed,
  on_entered, on_stream_state_enter, on_stream_event, on_stream_state_event, with_monitor,
}

change-open :
    {E : Type 0} → (x : Session E) → (h2_session_ev_stream_change x).open_streams ≡ x.open_streams
unfolding h2_session_ev_stream_change transit
change-open x = ground arith

created-open :
    {E : Type 0}
    → (x : Session E) (id : ℕ) → (ev_stream_created x id).open_streams ≡ x.open_streams +ℤ pos 1
unfolding ev_stream_created
created-open x id = ground arith

closed-open :
    {E : Type 0}
    → (out : Outside E) (x : Session E) (id : ℕ)
    → (ev_stream_closed out x id).open_streams ≡ x.open_streams
unfolding ev_stream_closed
closed-open out x id = ground arith

module _ {E : Type 0} (out : Outside E) where
  entered-Drop :
      (x : Session E) (id : ℕ) (s : State)
      → num s == num idle ≡ false
      → Drop x.open_streams (closing s) (on_entered out x id s).open_streams
  unfolding on_entered ev_stream_open
  entered-Drop x id closed h =
      let y = record x { open_streams = x.open_streams -ℤ pos 1 } in
      subst (Drop x.open_streams 1) (sym (closed-open out y id)) (Drop-one x.open_streams)
  entered-Drop x id idle h = cc
  entered-Drop x id _ h = Drop-refl x.open_streams

module _ {E R : Type 0} (out : Outside E) where
  event-open :
      (x : Session E) (s : Stream R) (ev : StreamEvent)
      → (on_stream_event out x s ev).open_streams ≡ x.open_streams
  unfolding on_stream_event
  event-open x s in_data_pending = refl
  event-open x s _ = refl

  state_event-open :
      (x : Session E) (s : Stream R) (ev : StreamEvent)
      → (on_stream_state_event out x s ev).open_streams ≡ x.open_streams
  unfolding on_stream_state_event
  state_event-open x s cancelled = ground arith
  state_event-open x s _ = refl

module _ {E R : Type 0} (out : Outside E) (base : Env (Session E) R) where
  -- The callbacks of a session count open streams down once for each stream that gets closed.
  pub open_streams-Counter : Counter (with_monitor out base) (λ (x : Session E). x.open_streams)
  unfolding with_monitor on_stream_state_enter
  open_streams-Counter = record {
    enter_drops = λ x s h.
        subst (Drop x.open_streams (closing s.state))
          (sym (change-open (on_entered out x s.id s.state))) (entered-Drop out x s.id s.state h);
    event_keeps = event-open out;
    state_event_keeps = state_event-open out;
    invalid_keeps = λ x s. refl;
  }

-- The streams that are not closed.
unfoldable pub live_count : {R : Type 0} → List (Stream R) → ℕ
live_count [] = 0
live_count (s ∷ ss) = live s.state + live_count ss

live_count-append :
    {R : Type 0}
    → (xs : List (Stream R)) (s : Stream R) (ys : List (Stream R))
    → live_count (xs ++ s ∷ ys) ≡ live s.state + (live_count xs + live_count ys)
unfolding live_count
live_count-append [] s ys = omega arith
live_count-append (x ∷ xs) s ys = omega (arith, live_count-append xs s ys)

live_count-two :
    {R : Type 0} → (xs ys : List (Stream R)) → live_count (xs ++ ys) ≡ live_count xs + live_count ys
unfolding live_count
live_count-two [] ys = omega arith
live_count-two (x ∷ xs) ys = omega (arith, live_count-two xs ys)

Drop-pos : (a k : ℕ) (b : ℤ) → k ≤ a → Drop (pos a) k b → b ≡ pos (a - k)
Drop-pos a k (pos b) h d = ap pos (omega (arith, d))
Drop-pos a k (negsuc b) h d = absurd (omega (arith, d))

plus_one : (n : ℕ) → pos n +ℤ pos 1 ≡ pos (1 + n)
unfolding ◌+ℤ◌
plus_one n = ground arith

-- The counter of a session is the number of its streams that are not closed.
abbrev pub Exact : {E R : Type 0} → World E R → Type 0
Exact w = w.session.open_streams ≡ pos (live_count w.streams)

module _ {E R : Type 0} (out : Outside E) (base : Env (Session E) R) where
  abbrev env : Env (Session E) R
  env = stream_env out base

  abbrev world : Session E → List (Stream R) → World E R
  world x ss = record { session = x; streams = ss }

  -- What happens to the streams of a session, one call at a time: a stream is created, gets an
  -- event, is reset, sends or receives a frame, or is taken away when it is closed; or the streams
  -- that were not processed are reset.
  pub data Step : World E R → World E R → Type 0 where
    created :
        (x : Session E) (ss : List (Stream R)) (id on mem : ℕ)
        → Step
            (world x ss)
            (world (h2_stream_create env x id on mem).0 ((h2_stream_create env x id on mem).1 ∷ ss))
    dispatched :
        (x : Session E) (pre : List (Stream R)) (s : Stream R) (post : List (Stream R))
        (ev : StreamEvent)
        → Step (world x (pre ++ s ∷ post)) (
            world
              (h2_stream_dispatch env x s ev).0
              (pre ++ (h2_stream_dispatch env x s ev).1 ∷ post))
    was_reset :
        (x : Session E) (pre : List (Stream R)) (s : Stream R) (post : List (Stream R)) (code : ℕ)
        → Step (world x (pre ++ s ∷ post)) (
            world
              (h2_stream_rst env (h2_stream_dispatch env) x s code).0
              (pre ++ (h2_stream_rst env (h2_stream_dispatch env) x s code).1 ∷ post))
    sent_frame :
        (x : Session E) (pre : List (Stream R)) (s : Stream R) (post : List (Stream R))
        (ftype flags len : ℕ) (r : Session E × Stream R × Status)
        → h2_stream_send_frame env x s ftype flags len ≡ some r
        → Step (world x (pre ++ s ∷ post)) (world r.0 (pre ++ r.1 ∷ post))
    received_frame :
        (x : Session E) (pre : List (Stream R)) (s : Stream R) (post : List (Stream R))
        (ftype flags len : ℕ) (r : Session E × Stream R × Status)
        → (ftype == headers_frame && (num s.state == num opened && not (end_stream flags))) ≡ false
        → h2_stream_recv_frame env x s ftype flags len ≡ some r
        → Step (world x (pre ++ s ∷ post)) (world r.0 (pre ++ r.1 ∷ post))
    cleaned : (w : World E R) → Step w (cleanup_unprocessed_streams out base w)
    removed :
        (x : Session E) (pre : List (Stream R)) (s : Stream R) (post : List (Stream R))
        → live s.state ≡ 0
        → Step (world x (pre ++ s ∷ post)) (world x (pre ++ post))

  law : Counter env (λ (x : Session E). x.open_streams)
  law = open_streams-Counter out base

  -- A call on one stream keeps the count exact.
  one-Exact :
      (x : Session E) (pre : List (Stream R)) (s : Stream R) (post : List (Stream R))
      (r : Session E × Stream R)
      → Counted env (λ (x : Session E). x.open_streams) law x s r
      → Exact (world x (pre ++ s ∷ post))
      → Exact (world r.0 (pre ++ r.1 ∷ post))
  one-Exact x pre s post r h e =
      let n = live_count (pre ++ s ∷ post) in
      Drop-pos n (live s.state - live r.1.state) r.0.open_streams
        (omega (arith, live_count-append pre s post))
        (subst (λ a. Drop a (live s.state - live r.1.state) r.0.open_streams) e h.0)
      ∙ ap pos (omega (arith, h.1, live_count-append pre s post, live_count-append pre r.1 post))

  done-Exact :
      (x : Session E) (pre : List (Stream R)) (s : Stream R) (post : List (Stream R))
      (o : Option (Session E × Stream R × Status)) (r : Session E × Stream R × Status)
      → IfDone (CountedResult env (λ (x : Session E). x.open_streams) law x s) o
      → o ≡ some r
      → Exact (world x (pre ++ s ∷ post))
      → Exact (world r.0 (pre ++ r.1 ∷ post))
  done-Exact x pre s post o r h q e =
      one-Exact x pre s post (r.0, r.1)
        (subst (IfDone (CountedResult env (λ (x : Session E). x.open_streams) law x s)) q h) e

  created-Exact :
      (x : Session E) (ss : List (Stream R)) (id on mem : ℕ)
      → let r = h2_stream_create env x id on mem in
        Exact (world x ss) → Exact (world r.0 (r.1 ∷ ss))
  unfolding h2_stream_create on_stream_state_enter on_entered with_monitor live_count
  created-Exact x ss id on mem e =
      change-open (ev_stream_created x id)
      ∙ created-open x id
      ∙ ap (λ a. a +ℤ pos 1) e
      ∙ plus_one (live_count ss)

  stream_do-Exact :
      (x : Session E) (pre ss : List (Stream R))
      → Exact (world x (pre ++ ss))
      → let r = stream_do out base x ss in Exact (world r.0 (pre ++ r.1))
  unfolding stream_do reset h2_stream_dispatch
  stream_do-Exact x pre [] e = e
  stream_do-Exact x pre (s ∷ ss) e =
      let r = reset out base x s in
      let rest = stream_do out base x ss in
      if-both (λ (r : Session E × List (Stream R)). Exact (world r.0 (pre ++ r.1)))
        (to_reset out base x s) (r.0, r.1 ∷ ss) (rest.0, s ∷ rest.1)
        (λ t. one-Exact x pre s ss r (rst-Counted env _ law 2 x s 0) e)
        (λ f.
          subst (λ (l : List (Stream R)). Exact (world rest.0 l)) (append_assoc pre (s ∷ []) rest.1)
            (stream_do-Exact x (pre ++ s ∷ []) ss (
              subst (λ (l : List (Stream R)). Exact (world x l))
                (sym (append_assoc pre (s ∷ []) ss)) e)))

  -- Each step keeps the count of open streams exact: `open_streams` is the number of the session's
  -- streams that are neither closed nor cleaned up.
  pub Step-Exact : (w v : World E R) → Step w v → Exact w → Exact v
  unfolding cleanup_unprocessed_streams h2_stream_dispatch
  Step-Exact w v (created x ss id on mem) e = created-Exact x ss id on mem e
  Step-Exact w v (dispatched x pre s post ev) e =
      one-Exact x pre s post (h2_stream_dispatch env x s ev) (dispatch-Counted env _ law x s ev) e
  Step-Exact w v (was_reset x pre s post code) e =
      one-Exact x pre s post (h2_stream_rst env (h2_stream_dispatch env) x s code)
        (rst-Counted env _ law 2 x s code) e
  Step-Exact w v (sent_frame x pre s post ftype flags len r q) e =
      done-Exact x pre s post (h2_stream_send_frame env x s ftype flags len) r
        (send_frame-Counted env _ law x s ftype flags len) q e
  Step-Exact w v (received_frame x pre s post ftype flags len r h q) e =
      done-Exact x pre s post (h2_stream_recv_frame env x s ftype flags len) r
        (recv_frame-Counted env _ law x s ftype flags len h) q e
  Step-Exact w v (cleaned _) e = stream_do-Exact w.session [] w.streams e
  Step-Exact w v (removed x pre s post h) e =
      e ∙ ap pos (omega (arith, live_count-append pre s post, live_count-two pre post, h))

  -- Some steps in a row.
  pub data Steps : World E R → World E R → Type 0 where
    here : (w : World E R) → Steps w w
    after : (u v w : World E R) → Step u v → Steps v w → Steps u w

  -- However the streams of a session fare, a session that starts with no stream and the counter 0 has
  -- in `open_streams` the number of its streams that are neither closed nor cleaned up. The steps
  -- do not hold the frame HEADERS without END_STREAM on an open stream.
  pub open_streams-Exact : (w v : World E R) → Steps w v → Exact w → Exact v
  open_streams-Exact w v (here _) e = e
  open_streams-Exact w v (after _ u _ h hs) e = open_streams-Exact u v hs (Step-Exact w u h e)
