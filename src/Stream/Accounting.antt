-- ===== src/Stream/Accounting.antt =====
-- The frames of a stream against a count of open streams that its context keeps.
use mod_h.Prelude.{
  ℕ, ◌-◌, ◌≤◌, ◌≡◌, sym, subst, Bool, true, false, not, Option, none, some, arith, Bool-cases, inl,
  inr, ◌==◌, ◌&&◌, ◌||◌,
}
use mod_h.Prelude.Int.{ℤ, Drop}
use mod_h.Apr.{Status, success, is_success}
use mod_h.Stream.{State, opened, StreamEvent, local_closed, remote_closed, Stream, Env}
use mod_h.Stream.Tables.{
  Next, xxx, err, into, trans_on_event, on_line, on_frame_send, on_frame_recv,
}
use mod_h.Stream.Machine.{num, on_event, transit, h2_stream_dispatch}
use mod_h.Stream.Frames.{
  headers_frame, data_frame, push_promise_frame, end_stream, carries_eos, go_on, move, promise,
  send_valid, send_next, h2_stream_send_frame, recv_trailers, recv_request, recv_headers, recv_next,
  h2_stream_recv_frame,
}
use mod_h.Stream.States.{landed, near, on_event-near, on_frame_send-near, on_frame_recv-near}
use mod_h.Stream.Counting.{live, lost, Counter, Counted, Counted-trans, transit-Counted}
use mod_h.Stream.Paths.{
  IfDone, Stays, by_event, promise-Stays, recv_request-Stays, recv_trailers-Stays,
}

module _ {C R : Type 0} (env : Env C R) (M : C → ℤ) (law : Counter env M) where
  -- The same of a result with a status.
  abbrev pub CountedResult : C → Stream R → C × Stream R × Status → Type 0
  CountedResult c s r = Counted env M law c s (r.0, r.1)

  -- A stream that stays counts nothing.
  stays-Counted : (c : C) (s t : Stream R) → t.state ≡ s.state → Counted env M law c s (c, t)
  stays-Counted c s t e =
      subst (λ a. Drop (M c) (live s.state - live a) (M c) × (live a ≤ live s.state)) (sym e)
        (omega arith, omega arith)

  by_event-Counted :
      (c : C) (s : Stream R) (ev : StreamEvent) → CountedResult c s (by_event env c s ev)
  unfolding on_event h2_stream_dispatch
  by_event-Counted c s ev =
      let next = on_line s.state (trans_on_event ev) in
      let r = transit env (h2_stream_dispatch env) (env.on_event c s ev) s next in
      subst (λ a. Drop a (lost s.state r.1.state) (M r.0) × (live r.1.state ≤ live s.state))
        (law.event_keeps c s ev)
        (transit-Counted env M law 2 (env.on_event c s ev) s next (on_event-near s.state ev))

  move-Counted :
      (c : C) (s : Stream R) (next : Next) (fin : Bool) (ev : StreamEvent)
      → near s.state (landed s.state next) ≡ true
      → CountedResult c s (move env c s next fin ev)
  unfolding move h2_stream_dispatch
  move-Counted c s next fin ev n =
      let r = transit env (h2_stream_dispatch env) c s next in
      let q = by_event env r.0 r.1 ev in
      let first = transit-Counted env M law 2 c s next n in
      elim (Bool-cases (is_success r.2 && fin)) [
        | inl e ↦
            rw e (
              Counted-trans env M law c s (r.0, r.1) (q.0, q.1) first (by_event-Counted r.0 r.1 ev))
        | inr e ↦ rw e first
      ]

  go_on-Counted :
      (c : C) (s : Stream R) (o : Option (Stream R × Status)) (t : State) (fin : Bool)
      (ev : StreamEvent)
      → Stays env s o
      → near s.state t ≡ true
      → IfDone (CountedResult c s) (go_on env c o t fin ev)
  unfolding go_on
  go_on-Counted c s none t fin ev h n = tt
  go_on-Counted c s (some (u, status)) t fin ev h n =
      let r = move env c u (into t) fin ev in
      let start = subst (λ a. near a t ≡ true) (sym h.0) n in
      let moved = move-Counted c u (into t) fin ev start in
      elim (Bool-cases (is_success status)) [
        | inl e ↦
            rw e (Counted-trans env M law c s (c, u) (r.0, r.1) (stays-Counted c s u h.0) moved)
        | inr e ↦ rw e (stays-Counted c s u h.0)
      ]

  send_valid-Counted :
      (c : C) (s : Stream R) (t : State) (ftype flags : ℕ)
      → near s.state t ≡ true
      → IfDone (CountedResult c s) (send_valid env c s t ftype flags)
  unfolding send_valid
  send_valid-Counted c s t ftype flags n = elim (Bool-cases (ftype == push_promise_frame)) [
    | inl e ↦ rw e (
        go_on-Counted c s (promise env c s s.request s.rtmp) t (carries_eos env ftype flags)
          local_closed (promise-Stays env c s s.request s.rtmp) n)
    | inr e ↦ rw e (move-Counted c s (into t) (carries_eos env ftype flags) local_closed n)
  ]

  send_next-Counted :
      (c : C) (s : Stream R) (next : Next) (ftype flags len : ℕ)
      → near s.state (landed s.state next) ≡ true
      → IfDone (CountedResult c s) (send_next env c s next ftype flags len)
  unfolding send_next h2_stream_dispatch
  send_next-Counted c s xxx ftype flags len n = transit-Counted env M law 2 c s xxx n
  send_next-Counted c s err ftype flags len n = transit-Counted env M law 2 c s err n
  send_next-Counted c s (into t) ftype flags len n = send_valid-Counted c _ t ftype flags n

  -- h2_stream_send_frame, with any frame on any stream, lets the count fall by one if the stream
  -- was open and is closed after it, and else not at all.
  pub send_frame-Counted :
      (c : C) (s : Stream R) (ftype flags len : ℕ)
      → IfDone (CountedResult c s) (h2_stream_send_frame env c s ftype flags len)
  unfolding h2_stream_send_frame
  send_frame-Counted c s ftype flags len =
      send_next-Counted c s (on_frame_send s.state ftype) ftype flags len
        (on_frame_send-near s.state ftype)

  recv_headers-Counted :
      (c : C) (s : Stream R) (t : State) (fin : Bool) (len : ℕ)
      → num s.state == num opened && not fin ≡ false
      → near s.state t ≡ true
      → IfDone (CountedResult c s) (recv_headers env c s t fin len)
  unfolding recv_headers go_on recv_trailers
  recv_headers-Counted c s t true len h n = elim (Bool-cases (num s.state == num opened)) [
    | inl e ↦ rw e (
        go_on-Counted c s (some ((recv_trailers env c s true len).1, success)) t true remote_closed
          (recv_trailers-Stays env c s len) n)
    | inr e ↦ rw e (
        go_on-Counted c s (recv_request env c s s.request s.rtmp true len) t true remote_closed
          (recv_request-Stays env c s s.request s.rtmp true len) n)
  ]
  recv_headers-Counted c s t false len h n = elim (Bool-cases (num s.state == num opened)) [
    | inl e ↦ absurd (cc (rw e at h))
    | inr e ↦ rw e (
        go_on-Counted c s (recv_request env c s s.request s.rtmp false len) t false remote_closed
          (recv_request-Stays env c s s.request s.rtmp false len) n)
  ]

  recv_next-Counted :
      (c : C) (s : Stream R) (next : Next) (ftype flags len : ℕ)
      → (ftype == headers_frame && (num s.state == num opened && not (end_stream flags))) ≡ false
      → near s.state (landed s.state next) ≡ true
      → IfDone (CountedResult c s) (recv_next env c s next ftype flags len)
  unfolding recv_next h2_stream_dispatch
  recv_next-Counted c s xxx ftype flags len h n = transit-Counted env M law 2 c s xxx n
  recv_next-Counted c s err ftype flags len h n = transit-Counted env M law 2 c s err n
  recv_next-Counted c s (into t) ftype flags len h n = elim (Bool-cases (ftype == headers_frame)) [
    | inl e ↦ rw e (recv_headers-Counted c s t (end_stream flags) len (rw e at h) n)
    | inr e ↦ rw e (
        move-Counted c s (into t) ((ftype == data_frame || false) && end_stream flags) remote_closed
          n)
  ]

  -- h2_stream_recv_frame does so too, unless the frame is HEADERS without END_STREAM on an open
  -- stream.
  pub recv_frame-Counted :
      (c : C) (s : Stream R) (ftype flags len : ℕ)
      → (ftype == headers_frame && (num s.state == num opened && not (end_stream flags))) ≡ false
      → IfDone (CountedResult c s) (h2_stream_recv_frame env c s ftype flags len)
  unfolding h2_stream_recv_frame
  recv_frame-Counted c s ftype flags len h =
      recv_next-Counted c s (on_frame_recv s.state ftype) ftype flags len h
        (on_frame_recv-near s.state ftype)
