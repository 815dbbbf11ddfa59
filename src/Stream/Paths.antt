-- ===== src/Stream/Paths.antt =====
-- The operations of h2_stream.c take a stream along the diagram of RFC 7540, and one does not.
use mod_h.Prelude.{
  ℕ, ◌≡◌, refl, sym, ap, subst, ◌∙◌, Bool, true, false, not, Option, none, some, arith, Bool-cases,
  inl, inr, ◌==◌, ◌&&◌, ◌||◌,
}
use mod_h.Apr.{Status, success, is_success}
use mod_h.Stream.{State, opened, closed, StreamEvent, local_closed, remote_closed, Stream, Env}
use mod_h.Stream.Tables.{
  Next, xxx, err, into, trans_on_event, on_line, on_frame_send, on_frame_recv,
}
use mod_h.Stream.Machine.{num, on_event, transit, h2_stream_dispatch}
use mod_h.Stream.Frames.{
  push_promise_frame, carries_eos, go_on, start_request, move, promise, send_valid, send_next,
  h2_stream_send_frame, recv_trailers, recv_request, recv_headers, recv_next, h2_stream_recv_frame,
  data_frame, headers_frame, end_stream, err_protocol_error,
}
use mod_h.Stream.States.{
  ◌⟶*◌, here, ⟶*_trans, landed, on_event-⟶*, on_frame_send-⟶*, on_frame_recv-⟶*,
}
use mod_h.Stream.Effects.{cancelled_state, transit-state, transit_into-state, rst-state}

-- What an assertion, if it fails, leaves to be shown: nothing.
abbrev pub IfDone {ℓ} : {A : Type ℓ} → (A → Type 0) → Option A → Type 0
IfDone P none = Unit {0}
IfDone P (some a) = P a

module _ {C R : Type 0} (env : Env C R) where
  -- The stream of a result has come from `s` along the diagram, and is the same one.
  abbrev pub Along : Stream R → Stream R → Type 0
  Along s t = (s.state ⟶* t.state) × (t.id ≡ s.id)

  transit-Along :
      (c : C) (s : Stream R) (next : Next)
      → s.state ⟶* landed s.state next
      → Along s (transit env (h2_stream_dispatch env) c s next).1
  unfolding h2_stream_dispatch
  transit-Along c s next p = let (e, i) = transit-state env 2 c s next in (rw e p, i)

  Along-trans : (s t u : Stream R) → Along s t → Along t u → Along s u
  Along-trans s t u p q = (⟶*_trans p.0 q.0, q.1 ∙ p.1)

  -- The transition of an event.
  abbrev pub by_event : C → Stream R → StreamEvent → C × Stream R × Status
  by_event c s ev =
      let (c1, next) = on_event env c s ev in transit env (h2_stream_dispatch env) c1 s next

  by_event-Along : (c : C) (s : Stream R) (ev : StreamEvent) → Along s (by_event c s ev).1
  unfolding on_event
  by_event-Along c s ev =
      transit-Along (env.on_event c s ev) s (on_line s.state (trans_on_event ev))
        (on_event-⟶* s.state ev)

  move-Along :
      (c : C) (s : Stream R) (next : Next) (fin : Bool) (ev : StreamEvent)
      → s.state ⟶* landed s.state next
      → Along s (move env c s next fin ev).1
  unfolding move
  move-Along c s next fin ev p =
      let r = transit env (h2_stream_dispatch env) c s next in
      let first = transit-Along c s next p in
      elim (Bool-cases (is_success r.2 && fin)) [
        | inl e ↦ rw e (Along-trans s r.1 (by_event r.0 r.1 ev).1 first (by_event-Along r.0 r.1 ev))
        | inr e ↦ rw e first
      ]

  -- A request that starts, or not, leaves the stream where it is.
  abbrev pub Stays : Stream R → Option (Stream R × Status) → Type 0
  Stays s = IfDone (λ r. (r.0.state ≡ s.state) × (r.0.id ≡ s.id))

  start_request-Stays :
      (c : C) (s : Stream R) (r : R) (fin : Bool) (n : ℕ)
      → Stays s (some (start_request env c s r fin n))
  unfolding start_request
  start_request-Stays c s r fin n = ground arith

  pub promise-Stays :
      (c : C) (s : Stream R) (request rtmp : Option R) → Stays s (promise env c s request rtmp)
  unfolding promise
  promise-Stays c s none none = tt
  promise-Stays c s none (some r) = start_request-Stays c s r true 0
  promise-Stays c s (some q) rtmp = tt

  pub recv_request-Stays :
      (c : C) (s : Stream R) (request rtmp : Option R) (fin : Bool) (n : ℕ)
      → Stays s (recv_request env c s request rtmp fin n)
  unfolding recv_request
  recv_request-Stays c s none none fin n = (refl, refl)
  recv_request-Stays c s none (some r) fin n = start_request-Stays c s r fin n
  recv_request-Stays c s (some q) rtmp fin n = tt

  go_on-Along :
      (c : C) (s : Stream R) (o : Option (Stream R × Status)) (t : State) (fin : Bool)
      (ev : StreamEvent)
      → Stays s o
      → s.state ⟶* t
      → IfDone (λ r. Along s r.1) (go_on env c o t fin ev)
  unfolding go_on
  go_on-Along c s none t fin ev h p = tt
  go_on-Along c s (some (u, status)) t fin ev h p =
      let start = subst (λ a. a ⟶* t) (sym h.0) p in
      let moved = move-Along c u (into t) fin ev start in
      let there = subst (λ a. a ⟶* (move env c u (into t) fin ev).1.state) h.0 moved.0 in
      elim (Bool-cases (is_success status)) [
        | inl e ↦ rw e (there, moved.1 ∙ h.1)
        | inr e ↦ rw e (subst (λ a. s.state ⟶* a) (sym h.0) here, h.1)
      ]

  send_valid-Along :
      (c : C) (s : Stream R) (t : State) (ftype flags : ℕ)
      → s.state ⟶* t
      → IfDone (λ r. Along s r.1) (send_valid env c s t ftype flags)
  unfolding send_valid
  send_valid-Along c s t ftype flags p = elim (Bool-cases (ftype == push_promise_frame)) [
    | inl e ↦ rw e (
        go_on-Along c s (promise env c s s.request s.rtmp) t (carries_eos env ftype flags)
          local_closed (promise-Stays c s s.request s.rtmp) p)
    | inr e ↦ rw e (move-Along c s (into t) (carries_eos env ftype flags) local_closed p)
  ]

  send_next-Along :
      (c : C) (s : Stream R) (next : Next) (ftype flags len : ℕ)
      → s.state ⟶* landed s.state next
      → IfDone (λ r. Along s r.1) (send_next env c s next ftype flags len)
  unfolding send_next
  send_next-Along c s xxx ftype flags len p = transit-Along c s xxx p
  send_next-Along c s err ftype flags len p = transit-Along c s err p
  send_next-Along c s (into t) ftype flags len p = send_valid-Along c _ t ftype flags p

  -- h2_stream_send_frame, with a frame of any type and flags on a stream in any state, leaves the
  -- same stream in a state that the diagram reaches from the old one.
  pub send_frame-Along :
      (c : C) (s : Stream R) (ftype flags len : ℕ)
      → IfDone (λ r. Along s r.1) (h2_stream_send_frame env c s ftype flags len)
  unfolding h2_stream_send_frame
  send_frame-Along c s ftype flags len =
      send_next-Along c s (on_frame_send s.state ftype) ftype flags len
        (on_frame_send-⟶* s.state ftype)

  pub recv_trailers-Stays :
      (c : C) (s : Stream R) (n : ℕ)
      → ((recv_trailers env c s true n).1.state ≡ s.state)
        × ((recv_trailers env c s true n).1.id ≡ s.id)
  unfolding recv_trailers
  recv_trailers-Stays c s n = (refl, refl)

  recv_headers-Along :
      (c : C) (s : Stream R) (t : State) (fin : Bool) (len : ℕ)
      → num s.state == num opened && not fin ≡ false
      → s.state ⟶* t
      → IfDone (λ r. Along s r.1) (recv_headers env c s t fin len)
  unfolding recv_headers go_on recv_trailers
  recv_headers-Along c s t true len h p = elim (Bool-cases (num s.state == num opened)) [
    | inl e ↦ rw e (
        go_on-Along c s (some ((recv_trailers env c s true len).1, success)) t true remote_closed
          (recv_trailers-Stays c s len) p)
    | inr e ↦ rw e (
        go_on-Along c s (recv_request env c s s.request s.rtmp true len) t true remote_closed
          (recv_request-Stays c s s.request s.rtmp true len) p)
  ]
  recv_headers-Along c s t false len h p = elim (Bool-cases (num s.state == num opened)) [
    | inl e ↦ absurd (cc (rw e at h))
    | inr e ↦ rw e (
        go_on-Along c s (recv_request env c s s.request s.rtmp false len) t false remote_closed
          (recv_request-Stays c s s.request s.rtmp false len) p)
  ]

  recv_next-Along :
      (c : C) (s : Stream R) (next : Next) (ftype flags len : ℕ)
      → (ftype == headers_frame && (num s.state == num opened && not (end_stream flags))) ≡ false
      → s.state ⟶* landed s.state next
      → IfDone (λ r. Along s r.1) (recv_next env c s next ftype flags len)
  unfolding recv_next
  recv_next-Along c s xxx ftype flags len h p = transit-Along c s xxx p
  recv_next-Along c s err ftype flags len h p = transit-Along c s err p
  recv_next-Along c s (into t) ftype flags len h p = elim (Bool-cases (ftype == headers_frame)) [
    | inl e ↦ rw e (recv_headers-Along c s t (end_stream flags) len (rw e at h) p)
    | inr e ↦ rw e (
        move-Along c s (into t) ((ftype == data_frame || false) && end_stream flags) remote_closed
          p)
  ]

  -- h2_stream_recv_frame, with a frame of any type and flags on a stream in any state, leaves the
  -- same stream in a state that the diagram reaches from the old one, unless the frame is HEADERS
  -- without END_STREAM on an open stream.
  pub recv_frame-Along :
      (c : C) (s : Stream R) (ftype flags len : ℕ)
      → (ftype == headers_frame && (num s.state == num opened && not (end_stream flags))) ≡ false
      → IfDone (λ r. Along s r.1) (h2_stream_recv_frame env c s ftype flags len)
  unfolding h2_stream_recv_frame
  recv_frame-Along c s ftype flags len h =
      recv_next-Along c s (on_frame_recv s.state ftype) ftype flags len h
        (on_frame_recv-⟶* s.state ftype)

  -- A result in the state `t` with the error `code`.
  abbrev pub Ends : State → ℕ → Stream R → Type 0
  Ends t code s = (s.state ≡ t) × (s.rst_error ≡ code)

  recv_trailers-closes :
      (c : C) (s : Stream R) (len : ℕ)
      → s.state ≡ opened
      → Ends closed err_protocol_error (recv_trailers env c s false len).1
  unfolding recv_trailers h2_stream_dispatch
  recv_trailers-closes c s len e =
      let (to, _, code) = rst-state env 2 c s err_protocol_error in (to ∙ ap cancelled_of e, code)
    where
      cancelled_of : State → State
      cancelled_of = cancelled_state

  move-Ends :
      (c : C) (s : Stream R) (t : State) (ev : StreamEvent)
      → Ends t s.rst_error (move env c s (into t) false ev).1
  unfolding move h2_stream_dispatch
  move-Ends c s t ev = ground (arith, transit_into-state env 3 c s t)

  recv_headers-reopen :
      (c : C) (s : Stream R) (len : ℕ)
      → s.state ≡ opened
      → IfDone (λ r. Ends opened err_protocol_error r.1) (recv_headers env c s opened false len)
  unfolding recv_headers
  recv_headers-reopen c s len e =
      let r = recv_trailers env c s false len in
      let again = move-Ends r.0 r.1 opened remote_closed in
      let test : num s.state == num opened ≡ true = ap (λ a. num a == num opened) e in
      rw test (again.0, again.1 ∙ (recv_trailers-closes c s len e).1)

  -- HEADERS without END_STREAM on an open stream: h2_stream_rst closes the stream with
  -- PROTOCOL_ERROR, and the transition that was looked up before opens it again.
  pub recv_trailers_reopen :
      (c : C) (s : Stream R) (flags len : ℕ)
      → s.state ≡ opened
      → end_stream flags ≡ false
      → Ends closed err_protocol_error (recv_trailers env c s false len).1
        × IfDone
            (λ r. Ends opened err_protocol_error r.1)
            (h2_stream_recv_frame env c s headers_frame flags len)
  unfolding h2_stream_recv_frame recv_next
  recv_trailers_reopen c s flags len e f = (
    recv_trailers-closes c s len e,
    subst
        (λ next.
          IfDone (λ r. Ends opened err_protocol_error r.1)
            (recv_next env c s next headers_frame flags len))
        (sym (ap (λ a. on_frame_recv a headers_frame) e))
        (unfold on_frame_recv in rw f (recv_headers-reopen c s len e)),
  )
