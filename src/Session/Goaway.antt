-- ===== src/Session/Goaway.antt =====
-- What h2_session_shutdown, h2_session_ev_local_goaway and h2_session_shutdown_notice of
-- mod_http2/h2_session.c leave of a session.
use mod_h.Prelude.{
  ℕ, ◌+◌, ◌≤◌, ◌≡◌, refl, ap, ◌∙◌, Bool, true, false, arith, Bool-cases, if-both, inl, inr,
  if◌then◌else◌,
}
use mod_h.Apr.{Status, success}
use mod_h.Stream.{Env}
use mod_h.Session.{SessionState, st_done, Outside, Session, World}
use mod_h.Session.Callbacks.{is_done, transit}
use mod_h.Session.Events.{
  cleanup_unprocessed_streams, h2_session_ev_local_goaway, send_goaway, stop_streams,
  h2_session_shutdown, h2_session_shutdown_notice,
}
use mod_h.Session.Kept.{Goaways, Kept, stream_do-Kept}

-- The GOAWAY frames that a session still submits.
abbrev pub to_come : Bool → ℕ
to_come true = 0
to_come false = 1

-- What an event may do to the end of a session: a session that is done stays done, one that was shut
-- down stays so, and each GOAWAY frame is submitted with a shutdown.
pub record Ends {E : Type 0} (g : E → ℕ) (x y : Session E) : Type 0 where
  pub stays_done : is_done x.state ≡ true → is_done y.state ≡ true
  pub stays_shut : x.local.shutdown ≡ true → y.local.shutdown ≡ true
  pub bounded : g y.ext + to_come y.local.shutdown ≤ g x.ext + to_come x.local.shutdown

pub Ends-trans :
    {E : Type 0} → (g : E → ℕ) (x y z : Session E) → Ends g x y → Ends g y z → Ends g x z
Ends-trans g x y z p q = record {
  stays_done = λ h. q.stays_done (p.stays_done h);
  stays_shut = λ h. q.stays_shut (p.stays_shut h);
  bounded = omega (arith, p.bounded, q.bounded);
}

pub ends :
    {E : Type 0}
    → (g : E → ℕ) (x y : Session E) → (is_done x.state ≡ true → is_done y.state ≡ true)
    → (x.local.shutdown ≡ true → y.local.shutdown ≡ true)
    → g y.ext + to_come y.local.shutdown ≤ g x.ext + to_come x.local.shutdown
    → Ends g x y
ends g x y d s b = record { stays_done = d; stays_shut = s; bounded = b }

pub Kept-Ends : {E : Type 0} → (g : E → ℕ) (x y : Session E) → Kept g x y → Ends g x y
Kept-Ends g x y h = ends g x y (λ e. ground arith) (λ e. ground arith) (ground arith)

module _ {E R : Type 0} (out : Outside E) (base : Env (Session E) R) (g : E → ℕ)
    (law : Goaways out g) where
  pub Ends-refl : (x : Session E) → Ends g x x
  Ends-refl x = ends g _ _ (λ h. h) (λ h. h) (omega arith)

  -- What h2_session_ev_local_goaway leaves of a session.
  abbrev Gone : World E R → World E R → Type 0
  Gone w v =
      (v.session.state ≡ st_done)
      × (v.session.local.shutdown ≡ w.session.local.shutdown)
      × (v.session.local.accepting ≡ w.session.local.accepting)
      × (g v.session.ext ≡ g w.session.ext)

  pub cleanup-Kept :
      (w : World E R) → Kept g w.session (cleanup_unprocessed_streams out base w).session
  unfolding cleanup_unprocessed_streams
  cleanup-Kept w = stream_do-Kept out g law base w.session w.streams

  local_goaway-Gone : (w : World E R) → Gone w (h2_session_ev_local_goaway out base w)
  unfolding h2_session_ev_local_goaway transit
  local_goaway-Gone w = let (_, a, s, _, _, g) = cleanup-Kept w in (refl, s, a, g)

  send_goaway_lem :
      (x : Session E) (error : ℕ)
      → let y = (send_goaway out base x error).0 in
        (y.local ≡ x.local)
        × (y.state ≡ x.state)
        × (g y.ext ≡ g x.ext + (if out.conn_aborted x.ext then 0 else 1))
  unfolding send_goaway
  send_goaway_lem x error =
      let e = out.submit_goaway x.ext x.local.accepted_max error in
      ground (
        arith,
        law.goaway_adds x.ext x.local.accepted_max error,
        law.send_keeps e,
        law.flush_keeps (out.nghttp2_send e).1,
      )

  stop_streams_lem :
      (x : Session E) (error : ℕ) (force : Bool)
      → let y = stop_streams out base x error force in
        (y.local.shutdown ≡ x.local.shutdown)
        × (y.local.accepting ≡ x.local.accepting)
        × (g y.ext ≡ g x.ext)
  unfolding stop_streams
  stop_streams_lem x error force = ground (arith, law.shutdown_keeps x.ext)

  -- h2_session_shutdown of a session that was not shut down leaves it done, shut down and not
  -- accepting, and submits one GOAWAY frame, or none when the connection is gone; of one that was
  -- shut down it changes nothing.
  pub h2_session_shutdown_lem :
      (w : World E R) (error : ℕ) (force : Bool)
      → let v = (h2_session_shutdown out base w error force).0 in
        let gone = out.conn_aborted (stop_streams out base w.session error force).ext in
        (w.session.local.shutdown ≡ true → v ≡ w)
        × (w.session.local.shutdown ≡ false
            → (v.session.state ≡ st_done)
              × (v.session.local.shutdown ≡ true)
              × (v.session.local.accepting ≡ false)
              × (g v.session.ext ≡ g w.session.ext + (if gone then 0 else 1)))
  unfolding h2_session_shutdown
  h2_session_shutdown_lem w error force = (
    λ e.
        if-both (λ (r : World E R × Status). r.0 ≡ w) w.session.local.shutdown (w, success) after
          (λ t. refl) (λ f. cc),
    fresh,
  )
    where
      x : Session E
      x = stop_streams out base w.session error force

      y : Session E
      y = record x { local = record (x.local) { accepting = false; shutdown = true } }

      z : Session E
      z = (send_goaway out base y error).0

      after : World E R × Status
      after = (
        h2_session_ev_local_goaway out base (record w { session = z }),
        (send_goaway out base y error).1,
      )

      fresh :
          w.session.local.shutdown ≡ false
          → let v = (h2_session_shutdown out base w error force).0 in
            let gone = out.conn_aborted x.ext in
            (v.session.state ≡ st_done)
            × (v.session.local.shutdown ≡ true)
            × (v.session.local.accepting ≡ false)
            × (g v.session.ext ≡ g w.session.ext + (if gone then 0 else 1))
      fresh e =
          let (s, _, k) = stop_streams_lem w.session error force in
          let (l, _, m) = send_goaway_lem y error in
          let (d, b, a, n) = local_goaway-Gone (record w { session = z }) in
          if-both
            (λ (r : World E R × Status).
              (r.0.session.state ≡ st_done)
              × (r.0.session.local.shutdown ≡ true)
              × (r.0.session.local.accepting ≡ false)
              × (g r.0.session.ext ≡ g w.session.ext + (if out.conn_aborted x.ext then 0 else 1)))
            w.session.local.shutdown (w, success) after (λ t. cc)
            (λ f. (
              d,
              b ∙ ap (λ p. p.shutdown) l,
              a ∙ ap (λ p. p.accepting) l,
              n ∙ m ∙ ap (λ i. i + (if out.conn_aborted x.ext then 0 else 1)) k,
            ))

  pub shutdown-Ends :
      (w : World E R) (error : ℕ) (force : Bool)
      → Ends g w.session (h2_session_shutdown out base w error force).0.session
  shutdown-Ends w error force =
      let (still, fresh) = h2_session_shutdown_lem w error force in
      elim (Bool-cases w.session.local.shutdown) [
        | inl e ↦ rw (still e) (Ends-refl w.session)
        | inr e ↦
            (let (d, b, _, n) = fresh e in
              ends g _ _ (λ h. ap is_done d) (λ h. b) (ground (arith, b, n, e)))
      ]

  -- A session whose state alone changes, from a state that is not done or to the done one.
  pub to_done-Ends : (x : Session E) → Ends g x (transit x st_done)
  unfolding transit
  to_done-Ends x = ends g _ _ (λ h. refl) (λ h. h) (omega arith)

  pub from_other-Ends :
      (x : Session E) (n : SessionState) → is_done x.state ≡ false → Ends g x (transit x n)
  unfolding transit
  from_other-Ends x n e = ends g _ _ (λ h. cc) (λ h. h) (omega arith)

  pub local_goaway-Ends :
      (w : World E R) → Ends g w.session (h2_session_ev_local_goaway out base w).session
  local_goaway-Ends w =
      let (d, b, _, n) = local_goaway-Gone w in
      ends g _ _ (λ h. ap is_done d) (λ h. b ∙ h) (ground (arith, b, n))

  pub notice-Ends : (x : Session E) → Ends g x (h2_session_shutdown_notice out base x).0
  unfolding h2_session_shutdown_notice
  notice-Ends x =
      let e = out.submit_shutdown_notice x.ext in
      ends g _ _ (λ h. ground arith) (λ h. ground arith)
        (ground
          (arith, law.notice_keeps x.ext, law.send_keeps e, law.flush_keeps (out.nghttp2_send e).1))
