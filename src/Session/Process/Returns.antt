-- ===== src/Session/Process/Returns.antt =====
-- When h2_session_process of mod_http2/h2_session.c returns, and with what.
use mod_h.Prelude.{
  ℕ, zero, suc, ◌≡◌, refl, ap, ◌∙◌, Bool, true, false, not, ◌&&◌, Option, none, some, if◌then◌else◌,
  if-both, Bool-cases, inl, inr, ◌⊎◌, arith,
}
use mod_h.Apr.{Status, success, eof}
use mod_h.Stream.{Env}
use mod_h.Session.{
  SessionState, st_init, st_done, st_idle, ev_conn_error, ev_conn_timeout, ev_ngh2_done, Outside,
  Session, World,
}
use mod_h.Session.Callbacks.{is_done, transit}
use mod_h.Session.Events.{
  dispatch_event, h2_session_shutdown, h2_session_ev_conn_timeout, h2_session_ev_ngh2_done,
  h2_session_ev_local_goaway,
}
use mod_h.Session.Process.{
  is_eagain, idle_ready, Loop, Round, next, leave, is_gone, process_idle, idle_async, idle_sync,
}
use mod_h.Session.Process.Run.{
  process_state, round_begin, round_end, process_round, process_out, h2_session_process,
  wants_nothing,
}

module _ {E R : Type 0} (out : Outside E) (base : Env (Session E) R) (io : Loop E R) where
  abbrev Done : World E R → Type 0
  Done w = is_done w.session.state ≡ true

  shutdown-Done :
      (w : World E R) (error : ℕ) (force : Bool)
      → Done w
      → Done (h2_session_shutdown out base w error force).0
  unfolding h2_session_shutdown h2_session_ev_local_goaway transit
  shutdown-Done w error force h =
      if-both (λ (r : World E R × Status). Done r.0) w.session.local.shutdown (w, success) _
        (λ _. h) (λ _. refl)

  timeout-Done : (w : World E R) (arg : ℕ) → Done (dispatch_event out base w ev_conn_timeout arg)
  unfolding dispatch_event h2_session_ev_conn_timeout transit
  timeout-Done w arg =
      let v = record w { session = record (w.session) { state = st_done } } in
      if-both Done v.session.local.shutdown v (h2_session_shutdown out base v arg true).0
        (λ _. refl) (λ _. shutdown-Done v arg true refl)

  event-Done : (w : World E R) → Done (dispatch_event out base w ev_ngh2_done 0)
  unfolding dispatch_event h2_session_ev_ngh2_done transit
  event-Done w =
      if-both Done (is_done w.session.state) w
        (record w { session = record (w.session) { state = st_done } }) (λ t. t) (λ _. refl)

  -- A round of a connection that is not asynchronous leaves the loop only when the session is done.
  abbrev LeavesDone : Bool → Round E R → Type 0
  LeavesDone async (next s w) = Unit
  LeavesDone async (leave s w) = async ≡ false → Done w

  sync_LeavesDone : (async : Bool) (w : World E R) → LeavesDone async (idle_sync out base io w)
  unfolding idle_sync
  sync_LeavesDone async w =
      if-both (LeavesDone async) (is_eagain (io.mplx_idle w).0) _ _ (λ _. tt) (λ _. tt)

  async_LeavesDone : (async : Bool) (r : Round E R) → async ≡ true → LeavesDone async r
  async_LeavesDone async (next s w) h = tt
  async_LeavesDone async (leave s w) h = λ f. cc

  first_true : (a b : Bool) → (a && b) ≡ true → a ≡ true
  first_true a b h = ground (arith, h)

  idle_LeavesDone :
      (async : Bool) (status : Status) (w : World E R)
      → LeavesDone async (process_idle out base io async status w)
  unfolding process_idle
  idle_LeavesDone async status w =
      let v : World E R = idle_ready out base io w in
      if-both (LeavesDone async) (io.idle_over w)
        (leave status (dispatch_event out base w ev_conn_timeout 0))
        (if async && io.sync_over w then idle_async out base io v else idle_sync out base io v)
        (λ _ _. timeout-Done w 0)
        (λ _.
          if-both (LeavesDone async) (async && io.sync_over w) (idle_async out base io v)
            (idle_sync out base io v)
            (λ t.
              async_LeavesDone async (idle_async out base io v)
                (first_true async (io.sync_over w) t))
            (λ _. sync_LeavesDone async v))

  state_LeavesDone :
      (async : Bool) (status : Status) (w : World E R) (x : SessionState)
      → LeavesDone async (process_state out base io async status w x)
  unfolding process_state
  state_LeavesDone async status w st_init = tt
  state_LeavesDone async status w st_idle = idle_LeavesDone async status w
  state_LeavesDone async status w _ = tt

  -- What is returned: APR_EOF of a session that is done, APR_SUCCESS of one that is not.
  abbrev pub Returned : Bool → Option (Status × World E R) → Type 0
  Returned async none = Unit
  Returned async (some (s, w)) =
      ((s ≡ eof) × Done w) ⊎ ((s ≡ success) × (is_done w.session.state ≡ false) × (async ≡ true))

  out-Returned :
      (async : Bool) (status : Status) (w : World E R)
      → (async ≡ false → Done w)
      → Returned async (some (process_out out base io status w))
  unfolding process_out
  out-Returned async status w h = elim (Bool-cases (is_done v.session.state)) [
    | inl d ↦ inl (ap (λ b. if b then eof else success) d, d)
    | inr n ↦ elim (Bool-cases async) [
      | inl a ↦ inr (ap (λ b. if b then eof else success) n, n, a)
      | inr f ↦ inl (ap (λ b. if b then eof else success) (still (h f)), still (h f))
    ]
  ]
    where
      failed : World E R
      failed = dispatch_event out base w ev_conn_error 0

      v : World E R
      v = if not (is_done w.session.state) && is_gone status then failed else w

      absurd_test : (b c : Bool) → (not b && c) ≡ true → b ≡ true → Done failed
      absurd_test b c p q = absurd (ground (arith, p, q))

      still : Done w → Done v
      still d =
          if-both Done (not (is_done w.session.state) && is_gone status) failed w
            (λ t. absurd_test (is_done w.session.state) (is_gone status) t d) (λ _. d)

  round_Returned :
      (async : Bool) (r : Round E R) (fuel : ℕ)
      → LeavesDone async r
      → ((s : Status) (v : World E R)
          → Returned async (h2_session_process out base io fuel async s (round_end out base io v)))
      → Returned async (elim r [
        | next s v ↦ h2_session_process out base io fuel async s (round_end out base io v)
        | leave s v ↦ some (process_out out base io s v)
      ])
  round_Returned async (next s v) fuel l more = more s v
  round_Returned async (leave s v) fuel l more = out-Returned async s v l

  -- Whenever h2_session_process returns, after any number of rounds and whatever nghttp2, the
  -- multiplexer and the network do, it returns APR_EOF with a session that is done, or APR_SUCCESS
  -- with one that is not, and this on an asynchronous connection only.
  pub process_Returned :
      (fuel : ℕ) (async : Bool) (status : Status) (w : World E R)
      → Returned async (h2_session_process out base io fuel async status w)
  unfolding h2_session_process process_round
  process_Returned zero async status w = tt
  process_Returned (suc fuel) async status w =
      let v = round_begin out base io w in
      if-both (Returned async) (is_done w.session.state) (some (process_out out base io status w)) _
        (λ d. out-Returned async status w (λ _. d))
        (λ _.
          round_Returned async (process_state out base io async status v v.session.state) fuel
            (state_LeavesDone async status v v.session.state)
            (λ s u. process_Returned fuel async s (round_end out base io u)))

  out-Done :
      (status : Status) (w : World E R) → Done w → process_out out base io status w ≡ (eof, w)
  unfolding process_out
  out-Done status w d =
      ap
        (λ b.
          let v =
            if not b && is_gone status then dispatch_event out base w ev_conn_error 0 else w in
          (if is_done v.session.state then eof else success, v))
        d
      ∙ ap (λ b. (if b then eof else success, w)) d

  process_stop :
      (fuel : ℕ) (async : Bool) (status : Status) (w : World E R)
      → Done w
      → h2_session_process out base io (suc fuel) async status w ≡ some (eof, w)
  unfolding h2_session_process
  process_stop fuel async status w d =
      if-both (λ (x : Option (Status × World E R)). x ≡ some (eof, w)) (is_done w.session.state)
        (some (process_out out base io status w)) _ (λ _. ap some (out-Done status w d)) (λ f. cc)

  process_step :
      (fuel : ℕ) (async : Bool) (status s : Status) (w v : World E R)
      → is_done w.session.state ≡ false
      → process_round out base io async status w ≡ next s v
      → h2_session_process out base io (suc fuel) async status w
        ≡ h2_session_process out base io fuel async s (round_end out base io v)
  unfolding h2_session_process
  process_step fuel async status s w v n r =
      let after = λ (x : Round E R). elim x as (λ y. Option (Status × World E R)) [
        | next s v ↦ h2_session_process out base io fuel async s (round_end out base io v)
        | leave s v ↦ some (process_out out base io s v)
      ] in
      ap
        (λ b.
          if b
          then some (process_out out base io status w)
          else after (process_round out base io async status w))
        n
      ∙ ap after r

  round_end-Done :
      (v : World E R)
      → wants_nothing out base io v ≡ true
      → ((u : World E R) → (io.reprioritize u).session.state ≡ u.session.state)
      → Done (round_end out base io v)
  unfolding round_end
  round_end-Done v q p =
      let u : World E R =
        if wants_nothing out base io v then dispatch_event out base v ev_ngh2_done 0 else v in
      let d : Done u =
        if-both Done (wants_nothing out base io v) (dispatch_event out base v ev_ngh2_done 0) v
          (λ _. event-Done v) (λ f. cc) in
      if-both Done u.session.reprioritize _ u (λ _. ap is_done (p u) ∙ d) (λ _. d)

  -- A round after which nghttp2 wants neither to read nor to write is the last one: the loop returns
  -- APR_EOF, whatever fuel is left beyond one more test. Conditions: the round went to its end, the
  -- session was not done before it, and a change of priorities leaves the state of a session.
  pub process_ends :
      (fuel : ℕ) (async : Bool) (status s : Status) (w v : World E R)
      → is_done w.session.state ≡ false
      → process_round out base io async status w ≡ next s v
      → wants_nothing out base io v ≡ true
      → ((u : World E R) → (io.reprioritize u).session.state ≡ u.session.state)
      → h2_session_process out base io (suc (suc fuel)) async status w
        ≡ some (eof, round_end out base io v)
  process_ends fuel async status s w v n r q p =
      process_step (suc fuel) async status s w v n r
      ∙ process_stop fuel async s (round_end out base io v) (round_end-Done v q p)
