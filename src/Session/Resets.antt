-- ===== src/Session/Resets.antt =====
-- Which streams a session resets when it shuts down, and which ids it records: rst_unprocessed_stream
-- and on_stream_state_enter of mod_http2/h2_session.c, h2_mplx_stream_do of mod_http2/h2_mplx.c.
use mod_h.Prelude.{ℕ, ◌%◌, ◌≤◌, ◌≡◌, refl, ap, true, false, List, [], ◌∷◌, ◌++◌, All, arith, ltb}
use mod_h.Stream.{Stream, Env}
use mod_h.Session.{Outside, Session}
use mod_h.Session.Callbacks.{ev_stream_created}
use mod_h.Session.Events.{to_reset, reset, stream_do}

module _ {E R : Type 0} (out : Outside E) (base : Env (Session E) R) where
  -- The walk over the streams resets the first unprocessed one and ends there: the streams behind
  -- it stay as they are, whether they are unprocessed or not.
  pub stream_do_first :
      (x : Session E) (pre : List (Stream R)) (s : Stream R) (post : List (Stream R))
      → All (λ t. to_reset out base x t ≡ false) pre
      → to_reset out base x s ≡ true
      → let r = reset out base x s in
        stream_do out base x (pre ++ s ∷ post) ≡ (r.0, pre ++ r.1 ∷ post)
  unfolding stream_do
  stream_do_first x [] s post h e = rw e refl
  stream_do_first x (t ∷ pre) s post h e = rw h.0 (
      ap (λ (r : Session E × List (Stream R)). (r.0, t ∷ r.1)) (stream_do_first x pre s post h.1 e))

module _ {E : Type 0} where
  -- A stream that the server opens leaves local.emitted_max and, when its id is the highest, becomes
  -- the highest id of the client's; a stream of the client with a lower id is then not recorded as
  -- accepted.
  pub ev_stream_created_pushed :
      (x : Session E) (pushed id : ℕ)
      → pushed % 2 ≡ 0
      → id % 2 ≡ 1
      → ltb x.local.emitted_max pushed ≡ true
      → id ≤ pushed
      → let y = ev_stream_created x pushed in
        let z = ev_stream_created y id in
        (y.local.emitted_max ≡ x.local.emitted_max)
        × (y.remote.emitted_max ≡ pushed)
        × (z.local.accepted_max ≡ x.local.accepted_max)
  unfolding ev_stream_created
  ev_stream_created_pushed x pushed id h k e le = ground arith
