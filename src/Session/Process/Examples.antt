-- ===== src/Session/Process/Examples.antt =====
-- The loop h2_session_process of mod_http2/h2_session.c on a session without streams.
use mod_h.Prelude.{ℕ, ◌≡◌, refl, true, false, some}
use mod_h.Apr.{success, eof, eagain}
use mod_h.Session.{st_idle, World}
use mod_h.Session.Examples.{out, base, no_streams}
use mod_h.Session.Events.{dispatch_event, h2_session_ev_no_io, no_io_busy}
use mod_h.Session.Process.{
  Loop, sent, next, process_busy, busy_master, dispatch_master, busy_write, busy_end,
}
use mod_h.Session.Process.Run.{
  process_round, round_begin, process_state, round_end, h2_session_process,
}
use mod_h.Session.Process.Returns.{Returned, process_Returned, process_ends}

-- Nothing to read, nothing to write.
abbrev quiet : Loop ℕ ℕ
quiet = record {
  mpm_stopping = λ w. false;
  acceptable = λ w. true;
  start = λ w. (success, w);
  read = λ b w. (eagain, w);
  ngh2_send = λ w. (sent, w);
  master_events = λ w. (eagain, w);
  mplx_idle = λ w. (success, w);
  trywait = λ w. (success, w);
  reprioritize = λ w. w;
  want_read = λ e. false;
  want_write = λ e. false;
  idle_over = λ w. false;
  sync_over = λ w. true;
  resumed = λ a b. false;
}

process_Returned_example :
    Returned out base quiet false (h2_session_process out base quiet 5 false success no_streams)
process_Returned_example = process_Returned out base quiet 5 false success no_streams

-- The session goes idle, and is done at the end of the round.
abbrev idle : World ℕ ℕ
idle = record no_streams { session = record (no_streams.session) { state = st_idle } }

one_round : process_round out base quiet false success no_streams ≡ next eagain idle
unfolding process_round round_begin process_state process_busy busy_master dispatch_master
    busy_write busy_end dispatch_event h2_session_ev_no_io no_io_busy
one_round = refl

process_ends_example :
    h2_session_process out base quiet 2 false success no_streams
    ≡ some (eof, round_end out base quiet idle)
process_ends_example =
    process_ends out base quiet 0 false success eagain no_streams idle refl one_round refl
      (λ u. refl)
