-- ===== src/Session/Examples.antt =====
-- mod_http2/h2_session.c on concrete sessions. What a session calls counts the GOAWAY frames.
use mod_h.Prelude.{ℕ, suc, Bool, true, false, [], ◌∷◌, refl}
use mod_h.Prelude.Int.{pos}
use mod_h.Apr.{success}
use mod_h.Util.IQueue.{IQueue}
use mod_h.Stream.{Env}
use mod_h.Stream.Examples.{counting}
use mod_h.Stream.Frames.{h2_stream_create}
use mod_h.Session.{st_busy, Props, Outside, Session, World}
use mod_h.Session.Events.{stream_env}
use mod_h.Session.Kept.{Goaways}
use mod_h.Session.Counting.{Exact, created, Steps, here, after, open_streams-Exact, live_count}

abbrev pub out : Outside ℕ
out = record {
  submit_rst_stream = λ e id code. e;
  submit_goaway = λ e last code. suc e;
  submit_shutdown_notice = λ e. e;
  nghttp2_send = λ e. (success, e);
  io_flush = λ e. (success, e);
  pass_eos = λ e id. e;
  conn_aborted = λ e. false;
  mplx_shutdown = λ e. (5, e);
  mplx_awaits_data = λ e. false;
  mplx_stream_cleanup = λ e id. e;
  mplx_has = λ e id. true;
}

abbrev pub submitted : ℕ → ℕ
submitted e = e

pub out-Goaways : Goaways out submitted
out-Goaways = record {
  rst_keeps = λ e id code. refl;
  goaway_adds = λ e last code. refl;
  notice_keeps = λ e. refl;
  send_keeps = λ e. refl;
  flush_keeps = λ e. refl;
  eos_keeps = λ e id. refl;
  shutdown_keeps = λ e. refl;
  cleanup_keeps = λ e id. refl;
}

abbrev pub base : Env (Session ℕ) ℕ
base = counting

abbrev props : ℕ → Bool → Props
props accepted_max accepting = record {
  accepted_max = accepted_max;
  completed_max = 0;
  emitted_count = 0;
  emitted_max = 0;
  error = 0;
  accepting = accepting;
  shutdown = false;
}

abbrev queue : IQueue
queue = record { elts = 0 ∷ 0 ∷ []; head = 0; nalloc = 2; nelts = 0 }

abbrev with_local : Props → Session ℕ
with_local local = record {
  state = st_busy;
  local = local;
  remote = props 0 true;
  reprioritize = false;
  open_streams = pos 0;
  streams_reset = 0;
  pushes_reset = 0;
  frames_received = 0;
  idle_frames = 0;
  idle_delay = 0;
  wait_us = 0;
  in_pending = queue;
  in_process = queue;
  ext = 0;
}

-- A session that accepts streams.
abbrev accepting : Session ℕ
accepting = with_local (props 0 true)

abbrev pub no_streams : World ℕ ℕ
no_streams = record { session = accepting; streams = [] }

abbrev env : Env (Session ℕ) ℕ
env = stream_env out base

abbrev one_stream : World ℕ ℕ
one_stream =
    let r = h2_stream_create env accepting 1 0 65536 in record { session = r.0; streams = r.1 ∷ [] }

one_step : Steps out base no_streams one_stream
one_step = after no_streams one_stream one_stream (created accepting [] 1 0 65536) (here one_stream)

open_streams-Exact_example : Exact one_stream
unfolding live_count
open_streams-Exact_example = open_streams-Exact out base no_streams one_stream one_step refl
