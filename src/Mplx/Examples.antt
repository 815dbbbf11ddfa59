-- ===== src/Mplx/Examples.antt =====
-- The multiplexer of mod_http2/h2_mplx.c on concrete streams.
use mod_h.Prelude.{ℕ, ◌≡◌, Bool, true, false, Option, none, some, List, [], ◌∷◌, arith}
use mod_h.Apr.{success}
use mod_h.Mplx.{Task, Entry, Mplx, lookup, stream_cleanup, purge_streams, h2_mplx_create}
use mod_h.Mplx.Run.{Op, process, cleanup, pop, finish, idle, dispatch, runs, Unless}
use mod_h.Mplx.Limits.{InRange, runs-InRange}
use mod_h.Mplx.Hold.{Held, runs-Held}
use mod_h.Mplx.Redo.{cleanup_redo_left}

-- A new task, and a stream that has it or none.
abbrev fresh : Task
fresh = record {
  worker_done = false;
  done_done = false;
  started_at = 1000;
  timeout = 500;
  can_redo = true;
}

abbrev stream : ℕ → Bool → Option Task → Entry
stream id over t = record {
  id = id;
  in_cleanup = over;
  is_ready = false;
  has_output = false;
  out_checked = false;
  task = t;
}

-- Stream 1 is started, cleaned up while its task runs, and the task ends; stream 3 is started then.
abbrev day : List Op
day =
    process success none (stream 1 false none)
    ∷ process success none (stream 3 false none)
    ∷ pop (λ id. some fresh)
    ∷ idle success 900000
    ∷ cleanup (stream 1 true (some fresh))
    ∷ finish (λ id. some fresh) success 1000000 true 1 fresh
    ∷ dispatch
    ∷ []

abbrev empty_mplx : Mplx
empty_mplx = h2_mplx_create 100 32 0

empty-InRange : InRange empty_mplx
unfolding h2_mplx_create
empty-InRange = record { least = omega arith; most = omega arith; running = omega arith }

empty-Held : Held empty_mplx
unfolding h2_mplx_create
empty-Held = record { hold = tt; purge = tt }

runs-InRange_example : Unless InRange (runs day empty_mplx)
runs-InRange_example = runs-InRange day empty_mplx empty-InRange

runs-Held_example : Unless Held (runs day empty_mplx)
runs-Held_example = runs-Held day empty_mplx empty-Held

-- Stream 1 is to be started again.
abbrev redoing : Mplx
redoing = record empty_mplx { streams = stream 1 false (some fresh) ∷ []; sredo = 1 ∷ [] }

cleanup_redo_left_example :
    Unless
      (λ x. (lookup 1 x.streams ≡ none) × ((purge_streams x).sredo ≡ redoing.sredo))
      (stream_cleanup redoing (stream 1 true (some fresh)))
cleanup_redo_left_example = cleanup_redo_left redoing (stream 1 true (some fresh))
