-- ===== src/Mplx/Run.antt =====
-- The operations of mod_http2/h2_mplx.c, in any order: each runs while it holds the lock.
use mod_h.Prelude.{ℕ, Bool, Option, none, some, List, [], ◌∷◌}
use mod_h.Apr.{Status}
use mod_h.Util.IQueue.{Cmp}
use mod_h.Mplx.{
  Task, Entry, Mplx, stream_cleanup, h2_mplx_shutdown, h2_mplx_process, h2_mplx_reprioritize,
  h2_mplx_dispatch_master_events,
}
use mod_h.Mplx.Schedule.{h2_mplx_pop_task, h2_mplx_task_done, h2_mplx_idle}

-- A call of an operation, with what the outside answers.
pub data Op : Type 0 where
  process : Status → Option Cmp → Entry → Op
  reprioritize : Cmp → Op
  cleanup : Entry → Op
  shutdown : Op
  pop : (ℕ → Option Task) → Op
  finish : (ℕ → Option Task) → Status → ℕ → Bool → ℕ → Task → Op
  idle : Status → ℕ → Op
  dispatch : Op

abbrev pub state_of : Option (Mplx × Option ℕ) → Option Mplx
state_of none = none
state_of (some r) = some r.0

-- What is left; `none` is a failed assertion.
unfoldable pub run : Op → Mplx → Option Mplx
run (process answer cmp e) m = some (h2_mplx_process answer cmp m e).1
run (reprioritize cmp) m = some (h2_mplx_reprioritize cmp m).1
run (cleanup e) m = stream_cleanup m e
run shutdown m = some (h2_mplx_shutdown m).0
run (pop create) m = some (h2_mplx_pop_task create m).1
run (finish create answer now again id t) m =
    state_of (h2_mplx_task_done create answer now again m id t)
run (idle answer now) m = some (h2_mplx_idle answer now m).1
run dispatch m = some (h2_mplx_dispatch_master_events m).0

-- What holds unless an assertion failed.
abbrev pub Unless : (Mplx → Type 0) → Option Mplx → Type 0
Unless P none = Unit
Unless P (some m) = P m

unfoldable pub runs : List Op → Mplx → Option Mplx
runs [] m = some m
runs (op ∷ ops) m = elim (run op m) [ none ↦ none | some m1 ↦ runs ops m1 ]

-- An invariant of every operation is one of any sequence of them.
pub runs-Unless :
    (P : Mplx → Type 0)
    → ((op : Op) (m : Mplx) → P m → Unless P (run op m))
    → (ops : List Op) (m : Mplx) → P m
    → Unless P (runs ops m)
unfolding runs
runs-Unless P h [] m p = p
runs-Unless P h (op ∷ ops) m p = after (run op m) (h op m p) (λ m1 p1. runs-Unless P h ops m1 p1)
  where
    rest : Option Mplx → Option Mplx
    rest none = none
    rest (some m1) = runs ops m1

    after :
        (o : Option Mplx)
        → Unless P o
        → ((m1 : Mplx) → P m1 → Unless P (runs ops m1))
        → Unless P (rest o)
    after none u k = tt
    after (some m1) u k = k m1 u
