-- ===== src/Mplx.antt =====
-- The multiplexer of mod_http2/h2_mplx.c: which streams wait for a worker, run, are held and are
-- purged. The lock is taken in each operation; slave connections and what flows through the beams
-- are left out. Of a stream and its task there are the fields that the multiplexer reads. A hash
-- of streams is the list in which apr_hash_t iterates; the set of ready ids is the list that the
-- theorems of Util.Fifo make of it, with room. A failed ap_assert is `none`.
pub mod Schedule
pub mod Run
pub mod Cases
pub mod Limits
pub mod Hold
pub mod Redo
pub mod Stuck
pub mod Examples
use mod_h.Prelude.{
  ℕ, zero, suc, ◌+◌, ◌-◌, ◌≡◌, Bool, true, false, not, ◌&&◌, Option, none, some, List, [], ◌∷◌,
  ◌++◌, if◌then◌else◌, ltb, leb, ◌==◌, is_elem, remove_first, length,
}
use mod_h.Apr.{Status, success, econnaborted, is_success}
use mod_h.Util.IQueue.{IQueue, Cmp, iq_create, iq_empty, iq_add, iq_remove, iq_clear, iq_sort}

pub record Task : Type 0 where
  pub worker_done : Bool
  pub done_done : Bool
  pub started_at : ℕ
  pub timeout : ℕ
  pub can_redo : Bool

-- A stream: whether it is in state CLEANUP, is ready (h2_stream_is_ready), has an input and an
-- output beam.
pub record Entry : Type 0 where
  pub id : ℕ
  pub in_cleanup : Bool
  pub is_ready : Bool
  pub has_output : Bool
  pub out_checked : Bool
  pub task : Option Task

pub record Mplx : Type 0 where
  pub event_pending : Bool
  pub aborted : Bool
  pub is_registered : Bool
  pub streams : List Entry
  pub sredo : List ℕ
  pub shold : List Entry
  pub spurge : List Entry
  pub q : IQueue
  pub readyq : List ℕ
  pub max_stream_started : ℕ
  pub tasks_active : ℕ
  pub limit_active : ℕ
  pub max_active : ℕ
  pub last_idle_block : ℕ
  pub last_limit_change : ℕ
  pub limit_change_interval : ℕ

-- h2_ihash_get, h2_ihash_remove and h2_ihash_add. An entry keeps its place, a new one comes last.
unfoldable pub lookup : ℕ → List Entry → Option Entry
lookup id [] = none
lookup id (e ∷ es) = let rest = lookup id es in if e.id == id then some e else rest

unfoldable pub without : ℕ → List Entry → List Entry
without id [] = []
without id (e ∷ es) = let rest = without id es in if e.id == id then rest else e ∷ rest

unfoldable pub put_entry : Entry → List Entry → List Entry
put_entry e [] = e ∷ []
put_entry e (x ∷ xs) = let rest = put_entry e xs in if x.id == e.id then e ∷ xs else x ∷ rest

-- Whether there is a task that is not marked as done. A worker may have it; a task that task_done put
-- back into the queue is not marked either, and no worker has it.
abbrev pub not_done : Option Task → Bool
not_done none = false
not_done (some t) = not t.worker_done

-- Times are in microseconds.
unfoldable pub h2_mplx_create : ℕ → ℕ → ℕ → Mplx
h2_mplx_create max_streams max_workers now = record {
  event_pending = false;
  aborted = false;
  is_registered = false;
  streams = [];
  sredo = [];
  shold = [];
  spurge = [];
  q = iq_create max_streams;
  readyq = [];
  max_stream_started = 0;
  tasks_active = 0;
  limit_active = 6;
  max_active = max_workers;
  last_idle_block = now;
  last_limit_change = now;
  limit_change_interval = 100000;
}

-- The stream is made ready for output; the session is told when it was not.
unfoldable pub check_data_for : Mplx → ℕ → Mplx
check_data_for m id =
    if is_elem id m.readyq
    then m
    else record m { readyq = m.readyq ++ id ∷ []; event_pending = true }

unfoldable pub stream_joined : Mplx → Entry → Option Mplx
stream_joined m e =
    if not_done e.task
    then none
    else some (record m { shold = without e.id m.shold; spurge = put_entry e m.spurge })

unfoldable pub stream_cleanup : Mplx → Entry → Option Mplx
stream_cleanup m e =
    let gone = record m {
      streams = without e.id m.streams;
      q = (iq_remove m.q e.id).0;
      readyq = remove_first e.id m.readyq;
    } in
    if not e.in_cleanup
    then none
    else if not_done e.task
    then some (record gone { shold = put_entry e m.shold })
    else stream_joined (record gone { shold = put_entry e m.shold }) e

-- The highest stream that has started, and the queue cleared.
unfoldable pub h2_mplx_shutdown : Mplx → Mplx × ℕ
h2_mplx_shutdown m = (record m { q = iq_clear m.q }, m.max_stream_started)

-- h2_workers_register answers with a status.
unfoldable pub register_if_needed : Status → Mplx → Mplx
register_if_needed answer m =
    if not m.aborted && (not m.is_registered && not (iq_empty m.q))
    then if is_success answer then record m { is_registered = true } else m
    else m

unfoldable pub h2_mplx_process : Status → Option Cmp → Mplx → Entry → Status × Mplx
h2_mplx_process answer cmp m e =
    let added = record m { streams = put_entry e m.streams } in
    if m.aborted
    then (econnaborted, m)
    else if e.is_ready
    then (success, check_data_for added e.id)
    else (success, register_if_needed answer (record added { q = (iq_add m.q e.id cmp).0 }))

unfoldable pub h2_mplx_reprioritize : Cmp → Mplx → Status × Mplx
h2_mplx_reprioritize cmp m =
    if m.aborted then (econnaborted, m) else (success, record m { q = iq_sort m.q cmp })

-- All streams in the purge set are destroyed.
unfoldable pub purge_streams : Mplx → Mplx
purge_streams m = record m { spurge = [] }

-- The ids that are ready are pulled, and the streams among them resumed.
unfoldable pub resumed : List ℕ → List Entry → List ℕ
resumed [] es = []
resumed (id ∷ ids) es =
    let rest = resumed ids es in elim (lookup id es) [ none ↦ rest | some e ↦ e.id ∷ rest ]

unfoldable pub h2_mplx_dispatch_master_events : Mplx → Mplx × List ℕ
h2_mplx_dispatch_master_events m =
    let purged = purge_streams (record m { event_pending = false }) in
    (record purged { readyq = [] }, resumed m.readyq m.streams)

unfoldable pub h2_mplx_awaits_data : Mplx → Bool
h2_mplx_awaits_data m =
    if length m.streams == 0
    then false
    else not ((m.tasks_active == 0) && ((length m.readyq == 0) && iq_empty m.q))
