-- ===== src/Mplx/Schedule.antt =====
-- How tasks are started and end, and how the multiplexer keeps a connection that idles from holding
-- workers: mod_http2/h2_mplx.c. Numbers that are sizes in C wrap at 2 ^ 64.
use mod_h.Prelude.{
  ℕ, zero, suc, ◌+◌, ◌-◌, ◌*◌, ◌%◌, ◌^◌, Bool, true, false, not, ◌&&◌, ◌||◌, Option, none, some,
  List, [], ◌∷◌, if◌then◌else◌, ltb, leb, ◌==◌, is_elem, remove_first, length, min,
}
use mod_h.Apr.{Status, success, eof, eagain, timeup}
use mod_h.Util.IQueue.{iq_empty, iq_add, iq_shift}
use mod_h.Mplx.{
  Task, Entry, Mplx, lookup, without, put_entry, check_data_for, stream_joined, register_if_needed,
}

-- The highest id that has started.
abbrev pub raise_started : Mplx → ℕ → Mplx
raise_started m id = record m {
  max_stream_started = if ltb m.max_stream_started id then id else m.max_stream_started;
}

abbrev pub with_task : Entry → Task → Entry
with_task e t = record e { task = some t }

-- h2_task_create may fail to make a task.
unfoldable pub start_new : Mplx → Entry → Option Task → Mplx × Option ℕ
start_new m e none = (m, none)
start_new m e (some t) = (
  record m { streams = put_entry (with_task e t) m.streams; tasks_active = suc m.tasks_active },
  some e.id,
)

-- What is started for a stream: its id, unless the task could not be created. A stream that is
-- started again has its task.
unfoldable pub start : (ℕ → Option Task) → Mplx → Entry → Mplx × Option ℕ
start create m e = elim e.task [
  | none ↦ start_new (raise_started m e.id) e (create e.id)
  | some t ↦ (record m { tasks_active = suc m.tasks_active }, some e.id)
]

-- The loop over the queue; each round takes an id out, so that its number of entries is enough.
unfoldable pub next_rounds : (ℕ → Option Task) → ℕ → Mplx → Mplx × Option ℕ
next_rounds create zero m = (m, none)
next_rounds create (suc fuel) m =
    let (q', sid) = iq_shift m.q in
    let m1 = record m { q = q' } in
    let rest = next_rounds create fuel m1 in
    if m.aborted || leb m.limit_active m.tasks_active
    then (m, none)
    else if sid == 0
    then (m1, none)
    else elim (lookup sid m.streams) [ none ↦ rest | some e ↦ start create m1 e ]

unfoldable pub next_stream_task : (ℕ → Option Task) → Mplx → Mplx × Option ℕ
next_stream_task create m = next_rounds create (suc m.q.nelts) m

-- What a worker gets.
abbrev pub given : Option ℕ → Bool
given none = false
given (some id) = true

unfoldable pub h2_mplx_pop_task : (ℕ → Option Task) → Mplx → Status × Mplx × Option ℕ
h2_mplx_pop_task create m =
    let (m1, next) = next_stream_task create m in
    let rv = if given next && not (iq_empty m1.q) then eagain else success in
    if m.aborted
    then (eof, record m { is_registered = false }, none)
    else if given next && not (iq_empty m1.q)
    then (rv, m1, next)
    else (rv, record m1 { is_registered = false }, next)

-- A task that ended without an idle block since it started lets the connection have more workers.
unfoldable pub raise_limit : ℕ → ℕ → Mplx → Mplx
raise_limit now started_at m =
    if ltb m.last_idle_block started_at
      && (leb m.limit_change_interval (now - m.last_limit_change)
          && ltb m.limit_active m.max_active)
    then record m { limit_active = min (m.limit_active * 2) m.max_active; last_limit_change = now }
    else m

abbrev pub ended : Entry → Task → Entry
ended e t = with_task e (record t { worker_done = true; done_done = true })

-- The end of the task `t` of a stream that is not cleaned up.
unfoldable pub done_open : Mplx → Entry → Task → Mplx
done_open m e t =
    if not m.aborted && is_elem e.id m.sredo
    then record m {
      streams = put_entry (with_task e (record t { worker_done = false })) m.streams;
      sredo = remove_first e.id m.sredo;
      q = (iq_add m.q e.id none).0;
    }
    else check_data_for (record m { streams = put_entry (ended e t) m.streams }) e.id

-- The end of the task `t` of a stream that is held.
unfoldable pub done_held : Mplx → Entry → Task → Option Mplx
done_held m e t = stream_joined (record m { shold = put_entry (ended e t) m.shold }) (ended e t)

-- The task is that of the stream with the id, which the caller holds; it has ended `now`.
unfoldable pub task_done : ℕ → Mplx → ℕ → Task → Option Mplx
task_done now m id t =
    let raised = raise_limit now t.started_at m in
    if t.done_done then none else elim (lookup id m.streams) [
      | some e ↦ some (done_open (raise_limit now t.started_at (check_data_for m id)) e t)
      | none ↦ elim (lookup id m.shold) [ none ↦ none | some e ↦ done_held raised e t ]
    ]

-- With `again` the caller wants another task.
unfoldable pub h2_mplx_task_done :
    (ℕ → Option Task) → Status → ℕ → Bool → Mplx → ℕ → Task → Option (Mplx × Option ℕ)
h2_mplx_task_done create answer now again m id t = elim (task_done now m id t) [
  | none ↦ none
  | some m1 ↦
      let m2 = record m1 { tasks_active = m1.tasks_active - 1 } in
      let (m3, next) = if again then next_stream_task create m2 else (m2, none) in
      some (register_if_needed answer m3, next)
]

-- The stream that started last, of those that hold a worker, have not answered and can be redone.
unfoldable pub latest : List ℕ → Option (ℕ × ℕ) → List Entry → Option (ℕ × ℕ)
latest sredo best [] = best
latest sredo best (e ∷ es) = latest sredo (better e.task) es
  where
    later : Option (ℕ × ℕ) → ℕ → Bool
    later none at = true
    later (some b) at = ltb b.1 at

    better : Option Task → Option (ℕ × ℕ)
    better none = best
    better (some t) =
        if not t.worker_done
          && (t.can_redo && (not (is_elem e.id sredo) && not e.is_ready))
          && later best t.started_at
        then some (e.id, t.started_at)
        else best

-- The loop that marks `n` tasks to be redone, as far as there are any.
unfoldable pub mark_redo : ℕ → Mplx → Mplx
mark_redo zero m = m
mark_redo (suc n) m = elim (latest m.sredo none m.streams) [
  | none ↦ m
  | some b ↦ mark_redo n (record m { sredo = b.0 ∷ m.sredo })
]

unfoldable pub timed_out : ℕ → List Entry → Bool
timed_out now [] = false
timed_out now (e ∷ es) =
    let rest = timed_out now es in
    elim e.task [
      | none ↦ rest
      | some t ↦ if not t.worker_done && ltb t.timeout (now - t.started_at) then true else rest
    ]

unfoldable pub unschedule_slow_tasks : ℕ → Mplx → Status × Mplx
unschedule_slow_tasks now m =
    let m1 = mark_redo (m.tasks_active - m.limit_active - length m.sredo) m in
    if ltb m1.limit_active ((m1.tasks_active + 2 ^ 64 - length m1.sredo) % 2 ^ 64)
      && timed_out now m1.streams
    then (timeup, m1)
    else (success, m1)

-- The steps down of the limit.
unfoldable pub lower : ℕ → ℕ
lower l =
    if ltb 16 l then 16 else if ltb 8 l then 8 else if ltb 4 l then 4 else if ltb 2 l then 2 else l

unfoldable pub lower_limit : ℕ → Mplx → Mplx
lower_limit now m =
    if ltb 2 m.limit_active && leb m.limit_change_interval (now - m.last_limit_change)
    then record m { limit_active = lower m.limit_active; last_limit_change = now }
    else m

-- With no task and nothing queued: the first stream is made ready once, if it has an output.
unfoldable pub idle_first : Mplx → List Entry → Status × Mplx
idle_first m [] = (success, m)
idle_first m (e ∷ es) =
    if e.has_output && not e.out_checked
    then (
      eagain,
      check_data_for
          (record m {
            streams = put_entry (record e { out_checked = true }) (without e.id m.streams);
          })
          e.id,
    )
    else (success, record m { streams = put_entry e (without e.id m.streams) })

unfoldable pub idle_status : ℕ → Mplx → Status × Mplx
idle_status now m =
    let limited = lower_limit now (record m { last_idle_block = now }) in
    if length m.streams == 0
    then (success, m)
    else if not (m.tasks_active == 0)
    then if ltb limited.limit_active limited.tasks_active
      then unschedule_slow_tasks now limited
      else (success, limited)
    else if not (iq_empty m.q)
    then (eagain, m)
    else idle_first m m.streams

unfoldable pub h2_mplx_idle : Status → ℕ → Mplx → Status × Mplx
h2_mplx_idle answer now m =
    let (status, m1) = idle_status now m in (status, register_if_needed answer m1)
