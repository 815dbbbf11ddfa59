-- ===== src/Mplx/Cases.antt =====
-- What is to be shown of an operation of mod_http2/h2_mplx.c for a predicate to hold behind it.
use mod_h.Prelude.{
  ℕ, zero, suc, ◌+◌, ◌-◌, ◌%◌, ◌^◌, ◌<◌, ◌≡◌, Bool, true, false, not, ◌&&◌, ◌||◌, Option, none,
  some, ◌∷◌, if◌then◌else◌, ltb, leb, ◌==◌, arith, length, remove_first, if-both,
}
use mod_h.Apr.{Status, success, timeup, eagain, econnaborted, eof}
use mod_h.Util.IQueue.{IQueue, Cmp, iq_add, iq_remove, iq_shift, iq_empty}
use mod_h.Mplx.{
  Task, Entry, Mplx, lookup, check_data_for, stream_joined, stream_cleanup, register_if_needed,
  h2_mplx_process, not_done, without, put_entry,
}
use mod_h.Mplx.Schedule.{
  start, next_rounds, next_stream_task, h2_mplx_pop_task, raise_limit, done_open, done_held,
  task_done, h2_mplx_task_done, mark_redo, unschedule_slow_tasks, lower_limit, idle_first,
  idle_status, latest, timed_out, given,
}
use mod_h.Mplx.Run.{state_of, Unless}

below : (a : Bool) (l t : ℕ) → (a || leb l t) ≡ false → t < l
below a l t h = ground (arith, h)

module _ (P : Mplx → Type 0) where
  pub next_rounds_cases :
      (create : ℕ → Option Task) (fuel : ℕ) (m : Mplx)
      → ((m : Mplx) (q : IQueue) → P m → P (record m { q = q }))
      → ((m : Mplx) (e : Entry) → P m → m.tasks_active < m.limit_active → P (start create m e).0)
      → P m
      → P (next_rounds create fuel m).0
  unfolding next_rounds
  next_rounds_cases create zero m queued started p = p
  next_rounds_cases create (suc fuel) m queued started p =
      step (next_rounds_cases create fuel m1 queued started p1)
    where
      m1 : Mplx
      m1 = record m { q = (iq_shift m.q).0 }

      p1 : P (record m { q = (iq_shift m.q).0 })
      p1 = queued m (iq_shift m.q).0 p

      Good : Mplx × Option ℕ → Type 0
      Good x = P x.0

      found : Option Entry → Mplx × Option ℕ
      found none = next_rounds create fuel m1
      found (some e) = start create m1 e

      step : P (next_rounds create fuel m1).0 → P (next_rounds create (suc fuel) m).0
      step rest =
          if-both Good (m.aborted || leb m.limit_active m.tasks_active) (m, none)
            (if (iq_shift m.q).1 == 0
              then (m1, none)
              else found (lookup (iq_shift m.q).1 m.streams))
            (λ t. p)
            (λ f.
              if-both Good ((iq_shift m.q).1 == 0) (m1, none)
                (found (lookup (iq_shift m.q).1 m.streams)) (λ t. p1)
                (λ g. elim (lookup (iq_shift m.q).1 m.streams) as (λ o. Good (found o)) [
                  | none ↦ rest
                  | some e ↦ started m1 e p1 (below m.aborted m.limit_active m.tasks_active f)
                ]))

  pub mark_redo_cases :
      (n : ℕ) (m : Mplx)
      → ((m : Mplx) (sid : ℕ) → P m → P (record m { sredo = sid ∷ m.sredo }))
      → P m
      → P (mark_redo n m)
  unfolding mark_redo
  mark_redo_cases zero m marked p = p
  mark_redo_cases (suc n) m marked p =
      step (latest m.sredo none m.streams)
        (λ sid. mark_redo_cases n (record m { sredo = sid ∷ m.sredo }) marked (marked m sid p))
    where
      marks : Option (ℕ × ℕ) → Mplx
      marks none = m
      marks (some b) = mark_redo n (record m { sredo = b.0 ∷ m.sredo })

      step :
          (o : Option (ℕ × ℕ))
          → ((sid : ℕ) → P (mark_redo n (record m { sredo = sid ∷ m.sredo })))
          → P (marks o)
      step none k = p
      step (some b) k = k b.0

  pub unschedule_cases :
      (now : ℕ) (m : Mplx)
      → ((m : Mplx) (sid : ℕ) → P m → P (record m { sredo = sid ∷ m.sredo }))
      → P m
      → P (unschedule_slow_tasks now m).1
  unfolding unschedule_slow_tasks
  unschedule_cases now m marked p =
      if-both (λ (x : Status × Mplx). P x.1)
        (ltb m1.limit_active ((m1.tasks_active + 2 ^ 64 - length m1.sredo) % 2 ^ 64)
          && timed_out now m1.streams)
        (timeup, m1) (success, m1) (λ t. good) (λ f. good)
    where
      count : ℕ
      count = m.tasks_active - m.limit_active - length m.sredo

      m1 : Mplx
      m1 = mark_redo count m

      good : P (mark_redo count m)
      good = mark_redo_cases count m marked p

  pub idle_status_cases :
      (now : ℕ) (m : Mplx)
      → P m
      → P (lower_limit now (record m { last_idle_block = now }))
      → P (unschedule_slow_tasks now (lower_limit now (record m { last_idle_block = now }))).1
      → P (idle_first m m.streams).1
      → P (idle_status now m).1
  unfolding idle_status
  idle_status_cases now m p low slow first =
      if-both Good (length m.streams == 0) (success, m)
        (if not (m.tasks_active == 0) then working else waiting) (λ t. p)
        (λ f.
          if-both Good (not (m.tasks_active == 0)) working waiting
            (λ t.
              if-both Good (ltb limited.limit_active limited.tasks_active)
                (unschedule_slow_tasks now limited) (success, limited) (λ u. slow) (λ u. low))
            (λ t.
              if-both Good (not (iq_empty m.q)) (eagain, m) (idle_first m m.streams) (λ u. p)
                (λ u. first)))
    where
      Good : Status × Mplx → Type 0
      Good x = P x.1

      limited : Mplx
      limited = lower_limit now (record m { last_idle_block = now })

      working : Status × Mplx
      working =
          if ltb limited.limit_active limited.tasks_active
          then unschedule_slow_tasks now limited
          else (success, limited)

      waiting : Status × Mplx
      waiting = if not (iq_empty m.q) then (eagain, m) else idle_first m m.streams

  pub process_cases :
      (answer : Status) (cmp : Option Cmp) (m : Mplx) (e : Entry)
      → P m
      → P (check_data_for (record m { streams = put_entry e m.streams }) e.id)
      → P (
          register_if_needed answer
            (record m { streams = put_entry e m.streams; q = (iq_add m.q e.id cmp).0 }))
      → P (h2_mplx_process answer cmp m e).1
  unfolding h2_mplx_process
  process_cases answer cmp m e p ready queued =
      if-both Good m.aborted (econnaborted, m) (if e.is_ready then now else later) (λ t. p)
        (λ f. if-both Good e.is_ready now later (λ t. ready) (λ g. queued))
    where
      Good : Status × Mplx → Type 0
      Good x = P x.1

      now : Status × Mplx
      now = (success, check_data_for (record m { streams = put_entry e m.streams }) e.id)

      later : Status × Mplx
      later = (
        success,
        register_if_needed answer
            (record m { streams = put_entry e m.streams; q = (iq_add m.q e.id cmp).0 }),
      )

  pub task_done_cases :
      (now : ℕ) (m : Mplx) (id : ℕ) (t : Task)
      → ((e : Entry) → P (done_open (raise_limit now t.started_at (check_data_for m id)) e t))
      → ((e : Entry) → Unless P (done_held (raise_limit now t.started_at m) e t))
      → Unless P (task_done now m id t)
  unfolding task_done
  task_done_cases now m id t opened held =
      if-both (Unless P) t.done_done none (first (lookup id m.streams)) (λ u. tt)
        (λ u. elim (lookup id m.streams) as (λ o. Unless P (first o)) [
          | some e ↦ opened e
          | none ↦ elim (lookup id m.shold) as (λ o. Unless P (joined o)) [
            | none ↦ tt
            | some e ↦ held e
          ]
        ])
    where
      joined : Option Entry → Option Mplx
      joined none = none
      joined (some e) = done_held (raise_limit now t.started_at m) e t

      first : Option Entry → Option Mplx
      first (some e) = some (done_open (raise_limit now t.started_at (check_data_for m id)) e t)
      first none = joined (lookup id m.shold)

  pub finish_cases :
      (create : ℕ → Option Task) (answer : Status) (now : ℕ) (again : Bool) (m : Mplx) (id : ℕ)
      (t : Task)
      → ((m : Mplx) → P m → P (record m { tasks_active = m.tasks_active - 1 }))
      → ((m : Mplx) → P m → P (next_stream_task create m).0)
      → ((m : Mplx) → P m → P (register_if_needed answer m))
      → Unless P (task_done now m id t)
      → Unless P (state_of (h2_mplx_task_done create answer now again m id t))
  unfolding h2_mplx_task_done
  finish_cases create answer now again m id t fewer another registered u =
      done (task_done now m id t) u
    where
      after : Mplx → Mplx × Option ℕ
      after m2 = if again then next_stream_task create m2 else (m2, none)

      then_next : Option Mplx → Option (Mplx × Option ℕ)
      then_next none = none
      then_next (some m1) =
          let x = after (record m1 { tasks_active = m1.tasks_active - 1 }) in
          some (register_if_needed answer x.0, x.1)

      after_both : (m2 : Mplx) → P m2 → P (after m2).0
      after_both m2 p =
          if-both (λ (x : Mplx × Option ℕ). P x.0) again (next_stream_task create m2) (m2, none)
            (λ t. another m2 p) (λ f. p)

      done : (o : Option Mplx) → Unless P o → Unless P (state_of (then_next o))
      done none v = tt
      done (some m1) v =
          let m2 : Mplx = record m1 { tasks_active = m1.tasks_active - 1 } in
          registered (after m2).0 (after_both m2 (fewer m1 v))

  pub pop_cases :
      (create : ℕ → Option Task) (m : Mplx)
      → ((m : Mplx) → P m → P (record m { is_registered = false }))
      → P (next_stream_task create m).0
      → P m
      → P (h2_mplx_pop_task create m).1
  unfolding h2_mplx_pop_task
  pop_cases create m freed next p =
      if-both Good m.aborted aborted (if more then (rv, m1, sid) else ended) (λ t. freed m p)
        (λ f. if-both Good more (rv, m1, sid) ended (λ t. next) (λ g. freed m1 next))
    where
      m1 : Mplx
      m1 = (next_stream_task create m).0

      sid : Option ℕ
      sid = (next_stream_task create m).1

      more : Bool
      more = given sid && not (iq_empty m1.q)

      rv : Status
      rv = if more then eagain else success

      Good : Status × Mplx × Option ℕ → Type 0
      Good x = P x.1

      aborted : Status × Mplx × Option ℕ
      aborted = (eof, record m { is_registered = false }, none)

      ended : Status × Mplx × Option ℕ
      ended = (rv, record m1 { is_registered = false }, sid)

-- Behind a cleanup the stream is held, or joined at once when no worker has its task.
pub cleanup_cases :
    (P : Mplx → Type 0) (m : Mplx) (e : Entry)
    → (let held = record m {
      streams = without e.id m.streams;
      q = (iq_remove m.q e.id).0;
      readyq = remove_first e.id m.readyq;
      shold = put_entry e m.shold;
    } in
        (not_done e.task ≡ true → P held)
        → Unless P (stream_joined held e)
        → Unless P (stream_cleanup m e))
unfolding stream_cleanup
cleanup_cases P m e h j =
    if-both (Unless P) (not e.in_cleanup) none
      (if not_done e.task then some held else stream_joined held e) (λ t. tt)
      (λ f. if-both (Unless P) (not_done e.task) (some held) (stream_joined held e) h (λ g. j))
  where
    held : Mplx
    held = record m {
      streams = without e.id m.streams;
      q = (iq_remove m.q e.id).0;
      readyq = remove_first e.id m.readyq;
      shold = put_entry e m.shold;
    }
