-- ===== src/Mplx/Limits.antt =====
-- How many workers a connection may hold: mod_http2/h2_mplx.c.
use mod_h.Prelude.{
  ℕ, suc, ◌≤◌, ◌<◌, ◌≡◌, refl, Option, none, some, List, [], ◌∷◌, if◌then◌else◌, leb, arith,
  if-both, remove_first,
}
use mod_h.Apr.{Status}
use mod_h.Util.IQueue.{iq_add, iq_remove}
use mod_h.Mplx.{
  Task, Entry, Mplx, check_data_for, stream_joined, h2_mplx_shutdown, purge_streams,
  register_if_needed, h2_mplx_reprioritize, h2_mplx_dispatch_master_events, not_done, without,
  put_entry,
}
use mod_h.Mplx.Schedule.{
  raise_started, start, start_new, next_stream_task, raise_limit, done_open, done_held, ended,
  lower, lower_limit, idle_first, idle_status, h2_mplx_idle, task_done,
}
use mod_h.Mplx.Run.{
  Op, process, reprioritize, cleanup, shutdown, pop, finish, idle, dispatch, run, runs, Unless,
  runs-Unless,
}
use mod_h.Mplx.Cases.{
  next_rounds_cases, unschedule_cases, idle_status_cases, process_cases, task_done_cases,
  finish_cases, pop_cases, cleanup_cases,
}

-- The most workers that a connection gets: the limit for all, but six to begin with.
abbrev pub cap : Mplx → ℕ
cap m = if leb 6 m.max_active then m.max_active else 6

-- The dynamic limit stays in its range, and no more tasks run than it ever allowed.
pub record InRange (m : Mplx) : Type 0 where
  pub least : 2 ≤ m.limit_active
  pub most : m.limit_active ≤ cap m
  pub running : m.tasks_active ≤ cap m

-- What leaves the limits and the number of tasks.
pub record Same (m x : Mplx) : Type 0 where
  pub limit : x.limit_active ≡ m.limit_active
  pub max : x.max_active ≡ m.max_active
  pub active : x.tasks_active ≡ m.tasks_active

Same-InRange : (m x : Mplx) → Same m x → InRange m → InRange x
Same-InRange m x s r = record {
  least = omega (arith, s.limit, r.least);
  most = ground (arith, s.limit, s.max, r.most);
  running = ground (arith, s.active, s.max, r.running);
}

check_data_for-Same : (m : Mplx) (id : ℕ) → Same m (check_data_for m id)
unfolding check_data_for
check_data_for-Same m id = record {
  limit = ground arith;
  max = ground arith;
  active = ground arith;
}

register-Same : (answer : Status) (m : Mplx) → Same m (register_if_needed answer m)
unfolding register_if_needed
register-Same answer m = record { limit = ground arith; max = ground arith; active = ground arith }

-- A task starts only below the limit.
one_more-InRange :
    (m x : Mplx)
    → x.limit_active ≡ m.limit_active
    → x.max_active ≡ m.max_active
    → x.tasks_active ≡ suc m.tasks_active
    → InRange m
    → m.tasks_active < m.limit_active
    → InRange x
one_more-InRange m x a b c r l = record {
  least = omega (arith, a, r.least);
  most = ground (arith, a, b, r.most);
  running = ground (arith, a, b, c, l, r.most);
}

start_new-InRange :
    (m : Mplx) (e : Entry) (o : Option Task)
    → InRange m
    → m.tasks_active < m.limit_active
    → InRange (start_new m e o).0
unfolding start_new
start_new-InRange m e none r l = r
start_new-InRange m e (some t) r l =
    one_more-InRange m (start_new m e (some t)).0 refl refl refl r l

start-InRange :
    (create : ℕ → Option Task) (m : Mplx) (e : Entry)
    → InRange m
    → m.tasks_active < m.limit_active
    → InRange (start create m e).0
unfolding start
start-InRange create m e r l = elim e.task as (λ o. InRange (chosen o).0) [
  | none ↦
      start_new-InRange raised e (create e.id)
        (Same-InRange m raised record { limit = refl; max = refl; active = refl } r) l
  | some t ↦ one_more-InRange m (chosen (some t)).0 refl refl refl r l
]
  where
    raised : Mplx
    raised = raise_started m e.id

    chosen : Option Task → Mplx × Option ℕ
    chosen none = start_new raised e (create e.id)
    chosen (some t) = (record m { tasks_active = suc m.tasks_active }, some e.id)

raise_limit-InRange : (now at : ℕ) (m : Mplx) → InRange m → InRange (raise_limit now at m)
unfolding raise_limit
raise_limit-InRange now at m r = record {
  least = ground (arith, r.least);
  most = ground (arith, r.most);
  running = ground (arith, r.running);
}

lower_limit-InRange : (now : ℕ) (m : Mplx) → InRange m → InRange (lower_limit now m)
unfolding lower_limit lower
lower_limit-InRange now m r = record {
  least = ground (arith, r.least);
  most = ground (arith, r.most, r.least);
  running = ground (arith, r.running);
}

done_open-Same : (m : Mplx) (e : Entry) (t : Task) → Same m (done_open m e t)
unfolding done_open check_data_for
done_open-Same m e t = record { limit = ground arith; max = ground arith; active = ground arith }

stream_joined-InRange : (m : Mplx) (e : Entry) → InRange m → Unless InRange (stream_joined m e)
unfolding stream_joined
stream_joined-InRange m e r =
    if-both (Unless InRange) (not_done e.task) none
      (some (record m { shold = without e.id m.shold; spurge = put_entry e m.spurge })) (λ t. tt)
      (λ f. record { least = r.least; most = r.most; running = r.running })

done_held-InRange : (m : Mplx) (e : Entry) (t : Task) → InRange m → Unless InRange (done_held m e t)
unfolding done_held
done_held-InRange m e t r =
    stream_joined-InRange (record m { shold = put_entry (ended e t) m.shold }) (ended e t)
      record { least = r.least; most = r.most; running = r.running }

idle_first-Same : (m : Mplx) (es : List Entry) → Same m (idle_first m es).1
unfolding idle_first check_data_for
idle_first-Same m [] = record { limit = refl; max = refl; active = refl }
idle_first-Same m (e ∷ es) = record {
  limit = ground arith;
  max = ground arith;
  active = ground arith;
}

next_task-InRange :
    (create : ℕ → Option Task) (m : Mplx) → InRange m → InRange (next_stream_task create m).0
unfolding next_stream_task
next_task-InRange create m r =
    next_rounds_cases InRange create (suc m.q.nelts) m
      (λ m q p. record { least = p.least; most = p.most; running = p.running })
      (λ m e p l. start-InRange create m e p l) r

register-InRange : (answer : Status) (m : Mplx) → InRange m → InRange (register_if_needed answer m)
register-InRange answer m r =
    Same-InRange m (register_if_needed answer m) (register-Same answer m) r

check-InRange : (m : Mplx) (id : ℕ) → InRange m → InRange (check_data_for m id)
check-InRange m id r = Same-InRange m (check_data_for m id) (check_data_for-Same m id) r

idle_first-InRange : (m : Mplx) (es : List Entry) → InRange m → InRange (idle_first m es).1
idle_first-InRange m es r = Same-InRange m (idle_first m es).1 (idle_first-Same m es) r

task_done-InRange :
    (now : ℕ) (m : Mplx) (id : ℕ) (t : Task) → InRange m → Unless InRange (task_done now m id t)
task_done-InRange now m id t r =
    task_done_cases InRange now m id t
      (λ e.
        Same-InRange (raised (check_data_for m id)) (done_open (raised (check_data_for m id)) e t)
          (done_open-Same (raised (check_data_for m id)) e t)
          (raise_limit-InRange now t.started_at (check_data_for m id) (check-InRange m id r)))
      (λ e. done_held-InRange (raised m) e t (raise_limit-InRange now t.started_at m r))
  where
    raised : Mplx → Mplx
    raised = raise_limit now t.started_at

idle-InRange : (now : ℕ) (m : Mplx) → InRange m → InRange (idle_status now m).1
idle-InRange now m r =
    idle_status_cases InRange now m r low
      (unschedule_cases InRange now (lower_limit now seen)
        (λ m sid p. record { least = p.least; most = p.most; running = p.running }) low)
      (idle_first-InRange m m.streams r)
  where
    seen : Mplx
    seen = record m { last_idle_block = now }

    low : InRange (lower_limit now (record m { last_idle_block = now }))
    low =
        lower_limit-InRange now seen record { least = r.least; most = r.most; running = r.running }

run-InRange : (op : Op) (m : Mplx) → InRange m → Unless InRange (run op m)
unfolding run h2_mplx_shutdown h2_mplx_reprioritize h2_mplx_idle h2_mplx_dispatch_master_events
    purge_streams
run-InRange (process answer cmp e) m r =
    process_cases InRange answer cmp m e r
      (check-InRange added e.id record { least = r.least; most = r.most; running = r.running })
      (register-InRange answer (record added { q = (iq_add m.q e.id cmp).0 })
        record { least = r.least; most = r.most; running = r.running })
  where
    added : Mplx
    added = record m { streams = put_entry e m.streams }
run-InRange (reprioritize cmp) m r = record {
  least = ground (arith, r.least);
  most = ground (arith, r.most);
  running = ground (arith, r.running);
}
run-InRange (cleanup e) m r =
    cleanup_cases InRange m e (λ t. record { least = r.least; most = r.most; running = r.running })
      (stream_joined-InRange
        (record m {
          streams = without e.id m.streams;
          q = (iq_remove m.q e.id).0;
          readyq = remove_first e.id m.readyq;
          shold = put_entry e m.shold;
        })
        e record { least = r.least; most = r.most; running = r.running })
run-InRange shutdown m r = record { least = r.least; most = r.most; running = r.running }
run-InRange (pop create) m r =
    pop_cases InRange create m
      (λ m p. record { least = p.least; most = p.most; running = p.running })
      (next_task-InRange create m r) r
run-InRange (finish create answer now again id t) m r =
    finish_cases InRange create answer now again m id t
      (λ m p. record { least = p.least; most = p.most; running = omega (arith, p.running) })
      (next_task-InRange create) (register-InRange answer) (task_done-InRange now m id t r)
run-InRange (idle answer now) m r =
    register-InRange answer (idle_status now m).1 (idle-InRange now m r)
run-InRange dispatch m r = record { least = r.least; most = r.most; running = r.running }

-- Over any operations, in any order, the limit of workers stays between two and the limit for all
-- connections, or six if that is less, and no more tasks are counted as active than that, unless an
-- assertion fails. Condition: it is so at the start.
pub runs-InRange : (ops : List Op) (m : Mplx) → InRange m → Unless InRange (runs ops m)
runs-InRange ops m r = runs-Unless InRange run-InRange ops m r
