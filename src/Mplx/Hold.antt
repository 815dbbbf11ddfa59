-- ===== src/Mplx/Hold.antt =====
-- The hold and purge sets of mod_http2/h2_mplx.c, and the marks of the tasks in them.
use mod_h.Prelude.{
  ℕ, suc, ◌≡◌, refl, sym, subst, ◌∙◌, true, false, Option, none, some, List, [], ◌∷◌, ◌==◌, arith,
  All, remove_first, if-both,
}
use mod_h.Apr.{Status}
use mod_h.Util.IQueue.{iq_add, iq_remove}
use mod_h.Mplx.{
  Task, Entry, Mplx, check_data_for, stream_joined, h2_mplx_shutdown, register_if_needed,
  h2_mplx_reprioritize, h2_mplx_dispatch_master_events, purge_streams, not_done, without, put_entry,
}
use mod_h.Mplx.Schedule.{
  raise_started, start, start_new, next_stream_task, raise_limit, done_open, done_held, task_done,
  lower_limit, idle_first, idle_status, h2_mplx_idle, ended,
}
use mod_h.Mplx.Cases.{
  next_rounds_cases, unschedule_cases, idle_status_cases, process_cases, task_done_cases,
  finish_cases, pop_cases, cleanup_cases,
}
use mod_h.Mplx.Run.{
  Op, process, reprioritize, cleanup, shutdown, pop, finish, idle, dispatch, run, runs, Unless,
  runs-Unless,
}

-- The task of each stream in hold is not marked as done, and no task in the purge set is so.
pub record Held (m : Mplx) : Type 0 where
  pub hold : All (λ e. not_done e.task ≡ true) m.shold
  pub purge : All (λ e. not_done e.task ≡ false) m.spurge

-- What leaves the two sets.
record Leaves (m x : Mplx) : Type 0 where
  hold : x.shold ≡ m.shold
  purge : x.spurge ≡ m.spurge

Leaves-Held : (m x : Mplx) → Leaves m x → Held m → Held x
Leaves-Held m x l h = record {
  hold = subst (All (λ e. not_done e.task ≡ true)) (sym l.hold) h.hold;
  purge = subst (All (λ e. not_done e.task ≡ false)) (sym l.purge) h.purge;
}

Leaves-refl : (m : Mplx) → Leaves m m
Leaves-refl m = record { hold = refl; purge = refl }

Leaves-trans : (m x y : Mplx) → Leaves m x → Leaves x y → Leaves m y
Leaves-trans m x y a b = record { hold = b.hold ∙ a.hold; purge = b.purge ∙ a.purge }

module _ (P : Entry → Type 0) where
  All-put : (e : Entry) (es : List Entry) → P e → All P es → All P (put_entry e es)
  unfolding put_entry
  All-put e [] p a = (p, tt)
  All-put e (x ∷ xs) p a =
      if-both (All P) (x.id == e.id) (e ∷ xs) (x ∷ put_entry e xs) (λ t. (p, a.1))
        (λ f. (a.0, All-put e xs p a.1))

  All-without : (id : ℕ) (es : List Entry) → All P es → All P (without id es)
  unfolding without
  All-without id [] a = a
  All-without id (x ∷ xs) a =
      if-both (All P) (x.id == id) (without id xs) (x ∷ without id xs) (λ t. All-without id xs a.1)
        (λ f. (a.0, All-without id xs a.1))

  -- Putting an entry and taking it out again leaves no new one.
  All-without-put : (e : Entry) (es : List Entry) → All P es → All P (without e.id (put_entry e es))
  unfolding without put_entry
  All-without-put e [] a =
      if-both (All P) (e.id == e.id) [] (e ∷ []) (λ t. tt) (λ f. absurd (ground (arith, f)))
  All-without-put e (x ∷ xs) a =
      if-both (λ es. All P (without e.id es)) (x.id == e.id) (e ∷ xs) (x ∷ put_entry e xs)
        (λ t.
          if-both (All P) (e.id == e.id) (without e.id xs) (e ∷ without e.id xs)
            (λ u. All-without e.id xs a.1) (λ u. absurd (ground (arith, u))))
        (λ f.
          if-both (All P) (x.id == e.id) (without e.id (put_entry e xs))
            (x ∷ without e.id (put_entry e xs)) (λ u. All-without-put e xs a.1)
            (λ u. (a.0, All-without-put e xs a.1)))

start-Leaves : (create : ℕ → Option Task) (m : Mplx) (e : Entry) → Leaves m (start create m e).0
unfolding start start_new
start-Leaves create m e = elim e.task as (λ o. Leaves m (chosen o).0) [
  | none ↦ new (create e.id)
  | some t ↦ record { hold = refl; purge = refl }
]
  where
    raised : Mplx
    raised = raise_started m e.id

    chosen : Option Task → Mplx × Option ℕ
    chosen none = start_new raised e (create e.id)
    chosen (some t) = (record m { tasks_active = suc m.tasks_active }, some e.id)

    new : (o : Option Task) → Leaves m (start_new raised e o).0
    new none = record { hold = refl; purge = refl }
    new (some t) = record { hold = refl; purge = refl }

register-Leaves : (answer : Status) (m : Mplx) → Leaves m (register_if_needed answer m)
unfolding register_if_needed
register-Leaves answer m = record { hold = ground arith; purge = ground arith }

raise_limit-Leaves : (now at : ℕ) (m : Mplx) → Leaves m (raise_limit now at m)
unfolding raise_limit
raise_limit-Leaves now at m = record { hold = ground arith; purge = ground arith }

done_open-Leaves : (m : Mplx) (e : Entry) (t : Task) → Leaves m (done_open m e t)
unfolding done_open check_data_for
done_open-Leaves m e t = record { hold = ground arith; purge = ground arith }

lower_limit-Leaves : (now : ℕ) (m : Mplx) → Leaves m (lower_limit now m)
unfolding lower_limit
lower_limit-Leaves now m = record { hold = ground arith; purge = ground arith }

check-Leaves : (m : Mplx) (id : ℕ) → Leaves m (check_data_for m id)
unfolding check_data_for
check-Leaves m id = record { hold = ground arith; purge = ground arith }

idle_first-Leaves : (m : Mplx) (es : List Entry) → Leaves m (idle_first m es).1
unfolding idle_first check_data_for
idle_first-Leaves m [] = Leaves-refl m
idle_first-Leaves m (e ∷ es) = record { hold = ground arith; purge = ground arith }

-- A stream is joined out of a hold that it has just been put into, with a task that is marked done.
joined-Held :
    (m : Mplx) (e : Entry)
    → Held m
    → Unless Held (stream_joined (record m { shold = put_entry e m.shold }) e)
unfolding stream_joined
joined-Held m e h =
    if-both (Unless Held) (not_done e.task) none
      (some
        (record m { shold = without e.id (put_entry e m.shold); spurge = put_entry e m.spurge }))
      (λ t. tt)
      (λ f. record {
        hold = All-without-put (λ e. not_done e.task ≡ true) e m.shold h.hold;
        purge = All-put (λ e. not_done e.task ≡ false) e m.spurge f h.purge;
      })

same_sets-Held : (m x : Mplx) → x.shold ≡ m.shold → x.spurge ≡ m.spurge → Held m → Held x
same_sets-Held m x a b h = Leaves-Held m x record { hold = a; purge = b } h

next_task-Held : (create : ℕ → Option Task) (m : Mplx) → Held m → Held (next_stream_task create m).0
unfolding next_stream_task
next_task-Held create m h =
    next_rounds_cases Held create (suc m.q.nelts) m
      (λ m q p. record { hold = p.hold; purge = p.purge })
      (λ m e p l. Leaves-Held m (start create m e).0 (start-Leaves create m e) p) h

register-Held : (answer : Status) (m : Mplx) → Held m → Held (register_if_needed answer m)
register-Held answer m h = Leaves-Held m (register_if_needed answer m) (register-Leaves answer m) h

task_done-Held :
    (now : ℕ) (m : Mplx) (id : ℕ) (t : Task) → Held m → Unless Held (task_done now m id t)
unfolding done_held
task_done-Held now m id t h =
    task_done_cases Held now m id t
      (λ e.
        Leaves-Held m (done_open opened e t)
          (Leaves-trans m (check_data_for m id) (done_open opened e t) (check-Leaves m id) (
            Leaves-trans (check_data_for m id) opened (done_open opened e t)
              (raise_limit-Leaves now t.started_at (check_data_for m id))
              (done_open-Leaves opened e t)))
          h)
      (λ e.
        joined-Held raised (ended e t)
          (Leaves-Held m raised (raise_limit-Leaves now t.started_at m) h))
  where
    raised : Mplx
    raised = raise_limit now t.started_at m

    opened : Mplx
    opened = raise_limit now t.started_at (check_data_for m id)

idle-Held : (now : ℕ) (m : Mplx) → Held m → Held (idle_status now m).1
idle-Held now m h =
    idle_status_cases Held now m h low
      (unschedule_cases Held now (lower_limit now (record m { last_idle_block = now }))
        (λ m sid p. record { hold = p.hold; purge = p.purge }) low)
      (Leaves-Held m (idle_first m m.streams).1 (idle_first-Leaves m m.streams) h)
  where
    low : Held (lower_limit now (record m { last_idle_block = now }))
    low =
        Leaves-Held (record m { last_idle_block = now })
          (lower_limit now (record m { last_idle_block = now }))
          (lower_limit-Leaves now (record m { last_idle_block = now }))
          record { hold = h.hold; purge = h.purge }

run-Held : (op : Op) (m : Mplx) → Held m → Unless Held (run op m)
unfolding run h2_mplx_shutdown h2_mplx_reprioritize h2_mplx_idle h2_mplx_dispatch_master_events
    purge_streams
run-Held (process answer cmp e) m h =
    process_cases Held answer cmp m e h
      (Leaves-Held added (check_data_for added e.id) (check-Leaves added e.id)
        record { hold = h.hold; purge = h.purge })
      (register-Held answer (record added { q = (iq_add m.q e.id cmp).0 })
        record { hold = h.hold; purge = h.purge })
  where
    added : Mplx
    added = record m { streams = put_entry e m.streams }
run-Held (reprioritize cmp) m h =
    same_sets-Held m (h2_mplx_reprioritize cmp m).1 (ground arith) (ground arith) h
run-Held (cleanup e) m h =
    cleanup_cases Held m e
      (λ t. record {
        hold = All-put (λ e. not_done e.task ≡ true) e m.shold t h.hold;
        purge = h.purge;
      })
      (joined-Held
        (record m {
          streams = without e.id m.streams;
          q = (iq_remove m.q e.id).0;
          readyq = remove_first e.id m.readyq;
        })
        e record { hold = h.hold; purge = h.purge })
run-Held shutdown m h = record { hold = h.hold; purge = h.purge }
run-Held (pop create) m h =
    pop_cases Held create m (λ m p. record { hold = p.hold; purge = p.purge })
      (next_task-Held create m h) h
run-Held (finish create answer now again id t) m h =
    finish_cases Held create answer now again m id t
      (λ m p. record { hold = p.hold; purge = p.purge }) (next_task-Held create)
      (register-Held answer) (task_done-Held now m id t h)
run-Held (idle answer now) m h = register-Held answer (idle_status now m).1 (idle-Held now m h)
run-Held dispatch m h = record { hold = h.hold; purge = tt }

-- Over any operations, in any order, no stream that may be destroyed has a task that is not marked
-- as done (worker_done), and each stream in hold has one that is not, unless an assertion fails.
-- Condition: it is so at the start.
pub runs-Held : (ops : List Op) (m : Mplx) → Held m → Unless Held (runs ops m)
runs-Held ops m h = runs-Unless Held run-Held ops m h
