-- ===== src/Util/Fifo.antt =====
-- h2_fifo of mod_http2/h2_util.c: a bounded queue that threads share, over the type of its elements
-- and their comparison. h2_fifo holds pointers; IFifo has the same code over integers.
--
-- An operation is what one thread does while it holds the lock: up to its return, or up to a wait on
-- a condition variable, where another thread may get the lock. What a thread does when it wakes is
-- a function of its own (`push_loop`, `pull_head`). `lock` is what apr_thread_mutex_lock returns.
pub mod View
pub mod Ops
pub mod Remove
pub mod Threads
use mod_h.Prelude.{
  ℕ, zero, suc, ◌+◌, ◌-◌, ◌%◌, Bool, true, false, not, Option, none, some, List, [], ◌∷◌, get_or,
  ◌++◌, set, replicate, if◌then◌else◌, ◌==◌, ltb, ◌&&◌,
}
use mod_h.Apr.{Status, success, eof, eagain, eexist, enomem, is_success}

pub record Fifo (A : Type 0) : Type 0 where
  pub elems : List A
  pub nelems : ℕ
  pub as_set : Bool
  pub head : ℕ
  pub count : ℕ
  pub aborted : Bool

-- How an operation ends: it returns, it waits for a condition, or an ap_assert fails.
pub data Outcome : Type 0 where
  returned : Status → Outcome
  waits asserts : Outcome

-- The condition variables that get a broadcast.
pub data Signal : Type 0 where
  not_empty not_full : Signal

-- h2_fifo_op_t.
pub data FifoOp : Type 0 where
  op_pull op_repush : FifoOp

-- What the calls of create_int return: the allocations succeed, and the statuses.
pub record Resources : Type 0 where
  pub fifo_alloc : Bool
  pub mutex : Status
  pub cond_empty : Status
  pub cond_full : Status
  pub elems_alloc : Bool

module _ {A : Type 0} where
  unfoldable pub nth_index : Fifo A → ℕ → ℕ
  nth_index fifo n = (fifo.head + n) % fifo.nelems

  unfoldable pub h2_fifo_count : Fifo A → ℕ
  h2_fifo_count fifo = fifo.count

  unfoldable pub check_not_empty : Fifo A → Bool → Outcome
  check_not_empty fifo block =
      if fifo.count == 0
      then if not block then returned eagain else if fifo.aborted then returned eof else waits
      else returned success

  unfoldable pub h2_fifo_term : Status → Fifo A → Fifo A × Status
  h2_fifo_term lock fifo =
      if is_success lock then (record fifo { aborted = true }, lock) else (fifo, lock)

  -- The waiting threads are woken, and nothing changes.
  unfoldable pub h2_fifo_interrupt : Status → Fifo A → List Signal × Status
  h2_fifo_interrupt lock fifo =
      if is_success lock then (not_empty ∷ not_full ∷ [], lock) else ([], lock)

-- `nil` is what apr_pcalloc fills the array with.
module _ {A : Type 0} (nil : A) where
  unfoldable pub create_int : Resources → ℕ → Bool → Option (Fifo A) × Status
  create_int got capacity set =
      if not got.fifo_alloc
      then (none, enomem)
      else if not (is_success got.mutex)
      then (none, got.mutex)
      else if not (is_success got.cond_empty)
      then (none, got.cond_empty)
      else if not (is_success got.cond_full)
      then (none, got.cond_full)
      else if not got.elems_alloc
      then (none, enomem)
      else (
        some (record {
          elems = replicate capacity nil;
          nelems = capacity;
          as_set = set;
          head = 0;
          count = 0;
          aborted = false;
        }),
        success,
      )

  unfoldable pub h2_fifo_create : Resources → ℕ → Option (Fifo A) × Status
  unfolding create_int
  h2_fifo_create got capacity = create_int got capacity false

  unfoldable pub h2_fifo_set_create : Resources → ℕ → Option (Fifo A) × Status
  unfolding create_int
  h2_fifo_set_create got capacity = create_int got capacity true

  -- The end of pull_head, on a queue that is not empty.
  unfoldable pub take_head : Fifo A → Fifo A × List Signal × A
  unfolding nth_index
  take_head fifo =
      let left = record fifo { count = fifo.count - 1 } in
      if ltb 0 left.count
      then (
        record left { head = nth_index left 1 },
        if suc left.count == left.nelems then not_full ∷ [] else [],
        get_or fifo.elems fifo.head nil,
      )
      else (left, [], get_or fifo.elems fifo.head nil)

  -- A thread that wakes from its wait begins here again.
  unfoldable pub pull_head : Fifo A → Bool → Fifo A × Outcome × List Signal × A
  unfolding check_not_empty take_head
  pull_head fifo block = after (check_not_empty fifo block)
    where
      after : Outcome → Fifo A × Outcome × List Signal × A
      after (returned rv) =
          if is_success rv
          then (let (left, signals, elem) = take_head fifo in
              (left, returned success, signals, elem))
          else (fifo, returned rv, [], nil)
      after o = (fifo, o, [], nil)

  unfoldable pub fifo_pull : Status → Fifo A → Bool → Fifo A × Outcome × List Signal × A
  unfolding pull_head
  fifo_pull lock fifo block =
      if fifo.aborted
      then (fifo, returned eof, [], nil)
      else if is_success lock
      then pull_head fifo block
      else (fifo, returned lock, [], nil)

  unfoldable pub h2_fifo_pull : Status → Fifo A → Fifo A × Outcome × List Signal × A
  unfolding fifo_pull
  h2_fifo_pull lock fifo = fifo_pull lock fifo true

  unfoldable pub h2_fifo_try_pull : Status → Fifo A → Fifo A × Outcome × List Signal × A
  unfolding fifo_pull
  h2_fifo_try_pull lock fifo = fifo_pull lock fifo false

  module _ (same : A → A → Bool) where
    -- The loop of index_of from `i` on, with `k` elements to come; -1 is `none`.
    unfoldable pub index_from : Fifo A → A → ℕ → ℕ → Option ℕ
    index_from fifo elem i zero = none
    index_from fifo elem i (suc k) =
        let rest = index_from fifo elem (suc i) k in
        if same elem (get_or fifo.elems (nth_index fifo i) nil) then some i else rest

    unfoldable pub index_of : Fifo A → A → Option ℕ
    unfolding index_from
    index_of fifo elem = index_from fifo elem 0 fifo.count

    abbrev pub is_index : Option ℕ → Bool
    is_index none = false
    is_index (some i) = true

    -- The end of fifo_push_int.
    unfoldable pub store : Fifo A → A → Fifo A × Outcome × List Signal
    store fifo elem = if not (ltb fifo.count fifo.nelems) then (fifo, asserts, []) else (
      record fifo {
        elems = set fifo.elems (nth_index fifo fifo.count) elem;
        count = suc fifo.count;
      },
      returned success,
      if fifo.count == 0 then not_empty ∷ [] else [],
    )

    -- The loop of fifo_push_int and what follows. A thread that wakes begins here again.
    unfoldable pub push_loop : Fifo A → A → Fifo A × Outcome × List Signal
    unfolding store
    push_loop fifo elem =
        if fifo.count == fifo.nelems
        then if fifo.aborted then (fifo, returned eof, []) else (fifo, waits, [])
        else store fifo elem

    unfoldable pub fifo_push_int : Fifo A → A → Bool → Fifo A × Outcome × List Signal
    unfolding push_loop index_of
    fifo_push_int fifo elem block =
        if fifo.aborted
        then (fifo, returned eof, [])
        else if fifo.as_set && is_index (index_of fifo elem)
        then (fifo, returned eexist, [])
        else if fifo.count == fifo.nelems && not block
        then (fifo, returned eagain, [])
        else push_loop fifo elem

    unfoldable pub fifo_push : Status → Fifo A → A → Bool → Fifo A × Outcome × List Signal
    unfolding fifo_push_int
    fifo_push lock fifo elem block =
        if fifo.aborted
        then (fifo, returned eof, [])
        else if is_success lock
        then fifo_push_int fifo elem block
        else (fifo, returned lock, [])

    unfoldable pub h2_fifo_push : Status → Fifo A → A → Fifo A × Outcome × List Signal
    unfolding fifo_push
    h2_fifo_push lock fifo elem = fifo_push lock fifo elem true

    unfoldable pub h2_fifo_try_push : Status → Fifo A → A → Fifo A × Outcome × List Signal
    unfolding fifo_push
    h2_fifo_try_push lock fifo elem = fifo_push lock fifo elem false

    -- The switch of fifo_peek over what `fn` says of the element.
    unfoldable pub peeked :
        Fifo A → A → FifoOp → List Signal → Bool → Fifo A × Outcome × List Signal
    unfolding fifo_push_int
    peeked fifo elem op_pull signals block = (fifo, returned success, signals)
    peeked fifo elem op_repush signals block =
        let (fifo', o, more) = fifo_push_int fifo elem block in (fifo', o, signals ++ more)

    unfoldable pub after_pull :
        (A → FifoOp) → Bool → Fifo A × Outcome × List Signal × A → Fifo A × Outcome × List Signal
    unfolding peeked
    after_pull fn block (left, returned success, signals, elem) =
        peeked left elem (fn elem) signals block
    after_pull fn block (left, o, signals, elem) = (left, o, signals)

    unfoldable pub fifo_peek :
        Status → Fifo A → (A → FifoOp) → Bool → Fifo A × Outcome × List Signal
    unfolding pull_head after_pull
    fifo_peek lock fifo fn block =
        if fifo.aborted
        then (fifo, returned eof, [])
        else if is_success lock
        then after_pull fn block (pull_head fifo block)
        else (fifo, returned lock, [])

    unfoldable pub h2_fifo_peek : Status → Fifo A → (A → FifoOp) → Fifo A × Outcome × List Signal
    unfolding fifo_peek
    h2_fifo_peek lock fifo fn = fifo_peek lock fifo fn true

    unfoldable pub h2_fifo_try_peek :
        Status → Fifo A → (A → FifoOp) → Fifo A × Outcome × List Signal
    unfolding fifo_peek
    h2_fifo_try_peek lock fifo fn = fifo_peek lock fifo fn false

    -- One round of the loop of h2_fifo_remove: the array and `rc`.
    unfoldable pub remove_round : Fifo A → A → ℕ → List A × ℕ → List A × ℕ
    remove_round fifo elem i (elems, rc) =
        let e = get_or elems (nth_index fifo i) nil in
        if same e elem
        then (elems, suc rc)
        else if ltb 0 rc
        then (set elems (nth_index fifo (i - rc)) e, rc)
        else (elems, rc)

    unfoldable pub remove_loop : Fifo A → A → ℕ → ℕ → List A × ℕ → List A × ℕ
    unfolding remove_round
    remove_loop fifo elem i zero r = r
    remove_loop fifo elem i (suc k) r = remove_loop fifo elem (suc i) k (remove_round fifo elem i r)

    unfoldable pub remove_locked : Fifo A → A → Fifo A × Outcome × List Signal
    unfolding remove_loop
    remove_locked fifo elem =
        let (elems, rc) = remove_loop fifo elem 0 fifo.count (fifo.elems, 0) in
        let left = record fifo { elems = elems; count = fifo.count - rc } in
        if ltb 0 rc
        then (left, returned success, if left.count + rc == left.nelems then not_full ∷ [] else [])
        else (left, returned eagain, [])

    unfoldable pub h2_fifo_remove : Status → Fifo A → A → Fifo A × Outcome × List Signal
    unfolding remove_locked
    h2_fifo_remove lock fifo elem =
        if fifo.aborted
        then (fifo, returned eof, [])
        else if is_success lock
        then remove_locked fifo elem
        else (fifo, returned lock, [])
