-- ===== src/Util/Fifo/Ops.antt =====
-- The operations of h2_fifo in terms of what the queue holds: mod_http2/h2_util.c.
use mod_h.Prelude.{
  ℕ, zero, suc, ◌+◌, ◌%◌, ◌<◌, ◌≡◌, refl, ap, ◌∙◌, Bool, List, [], ◌∷◌, ◌++◌, length-set, get_or,
  set, arith, Bool-cases, inl, inr, mod_lt, if◌then◌else◌, ◌||◌,
}
use native.Mathlib.Nat.{add-zero, mod-eq_of_lt, mod-mod}
use mod_h.Apr.{Status, success, eof, is_success}
use mod_h.Ring.{window, length-window, window-mod, window-set_behind}
use mod_h.Util.Fifo.{
  Fifo, Outcome, returned, waits, asserts, Signal, FifoOp, op_pull, op_repush, nth_index, take_head,
  pull_head, fifo_pull, index_from, index_of, is_index, store, push_loop, fifo_push_int, fifo_push,
  fifo_peek, after_pull, peeked, check_not_empty,
}
use mod_h.Util.Fifo.View.{view, IsValid, holds, push_list, pull_list, peek_op, peek_list}

module _ {A : Type 0} (nil : A) where
  index_from-holds :
      (same : A → A → Bool) (f : Fifo A) (a : A) (i k : ℕ)
      → is_index nil same (index_from nil same f a i k)
        ≡ holds same a (window nil f.elems f.nelems (f.head + i) k)
  unfolding index_from nth_index window
  index_from-holds same f a i zero = refl
  index_from-holds same f a i (suc k) =
      let ih = index_from-holds same f a (suc i) k in
      elim (Bool-cases (same a (get_or f.elems ((f.head + i) % f.nelems) nil))) [
        | inl e ↦ rw e refl
        | inr e ↦ rw e (ih ∙ ap (λ p. holds same a (window nil f.elems f.nelems p k)) (omega arith))
      ]

  -- index_of finds an element just when the queue holds it.
  pub index_of-holds :
      (same : A → A → Bool) (f : Fifo A) (a : A)
      → is_index nil same (index_of nil same f a) ≡ holds same a (view nil f)
  unfolding index_of
  index_of-holds same f a =
      index_from-holds same f a 0 f.count
      ∙ ap (λ p. holds same a (window nil f.elems f.nelems p f.count)) (add-zero f.head)

  -- A queue that got `a` at its end.
  abbrev pub Stored : Fifo A → A → Fifo A → Type 0
  Stored f a g =
      (view nil g ≡ view nil f ++ a ∷ [])
      × IsValid g
      × (g.nelems ≡ f.nelems)
      × (g.as_set ≡ f.as_set)
      × (g.aborted ≡ f.aborted)

  abbrev pub stored : Fifo A → A → Fifo A
  stored f a = record f {
    elems = set f.elems ((f.head + f.count) % f.nelems) a;
    count = suc f.count;
  }

  pub stored_lem : (f : Fifo A) (a : A) → IsValid f → f.count < f.nelems → Stored f a (stored f a)
  stored_lem f a v h = (
    window-set_behind nil f.elems f.nelems f.head f.count a v.sized h,
    record {
      sized = length-set f.elems ((f.head + f.count) % f.nelems) a ∙ v.sized;
      head_in = v.head_in;
      fits = omega arith;
    },
    refl,
    refl,
    refl,
  )

  -- The queue's own data, which no operation but h2_fifo_term changes.
  abbrev pub Same : Fifo A → Fifo A → Type 0
  Same f g = (g.nelems ≡ f.nelems) × (g.as_set ≡ f.as_set) × (g.aborted ≡ f.aborted)

  -- The elements, the end and the broadcasts of an operation are those of `r`, and it leaves a
  -- well-formed queue.
  abbrev pub Pushes :
      Fifo A → List A × Outcome × List Signal → Fifo A × Outcome × List Signal → Type 0
  Pushes f r s = ((view nil s.0, s.1, s.2) ≡ r) × IsValid s.0 × Same f s.0

  fifo_push_int_lem :
      (same : A → A → Bool) (f : Fifo A) (a : A) (block : Bool)
      → IsValid f
      → Pushes f
          (push_list same f.nelems f.as_set f.aborted (view nil f) a block)
          (fifo_push_int nil same f a block)
  unfolding fifo_push_int push_loop store nth_index push_list
  fifo_push_int_lem same f a block v =
      let fits = v.fits in
      ground (
        arith,
        index_of-holds same f a,
        length-window nil f.elems f.nelems f.head f.count,
        stored_lem f a v,
      )

  -- A push to a well-formed queue does what a push to the list of its elements does: behind the end
  -- of the queue's life it is refused, as is an element that a set holds; on a full queue it waits
  -- or returns APR_EAGAIN; else the element becomes the last, and threads that wait for the first
  -- element are woken. The queue stays well-formed.
  pub fifo_push_lem :
      (same : A → A → Bool) (lock : Status) (f : Fifo A) (a : A) (block : Bool)
      → IsValid f
      → Pushes f
          (if is_success lock || f.aborted
            then push_list same f.nelems f.as_set f.aborted (view nil f) a block
            else (view nil f, returned lock, []))
          (fifo_push nil same lock f a block)
  unfolding fifo_push push_list
  fifo_push_lem same lock f a block v = ground (arith, fifo_push_int_lem same f a block v, v)

  abbrev pub Pulls :
      Fifo A → List A × Outcome × List Signal × A → Fifo A × Outcome × List Signal × A → Type 0
  Pulls f r s = ((view nil s.0, s.1, s.2, s.3) ≡ r) × IsValid s.0 × Same f s.0

  around : (e : List A) (n p k : ℕ) → window nil e n ((p + 1) % n) k ≡ window nil e n (suc p) k
  around e n p k =
      window-mod nil e n ((p + 1) % n) (suc p) k (mod-mod (p + 1) n ∙ ap (λ i. i % n) (omega arith))

  abbrev fifo : List A → ℕ → Bool → ℕ → ℕ → Bool → Fifo A
  fifo e n s p k ab = record {
    elems = e;
    nelems = n;
    as_set = s;
    head = p;
    count = k;
    aborted = ab;
  }

  pulls :
      (e : List A) (n : ℕ) (s : Bool) (p k : ℕ) (ab block : Bool)
      → IsValid (fifo e n s p k ab)
      → Pulls
          (fifo e n s p k ab)
          (pull_list nil n ab (window nil e n p k) block)
          (pull_head nil (fifo e n s p k ab) block)
  unfolding pull_head take_head check_not_empty nth_index pull_list window
  pulls e n s p zero ab block v = ground (arith, v)
  pulls e n s p (suc zero) ab block v =
      let in_array = v.head_in in
      let same = mod-eq_of_lt {n = p} {m = n} (omega arith) in
      ground (arith, v, v.sized, v.fits, same)
  pulls e n s p (suc (suc k)) ab block v =
      let in_array = v.head_in in
      let same = mod-eq_of_lt {n = p} {m = n} (omega arith) in
      let fits = v.fits in
      let lt = mod_lt (p + 1) n (omega arith) in
      ground (
        arith,
        v.sized,
        fits,
        same,
        lt,
        around e n p (suc k),
        length-window nil e n (suc (suc p)) k,
      )

  pull_head_lem :
      (f : Fifo A) (block : Bool)
      → IsValid f
      → Pulls f (pull_list nil f.nelems f.aborted (view nil f) block) (pull_head nil f block)
  pull_head_lem f block v = pulls f.elems f.nelems f.as_set f.head f.count f.aborted block v

  -- A pull from a well-formed queue takes the oldest element, as from the list of its elements; on
  -- an empty queue it waits, or returns APR_EAGAIN, or APR_EOF behind the end of the queue's life.
  -- Threads that wait to push are woken when the queue was full and has elements left.
  pub fifo_pull_lem :
      (lock : Status) (f : Fifo A) (block : Bool)
      → IsValid f
      → Pulls f
          (if f.aborted
            then (view nil f, returned eof, [], nil)
            else if is_success lock
            then pull_list nil f.nelems f.aborted (view nil f) block
            else (view nil f, returned lock, [], nil))
          (fifo_pull nil lock f block)
  unfolding fifo_pull
  fifo_pull_lem lock f block v = ground (arith, pull_head_lem f block v, v)

  peeked_lem :
      (same : A → A → Bool) (g : Fifo A) (a : A) (op : FifoOp) (sig : List Signal) (block : Bool)
      → IsValid g
      → Pushes g
          (peek_op same g.nelems g.as_set g.aborted (view nil g) a op sig block)
          (peeked nil same g a op sig block)
  unfolding peeked peek_op
  peeked_lem same g a op_pull sig block v = ground (arith, v)
  peeked_lem same g a op_repush sig block v = ground (arith, fifo_push_int_lem same g a block v)

  after_pull_lem :
      (same : A → A → Bool) (g : Fifo A) (o : Outcome) (sig : List Signal) (a : A) (fn : A → FifoOp)
      (block : Bool)
      → IsValid g
      → Pushes g
          (peek_list same g.nelems g.as_set g.aborted fn block (view nil g, o, sig, a))
          (after_pull nil same fn block (g, o, sig, a))
  unfolding after_pull peek_list
  after_pull_lem same g (returned success) sig a fn block v = peeked_lem same g a (fn a) sig block v
  after_pull_lem same g (returned s) sig a fn block v = (refl, v, (refl, refl, refl))
  after_pull_lem same g waits sig a fn block v = (refl, v, (refl, refl, refl))
  after_pull_lem same g asserts sig a fn block v = (refl, v, (refl, refl, refl))

  -- A peek at a well-formed queue pulls from the list of its elements and, when the element is to be
  -- pushed again, pushes it to the list; the queue stays well-formed. Behind the end of the queue's
  -- life, or without the lock, it changes nothing.
  pub fifo_peek_lem :
      (same : A → A → Bool) (lock : Status) (f : Fifo A) (fn : A → FifoOp) (block : Bool)
      → IsValid f
      → Pushes f
          (if f.aborted
            then (view nil f, returned eof, [])
            else if is_success lock
            then peek_list same f.nelems f.as_set f.aborted fn block
                (pull_list nil f.nelems f.aborted (view nil f) block)
            else (view nil f, returned lock, []))
          (fifo_peek nil same lock f fn block)
  unfolding fifo_peek
  fifo_peek_lem same lock f fn block v = ground (arith, v, pulled)
    where
      r : Fifo A × Outcome × List Signal × A
      r = pull_head nil f block

      pulled :
          Pushes f
            (peek_list same f.nelems f.as_set f.aborted fn block
              (pull_list nil f.nelems f.aborted (view nil f) block))
            (after_pull nil same fn block r)
      pulled =
          let (e, w, (n, s, a)) = pull_head_lem f block v in
          let (e', w', (n', s', a')) = after_pull_lem same r.0 r.1 r.2 r.3 fn block w in
          (
            e'
                ∙ ap (λ q. peek_list same r.0.nelems r.0.as_set r.0.aborted fn block q) e
                ∙ ap
                    (λ m.
                      peek_list same m r.0.as_set r.0.aborted fn block
                        (pull_list nil f.nelems f.aborted (view nil f) block))
                    n
                ∙ ap
                    (λ m.
                      peek_list same f.nelems m r.0.aborted fn block
                        (pull_list nil f.nelems f.aborted (view nil f) block))
                    s
                ∙ ap
                    (λ m.
                      peek_list same f.nelems f.as_set m fn block
                        (pull_list nil f.nelems f.aborted (view nil f) block))
                    a,
            w',
            (n' ∙ n, s' ∙ s, a' ∙ a),
          )
