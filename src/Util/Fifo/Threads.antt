-- ===== src/Util/Fifo/Threads.antt =====
-- What threads make of an h2_fifo together: mod_http2/h2_util.c. A thread that waits holds no lock, so
-- others act on the queue before it goes on.
use mod_h.Prelude.{
  ℕ, suc, ◌<◌, ◌≡◌, refl, sym, ap, subst, ◌∙◌, Bool, true, false, List, [], ◌∷◌, ◌++◌, append_assoc,
  length, length-append, arith, if◌then◌else◌, ◌&&◌, ◌||◌,
}
use mod_h.Apr.{success, eof}
use mod_h.Ring.{length-window}
use mod_h.Util.Fifo.{
  Fifo, Outcome, returned, waits, Signal, nth_index, store, push_loop, fifo_push, fifo_pull,
}
use mod_h.Util.Fifo.View.{view, IsValid, holds, push_list, pull_list}
use mod_h.Util.Fifo.Ops.{Stored, stored_lem, fifo_push_lem, fifo_pull_lem}

module _ {A : Type 0} (nil : A) (same : A → A → Bool) where
  -- Each element once.
  abbrev pub Unique : List A → Type 0
  Unique [] = Unit {0}
  Unique (x ∷ xs) = (holds same x xs ≡ false) × Unique xs

  holds-append :
      (x a : A) (xs : List A) → holds same x (xs ++ a ∷ []) ≡ (holds same x xs || same x a)
  holds-append x a [] = ground arith
  holds-append x a (y ∷ xs) = ground (arith, holds-append x a xs)

  Unique-append :
      (a : A) (xs : List A)
      → ((x y : A) → same x y ≡ same y x)
      → holds same a xs ≡ false
      → Unique xs
      → Unique (xs ++ a ∷ [])
  Unique-append a [] s h u = (refl, tt)
  Unique-append a (x ∷ xs) s h u =
      let (p, q) = parts (same a x) (holds same a xs) h in
      (holds-append x a xs ∙ ground (arith, u.0, s x a, p), Unique-append a xs s q u.1)
    where
      parts : (b c : Bool) → (b || c) ≡ false → (b ≡ false) × (c ≡ false)
      parts b c e = ground arith

  push_list-Unique :
      (cap : ℕ) (aborted : Bool) (xs : List A) (a : A) (block : Bool)
      → ((x y : A) → same x y ≡ same y x)
      → Unique xs
      → Unique (push_list same cap true aborted xs a block).0
  unfolding push_list
  push_list-Unique cap aborted xs a block s u = ground (arith, u, Unique-append a xs s)

  -- If the comparison is symmetric and a set holds each element once, it does so after a push, which
  -- has returned or waits.
  pub fifo_push-Unique :
      (f : Fifo A) (a : A) (block : Bool)
      → ((x y : A) → same x y ≡ same y x)
      → IsValid f
      → f.as_set ≡ true
      → Unique (view nil f)
      → Unique (view nil (fifo_push nil same success f a block).0)
  fifo_push-Unique f a block s v e u =
      let p = (fifo_push_lem nil same success f a block v).0 in
      subst (λ (r : List A × Outcome × List Signal). Unique r.0) (sym p)
        (subst (λ b. Unique (push_list same f.nelems b f.aborted (view nil f) a block).0) (sym e)
          (push_list-Unique f.nelems f.aborted (view nil f) a block s u))

  -- A thread that wakes and finds room stores its element, in a set as well, without a look at what the
  -- queue holds by then.
  push_loop_lem :
      (f : Fifo A) (a : A)
      → IsValid f
      → f.count < f.nelems
      → let r = push_loop nil same f a in Stored nil f a r.0 × (r.1 ≡ returned success)
  unfolding push_loop store nth_index
  push_loop_lem f a v h = ground (arith, stored_lem nil f a v h, v)

  pull_one :
      (cap : ℕ) (ab : Bool) (l : List A) (x : A) (xs : List A)
      → ab ≡ false
      → l ≡ x ∷ xs
      → let r = if ab then (l, returned eof, [], nil) else pull_list nil cap ab l true in
        (r.0 ≡ xs) × (r.1 ≡ returned success) × (xs ≡ [] → r.2 ≡ [])
  unfolding pull_list
  pull_one cap ab l x [] p q = rw (p, q) (refl, refl, λ e. refl)
  pull_one cap ab l x (y ∷ xs) p q = rw (p, q) (refl, refl, λ e. cc)

  full_waits :
      (cap : ℕ) (set ab : Bool) (l : List A) (a : A)
      → ab ≡ false
      → (set && holds same a l) ≡ false
      → length l ≡ cap
      → push_list same cap set ab l a true ≡ (l, waits, [])
  unfolding push_list
  full_waits cap set ab l a p q r = ground arith

  -- Pulling from a queue that is not empty.
  pull_lem :
      (f : Fifo A) (x : A) (xs : List A)
      → IsValid f
      → f.aborted ≡ false
      → view nil f ≡ x ∷ xs
      → let r = fifo_pull nil success f true in
        (view nil r.0 ≡ xs)
        × IsValid r.0
        × (r.1 ≡ returned success)
        × (xs ≡ [] → r.2 ≡ [])
        × (r.0.nelems ≡ f.nelems)
        × (r.0.aborted ≡ f.aborted)
  pull_lem f x xs v ab e =
      let (p, w, (n, s, b)) = fifo_pull_lem nil success f true v in
      let (q, o, silent) = pull_one f.nelems f.aborted (view nil f) x xs ab e in
      (
        ap (λ (r : List A × Outcome × List Signal × A). r.0) p ∙ q,
        w,
        ap (λ (r : List A × Outcome × List Signal × A). r.1) p ∙ o,
        λ h. ap (λ (r : List A × Outcome × List Signal × A). r.2) p ∙ silent h,
        n,
        b,
      )

  push_waits :
      (f : Fifo A) (a : A)
      → IsValid f
      → f.aborted ≡ false
      → (f.as_set && holds same a (view nil f)) ≡ false
      → f.count ≡ f.nelems
      → let r = fifo_push nil same success f a true in (r.1 ≡ waits) × (view nil r.0 ≡ view nil f)
  push_waits f a v ab h full =
      let p = (fifo_push_lem nil same success f a true v).0 in
      let q =
        full_waits f.nelems f.as_set f.aborted (view nil f) a ab h
          (length-window nil f.elems f.nelems f.head f.count ∙ full) in
      (
        ap (λ (r : List A × Outcome × List Signal). r.1) (p ∙ q),
        ap (λ (r : List A × Outcome × List Signal). r.0) (p ∙ q),
      )

  -- Two threads push one element, which a full set does not hold; both wait. After two pulls both
  -- wake and store it: the set holds it twice.
  pub set_duplicate :
      (f : Fifo A) (a x y : A) (xs : List A)
      → IsValid f
      → f.as_set ≡ true
      → f.aborted ≡ false
      → f.count ≡ f.nelems
      → holds same a (view nil f) ≡ false
      → view nil f ≡ x ∷ y ∷ xs
      → let two = (fifo_pull nil success (fifo_pull nil success f true).0 true).0 in
        let first = push_loop nil same two a in
        let second = push_loop nil same first.0 a in
        ((fifo_push nil same success f a true).1 ≡ waits)
        × (view nil (fifo_push nil same success f a true).0 ≡ view nil f)
        × (first.1 ≡ returned success)
        × (second.1 ≡ returned success)
        × (view nil second.0 ≡ xs ++ a ∷ a ∷ [])
  set_duplicate f a x y xs v set ab full h e =
      let (e1, v1, _, _, n1, b1) = pull_lem f x (y ∷ xs) v ab e in
      let g = (fifo_pull nil success f true).0 in
      let (e2, v2, _, _, n2, b2) = pull_lem g y xs v1 (b1 ∙ ab) e1 in
      let two = (fifo_pull nil success g true).0 in
      let size = length-window nil f.elems f.nelems f.head f.count in
      let size2 = length-window nil two.elems two.nelems two.head two.count in
      let room : suc (suc two.count) ≡ two.nelems =
        omega (arith, ap length e, ap length e2, size, size2, n1, n2, full) in
      let ((e3, v3, n3, _, _), o3) = push_loop_lem two a v2 (omega arith) in
      let first = push_loop nil same two a in
      let size3 = length-window nil first.0.elems first.0.nelems first.0.head first.0.count in
      let grown = length-append (view nil two) (a ∷ []) in
      let ((e4, _, _, _, _), o4) =
        push_loop_lem first.0 a v3 (omega (arith, ap length e3, grown, size2, size3, room, n3)) in
      let (w, same_view) = push_waits f a v ab (rw set h) full in
      (
        w,
        same_view,
        o3,
        o4,
        e4
            ∙ ap (λ l. l ++ a ∷ []) (e3 ∙ ap (λ l. l ++ a ∷ []) e2)
            ∙ append_assoc xs (a ∷ []) (a ∷ []),
      )

  -- A queue of one slot, which is full: a push waits, and the pull that makes room for it wakes nobody.
  pub one_slot_silent :
      (f : Fifo A) (a x : A)
      → IsValid f
      → f.as_set ≡ false
      → f.aborted ≡ false
      → f.nelems ≡ 1
      → view nil f ≡ x ∷ []
      → let r = fifo_pull nil success f true in
        ((fifo_push nil same success f a true).1 ≡ waits)
        × (view nil r.0 ≡ [])
        × (r.1 ≡ returned success)
        × (r.2 ≡ [])
  one_slot_silent f a x v set ab one e =
      let size = length-window nil f.elems f.nelems f.head f.count in
      let (w, _) = push_waits f a v ab (rw set refl) (omega (arith, ap length e, size, one)) in
      let (empty, _, o, silent, _, _) = pull_lem f x [] v ab e in (w, empty, o, silent refl)
