-- ===== src/Util/Fifo/Remove.antt =====
-- h2_fifo_remove of mod_http2/h2_util.c: it moves the elements that stay to the front, in place.
use mod_h.Prelude.{
  ℕ, zero, suc, ◌+◌, ◌-◌, ◌%◌, ◌<◌, ◌≤◌, ◌≡◌, refl, sym, ap, ap₂, ◌∙◌, Bool, true, false, List, [],
  ◌∷◌, ◌++◌, append_assoc, append-nil, length, length-set, get_or, set, arith, Bool-cases, if-both,
  inl, inr, if◌then◌else◌, ◌==◌, ltb,
}
use native.Mathlib.Nat.{add-zero}
use mod_h.Apr.{Status, success, eof, eagain, is_success}
use mod_h.Ring.{
  window, length-window, window-snoc, window-set_behind, window-set_outside, behind_outside,
}
use mod_h.Util.Fifo.{
  Fifo, Outcome, returned, Signal, not_full, nth_index, remove_round, remove_loop, remove_locked,
  h2_fifo_remove,
}
use mod_h.Util.Fifo.View.{view, IsValid, without}
use mod_h.Util.Fifo.Ops.{Pushes}

module _ {A : Type 0} (nil : A) (same : A → A → Bool) (f : Fifo A) (a : A) where
  abbrev slots : List A → ℕ → ℕ → List A
  slots e p k = window nil e f.nelems p k

  -- Half-way: `front` stays and stands at the head, `rc` elements are gone, `rest` is not visited.
  abbrev Half : ℕ → ℕ → List A × ℕ → List A → List A → Type 0
  Half i k r front rest =
      (length r.0 ≡ f.nelems)
      × (r.1 ≤ i)
      × (slots r.0 f.head (i - r.1) ≡ front)
      × (slots r.0 (f.head + i) k ≡ rest)

  -- Writing the element behind those that stay.
  kept-Half :
      (i k : ℕ) (e : List A) (rc : ℕ) (x : A)
      → i + suc k ≤ f.nelems
      → length e ≡ f.nelems
      → rc ≤ i
      → x ≡ get_or e ((f.head + i) % f.nelems) nil
      → Half
          (suc i)
          k
          (if ltb 0 rc then (set e ((f.head + (i - rc)) % f.nelems) x, rc) else (e, rc))
          (slots e f.head (i - rc) ++ x ∷ [])
          (slots e (f.head + suc i) k)
  kept-Half i k e rc x h l le q =
      let j = i - rc in
      let at = (f.head + j) % f.nelems in
      if-both (λ r. Half (suc i) k r (slots e f.head j ++ x ∷ []) (slots e (f.head + suc i) k))
        (ltb 0 rc) (set e at x, rc) (e, rc)
        (λ t.
          let some : 0 < rc = ground (arith, t) in
          (
            length-set e at x ∙ l,
            omega arith,
            ap (slots (set e at x) f.head) (omega arith)
                ∙ window-set_behind nil e f.nelems f.head j x l (omega arith),
            window-set_outside nil e f.nelems (f.head + suc i) k at x (λ b lt same_slot.
                behind_outside f.nelems f.head (suc i + b) (omega arith) j (omega arith)
                  (ap (λ p. p % f.nelems) (omega arith) ∙ sym same_slot)),
          ))
        (λ t.
          let none : rc ≡ 0 = ground (arith, t) in
          (
            l,
            omega arith,
            ap (slots e f.head) (omega arith)
                ∙ window-snoc nil e f.nelems f.head i
                ∙ ap₂ (λ j y. slots e f.head j ++ y ∷ []) (omega arith) (sym q),
            refl,
          ))

  -- One round keeps the element or drops it.
  round-Half :
      (i k : ℕ) (e : List A) (rc : ℕ)
      → i + suc k ≤ f.nelems
      → length e ≡ f.nelems
      → rc ≤ i
      → let x = get_or e ((f.head + i) % f.nelems) nil in
        let r = remove_round nil same f a i (e, rc) in
        Half
          (suc i)
          k
          r
          (if same x a then slots e f.head (i - rc) else slots e f.head (i - rc) ++ x ∷ [])
          (slots e (f.head + suc i) k)
  unfolding remove_round nth_index
  round-Half i k e rc h l le = elim (Bool-cases (same (get_or e ((f.head + i) % f.nelems) nil) a)) [
    | inl t ↦ rw t (l, omega arith, ap (slots e f.head) (omega arith), refl)
    | inr t ↦ rw t (kept-Half i k e rc (get_or e ((f.head + i) % f.nelems) nil) h l le refl)
  ]

  kept_or_dropped :
      (b : Bool) (xs rest : List A) (x : A)
      → (if b then xs else xs ++ x ∷ []) ++ rest ≡ xs ++ (if b then rest else x ∷ rest)
  kept_or_dropped true xs rest x = refl
  kept_or_dropped false xs rest x = append_assoc xs (x ∷ []) rest

  -- The loop from index `i` on leaves in front the elements before it that stay, and those behind
  -- it that are not `a`.
  loop_lem :
      (i k : ℕ) (e : List A) (rc : ℕ)
      → i + k ≤ f.nelems
      → length e ≡ f.nelems
      → rc ≤ i
      → let s = remove_loop nil same f a i k (e, rc) in
        (length s.0 ≡ f.nelems)
        × (s.1 ≤ i + k)
        × (slots s.0 f.head (i + k - s.1)
            ≡ slots e f.head (i - rc) ++ without same a (slots e (f.head + i) k))
  unfolding remove_loop window
  loop_lem i zero e rc h l le = (
    l,
    omega arith,
    ap (slots e f.head) (omega arith) ∙ sym (append-nil (slots e f.head (i - rc))),
  )
  loop_lem i (suc k) e rc h l le =
      let r = remove_round nil same f a i (e, rc) in
      let x = get_or e ((f.head + i) % f.nelems) nil in
      let (l', le', p, q) = round-Half i k e rc h l le in
      let (l'', le'', ih) = loop_lem (suc i) k r.0 r.1 (omega arith) l' le' in
      let s = remove_loop nil same f a (suc i) k r in
      (
        l'',
        omega (arith, le''),
        ap (slots s.0 f.head) (omega arith)
            ∙ ih
            ∙ ap₂ (λ u v. u ++ without same a v) p (q ∙ ap (λ p. slots e p k) (omega arith))
            ∙ kept_or_dropped (same x a) (slots e f.head (i - rc))
                (without same a (slots e (suc (f.head + i)) k)) x,
      )

module _ {A : Type 0} where
  -- What removing from a list does.
  unfoldable pub remove_list : (A → A → Bool) → ℕ → List A → A → List A × Outcome × List Signal
  remove_list same cap xs a =
      let ys = without same a xs in
      if length ys == length xs
      then (ys, returned eagain, [])
      else (ys, returned success, if length xs == cap then not_full ∷ [] else [])

module _ {A : Type 0} (nil : A) where
  clean :
      (same : A → A → Bool) (f : Fifo A) (a : A)
      → IsValid f
      → let s = remove_loop nil same f a 0 f.count (f.elems, 0) in
        window nil s.0 f.nelems f.head (f.count - s.1) ≡ without same a (view nil f)
  unfolding window
  clean same f a v =
      let s = remove_loop nil same f a 0 f.count (f.elems, 0) in
      let fits = v.fits in
      let (l, le, p) =
        loop_lem nil same f a 0 f.count f.elems 0 (omega arith) v.sized (omega arith) in
      ap (window nil s.0 f.nelems f.head) (omega arith)
      ∙ p
      ∙ ap (λ q. without same a (window nil f.elems f.nelems q f.count)) (add-zero f.head)

  -- From a loop that left `ys` of the elements `xs`.
  removed :
      (f : Fifo A) (s : List A × ℕ) (xs ys : List A)
      → IsValid f
      → length s.0 ≡ f.nelems
      → s.1 ≤ f.count
      → window nil s.0 f.nelems f.head (f.count - s.1) ≡ ys
      → length xs ≡ f.count
      → length ys ≡ f.count - s.1
      → let left = record f { elems = s.0; count = f.count - s.1 } in
        Pushes nil f
          (if length ys == length xs
            then (ys, returned eagain, [])
            else (ys, returned success, if length xs == f.nelems then not_full ∷ [] else []))
          (if ltb 0 s.1
            then (
              left,
              returned success,
              if left.count + s.1 == left.nelems then not_full ∷ [] else [],
            )
            else (left, returned eagain, []))
  removed f s xs ys v l le e n m =
      let valid : IsValid (record f { elems = s.0; count = f.count - s.1 }) = record {
        sized = l;
        head_in = v.head_in;
        fits = omega (arith, v.fits);
      } in
      ground (arith, valid, le, e, n, m)

  remove_locked_lem :
      (same : A → A → Bool) (f : Fifo A) (a : A)
      → IsValid f
      → Pushes nil f (remove_list same f.nelems (view nil f) a) (remove_locked nil same f a)
  unfolding remove_locked remove_list
  remove_locked_lem same f a v =
      let s = remove_loop nil same f a 0 f.count (f.elems, 0) in
      let fits = v.fits in
      let (l, le, p) =
        loop_lem nil same f a 0 f.count f.elems 0 (omega arith) v.sized (omega arith) in
      let left = clean same f a v in
      removed f s (view nil f) (without same a (view nil f)) v l (omega (arith, le)) left
        (length-window nil f.elems f.nelems f.head f.count)
        (ap length (sym left) ∙ length-window nil s.0 f.nelems f.head (f.count - s.1))

  -- Removing an element from a well-formed queue leaves the others in their order. It returns
  -- APR_SUCCESS when there was one to remove and APR_EAGAIN when there was none, and wakes the threads
  -- that wait to push when the queue was full. The queue stays well-formed. Behind the end of
  -- the queue's life, or without the lock, nothing changes.
  pub h2_fifo_remove_lem :
      (same : A → A → Bool) (lock : Status) (f : Fifo A) (a : A)
      → IsValid f
      → Pushes nil f
          (if f.aborted
            then (view nil f, returned eof, [])
            else if is_success lock
            then remove_list same f.nelems (view nil f) a
            else (view nil f, returned lock, []))
          (h2_fifo_remove nil same lock f a)
  unfolding h2_fifo_remove
  h2_fifo_remove_lem same lock f a v = ground (arith, remove_locked_lem same f a v, v)
