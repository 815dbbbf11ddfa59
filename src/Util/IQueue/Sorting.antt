-- ===== src/Util/IQueue/Sorting.antt =====
-- h2_iq_sort of mod_http2/h2_util.c on the circular array, against insertion sort on the list of the
-- entries.
use mathlib.Core.List.{Perm, append-nil}
use mathlib.Core.Path.{subst₂}
use mod_h.Prelude.{
  ℕ, zero, suc, ◌+◌, ◌-◌, ◌%◌, ◌≤◌, ◌<◌, ◌≡◌, ◌≢◌, refl, sym, ap, ap₂, subst, ◌∙◌, true, false,
  if◌then◌else◌, List, [], ◌∷◌, ◌++◌, arith, length, get_or, ◌==◌, ltb,
}
use native.Mathlib.Nat.{mod-eq_of_lt}
use mod_h.Ring.{window, window-snoc, behind_outside}
use mod_h.Util.IQueue.{IQueue, Cmp, is_lt, is_gt, settle, sort_from, iq_sort}
use mod_h.Util.IQueue.Insertion.{
  insert_all, insert_all-snoc, is_sorted, insert_all-sorted, insert_all-Perm,
}
use mod_h.Util.IQueue.View.{view, IsValid}
use mod_h.Util.IQueue.Slots.{window_same, prev_slot, slots_apart}
use mod_h.Util.IQueue.Settling.{Placed, settle_lem}

module _ (cmp : Cmp) (n : ℕ) where
  sort_stops :
      (head last fuel : ℕ) (e : List ℕ) → head < n → sort_from cmp n head last fuel e (head % n) ≡ e
  unfolding sort_from
  sort_stops head last zero e h = refl
  sort_stops head last (suc fuel) e h = let q = mod-eq_of_lt h in ground (arith, q)

  sort_step :
      (head last fuel m p : ℕ) (e : List ℕ)
      → head < n
      → suc m < n
      → suc p ≡ head + suc m
      → sort_from cmp n head last (suc fuel) e (suc p % n)
        ≡ sort_from cmp n head last fuel (settle cmp n last e (suc p % n)) (p % n)
  unfolding sort_from
  sort_step head last fuel m p e h k q =
      ap
        (λ x.
          if suc p % n == head
          then e
          else sort_from cmp n head last fuel (settle cmp n last e (suc p % n)) x)
        (prev_slot n p (omega arith))
      ∙ ap
          (λ c.
            if c
            then e
            else sort_from cmp n head last fuel (settle cmp n last e (suc p % n)) (p % n))
          far
    where
      apart : suc p % n ≢ head
      apart s = slots_apart n head m k (mod-eq_of_lt h ∙ sym s ∙ ap (λ i. i % n) q)

      far : suc p % n == head ≡ false
      far = let a = apart in ground (arith, a)

  abbrev pub Sorts : ℕ → ℕ → ℕ → ℕ → List ℕ → List ℕ → Type 0
  Sorts head m r p e e' =
      (window 0 e' n head (m + suc r)
        ≡ insert_all cmp (window 0 e n head m) (window 0 e n p (suc r)))
      × (length e' ≡ n)

  -- A round of the loop, and the rounds behind it.
  sort_round :
      (head m r p : ℕ) (e e1 e' : List ℕ)
      → suc m + suc r ≤ n
      → p ≡ head + m
      → Placed cmp n p r e e1
      → Sorts head m (suc r) p e1 e'
      → Sorts head (suc m) r (suc p) e e'
  sort_round head m r p e e1 e' h q pl s = (
    ap (window 0 e' n head) (omega arith)
        ∙ s.0
        ∙ ap₂ (insert_all cmp) kept pl.lists
        ∙ sym (
            insert_all-snoc cmp (window 0 e n head m) (get_or e (p % n) 0)
              (window 0 e n (suc p) (suc r)))
        ∙ ap (λ l. insert_all cmp l (window 0 e n (suc p) (suc r)))
            (ap (λ i. window 0 e n head m ++ get_or e (i % n) 0 ∷ []) q
              ∙ sym (window-snoc 0 e n head m)),
    s.1,
  )
    where
      kept : window 0 e1 n head m ≡ window 0 e n head m
      kept = window_same e e1 n head m (λ j lt. pl.within.same ((head + j) % n) (λ i i2 w.
          behind_outside n head (m + i) (omega arith) j (omega arith)
            (ap (λ x. x % n) (omega arith) ∙ sym w)))

  pub sort_lem :
      (head m r fuel p : ℕ) (e : List ℕ)
      → length e ≡ n
      → head < n
      → m + suc r ≤ n
      → m ≤ fuel
      → p ≡ head + m
      → Sorts head m r p e (sort_from cmp n head ((p + r) % n) fuel e (p % n))
  unfolding window
  sort_lem head zero r fuel p e l h k f q =
      let last = (p + r) % n in
      let at : p ≡ head = omega arith in
      let one_more : 0 + suc r ≡ suc r = omega arith in
      let stops : sort_from cmp n head last fuel e (p % n) ≡ e =
        ap (λ x. sort_from cmp n head last fuel e (x % n)) at ∙ sort_stops head last fuel e h in
      subst (Sorts head 0 r p e) (sym stops) (ap₂ (window 0 e n) (sym at) one_more, l)
  sort_lem head (suc m) r zero p e l h k f q = elim f [ ]
  sort_lem head (suc m) r (suc fuel) zero e l h k f q = let no : 1 ≤ 0 = omega arith in elim no [ ]
  sort_lem head (suc m) r (suc fuel) (suc p) e l h k f q =
      let last = (suc p + r) % n in
      let e1 = settle cmp n last e (suc p % n) in
      let pl = settle_lem cmp n p r e l (omega arith) in
      subst (Sorts head (suc m) r (suc p) e)
        (sym (sort_step head last fuel m p e h (omega arith) q))
        (sort_round head m r p e e1 (sort_from cmp n head last fuel e1 (p % n)) k (omega arith) pl (
          subst (λ b. Sorts head m (suc r) p e1 (sort_from cmp n head (b % n) fuel e1 (p % n)))
            (omega arith)
            (sort_lem head m (suc r) fuel p e1 pl.within.sized h (omega arith) (omega arith)
              (omega arith))))

-- The list of the entries of a sorted queue.
abbrev SortedView : Cmp → List ℕ → IQueue → Type 0
SortedView cmp xs q = (view q ≡ insert_all cmp xs []) × IsValid q

sort_some :
    (q : IQueue) (cmp : Cmp) (m : ℕ)
    → q.nelts ≡ suc m
    → IsValid q
    → SortedView cmp (window 0 q.elts q.nalloc q.head (suc m)) (iq_sort q cmp)
unfolding iq_sort window
sort_some q cmp m e v =
    subst (SortedView cmp xs) (sym (ap (λ b. if b then result else q) some_entry)) (
      ap (window 0 sorted q.nalloc q.head) (omega arith)
          ∙ s.0
          ∙ sym (insert_all-snoc cmp (window 0 q.elts q.nalloc q.head m) last_entry [])
          ∙ ap (λ l. insert_all cmp l []) (sym (window-snoc 0 q.elts q.nalloc q.head m)),
      record { sized = s.1; head_in = v.head_in; fits = v.fits },
    )
  where
    xs : List ℕ
    xs = window 0 q.elts q.nalloc q.head (suc m)

    last_entry : ℕ
    last_entry = get_or q.elts ((q.head + m) % q.nalloc) 0

    at : ℕ → ℕ → List ℕ
    at a b = sort_from cmp q.nalloc q.head (a % q.nalloc) q.nelts q.elts (b % q.nalloc)

    sorted : List ℕ
    sorted = at (q.head + q.nelts - 1) (q.head + q.nelts - 1)

    result : IQueue
    result = record q { elts = sorted }

    some_entry : ltb 0 q.nelts ≡ true
    some_entry = let h = e in ground (arith, h)

    s : Sorts cmp q.nalloc q.head m 0 (q.head + m) q.elts sorted
    s =
        subst (Sorts cmp q.nalloc q.head m 0 (q.head + m) q.elts)
          (ap₂ at (omega arith) (omega arith))
          (sort_lem cmp q.nalloc q.head m 0 q.nelts (q.head + m) q.elts v.sized v.head_in
            (omega (arith, v)) (omega arith) refl)

sort_at :
    (q : IQueue) (cmp : Cmp) (k : ℕ)
    → q.nelts ≡ k
    → IsValid q
    → SortedView cmp (window 0 q.elts q.nalloc q.head k) (iq_sort q cmp)
unfolding iq_sort window
sort_at q cmp zero e v =
    subst (SortedView cmp []) (let h = e in ground (arith, h))
      (ap (window 0 q.elts q.nalloc q.head) e, v)
sort_at q cmp (suc m) e v = sort_some q cmp m e v

-- h2_iq_sort puts the entries of a valid queue in order: none is above the next one, the entries are
-- those that were there, and the queue stays valid. Condition: the comparison has the opposite sign
-- for its arguments in the opposite order.
pub iq_sort_lem :
    (q : IQueue) (cmp : Cmp)
    → IsValid q
    → ((a b : ℕ) → is_lt (cmp a b) ≡ is_gt (cmp b a))
    → (is_sorted cmp (view (iq_sort q cmp)) ≡ true)
      × Perm (view (iq_sort q cmp)) (view q)
      × IsValid (iq_sort q cmp)
iq_sort_lem q cmp v law =
    let (eq, valid) = sort_at q cmp q.nelts refl v in
    (
      ap (is_sorted cmp) eq ∙ insert_all-sorted cmp law (view q) [] refl,
      subst₂ Perm (sym eq) (append-nil (view q)) (insert_all-Perm cmp (view q) []),
      valid,
    )
