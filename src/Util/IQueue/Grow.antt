-- ===== src/Util/IQueue/Grow.antt =====
-- h2_iq_append and the growth of the array, against the list of entries.
use native.Mathlib.Nat.{mod-eq_of_lt}
use mathlib.Core.Path.{subst₂}
use mathlib.Core.List.{Perm, perm_append_singleton, perm_append_comm}
use mathlib.Core.List.Perm
use mod_h.Prelude.{
  ℕ, zero, suc, ◌+◌, ◌-◌, ◌*◌, ◌%◌, ◌≤◌, ◌<◌, ◌≡◌, ◌≢◌, refl, sym, ap, ap₂, subst, ◌∙◌, inl, inr,
  Bool, true, false, not, none, List, [], ◌∷◌, ◌++◌, arith, length, get_or, set, replicate,
  length-set, length-replicate, get_or-set_self, get_or-set_ne, get_or-append_left, is_elem,
  Bool-cases, if◌then◌else◌, leb,
}
use mod_h.Ring.{window, window-set_behind, window_whole, window_rotation}
use mod_h.Util.IQueue.{IQueue, copy, moved, iq_grow, enter, iq_append}
use mod_h.Util.IQueue.View.{view, IsValid}
use mod_h.Util.IQueue.Ops.{iq_contains_lem}

length-copy :
    (dst : List ℕ) (to : ℕ) (src : List ℕ) (from n : ℕ)
    → length (copy dst to src from n) ≡ length dst
unfolding copy
length-copy dst to src from zero = refl
length-copy dst to src from (suc n) =
    length-copy (set dst to (get_or src from 0)) (suc to) src (suc from) n
    ∙ length-set dst to (get_or src from 0)

copy_before :
    (dst : List ℕ) (to : ℕ) (src : List ℕ) (from n i : ℕ)
    → i < to
    → get_or (copy dst to src from n) i 0 ≡ get_or dst i 0
unfolding copy
copy_before dst to src from zero i h = refl
copy_before dst to src from (suc n) i h =
    copy_before (set dst to (get_or src from 0)) (suc to) src (suc from) n i (omega arith)
    ∙ get_or-set_ne dst to i (get_or src from 0) 0 (omega arith)

-- A copy without wrapping has the same entries.
window-copy :
    (dst : List ℕ) (to : ℕ) (src : List ℕ) (from k n m : ℕ)
    → length dst ≡ n
    → to + k ≤ n
    → from + k ≤ m
    → window 0 (copy dst to src from k) n to k ≡ window 0 src m from k
unfolding copy window
window-copy dst to src from zero n m l h g = refl
window-copy dst to src from (suc k) n m l h g =
    ap₂ ◌∷◌
      (ap (λ i. get_or (copy dst to src from (suc k)) i 0) (mod-eq_of_lt (omega arith))
        ∙ copy_before (set dst to (get_or src from 0)) (suc to) src (suc from) k to (omega arith)
        ∙ get_or-set_self dst to (get_or src from 0) 0 (omega arith)
        ∙ ap (λ i. get_or src i 0) (sym (mod-eq_of_lt (omega arith))))
      (window-copy (set dst to (get_or src from 0)) (suc to) src (suc from) k n m
        (length-set dst to (get_or src from 0) ∙ l) (omega arith) (omega arith))

round : (h n : ℕ) → h < n → (h + n) % n - h ≡ 0
round h n lt = grind (arith, mod-eq_of_lt lt)

moved-full :
    (q : IQueue) (nlen l : ℕ)
    → l ≡ 0
    → 0 < q.nelts
    → moved q nlen l ≡ copy (replicate nlen 0) 0 q.elts 0 q.nelts
unfolding moved copy
moved-full q nlen zero e h = ground arith
moved-full q nlen (suc l) e h = absurd (omega arith)

-- A full array is copied from its first slot on, wherever the head is.
grow_full :
    (q : IQueue)
    → IsValid q
    → q.nelts ≡ q.nalloc
    → iq_grow q (q.nalloc * 2) ≡ record {
      elts = copy (replicate (q.nalloc * 2) 0) 0 q.elts 0 q.nelts;
      head = 0;
      nalloc = q.nalloc * 2;
      nelts = q.nelts;
    }
unfolding iq_grow
grow_full q v h = ground (
  arith,
  moved-full q (q.nalloc * 2) ((q.head + q.nelts) % q.nalloc - q.head),
  round q.head q.nalloc v.head_in,
)

-- After the growth of a full array the entries stand as the array held them, and there is room.
grow-view :
    (q : IQueue)
    → IsValid q
    → q.nelts ≡ q.nalloc
    → let g = iq_grow q (q.nalloc * 2) in (view g ≡ q.elts) × IsValid g × (g.nelts < g.nalloc)
grow-view q v h = rw (grow_full q v h) (
  window-copy (replicate (q.nalloc * 2) 0) 0 q.elts 0 q.nelts (q.nalloc * 2) q.nalloc
        (length-replicate (q.nalloc * 2) 0) (omega arith) (omega arith)
      ∙ ap₂ (λ n k. window 0 q.elts n 0 k) (sym v.sized) (h ∙ sym v.sized)
      ∙ window_whole 0 q.elts,
  record {
    sized =
        length-copy (replicate (q.nalloc * 2) 0) 0 q.elts 0 q.nelts
        ∙ length-replicate (q.nalloc * 2) 0;
    head_in = omega (arith, v);
    fits = omega (arith, h);
  },
  omega (arith, v, h),
)

-- Without a comparison the id goes behind the entries.
enter-view :
    (q : IQueue) (sid : ℕ)
    → IsValid q
    → q.nelts < q.nalloc
    → (view (enter q sid none) ≡ view q ++ sid ∷ []) × IsValid (enter q sid none)
unfolding enter
enter-view q sid v h = (
  window-set_behind 0 q.elts q.nalloc q.head q.nelts sid v.sized h,
  record {
    sized = length-set q.elts ((q.head + q.nelts) % q.nalloc) sid ∙ v.sized;
    head_in = v.head_in;
    fits = h;
  },
)

-- What h2_iq_append does: nothing to a queue that has the id, else it puts the id behind the entries,
-- which a full array gives in the order of its slots.
abbrev pub Appended : IQueue → ℕ → IQueue × Bool → Type 0
Appended q sid r =
    (view r.0 ≡ (
      if is_elem sid (view q)
      then view q
      else (if leb q.nalloc q.nelts then q.elts else view q) ++ sid ∷ []))
    × (r.1 ≡ not (is_elem sid (view q)))
    × IsValid r.0

-- h2_iq_append: a queue that has the id is left as it is, and 0 returned. Else 1 is returned and the
-- id is the last entry, behind the old entries: in their order if the array has room, and in the
-- order of the array's slots if it is full. The queue stays valid.
pub iq_append_lem : (q : IQueue) (sid : ℕ) → IsValid q → Appended q sid (iq_append q sid)
unfolding iq_append
iq_append_lem q sid v = elim (Bool-cases (leb q.nalloc q.nelts)) [
  | inl full ↦
      let (g, gv, room) = grow-view q v (ground (arith, v.fits)) in
      let (e, ev) = enter-view (iq_grow q (q.nalloc * 2)) sid gv room in
      ground (arith, iq_contains_lem q sid, e, ev, g, v)
  | inr free ↦
      let (e, ev) = enter-view q sid v (ground arith) in
      ground (arith, iq_contains_lem q sid, e, ev, v)
]

-- Nothing is lost or made up: a new id makes one entry more, whether or not the array grew.
pub iq_append-perm :
    (q : IQueue) (sid : ℕ)
    → IsValid q
    → is_elem sid (view q) ≡ false
    → Perm (view (iq_append q sid).0) (sid ∷ view q)
iq_append-perm q sid v new = elim (Bool-cases (leb q.nalloc q.nelts)) [
  | inl full ↦
      let (xs, ys, w, e, _) = window_rotation 0 q.elts q.nalloc q.head v.sized v.head_in in
      let vw : view q ≡ xs ++ ys =
        ap (window 0 q.elts q.nalloc q.head) (ground (arith, v.fits)) ∙ w in
      subst (λ l. Perm l (sid ∷ view q)) (sym (appended_full v new full))
        (Perm.trans (perm_append_singleton sid q.elts)
          (Perm.cons sid (subst₂ Perm (sym e) (sym vw) (perm_append_comm ys xs))))
  | inr free ↦
      subst (λ l. Perm l (sid ∷ view q)) (sym (appended_free v new free))
        (perm_append_singleton sid (view q))
]
  where
    appended_full :
        IsValid q
        → is_elem sid (view q) ≡ false
        → leb q.nalloc q.nelts ≡ true
        → view (iq_append q sid).0 ≡ q.elts ++ sid ∷ []
    appended_full v new full = ground (arith, iq_append_lem q sid v)

    appended_free :
        IsValid q
        → is_elem sid (view q) ≡ false
        → leb q.nalloc q.nelts ≡ false
        → view (iq_append q sid).0 ≡ view q ++ sid ∷ []
    appended_free v new free = ground (arith, iq_append_lem q sid v)

window_first :
    (e rest : List ℕ) (n p k : ℕ)
    → 0 < k
    → get_or (window 0 e n p k ++ rest) 0 0 ≡ get_or e (p % n) 0
unfolding window
window_first e rest n p zero h = elim h [ ]
window_first e rest n p (suc k) h = refl

-- The growth loses the order of a queue whose head is not slot 0: if the first entry differs from
-- the one in slot 0, the queue does not have its old entries in their order before the new id.
pub iq_append_order_lost :
    (q : IQueue) (sid : ℕ)
    → IsValid q
    → is_elem sid (view q) ≡ false
    → q.nelts ≡ q.nalloc
    → get_or q.elts q.head 0 ≢ get_or q.elts 0 0
    → view (iq_append q sid).0 ≢ view q ++ sid ∷ []
iq_append_order_lost q sid v new full other same = other (
    ap (λ i. get_or q.elts i 0) (sym (mod-eq_of_lt v.head_in))
    ∙ sym (window_first q.elts (sid ∷ []) q.nalloc q.head q.nelts (omega (arith, v)))
    ∙ ap (λ l. get_or l 0 0) (sym same ∙ slots)
    ∙ get_or-append_left q.elts (sid ∷ []) 0 0 (omega (arith, v)))
  where
    slots : view (iq_append q sid).0 ≡ q.elts ++ sid ∷ []
    slots = ground (arith, iq_append_lem q sid v)
