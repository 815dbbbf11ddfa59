-- ===== src/Util/IQueue/Bubbles.antt =====
-- iq_bubble_down and iq_bubble_up of mod_http2/h2_util.c: an entry goes to its place among the ones
-- behind it.
use mod_h.Prelude.{
  ℕ, zero, suc, ◌+◌, ◌%◌, ◌≤◌, ◌<◌, ◌≡◌, ◌≢◌, refl, sym, ap, ap₂, subst, ◌∙◌, Bool, false, not,
  ◌&&◌, if◌then◌else◌, if-both, List, ◌∷◌, arith, length, get_or, mod_lt, ◌==◌,
}
use mod_h.Ring.{window, behind_outside}
use mod_h.Util.IQueue.{Cmp, is_lt, is_gt, iq_swap, iq_bubble_up, iq_bubble_down}
use mod_h.Util.IQueue.Insertion.{insert_down}
use mod_h.Util.IQueue.Slots.{
  Outside, Within, window_same, front_outside, outside_front, outside_rest, length-iq_swap,
  swap_first, swap_second, swap_other, next_slot, prev_slot, Within-refl, slots_apart, next_apart,
}

module _ (cmp : Cmp) (n : ℕ) where
  pub record Down (p r : ℕ) (e e' : List ℕ) : Type 0 where
    pub lists :
        window 0 e' n p (suc r) ≡ insert_down cmp (get_or e (p % n) 0) (window 0 e n (suc p) r)
    pub within : Within n p (suc r) e e'

  down_stops :
      (fuel p : ℕ) (e : List ℕ) → iq_bubble_down cmp n fuel e (p % n) ((p + 0) % n) ≡ (e, p % n)
  unfolding iq_bubble_down
  down_stops zero p e = refl
  down_stops (suc fuel) p e = ground arith

  down_step :
      (fuel p r : ℕ) (e : List ℕ)
      → suc r < n
      → iq_bubble_down cmp n (suc fuel) e (p % n) ((p + suc r) % n) ≡ (
          if is_gt (cmp (get_or e (p % n) 0) (get_or e (suc p % n) 0))
          then iq_bubble_down cmp n fuel
              (iq_swap e (suc p % n) (p % n))
              (suc p % n)
              ((suc p + r) % n)
          else (e, p % n))
  unfolding iq_bubble_down
  down_step fuel p r e h =
      let go = λ (x b : ℕ) (c : Bool).
        if not c && is_gt (cmp (get_or e (p % n) 0) (get_or e x 0))
        then iq_bubble_down cmp n fuel (iq_swap e x (p % n)) x b
        else (e, p % n) in
      let far : p % n == (p + suc r) % n ≡ false =
        (let a = slots_apart n p r h in ground (arith, a)) in
      ap (λ x. go x ((p + suc r) % n) (p % n == (p + suc r) % n)) (next_slot n p)
      ∙ ap (go (suc p % n) ((p + suc r) % n)) far
      ∙ ap (λ m. go (suc p % n) (m % n) false) (omega arith)

  -- `s` has the entries of `e`, the two from position `p` on changed.
  pub record Swapped (p : ℕ) (e s : List ℕ) : Type 0 where
    pub sized : length s ≡ n
    pub front : get_or s (p % n) 0 ≡ get_or e (suc p % n) 0
    pub next : get_or s (suc p % n) 0 ≡ get_or e (p % n) 0
    pub other : (a : ℕ) → a ≢ p % n → a ≢ suc p % n → get_or s a 0 ≡ get_or e a 0

  module _ (p : ℕ) (e : List ℕ) (l : length e ≡ n) (h : 1 < n) where
    in_front : p % n < length e
    in_front = rw l (mod_lt p n (omega arith))

    in_next : suc p % n < length e
    in_next = rw l (mod_lt (suc p) n (omega arith))

    down_Swapped : Swapped p e (iq_swap e (suc p % n) (p % n))
    down_Swapped =
        let i = suc p % n in
        let j = p % n in
        let apart = next_apart n p h in
        record {
          sized = length-iq_swap e i j apart in_next in_front ∙ l;
          front = swap_second e i j apart in_next in_front;
          next = swap_first e i j apart in_next in_front;
          other = λ a f g. swap_other e i j apart in_next in_front a g f;
        }

    pub up_Swapped : Swapped p e (iq_swap e (p % n) (suc p % n))
    up_Swapped =
        let i = p % n in
        let j = suc p % n in
        let apart : j ≢ i = (λ q. next_apart n p h (sym q)) in
        record {
          sized = length-iq_swap e i j apart in_front in_next ∙ l;
          front = swap_first e i j apart in_front in_next;
          next = swap_second e i j apart in_front in_next;
          other = swap_other e i j apart in_front in_next;
        }

  behind_kept :
      (p r : ℕ) (e s : List ℕ)
      → Swapped p e s
      → suc r < n
      → window 0 s n (suc (suc p)) r ≡ window 0 e n (suc (suc p)) r
  behind_kept p r e s w k = window_same e s n (suc (suc p)) r (λ j lt.
      w.other ((suc (suc p) + j) % n) (outside_front n p 1 _ (away j lt))
        (outside_front n (suc p) 0 _ (outside_rest n p 1 _ (away j lt))))
    where
      away : (j : ℕ) → j < r → Outside n p 2 ((suc (suc p) + j) % n)
      away j lt i i2 q =
          behind_outside n p (suc (suc j)) (omega arith) i (omega arith)
            (ap (λ m. m % n) (omega arith) ∙ q)

  -- The entry of the second slot comes first, the one of the first goes further down.
  pub further_lists :
      (p r : ℕ) (e s e' : List ℕ)
      → suc r < n
      → Swapped p e s
      → Down (suc p) r s e'
      → window 0 e' n p (suc (suc r))
        ≡ get_or e (suc p % n) 0
          ∷ insert_down cmp (get_or e (p % n) 0) (window 0 e n (suc (suc p)) r)
  unfolding window
  further_lists p r e s e' h w d =
      ap₂ ◌∷◌ (d.within.same (p % n) (front_outside n p (suc r) (omega arith)) ∙ w.front)
        (d.lists ∙ ap₂ (insert_down cmp) w.next (behind_kept p r e s w h))

  pub further_Within :
      (p r : ℕ) (e s e' : List ℕ)
      → Swapped p e s
      → Within n (suc p) (suc r) s e'
      → Within n p (suc (suc r)) e e'
  further_Within p r e s e' w d = record {
    sized = d.sized;
    same = λ a o.
        let rest = outside_rest n p (suc r) a o in
        d.same a rest
        ∙ w.other a (outside_front n p (suc r) a o) (outside_front n (suc p) r a rest);
  }

  pub down_lem :
      (p r fuel : ℕ) (e : List ℕ)
      → length e ≡ n
      → r < n
      → r ≤ fuel
      → Down p r e (iq_bubble_down cmp n fuel e (p % n) ((p + r) % n)).0
  unfolding window
  down_lem p zero fuel e l h k =
      subst (λ x. Down p 0 e x.0) (sym (down_stops fuel p e))
        record { lists = refl; within = Within-refl n p 1 e l }
  down_lem p (suc r) zero e l h k = elim k [ ]
  down_lem p (suc r) (suc fuel) e l h k =
      let gt = is_gt (cmp (get_or e (p % n) 0) (get_or e (suc p % n) 0)) in
      let e1 = iq_swap e (suc p % n) (p % n) in
      let w = down_Swapped p e l (omega arith) in
      let further = iq_bubble_down cmp n fuel e1 (suc p % n) ((suc p + r) % n) in
      let d = down_lem (suc p) r fuel e1 w.sized (omega arith) (omega arith) in
      subst (λ x. Down p (suc r) e x.0) (sym (down_step fuel p r e h))
        (if-both (λ x. Down p (suc r) e x.0) gt further (e, p % n)
          (λ t. record {
            lists = rw t (further_lists p r e e1 further.0 h w d);
            within = further_Within p r e e1 further.0 w d.within;
          })
          (λ f. record { lists = rw f refl; within = Within-refl n p (suc (suc r)) e l }))

  up_stops : (fuel p : ℕ) (e : List ℕ) → iq_bubble_up cmp n fuel e (p % n) (p % n) ≡ (e, p % n)
  unfolding iq_bubble_up
  up_stops zero p e = refl
  up_stops (suc fuel) p e = ground arith

  pub up_step :
      (fuel p : ℕ) (e : List ℕ)
      → 1 < n
      → 0 < fuel
      → iq_bubble_up cmp n fuel e (suc p % n) (p % n) ≡ (
          if is_lt (cmp (get_or e (suc p % n) 0) (get_or e (p % n) 0))
          then (iq_swap e (p % n) (suc p % n), p % n)
          else (e, suc p % n))
  unfolding iq_bubble_up
  up_step zero p e h k = elim k [ ]
  up_step (suc fuel) p e h k =
      let go = λ (x : ℕ) (c : Bool) (rest : List ℕ × ℕ).
        if not c && is_lt (cmp (get_or e (suc p % n) 0) (get_or e x 0))
        then rest
        else (e, suc p % n) in
      let far : suc p % n == p % n ≡ false = (let a = next_apart n p h in ground (arith, a)) in
      ap
        (λ x.
          go x (suc p % n == p % n) (iq_bubble_up cmp n fuel (iq_swap e x (suc p % n)) x (p % n)))
        (prev_slot n p (omega arith))
      ∙ ap
          (λ c.
            go (p % n) c (iq_bubble_up cmp n fuel (iq_swap e (p % n) (suc p % n)) (p % n) (p % n)))
          far
      ∙ ap (go (p % n) false) (up_stops fuel p (iq_swap e (p % n) (suc p % n)))
