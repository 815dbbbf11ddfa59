-- ===== src/Util/IQueue/Settling.antt =====
-- A round of h2_iq_sort, mod_http2/h2_util.c: one more entry among those in order at the end.
use mod_h.Prelude.{
  ℕ, suc, ◌+◌, ◌%◌, ◌<◌, ◌≡◌, refl, sym, ap, subst, ◌∙◌, Bool, true, false, if◌then◌else◌, if-both,
  List, arith, length, get_or, ◌==◌,
}
use mod_h.Ring.{window}
use mod_h.Util.IQueue.{Cmp, is_lt, iq_swap, iq_bubble_up, iq_bubble_down, settle}
use mod_h.Util.IQueue.Insertion.{insert}
use mod_h.Util.IQueue.Slots.{Within, prev_slot, Within-refl, next_apart}
use mod_h.Util.IQueue.Bubbles.{further_lists, further_Within, down_lem, up_step, up_Swapped}

module _ (cmp : Cmp) (n : ℕ) where
  -- The entry of the first slot has gone to its place among the ones behind it.
  pub record Placed (p r : ℕ) (e e' : List ℕ) : Type 0 where
    pub lists :
        window 0 e' n p (suc (suc r))
        ≡ insert cmp (get_or e (p % n) 0) (window 0 e n (suc p) (suc r))
    pub within : Within n p (suc (suc r)) e e'

  settle_step :
      (p r : ℕ) (e : List ℕ)
      → suc r < n
      → settle cmp n ((suc p + r) % n) e (suc p % n) ≡ (
          if is_lt (cmp (get_or e (suc p % n) 0) (get_or e (p % n) 0))
          then (iq_bubble_down cmp n n
              (iq_swap e (p % n) (suc p % n))
              (suc p % n)
              ((suc p + r) % n)).0
          else e)
  unfolding settle
  settle_step p r e h =
      ap (λ x. go x (iq_bubble_up cmp n n e (suc p % n) x)) (prev_slot n p (omega arith))
      ∙ ap (go (p % n)) (up_step cmp n n p e (omega arith) (omega arith))
      ∙ branch (is_lt (cmp (get_or e (suc p % n) 0) (get_or e (p % n) 0)))
    where
      down : List ℕ → List ℕ
      down u = (iq_bubble_down cmp n n u (suc p % n) ((suc p + r) % n)).0

      go : ℕ → List ℕ × ℕ → List ℕ
      go x u = if u.1 == x then down u.0 else u.0

      up : List ℕ
      up = iq_swap e (p % n) (suc p % n)

      far : suc p % n == p % n ≡ false
      far = let a = next_apart n p (omega arith) in ground (arith, a)

      here : p % n == p % n ≡ true
      here = ground arith

      branch :
          (b : Bool)
          → go (p % n) (if b then (up, p % n) else (e, suc p % n)) ≡ (if b then down up else e)
      branch true = ap (λ c. if c then down up else up) here
      branch false = ap (λ c. if c then down e else e) far

  pub settle_lem :
      (p r : ℕ) (e : List ℕ)
      → length e ≡ n
      → suc r < n
      → Placed p r e (settle cmp n ((suc p + r) % n) e (suc p % n))
  unfolding window
  settle_lem p r e l h =
      let lt = is_lt (cmp (get_or e (suc p % n) 0) (get_or e (p % n) 0)) in
      let up = iq_swap e (p % n) (suc p % n) in
      let w = up_Swapped cmp n p e l (omega arith) in
      let after = (iq_bubble_down cmp n n up (suc p % n) ((suc p + r) % n)).0 in
      let d = down_lem cmp n (suc p) r n up w.sized (omega arith) (omega arith) in
      subst (Placed p r e) (sym (settle_step p r e h)) (
        if-both (Placed p r e) lt after e
          (λ t. record {
            lists = rw t (further_lists cmp n p r e up after h w d);
            within = further_Within cmp n p r e up after w d.within;
          })
          (λ f. record { lists = rw f refl; within = Within-refl n p (suc (suc r)) e l }))
