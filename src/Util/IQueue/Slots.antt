-- ===== src/Util/IQueue/Slots.antt =====
-- Slots of the circular array of h2_iqueue, mod_http2/h2_util.c: neighbours, and swaps of two.
use mod_h.Prelude.{
  ℕ, zero, suc, ◌+◌, ◌-◌, ◌%◌, ◌≤◌, ◌<◌, ◌≡◌, ◌≢◌, refl, sym, ap, ap₂, ◌∙◌, List, ◌∷◌, arith,
  length, length-set, get_or, set, get_or-set_self, get_or-set_ne,
}
use native.Mathlib.Nat.{mod-add-mod}
use mod_h.Ring.{window, behind_outside}
use mod_h.Util.IQueue.{iq_swap}

-- A slot that is not among the `k` from position `p` on.
abbrev pub Outside : ℕ → ℕ → ℕ → ℕ → Type 0
Outside n p k a = (j : ℕ) → j < k → a ≢ (p + j) % n

-- Two arrays of `n` slots that differ in `k` slots from `p` on at most.
pub record Within (n p k : ℕ) (e e' : List ℕ) : Type 0 where
  pub sized : length e' ≡ n
  pub same : (a : ℕ) → Outside n p k a → get_or e' a 0 ≡ get_or e a 0

pub window_same :
    (e e' : List ℕ) (n p k : ℕ)
    → ((j : ℕ) → j < k → get_or e' ((p + j) % n) 0 ≡ get_or e ((p + j) % n) 0)
    → window 0 e' n p k ≡ window 0 e n p k
unfolding window
window_same e e' n p zero h = refl
window_same e e' n p (suc k) h =
    ap₂ ◌∷◌
      (ap (λ i. get_or e' (i % n) 0) (omega arith)
        ∙ h 0 (omega arith)
        ∙ ap (λ i. get_or e (i % n) 0) (omega arith))
      (window_same e e' n (suc p) k (λ j lt.
        ap (λ i. get_or e' (i % n) 0) (omega arith)
        ∙ h (suc j) (omega arith)
        ∙ ap (λ i. get_or e (i % n) 0) (omega arith)))

-- The slot in front of others is not among them.
pub front_outside : (n p k : ℕ) → suc k ≤ n → Outside n (suc p) k (p % n)
front_outside n p k h j lt q =
    behind_outside n p (suc j) (omega arith) 0 (omega arith)
      (ap (λ i. i % n) (omega arith) ∙ sym q ∙ ap (λ i. i % n) (omega arith))

pub outside_front : (n p k a : ℕ) → Outside n p (suc k) a → a ≢ p % n
outside_front n p k a o q = o 0 (omega arith) (q ∙ ap (λ i. i % n) (omega arith))

pub outside_rest : (n p k a : ℕ) → Outside n p (suc k) a → Outside n (suc p) k a
outside_rest n p k a o j lt q = o (suc j) (omega arith) (q ∙ ap (λ i. i % n) (omega arith))

module _ (e : List ℕ) (i j : ℕ) (apart : j ≢ i) (i_in : i < length e) (j_in : j < length e) where
  pub length-iq_swap : length (iq_swap e i j) ≡ length e
  unfolding iq_swap
  length-iq_swap =
      length-set (set e i (get_or e j 0)) j (get_or e i 0) ∙ length-set e i (get_or e j 0)

  pub swap_first : get_or (iq_swap e i j) i 0 ≡ get_or e j 0
  unfolding iq_swap
  swap_first =
      get_or-set_ne (set e i (get_or e j 0)) j i (get_or e i 0) 0 apart
      ∙ get_or-set_self e i (get_or e j 0) 0 i_in

  pub swap_second : get_or (iq_swap e i j) j 0 ≡ get_or e i 0
  unfolding iq_swap
  swap_second =
      get_or-set_self (set e i (get_or e j 0)) j (get_or e i 0) 0
        (rw (length-set e i (get_or e j 0)) j_in)

  pub swap_other : (a : ℕ) → a ≢ i → a ≢ j → get_or (iq_swap e i j) a 0 ≡ get_or e a 0
  unfolding iq_swap
  swap_other a p q =
      get_or-set_ne (set e i (get_or e j 0)) j a (get_or e i 0) 0 (λ s. q (sym s))
      ∙ get_or-set_ne e i a (get_or e j 0) 0 (λ s. p (sym s))

pub add_round : (x n : ℕ) → (x + n) % n ≡ x % n
add_round x n = grind arith

pub next_slot : (n p : ℕ) → (n + p % n + 1) % n ≡ suc p % n
next_slot n p =
    ap (λ i. i % n) (omega arith)
    ∙ mod-add-mod p n (suc n)
    ∙ ap (λ i. i % n) (omega arith)
    ∙ add_round (suc p) n

pub prev_slot : (n p : ℕ) → 0 < n → (n + suc p % n - 1) % n ≡ p % n
prev_slot zero p h = elim h [ ]
prev_slot (suc n) p h =
    ap (λ i. i % suc n) (omega arith)
    ∙ mod-add-mod (suc p) (suc n) n
    ∙ ap (λ i. i % suc n) (omega arith)
    ∙ add_round p (suc n)

pub Within-refl : (n p k : ℕ) (e : List ℕ) → length e ≡ n → Within n p k e e
Within-refl n p k e l = record { sized = l; same = λ a o. refl }

pub slots_apart : (n p r : ℕ) → suc r < n → p % n ≢ (p + suc r) % n
slots_apart n p r h q =
    behind_outside n p (suc r) h 0 (omega arith) (sym q ∙ ap (λ i. i % n) (omega arith))

pub next_apart : (n p : ℕ) → 1 < n → p % n ≢ suc p % n
next_apart n p h q = slots_apart n p 0 h (q ∙ ap (λ i. i % n) (omega arith))
