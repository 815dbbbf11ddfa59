-- ===== src/Ring.antt =====
-- The circular arrays of mod_http2/h2_util.c: a `head`, a number of entries and an array that is
-- indexed modulo its size. What h2_iqueue, h2_fifo and h2_ififo share.
use mod_h.Prelude.{
  ℕ, zero, suc, ◌+◌, ◌-◌, ◌%◌, ◌<◌, ◌≡◌, ◌≢◌, refl, sym, ap, ap₂, ◌∙◌, List, [], ◌∷◌, ◌++◌, arith,
  append_assoc, length, length-append, get_or, set, get_or-set_self, get_or-set_ne, mod_injective,
  mod_lt, mod-suc-mod,
}
use native.Mathlib.Nat.{mod-eq_of_lt, zero-add, add-zero, suc-add}

-- The slot behind a window that leaves room is outside it.
pub behind_outside : (n p k : ℕ) → k < n → (j : ℕ) → j < k → (p + k) % n ≢ (p + j) % n
behind_outside n p k h j lt q =
    omega (arith, mod_injective (p + j) (k - j) n (omega arith) (ap (λ i. i % n) (omega arith) ∙ q))

once : (n : ℕ) → 0 < n → n % n ≡ 0 % n
once n h = grind arith

module _ {ℓ} {A : Type ℓ} (d : A) where
  -- The `k` entries from position `p` on, in an array of `n` slots. A read out of bounds is `d`.
  unfoldable pub window : List A → ℕ → ℕ → ℕ → List A
  window e n p zero = []
  window e n p (suc k) = get_or e (p % n) d ∷ window e n (suc p) k

  pub length-window : (e : List A) (n p k : ℕ) → length (window e n p k) ≡ k
  unfolding window
  length-window e n p zero = refl
  length-window e n p (suc k) = ap suc (length-window e n (suc p) k)

  -- A window depends on its start modulo the size.
  pub window-mod : (e : List A) (n p q k : ℕ) → p % n ≡ q % n → window e n p k ≡ window e n q k
  unfolding window
  window-mod e n p q zero h = refl
  window-mod e n p q (suc k) h =
      rw h (ap (◌∷◌ (get_or e (q % n) d)) (window-mod e n (suc p) (suc q) k (next h)))
    where
      next : p % n ≡ q % n → suc p % n ≡ suc q % n
      next h = sym (mod-suc-mod p n) ∙ ap (λ r. suc r % n) h ∙ mod-suc-mod q n

  -- The last entry of a window.
  pub window-snoc :
      (e : List A) (n p k : ℕ)
      → window e n p (suc k) ≡ window e n p k ++ get_or e ((p + k) % n) d ∷ []
  unfolding window
  window-snoc e n p zero = ap (λ i. get_or e (i % n) d ∷ []) (omega arith)
  window-snoc e n p (suc k) = ap (◌∷◌ (get_or e (p % n) d)) (
      window-snoc e n (suc p) k
      ∙ ap (λ i. window e n (suc p) k ++ get_or e (i % n) d ∷ []) (omega arith))

  -- A write at a slot that the window does not hold leaves it.
  pub window-set_outside :
      (e : List A) (n p k a : ℕ) (v : A)
      → ((j : ℕ) → j < k → a ≢ (p + j) % n)
      → window (set e a v) n p k ≡ window e n p k
  unfolding window
  window-set_outside e n p zero a v h = refl
  window-set_outside e n p (suc k) a v h =
      rw
        (get_or-set_ne e a (p % n) v d (λ q. h 0 (omega arith) (q ∙ ap (λ i. i % n) (omega arith))))
        (ap (◌∷◌ (get_or e (p % n) d)) (
          window-set_outside e n (suc p) k a v
            (λ j lt q. h (suc j) (omega arith) (q ∙ ap (λ i. i % n) (omega arith)))))

  -- Writing behind the last entry appends.
  pub window-set_behind :
      (e : List A) (n p k : ℕ) (v : A)
      → length e ≡ n
      → k < n
      → window (set e ((p + k) % n) v) n p (suc k) ≡ window e n p k ++ v ∷ []
  window-set_behind e n p k v l h = rw (window-snoc (set e ((p + k) % n) v) n p k) (
      rw (window-set_outside e n p k ((p + k) % n) v (behind_outside n p k h))
        (rw (get_or-set_self e ((p + k) % n) v d (rw l (mod_lt (p + k) n (omega arith))))))

  length-snoc : (pre : List A) (x : A) → length (pre ++ x ∷ []) ≡ suc (length pre)
  length-snoc pre x = omega (arith, length-append pre (x ∷ []))

  get_or-length : (pre e : List A) (x : A) → get_or (pre ++ x ∷ e) (length pre) d ≡ x
  get_or-length [] e x = refl
  get_or-length (y ∷ pre) e x = get_or-length pre e x

  -- A window in two parts.
  pub window-add :
      (e : List A) (n p j k : ℕ) → window e n p (j + k) ≡ window e n p j ++ window e n (p + j) k
  unfolding window
  window-add e n p zero k =
      ap (window e n p) (zero-add k) ∙ ap (λ q. window e n q k) (sym (add-zero p))
  window-add e n p (suc j) k =
      ap (window e n p) (suc-add j k)
      ∙ ap (◌∷◌ (get_or e (p % n) d)) (
          window-add e n (suc p) j k
          ∙ ap (λ q. window e n (suc p) j ++ window e n q k) (omega arith))

  -- Read from a slot on, without wrapping, a window is the rest of the array.
  window_rest :
      (pre e : List A) (n : ℕ)
      → n ≡ length pre + length e
      → window (pre ++ e) n (length pre) (length e) ≡ e
  unfolding window
  window_rest pre [] n h = refl
  window_rest pre (x ∷ e) n h = rw (mod-eq_of_lt {n = length pre} {m = n} (omega arith)) (
      rw (get_or-length pre e x) (
        ap (◌∷◌ x) (
          ap (λ l. window l n (suc (length pre)) (length e)) (sym (append_assoc pre (x ∷ []) e))
          ∙ ap (λ k. window ((pre ++ x ∷ []) ++ e) n k (length e)) (sym (length-snoc pre x))
          ∙ window_rest (pre ++ x ∷ []) e n (omega (arith, length-snoc pre x, h)))))

  -- The window of all slots from slot 0 on is the array.
  pub window_whole : (e : List A) → window e (length e) 0 (length e) ≡ e
  window_whole e = window_rest [] e (length e) (omega arith)

  -- The window of all slots, from any slot on, is the array with its parts exchanged.
  pub window_rotation :
      (e : List A) (n p : ℕ)
      → length e ≡ n
      → p < n
      → (xs : List A) × (ys : List A) × (window e n p n ≡ xs ++ ys)
        × (e ≡ ys ++ xs)
        × (length ys ≡ p)
  window_rotation e n p l h = (
    window e n p (n - p),
    window e n 0 p,
    ap (window e n p) (omega arith)
        ∙ window-add e n p (n - p) p
        ∙ ap (◌++◌ (window e n p (n - p))) (window-mod e n (p + (n - p)) 0 p around),
    sym (window_whole e)
        ∙ ap₂ (λ m k. window e m 0 k) l (l ∙ omega arith)
        ∙ window-add e n 0 p (n - p)
        ∙ ap (λ q. window e n 0 p ++ window e n q (n - p)) (zero-add p),
    length-window e n 0 p,
  )
    where
      around : (p + (n - p)) % n ≡ 0 % n
      around = ap (λ k. k % n) (omega arith) ∙ once n (omega arith)
