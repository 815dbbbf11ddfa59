-- ===== src/Util/IQueue/Ops.antt =====
-- h2_iq_contains, h2_iq_shift and h2_iq_remove against the list of entries.
use mod_h.Prelude.{
  ℕ, zero, suc, ◌+◌, ◌-◌, ◌%◌, ◌≤◌, ◌<◌, ◌≡◌, ◌≢◌, refl, sym, ap, ap₂, ◌∙◌, inl, inr, Bool, false,
  Option, none, some, List, [], ◌∷◌, ◌++◌, arith, length, get_or, set, length-set, get_or-set_self,
  get_or-set_ne, mod_lt, is_elem, remove_first, remove_first_absent, Bool-cases, ◌==◌,
}
use native.Mathlib.Nat.{zero-add, mod-eq_of_lt}
use mod_h.Ring.{window, window-add, window-mod, window-set_outside, behind_outside}
use mod_h.Util.IQueue.{IQueue, scan, found, iq_contains, iq_remove, iq_shift, move_down, remove_at}
use mod_h.Util.IQueue.View.{view, IsValid}

-- The scan finds an id exactly when it is in the window that it walks.
scan-is_elem :
    (sid : ℕ) (e : List ℕ) (n head i k : ℕ)
    → found (scan sid e n head i k) ≡ is_elem sid (window 0 e n (head + i) k)
unfolding scan window
scan-is_elem sid e n head i zero = refl
scan-is_elem sid e n head i (suc k) =
    ground (arith, scan-is_elem sid e n head (suc i) k, ap (λ p. window 0 e n p k) (next head i))
  where
    next : (head i : ℕ) → head + suc i ≡ suc (head + i)
    next head i = omega arith

-- h2_iq_contains answers whether the id is an entry.
pub iq_contains_lem : (q : IQueue) (sid : ℕ) → iq_contains q sid ≡ is_elem sid (view q)
unfolding iq_contains
iq_contains_lem q sid =
    scan-is_elem sid q.elts q.nalloc q.head 0 q.nelts
    ∙ ap (λ p. is_elem sid (window 0 q.elts q.nalloc p q.nelts)) (omega arith)

length-move_down : (n : ℕ) (e : List ℕ) (p r : ℕ) → length (move_down n e p r) ≡ length e
unfolding move_down
length-move_down n e p zero = refl
length-move_down n e p (suc r) =
    length-move_down n (set e (p % n) (get_or e (suc p % n) 0)) (suc p) r
    ∙ length-set e (p % n) (get_or e (suc p % n) 0)

-- Moving down from the `s`-th slot on leaves the slots before it.
move_down_before :
    (n : ℕ) (e : List ℕ) (p s i r : ℕ)
    → i ≤ s
    → s + r ≤ n
    → window 0 (move_down n e (p + s) r) n p i ≡ window 0 e n p i
unfolding move_down
move_down_before n e p s i zero h l = refl
move_down_before n e p s i (suc r) h l =
    ap (λ q. window 0 (move_down n e1 q r) n p i) (omega arith)
    ∙ move_down_before n e1 p (suc s) i r (omega arith) (omega arith)
    ∙ window-set_outside 0 e n p i ((p + s) % n) (get_or e (suc (p + s) % n) 0)
        (λ j lt. behind_outside n p s (omega arith) j (omega arith))
  where
    e1 : List ℕ
    e1 = set e ((p + s) % n) (get_or e (suc (p + s) % n) 0)

move_down_slot :
    (n : ℕ) (e : List ℕ) (p s r : ℕ)
    → suc s + r ≤ n
    → get_or (move_down n e (suc p + s) r) (p % n) 0 ≡ get_or e (p % n) 0
unfolding move_down
move_down_slot n e p s zero h = refl
move_down_slot n e p s (suc r) h =
    ap (λ q. get_or (move_down n e1 q r) (p % n) 0) (omega arith)
    ∙ move_down_slot n e1 p (suc s) r (omega arith)
    ∙ get_or-set_ne e ((suc p + s) % n) (p % n) (get_or e (suc (suc p + s) % n) 0) 0 other
  where
    e1 : List ℕ
    e1 = set e ((suc p + s) % n) (get_or e (suc (suc p + s) % n) 0)

    other : (suc p + s) % n ≢ p % n
    other q =
        behind_outside n p (suc s) (omega arith) 0 (omega arith)
          (ap (λ k. k % n) (omega arith) ∙ q ∙ ap (λ k. k % n) (omega arith))

-- Moving down brings each entry one slot nearer to the head.
move_down_shifts :
    (n : ℕ) (e : List ℕ) (p r : ℕ)
    → length e ≡ n
    → r < n
    → window 0 (move_down n e p r) n p r ≡ window 0 e n (suc p) r
unfolding move_down window
move_down_shifts n e p zero l h = refl
move_down_shifts n e p (suc r) l h =
    ap₂ ◌∷◌
      (ap (λ q. get_or (move_down n e1 q r) (p % n) 0) (omega arith)
        ∙ move_down_slot n e1 p 0 r (omega arith)
        ∙ get_or-set_self e (p % n) (get_or e (suc p % n) 0) 0 (rw l (mod_lt p n (omega arith))))
      (move_down_shifts n e1 (suc p) r (length-set e (p % n) (get_or e (suc p % n) 0) ∙ l)
          (omega arith)
        ∙ window-set_outside 0 e n (suc (suc p)) r (p % n) (get_or e (suc p % n) 0) apart)
  where
    e1 : List ℕ
    e1 = set e (p % n) (get_or e (suc p % n) 0)

    apart : (j : ℕ) → j < r → p % n ≢ (suc (suc p) + j) % n
    apart j lt q =
        behind_outside n p (suc (suc j)) (omega arith) 0 (omega arith)
          (ap (λ k. k % n) (omega arith) ∙ sym q ∙ ap (λ k. k % n) (omega arith))

-- The entries `k` from `p` on, without the one at offset `m`.
abbrev Without : ℕ → List ℕ → ℕ → ℕ → ℕ → ℕ → Type 0
Without sid e n p k m =
    remove_first sid (window 0 e n p k) ≡ window 0 e n p m ++ window 0 e n (suc (p + m)) (k - suc m)

Without-suc :
    (sid : ℕ) (e : List ℕ) (n p k m : ℕ)
    → sid == get_or e (p % n) 0 ≡ false
    → m < k
    → Without sid e n (suc p) k m
    → Without sid e n p (suc k) (suc m)
unfolding window
Without-suc sid e n p k m miss lt w = rw miss (
    ap (◌∷◌ (get_or e (p % n) 0))
      (w ∙ ap₂ (λ q r. window 0 e n (suc p) m ++ window 0 e n q r) (omega arith) (omega arith)))

-- Where the scan finds the id.
scan-some :
    (sid : ℕ) (e : List ℕ) (n head i k p : ℕ) {j : ℕ}
    → p ≡ head + i
    → scan sid e n head i k ≡ some j
    → (m : ℕ) × (m < k) × (j ≡ i + m) × Without sid e n p k m
unfolding scan window
scan-some sid e n head i zero p eq h = cc
scan-some sid e n head i (suc k) p {j} eq h = elim (Bool-cases (sid == get_or e (p % n) 0)) [
  | inl hit ↦
      (0, omega arith, ground arith, rw hit (ap₂ (window 0 e n) (omega arith) (omega arith)))
  | inr miss ↦
      let (m, lt, at, w) =
        scan-some sid e n head (suc i) k (suc p) {j = j} (omega arith) (ground arith) in
      (suc m, omega arith, omega arith, Without-suc sid e n p k m miss lt w)
]

-- The queue without the entry at offset `m`.
view-remove_at :
    (q : IQueue) (m : ℕ)
    → IsValid q
    → m < q.nelts
    → view (remove_at q (some m)).0
      ≡ window 0 q.elts q.nalloc q.head m
        ++ window 0 q.elts q.nalloc (suc (q.head + m)) (q.nelts - suc m)
view-remove_at q m v h =
    ap (window 0 moved q.nalloc q.head) (omega arith)
    ∙ window-add 0 moved q.nalloc q.head m (q.nelts - suc m)
    ∙ ap₂ ◌++◌
        (move_down_before q.nalloc q.elts q.head m m (q.nelts - suc m) (omega arith)
          (omega (arith, v)))
        (move_down_shifts q.nalloc q.elts (q.head + m) (q.nelts - suc m) v.sized (omega (arith, v)))
  where
    moved : List ℕ
    moved = move_down q.nalloc q.elts (q.head + m) (q.nelts - suc m)

abbrev pub Removed : IQueue → ℕ → IQueue × Bool → Type 0
Removed q sid r =
    (view r.0 ≡ remove_first sid (view q)) × (r.1 ≡ is_elem sid (view q)) × IsValid r.0

remove_at-Removed :
    (q : IQueue) (sid : ℕ) (o : Option ℕ)
    → IsValid q
    → scan sid q.elts q.nalloc q.head 0 q.nelts ≡ o
    → Removed q sid (remove_at q o)
remove_at-Removed q sid none v e = (sym (remove_first_absent sid (view q) absent), sym absent, v)
  where
    absent : is_elem sid (view q) ≡ false
    absent = sym (iq_contains_lem q sid) ∙ unfold iq_contains in ap found e
remove_at-Removed q sid (some j) v e =
    let (m, lt, at, w) = scan-some sid q.elts q.nalloc q.head 0 q.nelts q.head (omega arith) e in
    (
      ap (λ i. view (remove_at q (some i)).0) (at ∙ zero-add m) ∙ view-remove_at q m v lt ∙ sym w,
      sym (sym (iq_contains_lem q sid) ∙ unfold iq_contains in ap found e),
      record {
        sized = length-move_down q.nalloc q.elts (q.head + j) (q.nelts - suc j) ∙ v.sized;
        head_in = v.head_in;
        fits = omega (arith, v);
      },
    )

-- h2_iq_remove takes the first entry that is the id out, leaves the order of the others, and says
-- whether there was one. The queue stays valid.
pub iq_remove_lem : (q : IQueue) (sid : ℕ) → IsValid q → Removed q sid (iq_remove q sid)
unfolding iq_remove
iq_remove_lem q sid v = remove_at-Removed q sid _ v refl

-- What h2_iq_shift does to a queue of these entries.
abbrev pub Shifted : List ℕ → IQueue → IQueue × ℕ → Type 0
Shifted [] q r = r ≡ (q, 0)
Shifted (x ∷ xs) q r = (r.1 ≡ x) × (view r.0 ≡ xs)

shift_at :
    (q : IQueue) (k : ℕ)
    → q.nelts ≡ k
    → IsValid q
    → Shifted (window 0 q.elts q.nalloc q.head k) q (iq_shift q) × IsValid (iq_shift q).0
unfolding iq_shift window
shift_at q zero e v = ground arith
shift_at q (suc k) e v = (
  (
    ground (arith, mod-eq_of_lt v.head_in),
    ap (λ r. view r.0) (nonempty e)
        ∙ ap (window 0 q.elts q.nalloc (suc q.head % q.nalloc)) (omega arith)
        ∙ window-mod 0 q.elts q.nalloc (suc q.head % q.nalloc) (suc q.head) k
            (mod-eq_of_lt (mod_lt (suc q.head) q.nalloc (omega (arith, v)))),
  ),
  ground arith,
)
  where
    nonempty :
        q.nelts ≡ suc k
        → iq_shift q
          ≡ (record q { head = suc q.head % q.nalloc; nelts = q.nelts - 1 }, get_or q.elts q.head 0)
    nonempty e = ground arith

-- h2_iq_shift takes the first entry out of a queue that has one, and else returns 0 and changes
-- nothing. The queue stays valid.
pub iq_shift_lem :
    (q : IQueue) → IsValid q → Shifted (view q) q (iq_shift q) × IsValid (iq_shift q).0
iq_shift_lem q v = shift_at q q.nelts refl v
