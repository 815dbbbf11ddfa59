-- ===== src/Util/IQueue/Insertion.antt =====
-- Insertion sort on lists, which h2_iq_sort of mod_http2/h2_util.c does on the entries from the last
-- one on.
use Prim.Native.Nat.{Ordering}
use mathlib.Core.List.{Perm}
use mathlib.Core.List.Perm
use mod_h.Prelude.{
  ℕ, ◌≡◌, refl, sym, ap, ◌∙◌, Bool, true, false, not, ◌&&◌, if◌then◌else◌, if-both, List, [], ◌∷◌,
  ◌++◌, arith,
}
use mod_h.Util.IQueue.{Cmp, is_lt, is_gt}

module _ (cmp : Cmp) where
  -- Where an entry goes that is above the first one, or may be.
  abbrev pub insert_down : ℕ → List ℕ → List ℕ
  insert_down x [] = x ∷ []
  insert_down x (y ∷ ys) =
      let rest = insert_down x ys in if is_gt (cmp x y) then y ∷ rest else x ∷ y ∷ ys

  abbrev pub insert : ℕ → List ℕ → List ℕ
  insert x [] = x ∷ []
  insert x (y ∷ ys) = if is_lt (cmp y x) then y ∷ insert_down x ys else x ∷ y ∷ ys

  -- The first entries go into the others, the last one of them first.
  abbrev pub insert_all : List ℕ → List ℕ → List ℕ
  insert_all [] ys = ys
  insert_all (x ∷ xs) ys = insert x (insert_all xs ys)

  pub insert_all-snoc :
      (xs : List ℕ) (x : ℕ) (ys : List ℕ)
      → insert_all (xs ++ x ∷ []) ys ≡ insert_all xs (insert x ys)
  insert_all-snoc [] x ys = refl
  insert_all-snoc (z ∷ xs) x ys = ap (insert z) (insert_all-snoc xs x ys)

  -- No entry is above the next one.
  abbrev pub starts_above : ℕ → List ℕ → Bool
  starts_above x [] = false
  starts_above x (y ∷ ys) = is_gt (cmp x y)

  abbrev pub is_sorted : List ℕ → Bool
  is_sorted [] = true
  is_sorted (x ∷ xs) = not (starts_above x xs) && is_sorted xs

  insert_down-Perm : (x : ℕ) (ys : List ℕ) → Perm (insert_down x ys) (x ∷ ys)
  insert_down-Perm x [] = Perm.refl (x ∷ [])
  insert_down-Perm x (y ∷ ys) =
      if-both (λ l. Perm l (x ∷ y ∷ ys)) (is_gt (cmp x y)) (y ∷ insert_down x ys) (x ∷ y ∷ ys)
        (λ t. Perm.trans (Perm.cons y (insert_down-Perm x ys)) (Perm.swap x y ys))
        (λ f. Perm.refl (x ∷ y ∷ ys))

  insert-Perm : (x : ℕ) (ys : List ℕ) → Perm (insert x ys) (x ∷ ys)
  insert-Perm x [] = Perm.refl (x ∷ [])
  insert-Perm x (y ∷ ys) =
      if-both (λ l. Perm l (x ∷ y ∷ ys)) (is_lt (cmp y x)) (y ∷ insert_down x ys) (x ∷ y ∷ ys)
        (λ t. Perm.trans (Perm.cons y (insert_down-Perm x ys)) (Perm.swap x y ys))
        (λ f. Perm.refl (x ∷ y ∷ ys))

  pub insert_all-Perm : (xs : List ℕ) (ys : List ℕ) → Perm (insert_all xs ys) (xs ++ ys)
  insert_all-Perm [] ys = Perm.refl ys
  insert_all-Perm (x ∷ xs) ys =
      Perm.trans (insert-Perm x (insert_all xs ys)) (Perm.cons x (insert_all-Perm xs ys))

  module _ (law : (a b : ℕ) → is_lt (cmp a b) ≡ is_gt (cmp b a)) where
    lt_not_gt : (o : Ordering) → is_lt o ≡ true → is_gt o ≡ false
    lt_not_gt Ordering.lt h = refl
    lt_not_gt Ordering.eq h = refl
    lt_not_gt Ordering.gt h = sym h

    -- What is put behind an entry that is not above it leaves that entry in order.
    starts-insert_down :
        (y x : ℕ) (ys : List ℕ)
        → is_gt (cmp y x) ≡ false
        → starts_above y ys ≡ false
        → starts_above y (insert_down x ys) ≡ false
    starts-insert_down y x [] h k = h
    starts-insert_down y x (z ∷ ys) h k =
        if-both (λ l. starts_above y l ≡ false) (is_gt (cmp x z)) (z ∷ insert_down x ys)
          (x ∷ z ∷ ys) (λ t. k) (λ f. h)

    insert_down-sorted :
        (x : ℕ) (ys : List ℕ) → is_sorted ys ≡ true → is_sorted (insert_down x ys) ≡ true
    insert_down-sorted x [] h = refl
    insert_down-sorted x (y ∷ ys) h =
        if-both (λ l. is_sorted l ≡ true) (is_gt (cmp x y)) (y ∷ insert_down x ys) (x ∷ y ∷ ys)
          (λ t.
            let e =
              starts-insert_down y x ys (lt_not_gt (cmp y x) (law y x ∙ t)) (ground (arith, h)) in
            let r = insert_down-sorted x ys (ground (arith, h)) in ground (arith, e, r))
          (λ f. ground (arith, f, h))

    insert-sorted : (x : ℕ) (ys : List ℕ) → is_sorted ys ≡ true → is_sorted (insert x ys) ≡ true
    insert-sorted x [] h = refl
    insert-sorted x (y ∷ ys) h =
        if-both (λ l. is_sorted l ≡ true) (is_lt (cmp y x)) (y ∷ insert_down x ys) (x ∷ y ∷ ys)
          (λ t.
            let e = starts-insert_down y x ys (lt_not_gt (cmp y x) t) (ground (arith, h)) in
            let r = insert_down-sorted x ys (ground (arith, h)) in ground (arith, e, r))
          (λ f. let g = sym (law y x) ∙ f in ground (arith, g, h))

    pub insert_all-sorted :
        (xs : List ℕ) (ys : List ℕ) → is_sorted ys ≡ true → is_sorted (insert_all xs ys) ≡ true
    insert_all-sorted [] ys h = h
    insert_all-sorted (x ∷ xs) ys h = insert-sorted x (insert_all xs ys) (insert_all-sorted xs ys h)
