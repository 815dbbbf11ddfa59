-- ===== src/Push/Forgotten.antt =====
-- What h2_push_diary_update forgets, since move_to_last moves an entry behind the last one:
-- mod_http2/h2_push.c.
use mod_h.Prelude.{
  ℕ, zero, suc, ◌≤◌, ◌<◌, ◌≡◌, ◌≢◌, refl, sym, ap, subst, ◌∙◌, ◌⊎◌, inl, inr, Option, none, some,
  List, [], ◌∷◌, arith, if◌then◌else◌,
}
use mod_h.Push.Diary.{
  Diary, find_below, h2_push_diary_find, move_to_last, h2_push_diary_append, update_round,
  update_all,
}
use mod_h.Push.Order.{find_lem, move_to_last-nelts}

find_below_only :
    (slots : ℕ → ℕ) (h k i : ℕ)
    → i < k
    → slots i ≡ h
    → ((j : ℕ) → j < k → j ≢ i → slots j ≢ h)
    → find_below slots h k ≡ some i
unfolding find_below
find_below_only slots h zero i l e f = elim l [ ]
find_below_only slots h (suc k) i l e f = elim (Nat-lt_or_eq k i l) [
  | inl lt ↦ ground (
    arith,
    f k (omega arith) (omega arith),
    find_below_only slots h k i lt e (λ j m. f j (omega arith)),
  )
  | inr q ↦ ground (arith, ap slots q, e, q)
]
  where
    Nat-lt_or_eq : (k i : ℕ) → i < suc k → (i < k) ⊎ (k ≡ i)
    Nat-lt_or_eq k i l = ground arith

find-only :
    (d : Diary) (h i : ℕ)
    → i < d.nelts
    → d.slots i ≡ h
    → ((j : ℕ) → j < d.nelts → j ≢ i → d.slots j ≢ h)
    → h2_push_diary_find d h ≡ some i
unfolding h2_push_diary_find
find-only d h i l e f = find_below_only d.slots h d.nelts i l e f

-- An entry that is moved is not among the entries any more, when it stood there once.
moved-Gone :
    (d : Diary) (h i : ℕ)
    → suc i < d.nelts
    → ((j : ℕ) → j ≤ d.nelts → j ≢ i → d.slots j ≢ h)
    → (j : ℕ) → j < d.nelts
    → (move_to_last d i).slots j ≢ h
unfolding move_to_last
moved-Gone d h i l f j m q = elim (leb_cases i j) [
  | inl a ↦ f (suc j) (omega arith) (omega arith) (ground (arith, a, q))
  | inr b ↦ f j (omega arith) (omega arith) (ground (arith, b, q))
]
  where
    leb_cases : (i j : ℕ) → (i ≤ j) ⊎ (j < i)
    leb_cases i j = ground arith

full_append-Gone :
    (d : Diary) (h : ℕ)
    → d.n ≤ d.nelts
    → 1 < d.nelts
    → ((j : ℕ) → j ≤ d.nelts → d.slots j ≢ h)
    → (j : ℕ) → j < (h2_push_diary_append d h).nelts
    → (h2_push_diary_append d h).slots j ≢ h
unfolding h2_push_diary_append move_to_last
full_append-Gone d h a b f j m q = f (suc j) (ground (arith, m, a, b)) (ground (arith, m, a, b, q))

move_to_last-mask : (d : Diary) (i : ℕ) → (move_to_last d i).mask_bits ≡ d.mask_bits
unfolding move_to_last
move_to_last-mask d i = ground arith

append-mask : (d : Diary) (e : ℕ) → (h2_push_diary_append d e).mask_bits ≡ d.mask_bits
unfolding h2_push_diary_append
append-mask d e = ground (arith, move_to_last-mask d 0)

module _ {P : Type 0} (dcalc : Diary → P → ℕ) where
  update_hit :
      (d : Diary) (p : P) (ps : List P) (i : ℕ)
      → h2_push_diary_find d (dcalc d p) ≡ some i
      → (update_all dcalc d (p ∷ ps)).1 ≡ (update_all dcalc (move_to_last d i) ps).1
  unfolding update_all update_round
  update_hit d p ps i e = subst Goal (sym e) refl
    where
      Goal : Option ℕ → Type 0
      Goal o =
          let x = update_round d o (dcalc d p) in
          (if x.1 then p ∷ (update_all dcalc x.0 ps).1 else (update_all dcalc x.0 ps).1)
          ≡ (update_all dcalc (move_to_last d i) ps).1

  update_miss :
      (d : Diary) (p : P) (ps : List P)
      → h2_push_diary_find d (dcalc d p) ≡ none
      → (update_all dcalc d (p ∷ ps)).1
        ≡ p ∷ (update_all dcalc (h2_push_diary_append d (dcalc d p)) ps).1
  unfolding update_all update_round
  update_miss d p ps e = subst Goal (sym e) refl
    where
      Goal : Option ℕ → Type 0
      Goal o =
          let x = update_round d o (dcalc d p) in
          (if x.1 then p ∷ (update_all dcalc x.0 ps).1 else (update_all dcalc x.0 ps).1)
          ≡ p ∷ (update_all dcalc (h2_push_diary_append d (dcalc d p)) ps).1

  no_pushes : (d : Diary) → (update_all dcalc d []).1 ≡ []
  unfolding update_all
  no_pushes d = refl

  -- A resource that the diary holds, but not as its last entry, is held back once and then
  -- forgotten: of two pushes of it one goes out. Conditions: its hash is that of one entry and not
  -- of what stands behind the last entry, and the hash of a push depends on the relevant bits of
  -- the diary only.
  pub known_forgotten :
      (d : Diary) (p : P) (i : ℕ)
      → ((a b : Diary) → a.mask_bits ≡ b.mask_bits → dcalc a p ≡ dcalc b p)
      → suc i < d.nelts
      → d.slots i ≡ dcalc d p
      → ((j : ℕ) → j ≤ d.nelts → j ≢ i → d.slots j ≢ dcalc d p)
      → (update_all dcalc d (p ∷ p ∷ [])).1 ≡ p ∷ []
  known_forgotten d p i c l e f =
      update_hit d p (p ∷ []) i
        (find-only d (dcalc d p) i (omega arith) e (λ j m. f j (omega arith)))
      ∙ update_miss m p [] (
          (find_lem m (dcalc m p)).1 (λ j lt q.
            moved-Gone d (dcalc d p) i l f j (omega (arith, lt, move_to_last-nelts d i))
              (q ∙ c m d (move_to_last-mask d i))))
      ∙ ap (◌∷◌ p) (no_pushes (h2_push_diary_append m (dcalc m p)))
    where
      m : Diary
      m = move_to_last d i

  -- A full diary does not remember a new resource: it is pushed again the next time. Conditions:
  -- the diary holds as many entries as it may, at least two, the hash is of none of them nor of what
  -- stands behind the last, and the hash of a push depends on the relevant bits only.
  pub full_forgets :
      (d : Diary) (p : P)
      → ((a b : Diary) → a.mask_bits ≡ b.mask_bits → dcalc a p ≡ dcalc b p)
      → d.n ≤ d.nelts
      → 1 < d.nelts
      → ((j : ℕ) → j ≤ d.nelts → d.slots j ≢ dcalc d p)
      → (update_all dcalc d (p ∷ p ∷ [])).1 ≡ p ∷ p ∷ []
  full_forgets d p c a b f =
      update_miss d p (p ∷ []) ((find_lem d (dcalc d p)).1 (λ j l. f j (omega arith)))
      ∙ ap (◌∷◌ p) (
          update_miss m p [] (
            (find_lem m (dcalc m p)).1 (λ j lt q.
              full_append-Gone d (dcalc d p) a b f j lt (q ∙ c m d (append-mask d (dcalc d p)))))
          ∙ ap (◌∷◌ p) (no_pushes (h2_push_diary_append m (dcalc m p))))
    where
      m : Diary
      m = h2_push_diary_append d (dcalc d p)
