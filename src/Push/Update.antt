-- ===== src/Push/Update.antt =====
-- h2_push_diary_update over a list of pushes: mod_http2/h2_push.c.
use mod_h.Prelude.{
  ℕ, zero, suc, ◌+◌, ◌≤◌, ◌<◌, ◌≡◌, ◌≢◌, refl, sym, ap, ap₂, subst, ◌∙◌, false, Option, none, some,
  List, [], ◌∷◌, ◌++◌, map, length, arith, append_assoc, append-nil, is_elem, if◌then◌else◌,
}
use native.Mathlib.Nat.{zero-add, add-zero}
use mod_h.Push.Diary.{
  Diary, h2_push_diary_find, h2_push_diary_append, update_round, update_all, entries_from, entries,
}
use mod_h.Push.Order.{
  find_lem, append_room, append_room-nelts, move_to_last-nelts, move_to_last-n, move_to_last-above,
  append-n, append-nelts, append-above,
}

-- A diary that keeps its limits against another: the number of entries is within the limit, which
-- is the same, has not gone down, and the memory above the limit is the same.
pub record Kept (d d' : Diary) : Type 0 where
  pub within : d'.nelts ≤ d.n
  pub same : d'.n ≡ d.n
  pub grown : d.nelts ≤ d'.nelts
  pub above : (j : ℕ) → d.n < j → d'.slots j ≡ d.slots j

Kept-trans : (d d' d'' : Diary) → Kept d d' → Kept d' d'' → Kept d d''
Kept-trans d d' d'' a b = record {
  within = omega (arith, a.same, b.within);
  same = b.same ∙ a.same;
  grown = omega (arith, a.grown, b.grown);
  above = λ j l. b.above j (omega (arith, a.same)) ∙ a.above j l;
}

update_round-Kept :
    (d : Diary) (found : Option ℕ) (h : ℕ) → d.nelts ≤ d.n → Kept d (update_round d found h).0
unfolding update_round
update_round-Kept d none h l = record {
  within = (append-nelts d h l).0;
  same = append-n d h;
  grown = (append-nelts d h l).1;
  above = λ j m. append-above d h j l m;
}
update_round-Kept d (some i) h l = record {
  within = omega (arith, move_to_last-nelts d i);
  same = move_to_last-n d i;
  grown = omega (arith, move_to_last-nelts d i);
  above = λ j m. move_to_last-above d i j (omega arith);
}

module _ {P : Type 0} (dcalc : Diary → P → ℕ) where
  -- However many pushes pass through it, a diary keeps its limit: it never holds more entries than
  -- N, never fewer than before, and writes at most one slot behind the Nth. Condition: it kept the
  -- limit before.
  pub update_all-Kept : (d : Diary) (ps : List P) → d.nelts ≤ d.n → Kept d (update_all dcalc d ps).0
  unfolding update_all
  update_all-Kept d [] l = record {
    within = l;
    same = refl;
    grown = omega arith;
    above = λ j m. refl;
  }
  update_all-Kept d (p ∷ ps) l =
      Kept-trans d d1 (update_all dcalc d1 ps).0 k
        (update_all-Kept d1 ps (omega (arith, k.within, k.same)))
    where
      d1 : Diary
      d1 = (update_round d (h2_push_diary_find d (dcalc d p)) (dcalc d p)).0

      k : Kept d d1
      k = update_round-Kept d (h2_push_diary_find d (dcalc d p)) (dcalc d p) l

map-ext : {A B : Type 0} (f g : A → B) → ((a : A) → f a ≡ g a) → (xs : List A) → map f xs ≡ map g xs
map-ext f g e [] = refl
map-ext f g e (x ∷ xs) = ap₂ ◌∷◌ (e x) (map-ext f g e xs)

-- Hashes that the list does not hold, each another.
abbrev pub Fresh : List ℕ → List ℕ → Type 0
Fresh es [] = Unit
Fresh es (h ∷ hs) = (is_elem h es ≡ false) × Fresh (es ++ h ∷ []) hs

is_elem-entries_from :
    (slots : ℕ → ℕ) (h i k : ℕ)
    → is_elem h (entries_from slots i k) ≡ false
    → (j : ℕ) → j < k
    → slots (i + j) ≢ h
unfolding entries_from
is_elem-entries_from slots h i zero e j l = elim l [ ]
is_elem-entries_from slots h i (suc k) e zero l = λ q. ground (arith, e, ap slots (add-zero i), q)
is_elem-entries_from slots h i (suc k) e (suc j) l = λ q.
    is_elem-entries_from slots h (suc i) k (ground (arith, e)) j (omega arith)
      (ap slots (omega arith) ∙ q)

find-none : (d : Diary) (h : ℕ) → is_elem h (entries d) ≡ false → h2_push_diary_find d h ≡ none
find-none d h e =
    (find_lem d h).1
      (λ j l q. is_elem-entries_from d.slots h 0 d.nelts e j l (ap d.slots (zero-add j) ∙ q))

module _ {P : Type 0} (dcalc : Diary → P → ℕ) where
  -- Pushes with new hashes, each another, all go out in their order, and the diary holds their
  -- hashes behind its entries, in the same order. Conditions: there is room for all of them, and
  -- the hash of a push depends on nothing of the diary but the relevant bits.
  pub update_new :
      (d : Diary) (ps : List P)
      → ((a b : Diary) (p : P) → a.mask_bits ≡ b.mask_bits → dcalc a p ≡ dcalc b p)
      → d.nelts + length ps ≤ d.n
      → Fresh (entries d) (map (dcalc d) ps)
      → ((update_all dcalc d ps).1 ≡ ps)
        × (entries (update_all dcalc d ps).0 ≡ entries d ++ map (dcalc d) ps)
  unfolding update_all update_round
  update_new d [] c l f = (refl, sym (append-nil (entries d)))
  update_new d (p ∷ ps) c l f = step (
      update_new d1 ps c (omega (arith, kept.0, append-n d (dcalc d p))) (
        subst (λ es. Fresh es (map (dcalc d1) ps)) (sym held)
          (subst (Fresh (entries d ++ dcalc d p ∷ [])) (sym hashes) f.1)))
    where
      Goal : Option ℕ → Type 0
      Goal o =
          let x = update_round d o (dcalc d p) in
          ((if x.1 then p ∷ (update_all dcalc x.0 ps).1 else (update_all dcalc x.0 ps).1) ≡ p ∷ ps)
          × (entries (update_all dcalc x.0 ps).0 ≡ entries d ++ dcalc d p ∷ map (dcalc d) ps)

      d1 : Diary
      d1 = h2_push_diary_append d (dcalc d p)

      held : entries d1 ≡ entries d ++ dcalc d p ∷ []
      held = append_room d (dcalc d p) (omega arith)

      kept : (d1.nelts ≡ suc d.nelts) × (d1.mask_bits ≡ d.mask_bits)
      kept = append_room-nelts d (dcalc d p) (omega arith)

      hashes : map (dcalc d1) ps ≡ map (dcalc d) ps
      hashes = map-ext (dcalc d1) (dcalc d) (λ q. c d1 d q kept.1) ps

      step :
          ((update_all dcalc d1 ps).1 ≡ ps)
            × (entries (update_all dcalc d1 ps).0 ≡ entries d1 ++ map (dcalc d1) ps)
          → Goal (h2_push_diary_find d (dcalc d p))
      step rest = subst Goal (sym (find-none d (dcalc d p) f.0)) (
        ap (◌∷◌ p) rest.0,
        rest.1
            ∙ ap₂ ◌++◌ held hashes
            ∙ append_assoc (entries d) (dcalc d p ∷ []) (map (dcalc d) ps),
      )
