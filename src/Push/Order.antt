-- ===== src/Push/Order.antt =====
-- What the push diary holds after its operations: mod_http2/h2_push.c.
use mod_h.Prelude.{
  ℕ, zero, suc, ◌+◌, ◌-◌, ◌≤◌, ◌<◌, ◌≡◌, ◌≢◌, refl, sym, ap, ap₂, ◌∙◌, none, some, [], ◌∷◌, ◌++◌,
  arith, ltb, if-both,
}
use native.Mathlib.Nat.{zero-add, add-zero, suc-add}
use native.Mathlib.Numerals.{add-one}
use mod_h.Push.Diary.{
  Diary, find_below, h2_push_diary_find, put, moved_down, move_to_last, h2_push_diary_append,
  entries_from, entries,
}

pub find_below-none :
    (slots : ℕ → ℕ) (h k : ℕ) → ((j : ℕ) → j < k → slots j ≢ h) → find_below slots h k ≡ none
unfolding find_below
find_below-none slots h zero f = refl
find_below-none slots h (suc k) f =
    ground (arith, f k (omega arith), find_below-none slots h k (λ j lt. f j (omega arith)))

-- What a search that succeeds says.
pub find_below-some :
    (slots : ℕ → ℕ) (h k i : ℕ) → find_below slots h k ≡ some i → (i < k) × (slots i ≡ h)
unfolding find_below
find_below-some slots h zero i e = cc
find_below-some slots h (suc k) i e = ground (arith, find_below-some slots h k i, e)

-- h2_push_diary_find finds the entry of a hash that the diary holds, and none of another.
pub find_lem :
    (d : Diary) (h : ℕ)
    → ((i : ℕ) → h2_push_diary_find d h ≡ some i → (i < d.nelts) × (d.slots i ≡ h))
      × (((j : ℕ) → j < d.nelts → d.slots j ≢ h) → h2_push_diary_find d h ≡ none)
unfolding h2_push_diary_find
find_lem d h = (λ i e. find_below-some d.slots h d.nelts i e, find_below-none d.slots h d.nelts)

pub entries_from-ext :
    (f g : ℕ → ℕ) (i j k : ℕ)
    → ((m : ℕ) → m < k → f (i + m) ≡ g (j + m))
    → entries_from f i k ≡ entries_from g j k
unfolding entries_from
entries_from-ext f g i j zero h = refl
entries_from-ext f g i j (suc k) h =
    ap₂ ◌∷◌ (ap f (omega arith) ∙ h 0 (omega arith) ∙ ap g (omega arith)) (
      entries_from-ext f g (suc i) (suc j) k
        (λ m lt. ap f (omega arith) ∙ h (suc m) (omega arith) ∙ ap g (omega arith)))

pub entries_from-add :
    (f : ℕ → ℕ) (i j k : ℕ)
    → entries_from f i (j + k) ≡ entries_from f i j ++ entries_from f (i + j) k
unfolding entries_from
entries_from-add f i zero k =
    ap (entries_from f i) (zero-add k) ∙ ap (λ p. entries_from f p k) (sym (add-zero i))
entries_from-add f i (suc j) k =
    ap (entries_from f i) (suc-add j k)
    ∙ ap (◌∷◌ (f i)) (
        entries_from-add f (suc i) j k
        ∙ ap (λ p. entries_from f (suc i) j ++ entries_from f p k) (omega arith))

put_self : (slots : ℕ → ℕ) (at v : ℕ) → put slots at v at ≡ v
put_self slots at v = ground arith

put_ne : (slots : ℕ → ℕ) (at v j : ℕ) → j < at → put slots at v j ≡ slots j
put_ne slots at v j h = ground arith

moved_below : (slots : ℕ → ℕ) (i n j : ℕ) → j < i → moved_down slots i n j ≡ slots j
moved_below slots i n j h = ground arith

moved_in : (slots : ℕ → ℕ) (i n j : ℕ) → i ≤ j → j < n → moved_down slots i n j ≡ slots (suc j)
moved_in slots i n j h l = ground arith

-- The entries and what is written behind them.
pub entries_from-put :
    (slots : ℕ → ℕ) (n v : ℕ)
    → entries_from (put slots n v) 0 (suc n) ≡ entries_from slots 0 n ++ v ∷ []
unfolding entries_from
entries_from-put slots n v =
    ap (entries_from (put slots n v) 0) (sym (add-one n))
    ∙ entries_from-add (put slots n v) 0 n 1
    ∙ ap₂ ◌++◌
        (entries_from-ext (put slots n v) slots 0 0 n
          (λ m lt. put_ne slots n v (0 + m) (omega arith)))
        (ap (λ p. put slots n v p ∷ []) (zero-add n) ∙ ap (λ x. x ∷ []) (put_self slots n v))

-- Moving an entry to the end of the memory takes it out of the entries in front of it.
pub entries_from-moved :
    (slots : ℕ → ℕ) (i n v : ℕ)
    → i ≤ n
    → entries_from (put (moved_down slots i n) n v) 0 n
      ≡ entries_from slots 0 i ++ entries_from slots (suc i) (n - i)
entries_from-moved slots i n v h =
    ap (entries_from moved 0) (omega arith)
    ∙ entries_from-add moved 0 i (n - i)
    ∙ ap₂ ◌++◌
        (entries_from-ext moved slots 0 0 i (λ m lt.
          put_ne (moved_down slots i n) n v (0 + m) (omega arith)
          ∙ moved_below slots i n (0 + m) (omega arith)))
        (entries_from-ext moved slots (0 + i) (suc i) (n - i) (λ m lt.
          put_ne (moved_down slots i n) n v (0 + i + m) (omega arith)
          ∙ moved_in slots i n (0 + i + m) (omega arith) (omega arith)
          ∙ ap slots (omega arith)))
  where
    moved : ℕ → ℕ
    moved = put (moved_down slots i n) n v

-- Appending to a diary with room puts the hash behind the entries.
pub append_room :
    (d : Diary) (e : ℕ) → d.nelts < d.n → entries (h2_push_diary_append d e) ≡ entries d ++ e ∷ []
unfolding h2_push_diary_append
append_room d e h =
    if-both (λ (x : Diary). entries x ≡ entries d ++ e ∷ []) (ltb d.nelts d.n)
      (record d { slots = put d.slots d.nelts e; nelts = suc d.nelts })
      (let m = move_to_last d 0 in record m { slots = put m.slots m.nelts e })
      (λ t. entries_from-put d.slots d.nelts e) (λ f. absurd (ground (arith, f, h)))

pub append_room-nelts :
    (d : Diary) (e : ℕ)
    → d.nelts < d.n
    → ((h2_push_diary_append d e).nelts ≡ suc d.nelts)
      × ((h2_push_diary_append d e).mask_bits ≡ d.mask_bits)
unfolding h2_push_diary_append
append_room-nelts d e h = ground arith

-- Moving an entry that is not the last takes it out of the entries: the others move down, and what
-- stood behind them becomes the last.
pub move_to_last_lem :
    (d : Diary) (i : ℕ)
    → suc i < d.nelts
    → (entries (move_to_last d i)
        ≡ entries_from d.slots 0 i ++ entries_from d.slots (suc i) (d.nelts - i))
      × ((move_to_last d i).slots d.nelts ≡ d.slots i)
unfolding move_to_last
move_to_last_lem d i h =
    if-both
      (λ (x : Diary).
        (entries x ≡ entries_from d.slots 0 i ++ entries_from d.slots (suc i) (d.nelts - i))
        × (x.slots d.nelts ≡ d.slots i))
      (ltb (suc i) d.nelts)
      (record d { slots = put (moved_down d.slots i d.nelts) d.nelts (d.slots i) }) d
      (λ t. (
        entries_from-moved d.slots i d.nelts (d.slots i) (omega arith),
        put_self (moved_down d.slots i d.nelts) d.nelts (d.slots i),
      ))
      (λ f. absurd (ground (arith, f, h)))

-- Where the entries of a diary are kept does not change with the number that it holds: moving one
-- leaves the numbers, and appending adds one while there is room.
pub move_to_last-nelts : (d : Diary) (i : ℕ) → (move_to_last d i).nelts ≡ d.nelts
unfolding move_to_last
move_to_last-nelts d i = ground arith

pub move_to_last-n : (d : Diary) (i : ℕ) → (move_to_last d i).n ≡ d.n
unfolding move_to_last
move_to_last-n d i = ground arith

pub move_to_last-above :
    (d : Diary) (i j : ℕ) → d.nelts < j → (move_to_last d i).slots j ≡ d.slots j
unfolding move_to_last
move_to_last-above d i j h = ground arith

pub append-n : (d : Diary) (e : ℕ) → (h2_push_diary_append d e).n ≡ d.n
unfolding h2_push_diary_append
append-n d e = ground (arith, move_to_last-n d 0)

pub append-nelts :
    (d : Diary) (e : ℕ)
    → d.nelts ≤ d.n
    → ((h2_push_diary_append d e).nelts ≤ d.n) × (d.nelts ≤ (h2_push_diary_append d e).nelts)
unfolding h2_push_diary_append
append-nelts d e h = ground (arith, move_to_last-nelts d 0)

pub append-above :
    (d : Diary) (e j : ℕ) → d.nelts ≤ d.n → d.n < j → (h2_push_diary_append d e).slots j ≡ d.slots j
unfolding h2_push_diary_append
append-above d e j h l =
    ground (arith, move_to_last-nelts d 0, move_to_last-above d 0 j (omega arith))
