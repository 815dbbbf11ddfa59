-- ===== src/Push/Diary.antt =====
-- The push diary of mod_http2/h2_push.c: hashes of resources, the last used one at the end. The
-- array of entries is the memory behind its start, `slots`, of which the first `nelts` are entries;
-- code that writes behind the last entry is modelled as it is.
use mod_h.Prelude.{
  ℕ, zero, suc, Bool, true, false, Option, none, some, List, [], ◌∷◌, if◌then◌else◌, ltb, leb, ◌==◌,
  ◌&&◌,
}
use mod_h.Apr.{Text}

-- struct h2_push_diary. The kind of digest is left out: the hash of a push is a parameter.
pub record Diary : Type 0 where
  pub slots : ℕ → ℕ
  pub nelts : ℕ
  pub n_max : ℕ
  pub n : ℕ
  pub mask_bits : ℕ
  pub authority : Option Text

-- The loop of h2_push_diary_find downwards from entry `i - 1`.
unfoldable pub find_below : (ℕ → ℕ) → ℕ → ℕ → Option ℕ
find_below slots hash zero = none
find_below slots hash (suc i) =
    let rest = find_below slots hash i in if slots i == hash then some i else rest

-- -1 is `none`.
unfoldable pub h2_push_diary_find : Diary → ℕ → Option ℕ
unfolding find_below
h2_push_diary_find d hash = find_below d.slots hash d.nelts

-- `slots[at] = v`.
abbrev pub put : (ℕ → ℕ) → ℕ → ℕ → ℕ → ℕ
put slots at v j = if j == at then v else slots j

-- memmove of `lastidx - idx` entries from `idx + 1` to `idx`.
abbrev pub moved_down : (ℕ → ℕ) → ℕ → ℕ → ℕ → ℕ
moved_down slots idx lastidx j = if leb idx j && ltb j lastidx then slots (suc j) else slots j

-- The slot `nelts` is what the result points to.
unfoldable pub move_to_last : Diary → ℕ → Diary
move_to_last d idx =
    if ltb (suc idx) d.nelts
    then record d { slots = put (moved_down d.slots idx d.nelts) d.nelts (d.slots idx) }
    else d

unfoldable pub h2_push_diary_append : Diary → ℕ → Diary
unfolding move_to_last
h2_push_diary_append d e =
    if ltb d.nelts d.n
    then record d { slots = put d.slots d.nelts e; nelts = suc d.nelts }
    else (let m = move_to_last d 0 in record m { slots = put m.slots m.nelts e })

-- What one round of h2_push_diary_update does with a hash: whether the push goes out.
unfoldable pub update_round : Diary → Option ℕ → ℕ → Diary × Bool
unfolding move_to_last h2_push_diary_append
update_round d (some idx) hash = (move_to_last d idx, false)
update_round d none hash = (h2_push_diary_append d hash, true)

module _ {P : Type 0} (dcalc : Diary → P → ℕ) where
  -- The pushes that go out. NULL and an empty list are one here: nothing is pushed.
  unfoldable pub update_all : Diary → List P → Diary × List P
  unfolding h2_push_diary_find update_round
  update_all d [] = (d, [])
  update_all d (p ∷ ps) =
      let hash = dcalc d p in
      let (d1, out) = update_round d (h2_push_diary_find d hash) hash in
      let (d2, rest) = update_all d1 ps in (d2, if out then p ∷ rest else rest)

  -- Without a diary all pushes go out.
  unfoldable pub h2_push_diary_update : Option Diary → List P → Option Diary × List P
  unfolding update_all
  h2_push_diary_update none ps = (none, ps)
  h2_push_diary_update (some d) ps = let (d', out) = update_all d ps in (some d', out)

-- The entries from slot `i` on.
unfoldable pub entries_from : (ℕ → ℕ) → ℕ → ℕ → List ℕ
entries_from slots i zero = []
entries_from slots i (suc k) = slots i ∷ entries_from slots (suc i) k

abbrev pub entries : Diary → List ℕ
entries d = entries_from d.slots 0 d.nelts
