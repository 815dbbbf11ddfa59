-- ===== src/Util/Examples.antt =====
-- The containers of mod_http2/h2_util.c on concrete queues.
use mod_h.Prelude.{if◌then◌else◌, ltb, ℕ, ◌≡◌, refl, Bool, true, false, [], ◌∷◌, arith, ◌==◌}
use mod_h.Apr.{success}
use Prim.Native.Nat.{Ordering}
use mathlib.Core.List.{Perm}
use mod_h.Util.IQueue.{IQueue, Cmp, is_lt, is_gt, iq_append, iq_sort}
use mod_h.Util.IQueue.Insertion.{is_sorted}
use mod_h.Util.IQueue.Sorting.{iq_sort_lem}
use mod_h.Util.IQueue.Grow.{Appended, iq_append_lem}
use mod_h.Util.IQueue.View
use mod_h.Ring.{window}
use mod_h.Util.Fifo.{Fifo, returned, waits, fifo_push, fifo_pull, h2_fifo_remove, push_loop}
use mod_h.Util.Fifo.View.{view, IsValid, push_list, pull_list}
use mod_h.Util.Fifo.Ops.{Pushes, Pulls, fifo_push_lem, fifo_pull_lem}
use mod_h.Util.Fifo.Remove.{remove_list, h2_fifo_remove_lem}
use mod_h.Util.Fifo.Threads.{Unique, fifo_push-Unique, set_duplicate}
use mod_h.Util.Log2.{h2_log2, h2_log2_lem}
use mod_h.Prelude.{suc, ◌^◌, ◌≤◌, ◌<◌}
use mod_h.Util.Base64.{h2_util_base64url_decode, h2_util_base64url_encode}
use mod_h.Util.Base64.RoundTrip.{decode-encode}

h2_log2_lem_example : (2 ^ h2_log2 100000 ≤ 100000) × (100000 < 2 ^ suc (h2_log2 100000))
h2_log2_lem_example = h2_log2_lem 100000 (omega arith) (omega arith)

-- A full array whose first entry stands in slot 1: 5, 3.
abbrev turned : IQueue
turned = record { elts = 3 ∷ 5 ∷ []; head = 1; nalloc = 2; nelts = 2 }

turned-IsValid : View.IsValid turned
turned-IsValid = record { sized = refl; head_in = omega arith; fits = omega arith }

iq_append_lem_example : Appended turned 7 (iq_append turned 7)
iq_append_lem_example = iq_append_lem turned 7 turned-IsValid

-- 8, 5, 2 from slot 2 on, and the order of numbers.
abbrev unsorted : IQueue
unsorted = record { elts = 2 ∷ 0 ∷ 8 ∷ 5 ∷ []; head = 2; nalloc = 4; nelts = 3 }

abbrev by_number : Cmp
by_number a b = if ltb a b then Ordering.lt else if ltb b a then Ordering.gt else Ordering.eq

by_number_turned : (a b : ℕ) → is_lt (by_number a b) ≡ is_gt (by_number b a)
by_number_turned a b = ground arith

unsorted-IsValid : View.IsValid unsorted
unsorted-IsValid = record { sized = refl; head_in = omega arith; fits = omega arith }

sorted_entries : View.view (iq_sort unsorted by_number) ≡ 2 ∷ 5 ∷ 8 ∷ []
unfolding iq_sort window
sorted_entries = refl

iq_sort_lem_example :
    (is_sorted by_number (View.view (iq_sort unsorted by_number)) ≡ true)
    × Perm (View.view (iq_sort unsorted by_number)) (View.view unsorted)
    × View.IsValid (iq_sort unsorted by_number)
iq_sort_lem_example = iq_sort_lem unsorted by_number unsorted-IsValid by_number_turned

-- A set of two slots with room for one element, and the same set full; then one slot, full.
abbrev half : Fifo ℕ
half = record {
  elems = 4 ∷ 6 ∷ [];
  nelems = 2;
  as_set = true;
  head = 1;
  count = 1;
  aborted = false;
}

abbrev full : Fifo ℕ
full = record half { count = 2 }

abbrev one_slot : Fifo ℕ
one_slot = record {
  elems = 4 ∷ [];
  nelems = 1;
  as_set = false;
  head = 0;
  count = 1;
  aborted = false;
}

abbrev eq : ℕ → ℕ → Bool
eq a b = a == b

half-IsValid : IsValid half
half-IsValid = record { sized = refl; head_in = omega arith; fits = omega arith }

full-IsValid : IsValid full
full-IsValid = record { sized = refl; head_in = omega arith; fits = omega arith }

one_slot-IsValid : IsValid one_slot
one_slot-IsValid = record { sized = refl; head_in = omega arith; fits = omega arith }

eq_symmetric : (a b : ℕ) → eq a b ≡ eq b a
eq_symmetric a b = ground arith

fifo_push_lem_example :
    Pushes 0 half (push_list eq 2 true false (6 ∷ []) 9 true) (fifo_push 0 eq success half 9 true)
unfolding window
fifo_push_lem_example = fifo_push_lem 0 eq success half 9 true half-IsValid

fifo_pull_lem_example :
    Pulls 0 full (pull_list 0 2 false (6 ∷ 4 ∷ []) false) (fifo_pull 0 success full false)
unfolding window
fifo_pull_lem_example = fifo_pull_lem 0 success full false full-IsValid

h2_fifo_remove_lem_example :
    Pushes 0 full (remove_list eq 2 (6 ∷ 4 ∷ []) 6) (h2_fifo_remove 0 eq success full 6)
unfolding window
h2_fifo_remove_lem_example = h2_fifo_remove_lem 0 eq success full 6 full-IsValid

fifo_push-Unique_example : Unique 0 eq (view 0 (fifo_push 0 eq success half 9 true).0)
unfolding window
fifo_push-Unique_example =
    fifo_push-Unique 0 eq half 9 true eq_symmetric half-IsValid refl (refl, tt)

set_duplicate_example :
    let two = (fifo_pull 0 success (fifo_pull 0 success full true).0 true).0 in
    let first = push_loop 0 eq two 9 in
    let second = push_loop 0 eq first.0 9 in
    ((fifo_push 0 eq success full 9 true).1 ≡ waits)
    × (view 0 (fifo_push 0 eq success full 9 true).0 ≡ 6 ∷ 4 ∷ [])
    × (first.1 ≡ returned success)
    × (second.1 ≡ returned success)
    × (view 0 second.0 ≡ 9 ∷ 9 ∷ [])
unfolding window
set_duplicate_example = set_duplicate 0 eq full 9 6 4 [] full-IsValid refl refl refl refl refl

decode-encode_example :
    h2_util_base64url_decode (h2_util_base64url_encode (255 ∷ 0 ∷ 17 ∷ 9 ∷ []))
    ≡ (255 ∷ 0 ∷ 17 ∷ 9 ∷ [], 4)
decode-encode_example =
    decode-encode (255 ∷ 0 ∷ 17 ∷ 9 ∷ [])
      (omega arith, (omega arith, (omega arith, (omega arith, tt))))
