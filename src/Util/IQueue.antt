-- ===== src/Util/IQueue.antt =====
-- h2_iqueue of mod_http2/h2_util.c: a queue of stream ids in a circular array that grows, kept in
-- order of a comparison. An id is a C int that is not negative. The comparison's sign is all that is
-- read, so it is an `Ordering`; a NULL comparison is `none`. The array's size is `nalloc`.
pub mod View
pub mod Ops
pub mod Grow
pub mod Insertion
pub mod Slots
pub mod Bubbles
pub mod Settling
pub mod Sorting
use Prim.Native.Nat.{Ordering}
use mod_h.Prelude.{
  ℕ, zero, suc, ◌+◌, ◌-◌, ◌*◌, ◌%◌, ◌≡◌, refl, Bool, true, false, Option, none, some, List, [], ◌∷◌,
  if◌then◌else◌, ltb, leb, ◌==◌, get_or, set, replicate, not, ◌&&◌,
}

pub record IQueue : Type 0 where
  pub elts : List ℕ
  pub head : ℕ
  pub nalloc : ℕ
  pub nelts : ℕ

abbrev pub Cmp : Type 0
Cmp = ℕ → ℕ → Ordering

abbrev pub is_lt : Ordering → Bool
is_lt Ordering.lt = true
is_lt Ordering.eq = false
is_lt Ordering.gt = false

abbrev pub is_gt : Ordering → Bool
is_gt Ordering.lt = false
is_gt Ordering.eq = false
is_gt Ordering.gt = true

-- `nq[at + i] = src[from + i]` for `i < n`: the memmove calls of iq_grow.
unfoldable pub copy : List ℕ → ℕ → List ℕ → ℕ → ℕ → List ℕ
copy dst to src from zero = dst
copy dst to src from (suc n) = copy (set dst to (get_or src from 0)) (suc to) src (suc from) n

-- The two memmove calls of iq_grow into a new array of `nlen` zeros. The first moves `l` entries
-- from the head on, the second what is left from slot 0 on.
unfoldable pub moved : IQueue → ℕ → ℕ → List ℕ
unfolding copy
moved q nlen l =
    if ltb 0 q.nelts
    then if ltb l q.nelts
      then copy (copy (replicate nlen 0) 0 q.elts q.head l) l q.elts 0 (q.nelts - l)
      else copy (replicate nlen 0) 0 q.elts q.head l
    else replicate nlen 0

-- `l` is negative in C when the entries wrap round in an array that is not full, where memmove would
-- be undefined; iq_grow is called with no entries or a full array only.
unfoldable pub iq_grow : IQueue → ℕ → IQueue
unfolding moved
iq_grow q nlen =
    if ltb q.nalloc nlen
    then record {
      elts = moved q nlen ((q.head + q.nelts) % q.nalloc - q.head);
      head = 0;
      nalloc = nlen;
      nelts = q.nelts;
    }
    else q

unfoldable pub iq_create : ℕ → IQueue
unfolding iq_grow
iq_create capacity =
    record (iq_grow (record { elts = []; head = 0; nalloc = 0; nelts = 0 }) capacity) { nelts = 0 }

unfoldable pub iq_empty : IQueue → Bool
iq_empty q = q.nelts == 0

unfoldable pub iq_count : IQueue → ℕ
iq_count q = q.nelts

-- The loops over `i` of h2_iq_contains and h2_iq_remove: the first `i` that holds the id.
unfoldable pub scan : ℕ → List ℕ → ℕ → ℕ → ℕ → ℕ → Option ℕ
scan sid e n head i zero = none
scan sid e n head i (suc k) =
    let rest = scan sid e n head (suc i) k in
    if sid == get_or e ((head + i) % n) 0 then some i else rest

abbrev pub found : Option ℕ → Bool
found none = false
found (some i) = true

unfoldable pub iq_contains : IQueue → ℕ → Bool
unfolding scan
iq_contains q sid = found (scan sid q.elts q.nalloc q.head 0 q.nelts)

unfoldable pub iq_swap : List ℕ → ℕ → ℕ → List ℕ
iq_swap e i j = set (set e i (get_or e j 0)) j (get_or e i 0)

-- `fuel` bounds the rounds; the array's size is enough, since `i` walks towards `top`.
unfoldable pub iq_bubble_up : Cmp → ℕ → ℕ → List ℕ → ℕ → ℕ → List ℕ × ℕ
unfolding iq_swap
iq_bubble_up cmp n zero e i top = (e, i)
iq_bubble_up cmp n (suc fuel) e i top =
    let prev = (n + i - 1) % n in
    let rest = iq_bubble_up cmp n fuel (iq_swap e prev i) prev top in
    if not (i == top) && is_lt (cmp (get_or e i 0) (get_or e prev 0)) then rest else (e, i)

unfoldable pub iq_bubble_down : Cmp → ℕ → ℕ → List ℕ → ℕ → ℕ → List ℕ × ℕ
unfolding iq_swap
iq_bubble_down cmp n zero e i bottom = (e, i)
iq_bubble_down cmp n (suc fuel) e i bottom =
    let next = (n + i + 1) % n in
    let rest = iq_bubble_down cmp n fuel (iq_swap e next i) next bottom in
    if not (i == bottom) && is_gt (cmp (get_or e i 0) (get_or e next 0)) then rest else (e, i)

-- The body of h2_iq_add behind the growth.
unfoldable pub enter : IQueue → ℕ → Option Cmp → IQueue
unfolding iq_bubble_up
enter q sid cmp = elim cmp [
  | none ↦ stored
  | some c ↦ record stored { elts = (iq_bubble_up c q.nalloc q.nalloc stored.elts i q.head).0 }
]
  where
    i : ℕ
    i = (q.head + q.nelts) % q.nalloc

    stored : IQueue
    stored = record q { elts = set q.elts i sid; nelts = suc q.nelts }

unfoldable pub iq_add : IQueue → ℕ → Option Cmp → IQueue × Bool
iq_add q sid cmp =
    if iq_contains q sid
    then (q, false)
    else (enter (if leb q.nalloc q.nelts then iq_grow q (q.nalloc * 2) else q) sid cmp, true)

unfoldable pub iq_append : IQueue → ℕ → IQueue × Bool
unfolding iq_add
iq_append q sid = iq_add q sid none

-- The second loop of h2_iq_remove: `r` entries behind position `p` move down by one.
unfoldable pub move_down : ℕ → List ℕ → ℕ → ℕ → List ℕ
move_down n e p zero = e
move_down n e p (suc r) = move_down n (set e (p % n) (get_or e (suc p % n) 0)) (suc p) r

abbrev pub remove_at : IQueue → Option ℕ → IQueue × Bool
remove_at q none = (q, false)
remove_at q (some i) = (
  record q { elts = move_down q.nalloc q.elts (q.head + i) (q.nelts - suc i); nelts = q.nelts - 1 },
  true,
)

unfoldable pub iq_remove : IQueue → ℕ → IQueue × Bool
unfolding scan move_down
iq_remove q sid = remove_at q (scan sid q.elts q.nalloc q.head 0 q.nelts)

unfoldable pub iq_clear : IQueue → IQueue
iq_clear q = record q { nelts = 0 }

-- The body of the loop of h2_iq_sort: the entry in front of `i` goes to its place behind.
unfoldable pub settle : Cmp → ℕ → ℕ → List ℕ → ℕ → List ℕ
unfolding iq_bubble_up iq_bubble_down
settle cmp n last e i =
    let prev = (n + i - 1) % n in
    let (up, ni) = iq_bubble_up cmp n n e i prev in
    if ni == prev then (iq_bubble_down cmp n n up i last).0 else up

-- The loop of h2_iq_sort. `fuel` bounds the rounds; the number of entries is enough.
unfoldable pub sort_from : Cmp → ℕ → ℕ → ℕ → ℕ → List ℕ → ℕ → List ℕ
unfolding settle
sort_from cmp n head last zero e i = e
sort_from cmp n head last (suc fuel) e i =
    let rest = sort_from cmp n head last fuel (settle cmp n last e i) ((n + i - 1) % n) in
    if i == head then e else rest

unfoldable pub iq_sort : IQueue → Cmp → IQueue
unfolding sort_from
iq_sort q cmp =
    if ltb 0 q.nelts
    then record q { elts = sort_from cmp q.nalloc q.head last q.nelts q.elts last }
    else q
  where
    last : ℕ
    last = (q.head + q.nelts - 1) % q.nalloc

-- 0 stands for "no entry".
unfoldable pub iq_shift : IQueue → IQueue × ℕ
iq_shift q =
    if q.nelts == 0
    then (q, 0)
    else (record q { head = suc q.head % q.nalloc; nelts = q.nelts - 1 }, get_or q.elts q.head 0)

-- h2_iq_mshift: the ids written to `pint` before the one that is 0.
unfoldable pub iq_mshift : IQueue → ℕ → IQueue × List ℕ
unfolding iq_shift
iq_mshift q zero = (q, [])
iq_mshift q (suc max) =
    let (q', sid) = iq_shift q in
    let (q'', sids) = iq_mshift q' max in if sid == 0 then (q', []) else (q'', sid ∷ sids)
