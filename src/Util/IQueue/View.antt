-- ===== src/Util/IQueue/View.antt =====
-- The queue as the list of its entries, first one first, and what is kept between two calls.
use mod_h.Prelude.{ℕ, ◌≤◌, ◌<◌, ◌≡◌, List, length}
use mod_h.Ring.{window}
use mod_h.Util.IQueue.{IQueue}

abbrev pub view : IQueue → List ℕ
view q = window 0 q.elts q.nalloc q.head q.nelts

pub record IsValid (q : IQueue) : Type 0 where
  pub sized : length q.elts ≡ q.nalloc
  pub head_in : q.head < q.nalloc
  pub fits : q.nelts ≤ q.nalloc
