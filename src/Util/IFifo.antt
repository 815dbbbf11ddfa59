-- ===== src/Util/IFifo.antt =====
-- h2_ififo of mod_http2/h2_util.c: a bounded queue of integers. Its functions have the text of those of
-- h2_fifo, with `int` for the elements and 0 for what apr_pcalloc fills in; each is that function
-- of Fifo at the integers.
use mod_h.Prelude.{ℕ, Bool, false, Option, List, ◌==◌}
use mod_h.Prelude.Int.{ℤ, pos, negsuc}
use mod_h.Apr.{Status}
use mod_h.Util.Fifo.{
  Fifo, Outcome, Signal, FifoOp, Resources, nth_index, index_of, create_int, h2_fifo_create,
  h2_fifo_set_create, h2_fifo_term, h2_fifo_interrupt, h2_fifo_count, check_not_empty,
  fifo_push_int, fifo_push, h2_fifo_push, h2_fifo_try_push, pull_head, fifo_pull, h2_fifo_pull,
  h2_fifo_try_pull, fifo_peek, h2_fifo_peek, h2_fifo_try_peek, h2_fifo_remove,
}

-- struct h2_ififo.
abbrev pub IFifo : Type 0
IFifo = Fifo ℤ

abbrev nil : ℤ
nil = pos 0

abbrev pub same : ℤ → ℤ → Bool
same (pos a) (pos b) = a == b
same (negsuc a) (negsuc b) = a == b
same _ _ = false

unfoldable pub inth_index : IFifo → ℕ → ℕ
unfolding nth_index
inth_index = nth_index

unfoldable pub iindex_of : IFifo → ℤ → Option ℕ
unfolding index_of
iindex_of = index_of nil same

unfoldable pub icreate_int : Resources → ℕ → Bool → Option IFifo × Status
unfolding create_int
icreate_int = create_int nil

unfoldable pub h2_ififo_create : Resources → ℕ → Option IFifo × Status
unfolding h2_fifo_create
h2_ififo_create = h2_fifo_create nil

unfoldable pub h2_ififo_set_create : Resources → ℕ → Option IFifo × Status
unfolding h2_fifo_set_create
h2_ififo_set_create = h2_fifo_set_create nil

unfoldable pub h2_ififo_term : Status → IFifo → IFifo × Status
unfolding h2_fifo_term
h2_ififo_term = h2_fifo_term

unfoldable pub h2_ififo_interrupt : Status → IFifo → List Signal × Status
unfolding h2_fifo_interrupt
h2_ififo_interrupt = h2_fifo_interrupt

unfoldable pub h2_ififo_count : IFifo → ℕ
unfolding h2_fifo_count
h2_ififo_count = h2_fifo_count

unfoldable pub icheck_not_empty : IFifo → Bool → Outcome
unfolding check_not_empty
icheck_not_empty = check_not_empty

unfoldable pub ififo_push_int : IFifo → ℤ → Bool → IFifo × Outcome × List Signal
unfolding fifo_push_int
ififo_push_int = fifo_push_int nil same

unfoldable pub ififo_push : Status → IFifo → ℤ → Bool → IFifo × Outcome × List Signal
unfolding fifo_push
ififo_push = fifo_push nil same

unfoldable pub h2_ififo_push : Status → IFifo → ℤ → IFifo × Outcome × List Signal
unfolding h2_fifo_push
h2_ififo_push = h2_fifo_push nil same

unfoldable pub h2_ififo_try_push : Status → IFifo → ℤ → IFifo × Outcome × List Signal
unfolding h2_fifo_try_push
h2_ififo_try_push = h2_fifo_try_push nil same

unfoldable pub ipull_head : IFifo → Bool → IFifo × Outcome × List Signal × ℤ
unfolding pull_head
ipull_head = pull_head nil

unfoldable pub ififo_pull : Status → IFifo → Bool → IFifo × Outcome × List Signal × ℤ
unfolding fifo_pull
ififo_pull = fifo_pull nil

unfoldable pub h2_ififo_pull : Status → IFifo → IFifo × Outcome × List Signal × ℤ
unfolding h2_fifo_pull
h2_ififo_pull = h2_fifo_pull nil

unfoldable pub h2_ififo_try_pull : Status → IFifo → IFifo × Outcome × List Signal × ℤ
unfolding h2_fifo_try_pull
h2_ififo_try_pull = h2_fifo_try_pull nil

unfoldable pub ififo_peek : Status → IFifo → (ℤ → FifoOp) → Bool → IFifo × Outcome × List Signal
unfolding fifo_peek
ififo_peek = fifo_peek nil same

unfoldable pub h2_ififo_peek : Status → IFifo → (ℤ → FifoOp) → IFifo × Outcome × List Signal
unfolding h2_fifo_peek
h2_ififo_peek = h2_fifo_peek nil same

unfoldable pub h2_ififo_try_peek : Status → IFifo → (ℤ → FifoOp) → IFifo × Outcome × List Signal
unfolding h2_fifo_try_peek
h2_ififo_try_peek = h2_fifo_try_peek nil same

unfoldable pub h2_ififo_remove : Status → IFifo → ℤ → IFifo × Outcome × List Signal
unfolding h2_fifo_remove
h2_ififo_remove = h2_fifo_remove nil same
