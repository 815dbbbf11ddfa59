-- ===== src/Util/Fifo/View.antt =====
-- What an h2_fifo holds, and when it is well-formed: mod_http2/h2_util.c.
use mod_h.Prelude.{
  ℕ, ◌≤◌, ◌<◌, ◌≡◌, Bool, false, List, [], ◌∷◌, length, if◌then◌else◌, ◌||◌, ◌&&◌, ◌==◌, suc, ◌++◌,
}
use mod_h.Ring.{window}
use mod_h.Apr.{success, eof, eagain, eexist}
use mod_h.Util.Fifo.{
  Fifo, Outcome, returned, waits, Signal, not_empty, not_full, FifoOp, op_pull, op_repush,
}

module _ {A : Type 0} (nil : A) where
  -- The elements, the oldest first.
  abbrev pub view : Fifo A → List A
  view f = window nil f.elems f.nelems f.head f.count

module _ {A : Type 0} where
  pub record IsValid (f : Fifo A) : Type 0 where
    pub sized : length f.elems ≡ f.nelems
    pub head_in : f.head < f.nelems
    pub fits : f.count ≤ f.nelems

  module _ (same : A → A → Bool) where
    abbrev pub holds : A → List A → Bool
    holds a [] = false
    holds a (x ∷ xs) = same a x || holds a xs

    -- Without its elements that are `a`.
    abbrev pub without : A → List A → List A
    without a [] = []
    without a (x ∷ xs) = let rest = without a xs in if same x a then rest else x ∷ rest

    -- A bounded queue as a list of at most `cap` elements, the oldest first, which as a set holds
    -- each element once: what pushing does.
    unfoldable pub push_list : ℕ → Bool → Bool → List A → A → Bool → List A × Outcome × List Signal
    push_list cap as_set aborted xs a block =
        if aborted
        then (xs, returned eof, [])
        else if as_set && holds a xs
        then (xs, returned eexist, [])
        else if length xs == cap
        then (xs, if block then waits else returned eagain, [])
        else (xs ++ a ∷ [], returned success, if length xs == 0 then not_empty ∷ [] else [])

  -- What pulling does. Only a pull that leaves elements in a full queue wakes the threads that push.
  unfoldable pub pull_list : A → ℕ → Bool → List A → Bool → List A × Outcome × List Signal × A
  pull_list nil cap aborted [] block =
      ([], if block then (if aborted then returned eof else waits) else returned eagain, [], nil)
  pull_list nil cap aborted (x ∷ []) block = ([], returned success, [], x)
  pull_list nil cap aborted (x ∷ y ∷ xs) block =
      (y ∷ xs, returned success, if suc (suc (length xs)) == cap then not_full ∷ [] else [], x)

  module _ (same : A → A → Bool) where
    -- What becomes of an element that was pulled and looked at: it is gone, or pushed again.
    unfoldable pub peek_op :
        ℕ → Bool → Bool → List A → A → FifoOp → List Signal → Bool → List A × Outcome × List Signal
    unfolding push_list
    peek_op cap as_set aborted xs a op_pull sig block = (xs, returned success, sig)
    peek_op cap as_set aborted xs a op_repush sig block =
        let (ys, o, more) = push_list same cap as_set aborted xs a block in (ys, o, sig ++ more)

    -- What peeking does, behind its pull: what `fn` says of the element.
    unfoldable pub peek_list :
        ℕ
        → Bool
        → Bool
        → (A → FifoOp)
        → Bool
        → List A × Outcome × List Signal × A
        → List A × Outcome × List Signal
    unfolding peek_op
    peek_list cap as_set aborted fn block (ys, returned success, sig, a) =
        peek_op cap as_set aborted ys a (fn a) sig block
    peek_list cap as_set aborted fn block (ys, o, sig, a) = (ys, o, sig)
