-- ===== src/Mplx/Redo.antt =====
-- What stays of a stream that was to be started again and is cleaned up: mod_http2/h2_mplx.c.
use mod_h.Prelude.{
  ℕ, ◌≡◌, refl, sym, ◌∙◌, true, false, none, some, List, [], ◌∷◌, ◌==◌, if-both, remove_first,
}
use mod_h.Util.IQueue.{iq_remove}
use mod_h.Mplx.{
  Entry, Mplx, lookup, without, put_entry, not_done, stream_joined, stream_cleanup, purge_streams,
}
use mod_h.Mplx.Run.{Unless}
use mod_h.Mplx.Cases.{cleanup_cases}

pub lookup-without : (id : ℕ) (es : List Entry) → lookup id (without id es) ≡ none
unfolding lookup without
lookup-without id [] = refl
lookup-without id (e ∷ es) =
    if-both (λ xs. lookup id xs ≡ none) (e.id == id) (without id es) (e ∷ without id es)
      (λ t. lookup-without id es)
      (λ f.
        if-both (λ o. o ≡ none) (e.id == id) (some e) (lookup id (without id es))
          (λ t. absurd (clash (sym t ∙ f))) (λ g. lookup-without id es))
  where
    clash : true ≡ false → ⊥
    clash q = cc

-- A stream that is cleaned up is not among the streams any more, and the set of those to be started
-- again is as it was, with the stream when it held it; destroying the streams of the purge set
-- leaves that set, too. Unless an assertion fails.
pub cleanup_redo_left :
    (m : Mplx) (e : Entry)
    → Unless
        (λ x. (lookup e.id x.streams ≡ none) × ((purge_streams x).sredo ≡ m.sredo))
        (stream_cleanup m e)
unfolding stream_joined purge_streams
cleanup_redo_left m e =
    cleanup_cases (λ x. (lookup e.id x.streams ≡ none) × ((purge_streams x).sredo ≡ m.sredo)) m e
      (λ t. (lookup-without e.id m.streams, refl))
      (if-both (Unless (λ x. (lookup e.id x.streams ≡ none) × ((purge_streams x).sredo ≡ m.sredo)))
        (not_done e.task) none
        (some (record m {
          streams = without e.id m.streams;
          q = (iq_remove m.q e.id).0;
          readyq = remove_first e.id m.readyq;
          shold = without e.id (put_entry e m.shold);
          spurge = put_entry e m.spurge;
        }))
        (λ t. tt) (λ f. (lookup-without e.id m.streams, refl)))
