-- ===== src/Aggregator/Stf/Marks.antt =====
-- The mark at the end of a timeframe.
use readout.Prelude.{
  All, List, [], ap, append-nil, arith, length, length-append, refl, sym, ◌++◌, ◌∙◌, ◌∷◌, ◌≡◌, ◌≤◌,
}
use readout.Aggregator.Slicer.{Block}
use readout.Aggregator.Slicer.Streams.{concat}
use readout.Aggregator.Stf.{Sstf, mark_last, sent_slices}

mark_last-append : (xs ys : List Block) → 1 ≤ length ys → mark_last (xs ++ ys) ≡ xs ++ mark_last ys
unfolding mark_last
mark_last-append [] ys h = refl
mark_last-append (x ∷ []) [] h = absurd (omega arith)
mark_last-append (x ∷ []) (y ∷ ys) h = refl
mark_last-append (x ∷ z ∷ xs) ys h = ap (λ t. x ∷ t) (mark_last-append (z ∷ xs) ys h)

abbrev pub all_blocks : List Sstf → List Block
all_blocks [] = []
all_blocks (ss ∷ sss) = ss.data_set ++ all_blocks sss

filled : (ss : Sstf) (sss : List Sstf) → 1 ≤ length ss.data_set → 1 ≤ length (all_blocks (ss ∷ sss))
filled ss sss h = omega (arith, length-append ss.data_set (all_blocks sss))

-- A timeframe that is sent has the blocks of its slices in order, where only the last block of all
-- is changed: it is marked as the end of the timeframe.
pub sent_slices_lem :
    (sss : List Sstf)
    → All (λ ss. 1 ≤ length ss.data_set) sss
    → concat (sent_slices sss) ≡ mark_last (all_blocks sss)
unfolding sent_slices mark_last
sent_slices_lem [] h = refl
sent_slices_lem (ss ∷ []) h =
    append-nil (mark_last ss.data_set) ∙ ap mark_last (sym (append-nil ss.data_set))
sent_slices_lem (ss ∷ ss' ∷ sss) (h, k) =
    ap (λ t. ss.data_set ++ t) (sent_slices_lem (ss' ∷ sss) k)
    ∙ sym (mark_last-append ss.data_set (all_blocks (ss' ∷ sss)) (filled ss' sss k.0))
