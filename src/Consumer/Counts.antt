-- ===== src/Consumer/Counts.antt =====
-- What the push of a data set counts.

use readout.Prelude.Int.{neg_ℕ, pos}
use readout.Prelude.{
  Bool, Bool-cases, [], arith, if◌then◌else◌, inl, inr, length, ltb, not, suc, ℕ, ◌&&◌, ◌+◌, ◌-◌,
  ◌==◌, ◌∙◌, ◌∷◌, ◌≡◌, ◌≤◌,
}
use readout.Aggregator.Slicer.{Block, DataSet}
use readout.Consumer.{Filter, Totals, is_data_block_filter_ok, push_blocks, push_data}

-- The blocks that have data and pass the filter, and the number of those that have data and do not.
abbrev pub accepted : Filter → DataSet → DataSet
accepted f [] = []
accepted f (b ∷ bs) =
    if not (b.data_ptr == 0) && is_data_block_filter_ok f b
    then b ∷ accepted f bs
    else accepted f bs

abbrev pub refused : Filter → DataSet → ℕ
refused f [] = 0
refused f (b ∷ bs) =
    (if not (b.data_ptr == 0) && not (is_data_block_filter_ok f b) then 1 else 0) + refused f bs

module _ {S : Type 0} (push : S → Block → Bool × S) where
  -- The consumer's state after it is given some blocks, and how many of them it did not take.
  abbrev pub push_each : DataSet → S → ℕ × S
  push_each [] s = (0, s)
  push_each (b ∷ bs) s =
      let (done, s') = push s b in
      let (failed, s'') = push_each bs s' in ((if done then 0 else 1) + failed, s'')

  push_each-le : (bs : DataSet) (s : S) → (push_each bs s).0 ≤ length bs
  push_each-le [] s = omega arith
  push_each-le (b ∷ bs) s = ground (arith, push_each-le bs (push s b).1)

  -- The loop.
  push_blocks_lem :
      (f : Filter) (bs : DataSet) (success error : ℕ) (t : Totals) (s : S)
      → (let (failed, s') = push_each (accepted f bs) s in
          push_blocks push f bs success error t s ≡ (
            success + (length (accepted f bs) - failed),
            error + failed,
            record t {
              total_blocks_filtered = t.total_blocks_filtered + refused f bs;
              total_blocks_unfiltered = t.total_blocks_unfiltered + length (accepted f bs);
            },
            s',
          ))
  unfolding push_blocks
  push_blocks_lem f [] success error t s = ground arith
  push_blocks_lem f (b ∷ bs) success error t s =
      let k = push_each-le (accepted f bs) s in
      let k' = push_each-le (accepted f bs) (push s b).1 in
      elim (Bool-cases (b.data_ptr == 0)) [
        | inl e ↦ rw (push_blocks, e) (push_blocks_lem f bs success error t s ∙ ground arith)
        | inr e ↦ elim (Bool-cases (is_data_block_filter_ok f b)) [
          | inr g ↦
              rw (push_blocks, e, g)
                (push_blocks_lem f bs success error
                    (record t { total_blocks_filtered = suc t.total_blocks_filtered }) s
                  ∙ ground arith)
          | inl g ↦ elim (Bool-cases (push s b).0) [
            | inl h ↦
                rw (push_blocks, e, g, h)
                  (push_blocks_lem f bs (suc success) error
                      (record t { total_blocks_unfiltered = suc t.total_blocks_unfiltered })
                      (push s b).1
                    ∙ ground arith)
            | inr h ↦
                rw (push_blocks, e, g, h)
                  (push_blocks_lem f bs success (suc error)
                      (record t { total_blocks_unfiltered = suc t.total_blocks_unfiltered })
                      (push s b).1
                    ∙ ground arith)
          ]
        ]
      ]

  -- `push_data` gives the consumer the blocks that have data and pass the filter, in their order,
  -- and no other block. The result is the number of them when all were taken, and else minus the
  -- number that were not; in the totals, one push is added to the successes or to the errors, and
  -- each block with data to those filtered or to those not filtered.
  pub push_data_lem :
      (f : Filter) (bs : DataSet) (t : Totals) (s : S)
      → (let (failed, s') = push_each (accepted f bs) s in
          push_data push f bs t s ≡ (
            if ltb 0 failed then neg_ℕ failed else pos (length (accepted f bs)),
            record {
              total_push_success = t.total_push_success + (if ltb 0 failed then 0 else 1);
              total_push_error = t.total_push_error + (if ltb 0 failed then 1 else 0);
              total_blocks_filtered = t.total_blocks_filtered + refused f bs;
              total_blocks_unfiltered = t.total_blocks_unfiltered + length (accepted f bs);
            },
            s',
          ))
  unfolding push_data
  push_data_lem f bs t s =
      rw (push_blocks_lem f bs 0 0 t s) elim (Bool-cases (ltb 0 (push_each (accepted f bs) s).0)) [
        | inl e ↦ rw (e) ground arith
        | inr e ↦ rw (e) ground arith
      ]
