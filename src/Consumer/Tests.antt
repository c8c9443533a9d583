-- ===== src/Consumer/Tests.antt =====
-- Three blocks for a consumer of link 4 that takes one block.
use readout.Consumer.Counts.{accepted, push_data_lem, push_each, refused}
use readout.Prelude.{Bool, [], if◌then◌else◌, length, ltb, true, ℕ, ◌+◌, ◌-◌, ◌↔◌, ◌∷◌, ◌≡◌}
use readout.Prelude.Int.{neg_ℕ, pos}
use readout.DataBlock.{default_data_block_header}
use readout.Consumer.{Filter, is_data_block_filter_ok, make_filter, no_totals, push_data}
use readout.Consumer.Filtering.{Accepts, is_data_block_filter_ok_iff}
use readout.Aggregator.Slicer.{Block, DataSet}

abbrev block_of : ℕ → Block
block_of link = record {
  header = record default_data_block_header { link_id = link; equipment_id = 2 };
  data_ptr = 64;
}

abbrev link_four : Filter
link_four = make_filter (pos 4 ∷ []) [] [] []

abbrev three_blocks : DataSet
three_blocks = block_of 4 ∷ block_of 5 ∷ block_of 4 ∷ []

-- The state is the number of blocks that it can still take.
abbrev take_one : ℕ → Block → Bool × ℕ
take_one n b = (ltb 0 n, n - 1)

push_data_example :
    let (failed, s') = push_each take_one (accepted link_four three_blocks) 1 in
    push_data take_one link_four three_blocks no_totals 1 ≡ (
      if ltb 0 failed then neg_ℕ failed else pos (length (accepted link_four three_blocks)),
      record {
        total_push_success = 0 + (if ltb 0 failed then 0 else 1);
        total_push_error = 0 + (if ltb 0 failed then 1 else 0);
        total_blocks_filtered = 0 + refused link_four three_blocks;
        total_blocks_unfiltered = 0 + length (accepted link_four three_blocks);
      },
      s',
    )
push_data_example = push_data_lem take_one link_four three_blocks no_totals 1

is_data_block_filter_ok_example :
    (is_data_block_filter_ok link_four (block_of 4) ≡ true)
    ↔ (Accepts (pos 4 ∷ []) [] (pos 4) × Accepts [] [] (pos 2))
is_data_block_filter_ok_example = is_data_block_filter_ok_iff (pos 4 ∷ []) [] [] [] (block_of 4)
