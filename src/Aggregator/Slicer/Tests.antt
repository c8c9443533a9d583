-- ===== src/Aggregator/Slicer/Tests.antt =====
-- A slicer that gets blocks of one source.
use readout.DataBlock.{default_data_block_header}
use readout.Aggregator.Slicer.{
  Block, DataBlockSlicer, DataSourceId, append_block, complete_slice_on_timeout, find_entry,
  get_slice, is_link_ok, source_of,
}
use readout.Aggregator.Slicer.Map.{Apart}
use readout.Aggregator.Slicer.Streams.{IsValid, stream}
use readout.Aggregator.Slicer.Append.{append_block_lem}
use readout.Aggregator.Slicer.Timeout.{
  Chosen, IsRecent, Taken, complete_slice_on_timeout_lem, count_old, get_slice_lem,
}
use readout.Prelude.Int.{negsuc, pos, ◌≤ℤ◌}
use readout.Prelude.{All, [], arith, false, inl, inr, length, true, ℕ, ◌++◌, ◌+◌, ◌∷◌, ◌≡◌, ◌⊎◌}

abbrev idle_slicer : DataBlockSlicer
idle_slicer = record { slicer_id = pos 0; partial_slices = []; slices = [] }

abbrev block : ℕ → Block
block tf = record {
  header = record default_data_block_header { equipment_id = 1; link_id = 2; timeframe_id = tf };
  data_ptr = 4096;
}

idle-IsValid : IsValid idle_slicer
unfolding find_entry
idle-IsValid = record { sorted = tt; partials = λ k d e. absurd (ground arith); complete = tt }

append_block_example :
    (let (n, s') = append_block (block 7) 100 idle_slicer in
      ((is_link_ok 2 ≡ true)
        × (pos 1 ≤ℤ n)
        × IsValid s'
        × (stream (source_of (block 7)) s'
            ≡ stream (source_of (block 7)) idle_slicer ++ block 7 ∷ [])
        × ((i : DataSourceId) → Apart i (source_of (block 7)) → stream i s' ≡ stream i idle_slicer))
      ⊎ ((is_link_ok 2 ≡ false) × (n ≡ negsuc 0) × (s' ≡ idle_slicer)))
append_block_example = append_block_lem (block 7) 100 idle_slicer idle-IsValid

-- The slicer with one block of timeframe 7, since time 100.
abbrev one_block : DataBlockSlicer
one_block = (append_block (block 7) 100 idle_slicer).1

one_block-IsValid : IsValid one_block
one_block-IsValid = elim (append_block_lem (block 7) 100 idle_slicer idle-IsValid) [
  | inl (ok, n, v, s, o) ↦ v
  | inr (bad, n, e) ↦ absurd (ground arith)
]

get_slice_example :
    Taken one_block (get_slice true one_block).0 (get_slice true one_block).1
    × Chosen true one_block (get_slice true one_block).0 (get_slice true one_block).1
get_slice_example = get_slice_lem true one_block one_block-IsValid

complete_slice_on_timeout_example :
    (let (n, s') = complete_slice_on_timeout (pos 150) one_block in
      IsValid s'
      × ((k : DataSourceId) → stream k s' ≡ stream k one_block)
      × (length s'.slices ≡ length one_block.slices + n)
      × (n ≡ count_old (pos 150) one_block.partial_slices)
      × All (IsRecent (pos 150)) s'.partial_slices)
complete_slice_on_timeout_example =
    complete_slice_on_timeout_lem (pos 150) one_block one_block-IsValid
