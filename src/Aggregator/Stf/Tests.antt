-- ===== src/Aggregator/Stf/Tests.antt =====
-- A buffer with two timeframes.
use readout.Aggregator.Stf.Order.{AreMarked, IsValid, Sends, push_complete_lem}
use readout.DataBlock.{default_data_block_header}
use readout.Fifo.Bounded.{Bounded, bounded}
use readout.Aggregator.Slicer.{Block, DataSet}
use readout.Aggregator.Stf.{Sstf, StfBuffer, push_complete}
use readout.Aggregator.Stf.Losses.{push_complete-overflow}
use readout.Prelude.{List, [], arith, false, length, refl, take, true, ℕ, ◌∷◌, ◌≡◌}

abbrev block : ℕ → Block
block tf = record {
  header = record default_data_block_header { equipment_id = 1; link_id = 2; timeframe_id = tf };
  data_ptr = 4096;
}

abbrev slice : ℕ → Sstf
slice tf = record { source_id = 9; data_set = block tf ∷ block tf ∷ []; update_time = 100 }

abbrev two_timeframes : StfBuffer
two_timeframes = record {
  stf_buffer =
      (4, record { tf_id = 4; sstf = slice 4 ∷ slice 4 ∷ []; update_time = 100 })
      ∷ (6, record { tf_id = 6; sstf = slice 6 ∷ []; update_time = 900 })
      ∷ [];
  last_timeframe_id = 3;
  n_sources = 2;
}

two_timeframes-IsValid : IsValid two_timeframes
two_timeframes-IsValid = (omega arith, refl, (omega arith, refl, tt))

abbrev output_of : ℕ → Bounded DataSet
output_of cap = record { items = []; cap = cap }

-- At time 1000, with a timeout of 500, only timeframe 4 is ready.
push_complete_example :
    (let (s', q') = push_complete (bounded DataSet) 1000 500 false two_timeframes (output_of 8) in
      (r : Sends (bounded DataSet) 1000 500 false two_timeframes.stf_buffer 3 (output_of 8) s' q')
      × (ds : List DataSet) × AreMarked r.sent ds
      × (q'.items ≡ ds))
push_complete_example =
    push_complete_lem (bounded DataSet) 1000 500 false two_timeframes (output_of 8)
      two_timeframes-IsValid (omega arith)

push_complete-overflow_example :
    (let (s', q') = push_complete (bounded DataSet) 1000 500 true two_timeframes (output_of 2) in
      (s'.stf_buffer ≡ [])
      × (length q'.items ≡ 2)
      × (ds : List DataSet) × AreMarked two_timeframes.stf_buffer ds
      × (q'.items ≡ take 2 ds))
push_complete-overflow_example =
    push_complete-overflow (bounded DataSet) 1000 500 two_timeframes (output_of 2) (omega arith)
      (omega arith)
